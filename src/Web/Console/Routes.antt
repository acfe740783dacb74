-- ===== src/Web/Console/Routes.antt =====
-- The routes of the console that a request can change anything by (`Register` in
-- internal/web/web.go).
pub mod Authorised
pub mod Serving
pub mod Acting
pub mod Logged
mod Tests
use cairn_mdm.Prelude.{Bool, true, false, if◌then◌else◌}
use cairn_mdm.Sql.{Sql}
use cairn_mdm.Auth.Role.{Role, role_admin, role_operator}
use cairn_mdm.Web.Console.{World, Request, Response, App, Moment}
use cairn_mdm.Web.Console.Access.{Handler, require_role}
use cairn_mdm.Web.Console.Audited.{audited}
use cairn_mdm.Web.Console.Login.{handle_login_form, handle_login, handle_logout}
use cairn_mdm.Web.Console.Oidc.{handle_oidc_login, handle_oidc_callback}
use cairn_mdm.Web.Console.Devices.{
  handle_device_refresh, handle_device_install, handle_device_remove,
}
use cairn_mdm.Web.Console.Builders.{handle_builder_wifi, handle_builder_sso}
use cairn_mdm.Web.Console.Profiles.{handle_profile_upload, handle_profile_delete}
use cairn_mdm.Web.Console.Groups.{
  handle_group_create, handle_group_delete, handle_group_device_change, handle_group_profile_change,
}
use cairn_mdm.Web.Console.Enrollment.{handle_grant_create, handle_grant_revoke}

pub data Route : Type 0 where
  get_login post_login post_logout get_oidc_login get_oidc_callback : Route
  post_device_refresh post_device_install post_device_remove : Route
  post_profile_upload post_profile_delete post_builder_wifi post_builder_sso : Route
  post_grant_create post_grant_revoke : Route
  post_group_create post_group_delete post_group_devices post_group_profiles : Route

-- the routes that `Register` wraps with `audited`
abbrev pub is_audited : Route → Bool
is_audited get_login = false
is_audited get_oidc_login = false
is_audited get_oidc_callback = false
is_audited _ = true

module _ {U Q Ip Network : Type 0} (a : App U Q Ip Network) (m : Moment) where
  abbrev operator : Handler U Q → Request → Sql (World U Q) Response
  operator h = require_role a m role_operator h

  abbrev admin : Handler U Q → Request → Sql (World U Q) Response
  admin h = require_role a m role_admin h

  -- the handler of a route, below `audited`
  unfoldable pub mounted : Route → Request → Sql (World U Q) Response
  mounted get_login = handle_login_form a m
  mounted post_login = handle_login a m
  mounted post_logout = handle_logout a m
  mounted get_oidc_login = handle_oidc_login a m
  mounted get_oidc_callback = handle_oidc_callback a m
  mounted post_device_refresh = operator (handle_device_refresh a m)
  mounted post_device_install = operator (handle_device_install a m)
  mounted post_device_remove = operator (handle_device_remove a m)
  mounted post_profile_upload = admin (handle_profile_upload a m)
  mounted post_profile_delete = admin (handle_profile_delete a m)
  mounted post_builder_wifi = admin (handle_builder_wifi a m)
  mounted post_builder_sso = admin (handle_builder_sso a m)
  mounted post_grant_create = operator (handle_grant_create a m)
  mounted post_grant_revoke = operator (handle_grant_revoke a m)
  mounted post_group_create = admin (handle_group_create a m)
  mounted post_group_delete = admin (handle_group_delete a m)
  mounted post_group_devices = admin (handle_group_device_change a m)
  mounted post_group_profiles = admin (handle_group_profile_change a m)

  -- `Register`
  unfoldable pub serve : Route → Request → Sql (World U Q) Response
  unfolding mounted
  serve route r = if is_audited route then audited a m (mounted route) r else mounted route r
