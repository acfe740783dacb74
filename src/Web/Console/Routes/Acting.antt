-- ===== src/Web/Console/Routes/Acting.antt =====
-- What the handlers of the routes keep of the audit log, and that they answer.
use cairn_mdm.Prelude.{ℕ, Option, none, some, String, Bool, true, false, List}
use cairn_mdm.Prelude.Int.{ℤ}
use cairn_mdm.Sql.{Sql, Result, ok, err}
use cairn_mdm.Sql.Keeps.{Serves}
use cairn_mdm.Storage.Audit.{AuditEntry}
use cairn_mdm.Storage.Fleet.{Profile, Group}
use cairn_mdm.Profile.{Checked, valid, invalid}
use cairn_mdm.Profile.Parse.{Info}
use cairn_mdm.Web.Console.{World, Request, Response, App, Moment, Task, local, Location}
use cairn_mdm.Web.Console.Login.{handle_login_form, handle_logout}
use cairn_mdm.Web.Console.Oidc.{handle_oidc_login, handle_oidc_callback}
use cairn_mdm.Web.Console.Devices.{
  handle_device_refresh, handle_device_install, handle_device_remove, install_chosen, install_found,
}
use cairn_mdm.Profile.{ConfigProfile}
use cairn_mdm.Profile.Payloads.{WifiParams}
use cairn_mdm.Web.Console.Builders.{
  handle_builder_wifi, handle_builder_sso, after_built, save_info, save_bytes, save_built_profile,
  save_wifi,
}
use cairn_mdm.Web.Console.Profiles.{
  handle_profile_upload, handle_profile_delete, profile_from_path, with_profile, save_parsed,
  save_file, after_save, after_delete,
}
use cairn_mdm.Web.Console.Groups.{
  handle_group_create, handle_group_delete, handle_group_device_change, handle_group_profile_change,
  group_from_path, with_group, start_task, task_added, removed_device, added_device, unassigned,
  assigned, change_profile,
}
use cairn_mdm.Web.Console.Enrollment.{handle_grant_create, handle_grant_revoke, revoke_parsed}
use cairn_mdm.Web.Console.Routes.{Route, mounted}
use cairn_mdm.Web.Console.Routes.Serving.{
  parts, HasLog, local-Serves, current_session-Serves, checked-Serves, require_role-Serves,
  handle_login-Serves, logout_of-Serves, login_with-Serves, callback_of-Serves,
}

module _ {U Q Ip Network : Type 0} (a : App U Q Ip Network) (m : Moment)
    (log : List AuditEntry) where
  install_found-Serves :
      (r : Request) (o : Result Profile) → Serves (HasLog U Q log) (install_found a m r o)
  install_found-Serves r (ok p) = search parts
  install_found-Serves r (err e) = search parts

  install_chosen-Serves :
      (r : Request) (o : Option ℤ) → Serves (HasLog U Q log) (install_chosen a m r o)
  install_chosen-Serves r none = search parts
  install_chosen-Serves r (some id) = search (parts, install_found-Serves)

  after_save-Serves : (o : Result ℕ) → Serves (HasLog U Q log) (after_save a m o)
  after_save-Serves (ok id) = search parts
  after_save-Serves (err e) = search parts

  save_parsed-Serves :
      (b : String) (o : Checked Info) → Serves (HasLog U Q log) (save_parsed a m b o)
  save_parsed-Serves b (valid i) = search (parts, after_save-Serves)
  save_parsed-Serves b (invalid e) = search parts

  save_file-Serves : (o : Option (Option String)) → Serves (HasLog U Q log) (save_file a m o)
  save_file-Serves none = search parts
  save_file-Serves (some none) = search parts
  save_file-Serves (some (some b)) = search (parts, save_parsed-Serves)

  after_delete-Serves : (o : Result (Unit {0})) → Serves (HasLog U Q log) (after_delete a m o)
  after_delete-Serves (ok u) = search parts
  after_delete-Serves (err e) = search parts

  with_profile-Serves :
      (act : Profile → Sql (World U Q) Response) (o : Result Profile)
      → ((p : Profile) → Serves (HasLog U Q log) (act p))
      → Serves (HasLog U Q log) (with_profile a m act o)
  with_profile-Serves act (ok p) h = h p
  with_profile-Serves act (err e) h = search parts

  profile_from_path-Serves :
      (o : Option ℤ) (act : Profile → Sql (World U Q) Response)
      → ((p : Profile) → Serves (HasLog U Q log) (act p))
      → Serves (HasLog U Q log) (profile_from_path a m o act)
  unfolding profile_from_path
  profile_from_path-Serves none act h = search parts
  profile_from_path-Serves (some id) act h = search (parts, with_profile-Serves)

  with_group-Serves :
      (act : Group → Sql (World U Q) Response) (o : Result Group)
      → ((g : Group) → Serves (HasLog U Q log) (act g))
      → Serves (HasLog U Q log) (with_group a m act o)
  with_group-Serves act (ok p) h = h p
  with_group-Serves act (err e) h = search parts

  group_from_path-Serves :
      (o : Option ℤ) (act : Group → Sql (World U Q) Response)
      → ((g : Group) → Serves (HasLog U Q log) (act g))
      → Serves (HasLog U Q log) (group_from_path a m o act)
  unfolding group_from_path
  group_from_path-Serves none act h = search parts
  group_from_path-Serves (some id) act h = search (parts, with_group-Serves)

  start_task-Serves : (t : Task) → Serves (HasLog U Q log) (start_task a m t)
  unfolding start_task local
  start_task-Serves t = local-Serves a m log _ (kept a.has_reconciler)
    where
      kept : (b : Bool) (w : World U Q) → HasLog U Q log w → HasLog U Q log (task_added b t w).1
      kept true w h = h
      kept false w h = h

  removed_device-Serves :
      (g : Group) (o : Result (Unit {0})) → Serves (HasLog U Q log) (removed_device a m g o)
  removed_device-Serves g (ok u) = search parts
  removed_device-Serves g (err e) = search parts

  added_device-Serves :
      (g : Group) (d : String) (o : Result (Unit {0}))
      → Serves (HasLog U Q log) (added_device a m g d o)
  added_device-Serves g d (ok u) = search (parts, start_task-Serves)
  added_device-Serves g d (err e) = search parts

  unassigned-Serves :
      (g : Group) (o : Result (Unit {0})) → Serves (HasLog U Q log) (unassigned a m g o)
  unassigned-Serves g (ok u) = search parts
  unassigned-Serves g (err e) = search parts

  assigned-Serves : (g : Group) (o : Result (Unit {0})) → Serves (HasLog U Q log) (assigned a m g o)
  assigned-Serves g (ok u) = search (parts, start_task-Serves)
  assigned-Serves g (err e) = search parts

  change_profile-Serves :
      (r : Request) (o : Option ℤ) (g : Group) → Serves (HasLog U Q log) (change_profile a m r o g)
  change_profile-Serves r none g = search parts
  change_profile-Serves r (some id) g = search (parts, unassigned-Serves, assigned-Serves)

  revoke_parsed-Serves : (o : Option ℤ) → Serves (HasLog U Q log) (revoke_parsed a m o)
  revoke_parsed-Serves none = search parts
  revoke_parsed-Serves (some id) = search parts

  after_built-Serves : (l : Location) (o : Result ℕ) → Serves (HasLog U Q log) (after_built a m l o)
  after_built-Serves l (ok id) = search parts
  after_built-Serves l (err e) = search parts

  save_info-Serves :
      (l : Location) (source bytes : String) (o : Checked Info)
      → Serves (HasLog U Q log) (save_info a m l source bytes o)
  save_info-Serves l source bytes (valid i) = search (parts, after_built-Serves)
  save_info-Serves l source bytes (invalid e) = search parts

  save_bytes-Serves :
      (l : Location) (source : String) (o : Checked String)
      → Serves (HasLog U Q log) (save_bytes a m l source o)
  save_bytes-Serves l source (valid b) = search save_info-Serves
  save_bytes-Serves l source (invalid e) = search parts

  save_built-Serves :
      (l : Location) (source : String) (o : Checked ConfigProfile)
      → Serves (HasLog U Q log) (save_built_profile a m l source o)
  unfolding save_built_profile
  save_built-Serves l source (valid p) = search save_bytes-Serves
  save_built-Serves l source (invalid e) = search parts

  save_wifi-Serves : (o : Checked WifiParams) → Serves (HasLog U Q log) (save_wifi a m o)
  save_wifi-Serves (valid p) = search save_built-Serves
  save_wifi-Serves (invalid e) = search parts

  ruleset handlers = (
    save_built-Serves, save_wifi-Serves, parts, checked-Serves, require_role-Serves,
    install_chosen-Serves, save_file-Serves, after_delete-Serves, profile_from_path-Serves,
    group_from_path-Serves, removed_device-Serves, added_device-Serves, change_profile-Serves,
    revoke_parsed-Serves,
  )

  -- Whatever fails, a handler returns a response.
  pub mounted-Serves : (route : Route) (r : Request) → Serves (HasLog U Q log) (mounted a m route r)
  unfolding mounted handle_builder_wifi handle_builder_sso handle_login_form handle_logout
      handle_oidc_login handle_oidc_callback handle_device_refresh handle_device_install
      handle_device_remove handle_profile_upload handle_profile_delete handle_group_create
      handle_group_delete handle_group_device_change handle_group_profile_change handle_grant_create
      handle_grant_revoke
  mounted-Serves Route.get_login r = search (parts, current_session-Serves)
  mounted-Serves Route.post_login r = handle_login-Serves a m log r
  mounted-Serves Route.post_logout r = logout_of-Serves a m log r r.session_cookie
  mounted-Serves Route.get_oidc_login r = login_with-Serves a m log a.oidc r
  mounted-Serves Route.get_oidc_callback r = callback_of-Serves a m log a.oidc r
  mounted-Serves Route.post_device_refresh r = search handlers
  mounted-Serves Route.post_device_install r = search handlers
  mounted-Serves Route.post_device_remove r = search handlers
  mounted-Serves Route.post_profile_upload r = search handlers
  mounted-Serves Route.post_profile_delete r = search handlers
  mounted-Serves Route.post_builder_wifi r = search handlers
  mounted-Serves Route.post_builder_sso r = search handlers
  mounted-Serves Route.post_grant_create r = search handlers
  mounted-Serves Route.post_grant_revoke r = search handlers
  mounted-Serves Route.post_group_create r = search handlers
  mounted-Serves Route.post_group_delete r = search handlers
  mounted-Serves Route.post_group_devices r = search handlers depth 9
  mounted-Serves Route.post_group_profiles r = search handlers
