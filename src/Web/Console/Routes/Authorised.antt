-- ===== src/Web/Console/Routes/Authorised.antt =====
-- Who can change the fleet, the grants and the queue of commands.
use cairn_mdm.Prelude.{
  Option, none, some, if◌then◌else◌, ◌⊎◌, inl, inr, Bool, true, false, not, List,
}
use cairn_mdm.Sql.{Conn, Sql, Result-cases, pure, ◌>>=◌}
use cairn_mdm.Sql.Keeps.{Keeps, Keeps-pure, Keeps-catch, Keeps-bind}
use cairn_mdm.Auth.Role.{Role, role_admin, role_operator}
use cairn_mdm.Auth.Session.{Row, Session}
use cairn_mdm.Web.Console.{World, Request, Response, App, Moment}
use cairn_mdm.Web.Console.Keeps.{Keeps-on_audit}
use cairn_mdm.Web.Console.Access.{Handler, checked, require_role, current_session}
use cairn_mdm.Web.Console.Access.Guarding.{
  Unchanged, Unchanged-refl, Submits, Authorised, checked-Submits, require_role-Authorised,
}
use cairn_mdm.Web.Console.Audited.{audited, record_entry}
use cairn_mdm.Web.Console.Signing.{
  IgnoresSigning, current_session-Keeps, handle_login-Keeps, handle_login_form-Keeps,
  handle_logout-Keeps, handle_oidc_login-Keeps, handle_oidc_callback-Keeps,
}
use cairn_mdm.Web.Console.Devices.{
  handle_device_refresh, handle_device_install, handle_device_remove,
}
use cairn_mdm.Web.Console.Builders.{handle_builder_wifi, handle_builder_sso}
use cairn_mdm.Web.Console.Profiles.{handle_profile_upload, handle_profile_delete}
use cairn_mdm.Web.Console.Groups.{
  handle_group_create, handle_group_delete, handle_group_device_change, handle_group_profile_change,
}
use cairn_mdm.Web.Console.Enrollment.{handle_grant_create, handle_grant_revoke}
use cairn_mdm.Web.Console.Routes.{Route, mounted, serve}

-- The least role that may use a route to change anything. Signing in and out changes none of it.
abbrev pub needs : Route → Option Role
needs Route.post_device_refresh = some role_operator
needs Route.post_device_install = some role_operator
needs Route.post_device_remove = some role_operator
needs Route.post_grant_create = some role_operator
needs Route.post_grant_revoke = some role_operator
needs Route.post_profile_upload = some role_admin
needs Route.post_profile_delete = some role_admin
needs Route.post_builder_wifi = some role_admin
needs Route.post_builder_sso = some role_admin
needs Route.post_group_create = some role_admin
needs Route.post_group_delete = some role_admin
needs Route.post_group_devices = some role_admin
needs Route.post_group_profiles = some role_admin
needs _ = none

module _ {U Q Ip Network : Type 0} (a : App U Q Ip Network) (m : Moment) where
  -- The request is one that may change something.
  abbrev pub MayChange : Option Role → Request → List Row → Type 0
  MayChange none r rows = ⊥
  MayChange (some min) r rows = Authorised a m min r rows

  Unchanged-IgnoresSigning : (w : World U Q) → IgnoresSigning (Unchanged w)
  Unchanged-IgnoresSigning w = record {
    sessions = λ s v h. record { mdm = h.mdm; grants = h.grants; started = h.started };
    accounts = λ s v h. record { mdm = h.mdm; grants = h.grants; started = h.started };
    throttle = λ s v h. record { mdm = h.mdm; grants = h.grants; started = h.started };
  }

  entry-Unchanged :
      (w : World U Q) (r : Request) (resp : Response) (s : Option Session)
      → Keeps (Unchanged w) (record_entry a m r resp s)
  entry-Unchanged w r resp s =
      Keeps-catch _ _
        (Keeps-on_audit _ (λ e v h. record { mdm = h.mdm; grants = h.grants; started = h.started }))
        (λ o. Keeps-pure _)

  -- what runs after an audited handler
  after-Unchanged :
      (w : World U Q) (r : Request) (resp : Response)
      → Keeps (Unchanged w) (current_session a m r >>= record_entry a m r resp)
  after-Unchanged w r resp =
      Keeps-bind _ _ (current_session-Keeps a m (Unchanged-IgnoresSigning w) r)
        (entry-Unchanged w r resp)

  audited-Unchanged :
      (w : World U Q) (next : Request → Sql (World U Q) Response) (r : Request)
      (c : Conn (World U Q))
      → Unchanged w (next r c).1.rows
      → Unchanged w (audited a m next r c).1.rows
  unfolding audited ◌>>=◌
  audited-Unchanged w next r c h = elim (Result-cases (next r c).0) [
    | inl (resp, e) ↦ rw e ((after-Unchanged w r resp).at (next r c).1 h)
    | inr (x, e) ↦ rw e h
  ]

  signing-Unchanged :
      (next : Request → Sql (World U Q) Response) (r : Request) (c : Conn (World U Q))
      → ((w : World U Q) → Keeps (Unchanged w) (next r))
      → Unchanged c.rows (audited a m next r c).1.rows
  signing-Unchanged next r c kept =
      audited-Unchanged c.rows next r c ((kept c.rows).at c (Unchanged-refl c.rows))

  mounted-Authorised :
      (min : Role) (h : Handler U Q) (r : Request) (c : Conn (World U Q))
      → ((s : Session) (d : Conn (World U Q))
          → Unchanged d.rows (h s r d).1.rows ⊎ Submits a m r d.rows.sessions)
      → Unchanged c.rows (audited a m (require_role a m min h) r c).1.rows
        ⊎ Authorised a m min r c.rows.sessions
  mounted-Authorised min h r c behind = elim (require_role-Authorised a m min h r c behind) [
    | inl same ↦ inl (audited-Unchanged c.rows (require_role a m min h) r c same)
    | inr right ↦ inr right
  ]

  -- a handler that first parses its form
  parsed-Submits :
      (b : Bool) (refusal : Response) (r : Request) (act : Sql (World U Q) Response)
      (d : Conn (World U Q))
      → Unchanged d.rows ((if b then pure refusal else checked a m r act) d).1.rows
        ⊎ Submits a m r d.rows.sessions
  unfolding pure
  parsed-Submits true refusal r act d = inl (Unchanged-refl d.rows)
  parsed-Submits false refusal r act d = checked-Submits a m r act d

  -- Whatever statements fail: a request to any route leaves the fleet, the queue of commands, the
  -- grants and the started goroutines as they were, or the route is one of those that change them,
  -- the request carries the cookie of an open session, the role of that session is at least the
  -- one the route needs, and the request submits the session's own CSRF token, which is not empty,
  -- and `sameOrigin` accepts its Origin or Referer.
  pub serve-Authorised :
      (route : Route) (r : Request) (c : Conn (World U Q))
      → Unchanged c.rows (serve a m route r c).1.rows ⊎ MayChange (needs route) r c.rows.sessions
  unfolding serve mounted handle_builder_wifi handle_builder_sso handle_device_refresh
      handle_device_install handle_device_remove handle_profile_upload handle_profile_delete
      handle_group_create handle_group_delete handle_group_device_change handle_group_profile_change
      handle_grant_create handle_grant_revoke
  serve-Authorised Route.get_login r c = inl (
      (handle_login_form-Keeps a m (Unchanged-IgnoresSigning c.rows) r).at c
        (Unchanged-refl c.rows))
  serve-Authorised Route.post_login r c =
      inl (signing-Unchanged _ r c (λ w. handle_login-Keeps a m (Unchanged-IgnoresSigning w) r))
  serve-Authorised Route.post_logout r c =
      inl (signing-Unchanged _ r c (λ w. handle_logout-Keeps a m (Unchanged-IgnoresSigning w) r))
  serve-Authorised Route.get_oidc_login r c = inl (
      (handle_oidc_login-Keeps a m (Unchanged-IgnoresSigning c.rows) r).at c
        (Unchanged-refl c.rows))
  serve-Authorised Route.get_oidc_callback r c = inl (
      (handle_oidc_callback-Keeps a m (Unchanged-IgnoresSigning c.rows) r).at c
        (Unchanged-refl c.rows))
  serve-Authorised Route.post_device_refresh r c =
      mounted-Authorised _ _ r c (λ s. checked-Submits a m r _)
  serve-Authorised Route.post_device_install r c =
      mounted-Authorised _ _ r c (λ s. checked-Submits a m r _)
  serve-Authorised Route.post_device_remove r c =
      mounted-Authorised _ _ r c (λ s. checked-Submits a m r _)
  serve-Authorised Route.post_profile_upload r c =
      mounted-Authorised _ _ r c (λ s. parsed-Submits (not r.form_ok) _ r _)
  serve-Authorised Route.post_profile_delete r c =
      mounted-Authorised _ _ r c (λ s. checked-Submits a m r _)
  serve-Authorised Route.post_grant_create r c =
      mounted-Authorised _ _ r c (λ s. parsed-Submits (not r.form_ok) _ r _)
  serve-Authorised Route.post_builder_wifi r c =
      mounted-Authorised _ _ r c (λ s. parsed-Submits (not r.form_ok) _ r _)
  serve-Authorised Route.post_builder_sso r c =
      mounted-Authorised _ _ r c (λ s. parsed-Submits (not r.form_ok) _ r _)
  serve-Authorised Route.post_grant_revoke r c =
      mounted-Authorised _ _ r c (λ s. checked-Submits a m r _)
  serve-Authorised Route.post_group_create r c =
      mounted-Authorised _ _ r c (λ s. checked-Submits a m r _)
  serve-Authorised Route.post_group_delete r c =
      mounted-Authorised _ _ r c (λ s. checked-Submits a m r _)
  serve-Authorised Route.post_group_devices r c =
      mounted-Authorised _ _ r c (λ s. checked-Submits a m r _)
  serve-Authorised Route.post_group_profiles r c =
      mounted-Authorised _ _ r c (λ s. checked-Submits a m r _)
