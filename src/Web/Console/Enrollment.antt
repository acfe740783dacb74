-- ===== src/Web/Console/Enrollment.antt =====
-- Enrollment links (internal/web/enrollment.go).
pub mod Lifetime
use cairn_mdm.Prelude.{
  ℕ, ◌+◌, ◌-◌, ◌*◌, ◌/◌, ◌%◌, ltb, String, ◌||◌, not, [], Option, none, some, string_eq, nat_eq,
  ◌==◌, if◌then◌else◌, concat,
}
use cairn_mdm.Prelude.Int.{ℤ, pos, negsuc}
use cairn_mdm.Sql.{Sql, Result, ok, err, pure, catch}
use cairn_mdm.Auth.Session.{Session, second}
use cairn_mdm.Storage.Grants
use cairn_mdm.Storage.Grants.{create_grant, revoke_grant}
use cairn_mdm.Web.Console.{
  World, Request, Response, App, Moment, flash, error, created_link, enrollment_url, see_other,
  http_error, on_grants, row_id, seconds,
}
use cairn_mdm.Web.Console.Access.{Handler, checked}

abbrev pub platform_of : String → String
platform_of p = if p == "macos" || (p == "ios" || p == "any") then p else "any"

-- the value of `strconv.Atoi` with its error passed over; one that is not positive is replaced
abbrev pub positive_or : ℕ → ℤ → ℕ
positive_or default (pos n) = if n == 0 then default else n
positive_or default (negsuc n) = default

-- `time.Duration(hours) * time.Hour` in 64 bits
unfoldable pub wrapped_hours : ℕ → ℕ
wrapped_hours hours = hours * 3600 * second % 18446744073709551616

-- `time.Now().Add` of that duration, in whole seconds; a time before that of 0 counts as 0
unfoldable pub expiry : ℕ → ℕ → ℕ
unfolding wrapped_hours
expiry now hours =
    if ltb (wrapped_hours hours) 9223372036854775808
    then (now + wrapped_hours hours) / second
    else (now - (18446744073709551616 - wrapped_hours hours)) / second

module _ {U Q Ip Network : Type 0} (a : App U Q Ip Network) (m : Moment) where
  abbrev pub max_uses_of : Request → ℕ
  max_uses_of r = positive_or 1 (a.int_value (r.form "max_uses"))

  abbrev pub hours_of : Request → ℕ
  hours_of r = positive_or 24 (a.int_value (r.form "expires_hours"))

  abbrev pub requested : Session → Request → Grants.Request
  requested s r = record {
    label = a.trim_space (r.form "label");
    platform = platform_of (r.form "platform");
    owner = a.trim_space (r.form "owner");
    created_by = s.identity.username;
    expires_at = expiry m.now (hours_of r);
    max_uses = pos (max_uses_of r);
    expected_serial = a.trim_space (r.form "expected_serial");
  }

  abbrev after_create : Request → Result ℕ → Response
  after_create r (err e) = see_other enrollment_url (error "Creating the grant failed.")
  after_create r (ok id) = record {
    status = 200;
    body =
        created_link (concat (a.trim_slashes a.public_url) (concat "/e/" m.grant_token))
          (hours_of r) (max_uses_of r);
    cookies = [];
  }

  -- `handleGrantCreate`
  unfoldable pub handle_grant_create : Handler U Q
  unfolding expiry
  handle_grant_create s r =
      if not r.form_ok
      then pure (http_error "bad request" 400)
      else checked a m r (
          catch (on_grants (create_grant (seconds m) (requested s r) (a.hash m.grant_token)))
            (λ o. pure (after_create r o)))

  abbrev after_revoke : Result (Unit {0}) → Response
  after_revoke (err e) = see_other enrollment_url (error "Revoke failed.")
  after_revoke (ok u) = see_other enrollment_url (flash "Grant revoked.")

  abbrev pub revoke_parsed : Option ℤ → Sql (World U Q) Response
  revoke_parsed none = pure (http_error "404 page not found" 404)
  revoke_parsed (some id) =
      catch (on_grants (revoke_grant (seconds m) (row_id id))) (λ o. pure (after_revoke o))

  -- `handleGrantRevoke`
  unfoldable pub handle_grant_revoke : Handler U Q
  handle_grant_revoke s r = checked a m r (revoke_parsed (a.parse_int r.id))
