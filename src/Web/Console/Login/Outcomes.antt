-- ===== src/Web/Console/Login/Outcomes.antt =====
-- When signing in opens a session.
use cairn_mdm.Prelude.{
  ℕ, ◌+◌, ◌/◌, String, true, false, ◌||◌, Option, none, some, [], ◌∷◌, ◌++◌, ◌≡◌, refl, ap, ◌⊎◌,
  inl, inr, string_eq, ◌==◌, if◌then◌else◌, concat, any, Bool-cases, Option-cases,
}
use cairn_mdm.Sql.{
  Conn, Result, Result-cases, Error, ok, err, pure, catch, stmt, is_failing, ◌>>=◌, zoom,
}
use cairn_mdm.Auth.Role.{Identity}
use cairn_mdm.Auth.Session.{second, Row, create, provider_or, has_token}
use cairn_mdm.Auth.Throttle.{Throttle, allowed, record_failure, record_success}
use cairn_mdm.Web.Client.{client_ip}
use cairn_mdm.Web.Console.{
  World, Request, Response, App, Moment, retry_page, redirect, no_notice, admin_url, set_session,
  http_error, render, local, on_accounts, on_sessions,
}
use cairn_mdm.Web.Console.Login.{handle_login, admission, set_throttle, open_session}

module _ {U Q Ip Network : Type 0} (a : App U Q Ip Network) (m : Moment) where
  abbrev pub accounts_of : Conn (World U Q) → Conn U
  accounts_of c = record { rows = c.rows.accounts; faults = c.faults }

  -- the user and the client's address
  abbrev pub key_of : Request → String
  key_of r =
      concat (a.trim_space (r.form "username"))
        (concat "|" (client_ip a.net a.trusted r.remote_addr r.forwarded_for))

  -- what the authenticators say to the submitted name and password
  abbrev pub verdict : Request → Conn (World U Q) → Result Identity × Conn U
  verdict r c =
      a.authenticate (a.trim_space (r.form "username")) (r.form "password") (accounts_of c)

  abbrev pub changed : (Throttle → Throttle) → Option Throttle → Option Throttle
  changed f none = none
  changed f (some t) = some (f t)

  -- the state after the authenticators have answered, with a change of the throttle
  abbrev pub judged : (Throttle → Throttle) → Request → Conn (World U Q) → Conn (World U Q)
  judged f r c =
      let (o, d) = verdict r c in
      record {
        rows = record c.rows { accounts = d.rows; throttle = changed f c.rows.throttle };
        faults = d.faults;
      }

  -- The throttle, where there is one, lets the key try.
  abbrev pub MayTry : Request → Conn (World U Q) → Type 0
  MayTry r c =
      (c.rows.throttle ≡ none)
      ⊎ ((t : Throttle) × (c.rows.throttle ≡ some t) × ((allowed t m.now (key_of r)).0 ≡ true))

  -- the throttle refuses: the credentials are not looked at, and nothing changes
  pub record IsThrottled (r : Request) (c : Conn (World U Q))
      (after : Result Response × Conn (World U Q)) : Type 0 where
    pub throttle : Throttle
    pub is_throttle : c.rows.throttle ≡ some throttle
    pub wait : ℕ
    pub locked : allowed throttle m.now (key_of r) ≡ (false, wait)
    pub untouched : after ≡ (
      ok (record {
        status = 429;
        body = retry_page "Too many attempts. Please try again later." (wait / second + 1);
        cookies = [];
      }),
      c,
    )

  -- the authenticators refuse: a failure is recorded for the key, and no session is opened
  pub record IsRejected (r : Request) (c : Conn (World U Q))
      (after : Result Response × Conn (World U Q)) : Type 0 where
    pub error : Error
    pub admitted : MayTry r c
    pub refused : (verdict r c).0 ≡ err error
    pub counted : after ≡ (
      ok (render 401 "login.html" "Incorrect username or password."),
      judged (λ t. record_failure t m.now (key_of r)) r c,
    )

  -- the row of a new session
  abbrev pub session_row : Identity → Row
  session_row id = record {
    token = a.hash m.session_token;
    username = id.username;
    role = id.role;
    display_name = id.display_name;
    provider = if id.provider == "" then "local" else id.provider;
    csrf_token = m.session_csrf;
    created_at = some (m.now / second);
    expires_at = (m.now + a.store.ttl) / second;
  }

  -- From the state `d`: the row of a session for the identity is written, its token goes out in the
  -- cookie, and nothing else changes; or the row cannot be written, since the statement fails or the
  -- token is taken, which is answered with 500, and nothing changes.
  pub data IsOpened (id : Identity) (d : Conn (World U Q))
      (after : Result Response × Conn (World U Q)) : Type 0 where
    opened :
        after.0
          ≡ ok (record {
            status = 302;
            body = redirect admin_url no_notice;
            cookies = set_session m.session_token (m.now + a.store.ttl) ∷ [];
          })
        → after.1.rows ≡ record d.rows { sessions = d.rows.sessions ++ session_row id ∷ [] }
        → IsOpened id d after
    not_written :
        (is_failing d.faults || any (has_token (a.hash m.session_token)) d.rows.sessions) ≡ true
        → after.0 ≡ ok (http_error "internal error" 500)
        → after.1.rows ≡ d.rows
        → IsOpened id d after

  open_session-IsOpened :
      (id : Identity) (d : Conn (World U Q)) → IsOpened id d (open_session a m id d)
  unfolding create provider_or on_sessions zoom stmt pure catch ◌>>=◌
  open_session-IsOpened id d = elim (Bool-cases (is_failing d.faults)) [
    | inl e ↦ not_written (rw e refl) (rw e refl) (rw e refl)
    | inr e ↦ elim (Bool-cases (any (has_token (a.hash m.session_token)) d.rows.sessions)) [
      | inl taken ↦ not_written (rw (e, taken) refl) (rw (e, taken) refl) (rw (e, taken) refl)
      | inr fresh ↦ opened (rw (e, fresh) refl) (rw (e, fresh) refl)
    ]
  ]

  -- the authenticators accept: the key is cleared, and then a session is opened for exactly the
  -- identity that they returned
  pub record IsAccepted (r : Request) (c : Conn (World U Q))
      (after : Result Response × Conn (World U Q)) : Type 0 where
    pub identity : Identity
    pub admitted : MayTry r c
    pub verified : (verdict r c).0 ≡ ok identity
    pub session : IsOpened identity (judged (λ t. record_success t (key_of r)) r c) after

  abbrev Outcome : Request → Conn (World U Q) → Type 0
  Outcome r c =
      IsThrottled r c (handle_login a m r c)
      ⊎ (IsRejected r c (handle_login a m r c) ⊎ IsAccepted r c (handle_login a m r c))

  set-changed : (f : Throttle → Throttle) (o : Option Throttle) → set_throttle a m f o ≡ changed f o
  set-changed f none = refl
  set-changed f (some t) = refl

  admitted-outcome :
      (r : Request) (c : Conn (World U Q))
      → r.form_ok ≡ true
      → (admission a m r c.rows.throttle).0 ≡ true
      → MayTry r c
      → Outcome r c
  unfolding handle_login local ◌>>=◌ pure catch on_accounts zoom
  admitted-outcome r c parsed e may =
      let goes_on : admission a m r c.rows.throttle ≡ (true, (admission a m r c.rows.throttle).1) =
        ap (λ b. (b, (admission a m r c.rows.throttle).1)) e in
      inr (elim (Result-cases (verdict r c).0) [
        | inr (x, refused) ↦ inl (record {
          error = x;
          admitted = may;
          refused = refused;
          counted =
              rw
                (
                  parsed,
                  goes_on,
                  refused,
                  set-changed (λ t. record_failure t m.now (key_of r)) c.rows.throttle,
                )
                refl;
        })
        | inl (id, verified) ↦ inr (record {
          identity = id;
          admitted = may;
          verified = verified;
          session =
              rw
                (
                  parsed,
                  goes_on,
                  verified,
                  set-changed (λ t. record_success t (key_of r)) c.rows.throttle,
                )
                (open_session-IsOpened id (judged (λ t. record_success t (key_of r)) r c));
        })
      ])

  throttled-outcome :
      (r : Request) (c : Conn (World U Q)) (t : Throttle) (wait : ℕ)
      → r.form_ok ≡ true
      → c.rows.throttle ≡ some t
      → allowed t m.now (key_of r) ≡ (false, wait)
      → Outcome r c
  unfolding handle_login local ◌>>=◌ pure
  throttled-outcome r c t wait parsed has locked = inl (record {
    throttle = t;
    is_throttle = has;
    wait = wait;
    locked = locked;
    untouched = rw (parsed, has, locked) refl;
  })

  -- A well-formed request to sign in has one of three outcomes. The throttle refuses its key, the user
  -- and the client's address, before any credential is looked at, and nothing changes. Or the
  -- authenticators reject the name and the password, a failure is recorded for the key, and no session
  -- is opened. Or they accept them, the key is cleared, and a session is written for exactly the
  -- identity that they returned and goes out in the cookie; if its row cannot be written, the answer is
  -- 500 and there is no session.
  pub handle_login-outcome :
      (r : Request) (c : Conn (World U Q))
      → r.form_ok ≡ true
      → IsThrottled r c (handle_login a m r c)
        ⊎ (IsRejected r c (handle_login a m r c) ⊎ IsAccepted r c (handle_login a m r c))
  handle_login-outcome r c parsed = elim (Option-cases c.rows.throttle) [
    | inl e ↦ admitted-outcome r c parsed (rw e refl) (inl e)
    | inr (t, e) ↦ elim (Bool-cases (allowed t m.now (key_of r)).0) [
      | inl free ↦ admitted-outcome r c parsed (rw e free) (inr (t, e, free))
      | inr locked ↦
          throttled-outcome r c t (allowed t m.now (key_of r)).1 parsed e
            (ap (λ b. (b, (allowed t m.now (key_of r)).1)) locked)
    ]
  ]
