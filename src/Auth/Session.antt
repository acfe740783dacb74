-- ===== src/Auth/Session.antt =====
-- Console sessions (internal/auth/session.go), the table `app_sessions`. The two random tokens of
-- a new session and SHA-256 are parameters. `time.Now()` is in nanoseconds; RFC 3339 text keeps
-- whole seconds, so a stored time is its seconds. `created_at` is `none` where its text parses as
-- neither of the two formats. Durations that are given are Go integers.
pub mod Reading
pub mod Keeping
mod Tests
pub mod Ending
use cairn_mdm.Prelude.{
  ℕ, ◌+◌, ◌*◌, ◌/◌, String, Bool, true, false, List, [], ◌∷◌, ◌++◌, Option, none, some, ltb, leb,
  if◌then◌else◌, nat_eq, string_eq, ◌==◌, select, update, count, find, any, not,
}
use cairn_mdm.Prelude.Int.{ℤ, pos, negsuc}
use cairn_mdm.Sql.{
  Sql, Result, ok, err, Error, no_rows, no_session, constraint, query_row, stmt, pure, fail, catch,
  ◌>>=◌, ◌>>◌,
}
use cairn_mdm.Auth.Role.{Identity}

-- a row of `app_sessions`
pub record Row : Type 0 where
  pub token : String
  pub username : String
  pub role : String
  pub display_name : String
  pub provider : String
  pub csrf_token : String
  pub created_at : Option ℕ
  pub expires_at : ℕ

pub record Session : Type 0 where
  pub token : String
  pub identity : Identity
  pub csrf : String
  pub expires_at : ℕ

pub record SessionStore : Type 0 where
  pub ttl : ℕ
  pub max_lifetime : ℕ

abbrev pub second : ℕ
second = 1000000000

abbrev positive_or : ℕ → ℤ → ℕ
positive_or default (pos n) = if n == 0 then default else n
positive_or default (negsuc n) = default

-- `NewSessionStore`
unfoldable pub new : ℤ → SessionStore
new ttl = record { ttl = positive_or (12 * 3600 * second) ttl; max_lifetime = 0 }

-- `SetMaxLifetime`
unfoldable pub set_max_lifetime : SessionStore → ℤ → SessionStore
set_max_lifetime s d = record s { max_lifetime = positive_or 0 d }

unfoldable pub provider_or : String → String
provider_or p = if p == "" then "local" else p

abbrev pub has_token : String → Row → Bool
has_token t r = r.token == t

abbrev pub has_username : String → Row → Bool
has_username u r = r.username == u

-- `INSERT INTO app_sessions`; `token` is the primary key
abbrev pub insert_row : Row → List Row → Result (Unit {0}) × List Row
insert_row r rows =
    if any (has_token r.token) rows then (err constraint, rows) else (ok tt, rows ++ r ∷ [])

abbrev pub new_row : ℕ → ℕ → String → String → Identity → Row
new_row now expires token_hash csrf id = record {
  token = token_hash;
  username = id.username;
  role = id.role;
  display_name = id.display_name;
  provider = provider_or id.provider;
  csrf_token = csrf;
  created_at = some (now / second);
  expires_at = expires / second;
}

abbrev pub read_row : String → List Row → Result Row × List Row
read_row h rows = query_row rows (find (has_token h) rows)

abbrev pub delete_where : (Row → Bool) → List Row → Result ℕ × List Row
delete_where p rows = (ok (count p rows), select (λ r. not (p r)) rows)

abbrev pub set_expiry : String → ℕ → List Row → Result (Unit {0}) × List Row
set_expiry h seconds rows =
    (ok tt, update (has_token h) (λ r. record r { expires_at = seconds }) rows)

-- the absolute cap: `created_at` plus the maximal lifetime, if there is one
abbrev pub cap_of : SessionStore → Row → Option ℕ
cap_of s r =
    if s.max_lifetime == 0
    then none
    else elim r.created_at [ none ↦ none | some t ↦ some (t * second + s.max_lifetime) ]

abbrev pub is_past : ℕ → Option ℕ → Bool
is_past now none = false
is_past now (some cap) = ltb cap now

-- the idle renewal, never past the cap
abbrev pub renewed : SessionStore → ℕ → Option ℕ → ℕ
renewed s now none = now + s.ttl
renewed s now (some cap) = if ltb cap (now + s.ttl) then cap else now + s.ttl

abbrev pub session_of : String → Row → ℕ → Session
session_of token r expires = record {
  token = token;
  identity = record {
    username = r.username;
    display_name = r.display_name;
    role = r.role;
    provider = r.provider;
  };
  csrf = r.csrf_token;
  expires_at = expires;
}

module _ (hash : String → String) where
  -- `Create`, with the tokens that it draws
  unfoldable pub create : SessionStore → ℕ → String → String → Identity → Sql (List Row) Session
  unfolding provider_or
  create s now token csrf id = do
    let expires = now + s.ttl
    stmt (insert_row (new_row now expires (hash token) csrf id))
    pure (record { token = token; identity = id; csrf = csrf; expires_at = expires })

  -- `Delete`
  unfoldable pub delete : String → Sql (List Row) (Unit {0})
  delete token = do stmt (delete_where (has_token (hash token))); pure tt

  abbrev reject : String → Sql (List Row) Session
  reject token = catch (delete token) (λ _. fail no_session)

  -- a failed renewal leaves the old expiry standing
  abbrev after_renewal : String → Row → ℕ → ℕ → Result (Unit {0}) → Sql (List Row) Session
  after_renewal token r exp new_exp (ok _) = pure (session_of token r new_exp)
  after_renewal token r exp new_exp (err _) = pure (session_of token r exp)

  abbrev renew : String → Row → ℕ → ℕ → Sql (List Row) Session
  renew token r exp new_exp =
      if ltb exp new_exp
      then catch (stmt (set_expiry (hash token) (new_exp / second)))
          (after_renewal token r exp new_exp)
      else pure (session_of token r exp)

  -- `Get` from the row that it has read
  abbrev check_row : SessionStore → ℕ → String → Row → Sql (List Row) Session
  check_row s now token r =
      if ltb (r.expires_at * second) now
      then reject token
      else if is_past now (cap_of s r)
      then reject token
      else renew token r (r.expires_at * second) (renewed s now (cap_of s r))

  abbrev after_read : SessionStore → ℕ → String → Result Row → Sql (List Row) Session
  after_read s now token (ok r) = check_row s now token r
  after_read s now token (err no_rows) = fail no_session
  after_read s now token (err e) = fail e

  -- `Get`
  unfoldable pub get : SessionStore → ℕ → String → Sql (List Row) Session
  unfolding delete
  get s now token =
      if token == ""
      then fail no_session
      else catch (stmt (read_row (hash token))) (after_read s now token)

-- `DeleteExpired`: `expires_at` and the bound are UTC text of one format, so their order is that
-- of the seconds
unfoldable pub delete_expired : ℕ → Sql (List Row) ℕ
delete_expired now = stmt (delete_where (λ r. ltb r.expires_at (now / second)))

-- `DeleteByUsername`
unfoldable pub delete_by_username : String → Sql (List Row) ℕ
delete_by_username username = stmt (delete_where (has_username username))
