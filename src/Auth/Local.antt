-- ===== src/Auth/Local.antt =====
-- Local accounts (internal/auth/local.go), the tables `app_users` and `app_sessions`. Argon2id is a
-- parameter: `create_hash` and `compare` may fail, and what the timing decoy computes is dropped.
-- `len` of a Go string counts bytes, as `String.len` does.
pub mod LastAdmin
mod Tests
use Prim.Native.String.{len}
use cairn_mdm.Prelude.{
  ℕ, ◌+◌, String, Bool, true, false, ◌||◌, ◌&&◌, List, [], ◌∷◌, ◌++◌, Option, none, some, ltb, leb,
  if◌then◌else◌, nat_eq, string_eq, ◌==◌, select, update, count, find, any, not,
}
use cairn_mdm.Prelude.Int.{ℤ, pos, negsuc}
use cairn_mdm.Sql.{
  Sql, Result, ok, err, Error, no_rows, driver, constraint, message, invalid_credentials, query_row,
  stmt, pure, fail, catch, ◌>>=◌, ◌>>◌,
}
use cairn_mdm.Auth.Role.{Role, Identity, valid, role_admin}

-- a row of `app_users`
pub record User : Type 0 where
  pub username : String
  pub password_hash : String
  pub role : Role
  pub display_name : String

-- the two tables; of a session only its user matters here
pub record Tables : Type 0 where
  pub users : List User
  pub sessions : List String

abbrev pub is_user : String → User → Bool
is_user name u = u.username == name

abbrev pub is_admin : User → Bool
is_admin u = u.role == role_admin

-- `SetMinPasswordLen`
unfoldable pub min_password_len : ℤ → ℕ
min_password_len (pos n) = n
min_password_len (negsuc n) = 0

-- `INSERT INTO app_users`; `username` is the primary key
abbrev pub insert_user : User → Tables → Result (Unit {0}) × Tables
insert_user u t =
    if any (is_user u.username) t.users
    then (err constraint, t)
    else (ok tt, record t { users = t.users ++ u ∷ [] })

-- `UPDATE app_users SET password_hash`, with the number of rows that it changes
abbrev pub update_password : String → String → Tables → Result ℕ × Tables
update_password hash name t = (
  ok (count (is_user name) t.users),
  record t { users = update (is_user name) (λ u. record u { password_hash = hash }) t.users },
)

abbrev pub read_user : String → Tables → Result User × Tables
read_user name t = query_row t (find (is_user name) t.users)

module _ (create_hash : String → Result String) (compare : String → String → Result Bool)
    (min_len : ℕ) where
  abbrev hashed : String → (String → Sql Tables (Unit {0})) → Sql Tables (Unit {0})
  hashed password k = elim (create_hash password) [ ok h ↦ k h | err e ↦ fail e ]

  -- `CreateUser`
  unfoldable pub create_user : String → String → Role → String → Sql Tables (Unit {0})
  create_user username password role display_name =
      if username == "" || password == ""
      then fail (message "auth: username and password are required")
      else if ltb (len password) min_len
      then fail (message "auth: password must be at least that many characters")
      else if not (valid role)
      then fail (message "auth: invalid role")
      else hashed password λ h. stmt (
          insert_user (record {
            username = username;
            password_hash = h;
            role = role;
            display_name = display_name;
          }))

  -- `SetPassword`
  unfoldable pub set_password : String → String → Sql Tables (Unit {0})
  set_password username password =
      if ltb (len password) min_len
      then fail (message "auth: password must be at least that many characters")
      else hashed password λ h. do
        n ← stmt (update_password h username)
        if n == 0 then fail (message "auth: no such user") else pure tt

  abbrev pub verdict : String → User → Result Bool → Sql Tables Identity
  verdict username u (ok true) = pure (record {
    username = username;
    display_name = u.display_name;
    role = u.role;
    provider = "local";
  })
  verdict username u (ok false) = fail invalid_credentials
  verdict username u (err e) = fail e

  abbrev pub check_user : String → String → Result User → Sql Tables Identity
  check_user username password (ok u) = verdict username u (compare password u.password_hash)
  check_user username password (err no_rows) = fail invalid_credentials
  check_user username password (err e) = fail e

  -- `Authenticate`
  unfoldable pub authenticate : String → String → Sql Tables Identity
  authenticate username password = catch (stmt (read_user username)) (check_user username password)

-- `UserRole`
unfoldable pub user_role : String → Sql Tables Role
user_role username = do u ← stmt (read_user username); pure u.role

-- `CountUsers`
unfoldable pub count_users : Sql Tables ℕ
count_users = stmt (λ t. (ok (count (λ u. true) t.users), t))

abbrev pub count_admins : Tables → Result ℕ × Tables
count_admins t = (ok (count is_admin t.users), t)

abbrev pub delete_user_row : String → Tables → Result (Unit {0}) × Tables
delete_user_row name t = (ok tt, record t { users = select (λ u. not (is_user name u)) t.users })

abbrev pub delete_user_sessions : String → Tables → Result (Unit {0}) × Tables
delete_user_sessions name t =
    (ok tt, record t { sessions = select (λ s. not (s == name)) t.sessions })

-- the two DELETE statements at the end of `DeleteUser`
abbrev pub remove_user : String → Sql Tables (Unit {0})
remove_user username = do stmt (delete_user_row username); stmt (delete_user_sessions username)

-- the guard of the last admin
abbrev pub after_role : Result Role → Sql Tables (Unit {0})
after_role (ok role) =
    if role == role_admin
    then (do
      admins ← stmt count_admins
      if leb admins 1
          then fail (message "auth: refusing to delete the last admin account")
          else pure tt)
    else pure tt
after_role (err no_rows) = fail (message "auth: no such user")
after_role (err e) = fail e

-- `DeleteUser` up to its two DELETE statements: what it reads and refuses
unfoldable pub guard : String → Sql Tables (Unit {0})
unfolding user_role
guard username = catch (user_role username) after_role

-- `DeleteUser`
unfoldable pub delete_user : String → Sql Tables (Unit {0})
unfolding guard
delete_user username = guard username >> remove_user username
