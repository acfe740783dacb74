-- ===== src/Auth/Local/Tests.antt =====
-- Runs of the local store, and its theorems at concrete inputs.
use cairn_mdm.Prelude.{◌≡◌, refl, String, Bool, [], ◌∷◌, arith, count}
use cairn_mdm.Sql.{
  Result, ok, err, working, stmt, ◌>>=◌, ◌>>◌, catch, pure, fail, message, invalid_credentials,
}
use cairn_mdm.Prelude.{◌==◌, string_eq}
use cairn_mdm.Auth.Local.{
  User, Tables, is_admin, create_user, authenticate, guard, delete_user, remove_user,
}
use cairn_mdm.Auth.Local.LastAdmin.{
  HasAdmin, interleaved, delete_user-HasAdmin, race_removes_all_admins,
}

-- a stand-in for Argon2id
abbrev plain_hash : String → Result String
plain_hash p = ok p

abbrev plain_compare : String → String → Result Bool
plain_compare p h = ok (p == h)

abbrev root : User
root = record { username = "root"; password_hash = "secret12"; role = "admin"; display_name = "" }

abbrev ann : User
ann = record { username = "ann"; password_hash = "secret34"; role = "admin"; display_name = "Ann" }

abbrev tables : Tables
tables = record { users = root ∷ ann ∷ []; sessions = "ann" ∷ "root" ∷ "ann" ∷ [] }

local_tests :
    ((create_user plain_hash plain_compare 8 "ann" "secret34" "admin" "Ann"
        (working (record { users = root ∷ []; sessions = [] }))).1.rows.users
      ≡ root ∷ ann ∷ [])
    × ((create_user plain_hash plain_compare 8 "bob" "short" "user" "" (working tables)).1
        ≡ working tables)
    × ((authenticate plain_hash plain_compare 8 "ann" "wrong" (working tables)).0
        ≡ err invalid_credentials)
    × ((delete_user "ann" (working tables)).1.rows
        ≡ record { users = root ∷ []; sessions = "root" ∷ [] })
    × ((delete_user "root" (delete_user "ann" (working tables)).1).0
        ≡ err (message "auth: refusing to delete the last admin account"))
unfolding create_user authenticate delete_user guard catch stmt pure fail ◌>>=◌
    cairn_mdm.Auth.Role.valid
local_tests = (refl, refl, refl, refl, refl)

delete_user-HasAdmin_example : HasAdmin (delete_user "ann" (working tables)).1.rows
delete_user-HasAdmin_example =
    delete_user-HasAdmin "ann" (working tables) (refl, (refl, tt)) (omega arith)

race_removes_all_admins_example :
    (delete_user "ann" ≡ (guard "ann" >> remove_user "ann"))
    × (delete_user "root" ≡ (guard "root" >> remove_user "root"))
    × ((interleaved "ann" "root" (working tables)).0 ≡ ok tt)
    × (count is_admin (interleaved "ann" "root" (working tables)).1.rows.users ≡ 0)
race_removes_all_admins_example =
    race_removes_all_admins "ann" "root" tables ann root (refl, (refl, tt)) refl refl refl refl refl
      refl
