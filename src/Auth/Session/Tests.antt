-- ===== src/Auth/Session/Tests.antt =====
-- Runs of the session store, and its theorems at concrete inputs.
use cairn_mdm.Prelude.{ℕ, ◌*◌, ◌≤◌, ◌≡◌, ◌≢◌, refl, String, [], ◌∷◌, some, find}
use cairn_mdm.Prelude.Int.{pos, negsuc}
use cairn_mdm.Sql.{err, no_session, working, stmt, ◌>>=◌, catch}
use cairn_mdm.Auth.Role.{Identity}
use cairn_mdm.Auth.Session
use cairn_mdm.Auth.Session.{
  Row, Session, SessionStore, second, has_token, session_of, get, create, delete,
  delete_by_username, cap_of, renewed, set_max_lifetime,
}
use cairn_mdm.Auth.Session.Reading.{Honours, get-Honours}
use cairn_mdm.Auth.Session.Ending.{delete_by_username_ends}

-- a stand-in for SHA-256
abbrev same : String → String
same raw = raw

abbrev store : SessionStore
store = record { ttl = 60 * second; max_lifetime = 100 * second }

abbrev ann : Identity
ann = record { username = "ann"; display_name = "Ann"; role = "operator"; provider = "" }

abbrev row : Row
row = record {
  token = "t";
  username = "ann";
  role = "operator";
  display_name = "Ann";
  provider = "local";
  csrf_token = "c";
  created_at = some 1000;
  expires_at = 1060;
}

session_tests :
    (set_max_lifetime (Session.new (negsuc 0)) (pos 5)
      ≡ record { ttl = 43200 * second; max_lifetime = 5 })
    × ((create same store (1000 * second) "t" "c" ann (working [])).1.rows ≡ row ∷ [])
    × ((get same store (1050 * second) "t" (working (row ∷ []))).1.rows
        ≡ record row { expires_at = 1100 } ∷ [])
    × ((get same store (1050 * second) "x" (working (row ∷ []))).0 ≡ err no_session)
unfolding Session.new set_max_lifetime get create catch stmt ◌>>=◌
session_tests = (refl, refl, refl, refl)

get-Honours_example :
    (r : Row) × (find (has_token "t") (row ∷ []) ≡ some r)
    × (◌≢◌ {A = String} "t" "")
    × Honours same store (1050 * second) "t" r (session_of "t" row (1100 * second))
    × ((cap : ℕ)
        → cap_of store r ≡ some cap
        → (1050 * second ≤ cap) × (renewed store (1050 * second) (cap_of store r) ≤ cap))
unfolding get catch stmt
get-Honours_example = get-Honours same store (1050 * second) "t" (working (row ∷ [])) _ refl

delete_by_username_ends_example : ◌≢◌ {A = String} "ann" "bob"
unfolding get catch stmt delete_by_username
delete_by_username_ends_example =
    delete_by_username_ends same store (1050 * second) "t" "bob" (working (row ∷ [])) 0 _ refl refl
