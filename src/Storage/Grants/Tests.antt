-- ===== src/Storage/Grants/Tests.antt =====
-- Runs of the grant table, and its theorems at concrete inputs.
use cairn_mdm.Prelude.{
  ◌+◌, ◌≤◌, ◌≡◌, refl, String, List, [], ◌∷◌, none, some, arith, find, nat_eq, string_eq,
}
use cairn_mdm.Prelude.Int.{negsuc}
use cairn_mdm.Sql.{Conn, ok, err, driver, grant_invalid, constraint, stmt, ◌>>=◌, catch}
use cairn_mdm.Storage.Grants
use cairn_mdm.Storage.Grants.{
  Grant, Request, create_grant, redeem_grant, revoke_grant, get_grant, use_once,
}
use cairn_mdm.Storage.Grants.Budget.{
  Op, redeem, revoke, delete_expired, budget, run, redemptions, redemptions-le-budget,
}
use cairn_mdm.Storage.Grants.Redeeming.{granted, used_at, redeem_exact, revoked_is_final}

-- a stand-in for SHA-256
abbrev same : String → String
same raw = raw

abbrev ask : Request
ask = record {
  label = "laptop";
  platform = "";
  owner = "ann@example.org";
  created_by = "root";
  expires_at = 100;
  max_uses = negsuc 4;
  expected_serial = "";
}

abbrev once : Grant
once = record {
  id = 1;
  token_hash = "t";
  label = "laptop";
  platform = "any";
  owner = "ann@example.org";
  created_by = "root";
  created_at = 10;
  expires_at = 100;
  max_uses = 1;
  use_count = 0;
  revoked_at = none;
  expected_serial = "";
  last_used_at = none;
}

abbrev table : Conn (List Grant)
table = record { rows = once ∷ []; faults = [] }

grant_tests :
    (create_grant 10 ask "t" (record { rows = []; faults = [] }) ≡ (ok 1, table))
    × ((create_grant 10 ask "t" table).0 ≡ err constraint)
    × ((redeem_grant same 50 "t" table).1.rows ≡ use_once 50 once ∷ [])
    × ((redeem_grant same 60 "t" (redeem_grant same 50 "t" table).1).0 ≡ err grant_invalid)
    × ((redeem_grant same 100 "t" table).0 ≡ err grant_invalid)
    × ((revoke_grant 50 7 table).0 ≡ err cairn_mdm.Sql.no_rows)
    × ((revoke_grant 50 1 (revoke_grant 50 1 table).1).0 ≡ ok tt)
unfolding create_grant redeem_grant revoke_grant get_grant stmt ◌>>=◌ catch
grant_tests = (refl, refl, refl, refl, refl, refl, refl)

abbrev rush : List Op
rush = redeem 50 "t" ∷ redeem 50 "t" ∷ revoke 60 1 ∷ redeem 70 "t" ∷ delete_expired 300 50 ∷ []

redemptions-le-budget_example :
    redemptions same "t" table rush + budget "t" (run same table rush).rows ≤ 1
redemptions-le-budget_example = redemptions-le-budget same "t" table rush (omega arith)

redeem_exact_example :
    ((redeem_grant same 50 "t" table).0 ≡ ok (granted once))
    × (find (Grants.has_hash "t") (redeem_grant same 50 "t" table).1.rows ≡ some (used_at 50 once))
redeem_exact_example = redeem_exact same 50 "t" table "t" (refl, tt) refl

revoked_is_final_example : redemptions same "t" (revoke_grant 60 1 table).1 (redeem 70 "t" ∷ []) ≡ 0
revoked_is_final_example =
    revoked_is_final same 60 1 once table (redeem 70 "t" ∷ []) (refl, tt) refl refl (omega arith)
