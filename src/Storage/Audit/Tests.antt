-- ===== src/Storage/Audit/Tests.antt =====
-- The audit log at concrete inputs.
use cairn_mdm.Prelude.{[], ◌∷◌, ◌≡◌, refl}
use cairn_mdm.Prelude.Int.{negsuc}
use cairn_mdm.Sql.{ok, working, stmt}
use cairn_mdm.Storage.Audit.{AuditEntry, append_audit, list_audit, newest_first}

abbrev entry : AuditEntry
entry = record {
  id = 0;
  at_time = 0;
  username = "ann";
  provider = "local";
  action = "POST";
  target = "/admin/groups";
  result = "303";
  remote = "192.0.2.7";
}

abbrev old : AuditEntry
old = record entry { id = 4; at_time = 7 }

audit_tests :
    ((append_audit 9 entry (working (old ∷ []))).1.rows
      ≡ old ∷ record entry { id = 5; at_time = 9 } ∷ [])
    × ((list_audit (negsuc 3) (working (old ∷ record entry { id = 5; at_time = 9 } ∷ []))).0
        ≡ ok (record entry { id = 5; at_time = 9 } ∷ old ∷ []))
unfolding append_audit list_audit newest_first stmt
audit_tests = (refl, refl)
