-- ===== src/Storage/Audit.antt =====
-- The audit log (internal/storage/sqlite/audit.go), the table `audit_log`. Times are whole seconds;
-- the columns that may be NULL are written by every call, so they are plain text here.
mod Order
mod Tests
use cairn_mdm.Prelude.{
  ℕ, ◌+◌, String, Bool, List, [], ◌∷◌, ◌++◌, ltb, leb, nat_eq, ◌==◌, if◌then◌else◌, take, sort_by,
}
use cairn_mdm.Prelude.Int.{ℤ, pos, negsuc}
use cairn_mdm.Sql.{Sql, ok, stmt}

pub record AuditEntry : Type 0 where
  pub id : ℕ
  pub at_time : ℕ
  pub username : String
  pub provider : String
  pub action : String
  pub target : String
  pub result : String
  pub remote : String

-- the row id that SQLite gives to a new row: one more than the largest
abbrev pub next_id : List AuditEntry → ℕ
next_id [] = 1
next_id (e ∷ es) = let n = next_id es in if leb n e.id then e.id + 1 else n

abbrev pub stamped : ℕ → AuditEntry → List AuditEntry → AuditEntry
stamped now e rows = record e { id = next_id rows; at_time = now }

-- `AppendAudit`; the database gives the id and the time
unfoldable pub append_audit : ℕ → AuditEntry → Sql (List AuditEntry) (Unit {0})
append_audit now e = stmt (λ rows. (ok tt, rows ++ stamped now e rows ∷ []))

abbrev pub later_id : AuditEntry → AuditEntry → Bool
later_id a b = ltb b.id a.id

abbrev pub limit_or : ℕ → ℤ → ℕ
limit_or default (pos n) = if n == 0 then default else n
limit_or default (negsuc n) = default

-- `ORDER BY id DESC`
unfoldable pub newest_first : List AuditEntry → List AuditEntry
newest_first rows = sort_by later_id rows

-- `ListAudit`
unfoldable pub list_audit : ℤ → Sql (List AuditEntry) (List AuditEntry)
unfolding newest_first
list_audit limit = stmt (λ rows. (ok (take (limit_or 200 limit) (newest_first rows)), rows))
