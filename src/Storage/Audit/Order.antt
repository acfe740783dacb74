-- ===== src/Storage/Audit/Order.antt =====
-- The order in which the audit log is read.
use cairn_mdm.Prelude.{ℕ, ◌<◌, ◌≤◌, List, [], ◌∷◌, ◌++◌, ◌≡◌, refl, arith, All, take}
use cairn_mdm.Prelude.Int.{ℤ}
use cairn_mdm.Sql.{ok, stmt, working}
use cairn_mdm.Storage.Audit.{
  AuditEntry, next_id, stamped, append_audit, list_audit, newest_first, limit_or,
}

next_id-bound : (rows : List AuditEntry) → All (λ e. e.id < next_id rows) rows
next_id-bound [] = tt
next_id-bound (e ∷ es) =
    (ground arith, widen es (next_id es) (next_id (e ∷ es)) (next_id-bound es) (ground arith))
  where
    widen :
        (rows : List AuditEntry) (n m : ℕ)
        → All (λ e. e.id < n) rows
        → n ≤ m
        → All (λ e. e.id < m) rows
    widen [] n m h le = tt
    widen (x ∷ xs) n m (h, hs) le = (ground arith, widen xs n m hs le)

newest_first-last :
    (rows : List AuditEntry) (e : AuditEntry)
    → All (λ x. x.id < e.id) rows
    → newest_first (rows ++ e ∷ []) ≡ e ∷ newest_first rows
unfolding newest_first
newest_first-last [] e h = refl
newest_first-last (x ∷ xs) e (h, hs) = rw (newest_first-last xs e hs) (ground arith)

-- Where no statement fails, the entry that a call of `AppendAudit` has written is the first one that
-- `ListAudit` then shows, and behind it stand the entries that were shown before, less the last one
-- where the limit is reached; a limit that is not positive stands for 200.
pub list_audit-append_audit :
    (now : ℕ) (limit : ℤ) (e : AuditEntry) (rows : List AuditEntry)
    → (list_audit limit (append_audit now e (working rows)).1).0
      ≡ ok (take (limit_or 200 limit) (stamped now e rows ∷ newest_first rows))
unfolding list_audit append_audit stmt
list_audit-append_audit now limit e rows =
    rw (newest_first-last rows (stamped now e rows) (next_id-bound rows)) refl
