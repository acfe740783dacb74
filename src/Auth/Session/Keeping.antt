-- ===== src/Auth/Session/Keeping.antt =====
-- What a read of a session leaves of its row: only the expiry may change, or the row goes.
use cairn_mdm.Prelude.{
  ℕ, ◌≡◌, ◌≢◌, ◌∙◌, ◌*◌, refl, Option-cases, inl, inr, String, not, List, some, arith, string_eq,
  ◌==◌, ltb, select, update, find, find-update, ap, sym, find-holds, find-select,
}
use cairn_mdm.Sql.{Result, ok, err, no_rows}
use cairn_mdm.Sql.Keeps.{
  Keeps, Keeps-stmt, Keeps-pure, Keeps-fail, Keeps-if, Keeps-catch, Keeps-bind,
}
use cairn_mdm.Auth.Session.{
  Row, SessionStore, second, has_token, delete_where, set_expiry, read_row, reject, cap_of, is_past,
  renewed, renew, after_renewal, after_read, get, delete,
}

-- The row behind a token hash is the one of before, but for its expiry.
pub record SameRow (x y : Row) : Type 0 where
  pub csrf : x.csrf_token ≡ y.csrf_token
  pub role : x.role ≡ y.role

pub record Traces (h : String) (before after : List Row) : Type 0 where
  pub origin :
      (x : Row)
      → find (has_token h) after ≡ some x
      → (y : Row) × (find (has_token h) before ≡ some y) × SameRow x y

pub Traces-refl : (h : String) (rows : List Row) → Traces h rows rows
Traces-refl h rows = record { origin = λ x e. (x, e, record { csrf = refl; role = refl }) }

find-set_expiry :
    (h : String) (n : ℕ) (rows : List Row) (x : Row)
    → find (has_token h) (update (has_token h) (λ r. record r { expires_at = n }) rows) ≡ some x
    → (y : Row) × (find (has_token h) rows ≡ some y) × SameRow x y
find-set_expiry h n rows x e =
    let (y, found, to) =
      find-update (has_token h) (λ r. record r { expires_at = n }) rows x (λ r. refl) e in
    (
      y,
      found,
      record {
        csrf = sym (ap (λ (r : Row). r.csrf_token) to);
        role = sym (ap (λ (r : Row). r.role) to);
      },
    )

module _ (hash : String → String) (s : SessionStore) (now : ℕ) (token : String)
    (before : List Row) where
  abbrev Kept : List Row → Type 0
  Kept rows = Traces (hash token) before rows

  set_expiry-Kept : (n : ℕ) (rows : List Row) → Kept rows → Kept (set_expiry (hash token) n rows).1
  set_expiry-Kept n rows h = record {
    origin = λ x e.
        let (y, found, same) = find-set_expiry (hash token) n rows x e in
        let (z, first, same_first) = h.origin y found in
        (
          z,
          first,
          record { csrf = same.csrf ∙ same_first.csrf; role = same.role ∙ same_first.role },
        );
  }

  delete-Kept : (rows : List Row) → Kept rows → Kept (delete_where (has_token (hash token)) rows).1
  delete-Kept rows h = record { origin = λ x e. absurd (gone x e) }
    where
      gone :
          (x : Row)
          → find (has_token (hash token)) (select (λ r. not (has_token (hash token) r)) rows)
            ≢ some x
      gone x e = ground (
        arith,
        find-holds (has_token (hash token)) _ x e,
        find-select (has_token (hash token)) (λ r. not (has_token (hash token) r)) rows x e,
      )

  reject-Kept : Keeps Kept (reject hash token)
  unfolding delete
  reject-Kept =
      Keeps-catch _ _ (Keeps-bind _ _ (Keeps-stmt _ delete-Kept) (λ u. Keeps-pure tt))
        (λ r. Keeps-fail _)

  renew-Kept : (r : Row) (exp new_exp : ℕ) → Keeps Kept (renew hash token r exp new_exp)
  renew-Kept r exp new_exp =
      Keeps-if (ltb exp new_exp) _ _
        (Keeps-catch _ _ (Keeps-stmt _ (set_expiry-Kept _)) (λ o. settled o)) (Keeps-pure _)
    where
      settled : (o : Result (Unit {0})) → Keeps Kept (after_renewal hash token r exp new_exp o)
      settled (ok u) = Keeps-pure _
      settled (err e) = Keeps-pure _

  after_read-Kept : (o : Result Row) → Keeps Kept (after_read hash s now token o)
  after_read-Kept (ok r) = Keeps-if (ltb (r.expires_at * second) now) _ _ reject-Kept (
      Keeps-if (is_past now (cap_of s r)) _ _ reject-Kept
        (renew-Kept r (r.expires_at * second) (renewed s now (cap_of s r))))
  after_read-Kept (err no_rows) = Keeps-fail _
  after_read-Kept (err e) = Keeps-fail e

  read_row-Kept : (rows : List Row) → Kept rows → Kept (read_row (hash token) rows).1
  read_row-Kept rows h = elim (Option-cases (find (has_token (hash token)) rows)) [
    | inl e ↦ rw e h
    | inr (r, e) ↦ rw e h
  ]

  -- whatever statements fail
  pub get-Kept : Keeps Kept (get hash s now token)
  unfolding get
  get-Kept =
      Keeps-if (token == "") _ _ (Keeps-fail _)
        (Keeps-catch _ _ (Keeps-stmt _ read_row-Kept) after_read-Kept)
