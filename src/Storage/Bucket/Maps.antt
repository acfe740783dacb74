-- ===== src/Storage/Bucket/Maps.antt =====
-- A bucket as a map, and the other buckets beside it.
use cairn_mdm.Prelude.{
  String, Bool, true, false, ◌&&◌, not, List, [], ◌∷◌, ◌++◌, Option, none, some, ◌≡◌, refl,
  if◌then◌else◌, string_eq, ◌==◌, any, find, select, update, arith, eq_iff, Bool-cases,
  Option-cases, inl, inr, ◌∙◌, ap,
}
use cairn_mdm.Sql.{ok, err, key_not_found, Result, working, stmt}
use cairn_mdm.Storage.Bucket.{Entry, is_entry, upsert, value_found, get, set, delete}

-- the map that a bucket stands for
abbrev pub value_of : Option Entry → Option String
value_of none = none
value_of (some e) = some e.value

abbrev pub view : List Entry → String → String → Option String
view rows name key = value_of (find (is_entry name key) rows)

abbrev pub answer_of : Option String → Result String
answer_of none = err key_not_found
answer_of (some v) = ok v

module _ (name key value other asked : String) where
  abbrev pub same : Bool
  same = name == other && key == asked

  view-update :
      (rows : List Entry)
      → any (is_entry name key) rows ≡ true
      → view (update (is_entry name key) (λ e. record e { value = value }) rows) other asked
        ≡ (if same then some value else view rows other asked)
  view-update [] h = cc
  view-update (r ∷ rs) h = ground (
    arith,
    view-update rs,
    view-skip rs,
    eq_iff name other,
    eq_iff key asked,
    eq_iff r.bucket name,
    eq_iff r.key key,
    eq_iff r.bucket other,
    eq_iff r.key asked,
  )
    where
      view-skip :
          (rs : List Entry)
          → any (is_entry name key) rs ≡ false
          → update (is_entry name key) (λ e. record e { value = value }) rs ≡ rs
      view-skip [] k = refl
      view-skip (x ∷ xs) k = ground (arith, view-skip xs)

  view-append :
      (rows : List Entry)
      → any (is_entry name key) rows ≡ false
      → view (rows ++ record { bucket = name; key = key; value = value } ∷ []) other asked
        ≡ (if same then some value else view rows other asked)
  view-append [] h = ground arith
  view-append (r ∷ rs) h = ground (
    arith,
    view-append rs,
    eq_iff name other,
    eq_iff key asked,
    eq_iff r.bucket name,
    eq_iff r.key key,
    eq_iff r.bucket other,
    eq_iff r.key asked,
  )

  view-upsert :
      (rows : List Entry)
      → view (upsert name key value rows) other asked
        ≡ (if same then some value else view rows other asked)
  view-upsert rows = elim (Bool-cases (any (is_entry name key) rows)) [
    | inl e ↦ rw e (view-update rows e)
    | inr e ↦ rw e (view-append rows e)
  ]

  view-select :
      (rows : List Entry)
      → view (select (λ e. not (is_entry name key e)) rows) other asked
        ≡ (if same then none else view rows other asked)
  view-select [] = ground arith
  view-select (r ∷ rs) = ground (
    arith,
    view-select rs,
    eq_iff name other,
    eq_iff key asked,
    eq_iff r.bucket name,
    eq_iff r.key key,
    eq_iff r.bucket other,
    eq_iff r.key asked,
  )

  -- Where no statement fails: reading a key of a bucket answers from the map that the bucket stands for;
  -- after a write it is that map with the written key changed, and after a deletion with the key gone, in
  -- that bucket alone.
  pub bucket_is_map :
      (rows : List Entry)
      → ((get other asked (working rows)).0 ≡ answer_of (view rows other asked))
        × ((get other asked (set name key value (working rows)).1).0
            ≡ answer_of (if same then some value else view rows other asked))
        × ((get other asked (delete name key (working rows)).1).0
            ≡ answer_of (if same then none else view rows other asked))
  unfolding get set delete stmt
  bucket_is_map rows = (
    answered rows,
    answered (upsert name key value rows) ∙ ap answer_of (view-upsert rows),
    answered (select (λ e. not (is_entry name key e)) rows) ∙ ap answer_of (view-select rows),
  )
    where
      answered :
          (rs : List Entry)
          → (value_found rs (find (is_entry other asked) rs)).0 ≡ answer_of (view rs other asked)
      answered rs = elim (Option-cases (find (is_entry other asked) rs)) [
        | inl e ↦ rw e refl
        | inr (x, e) ↦ rw e refl
      ]
