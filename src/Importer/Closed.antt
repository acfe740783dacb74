-- ===== src/Importer/Closed.antt =====
-- What stands behind the verdict of a run.
use cairn_mdm.Prelude.{
  ℕ, ◌≡◌, refl, ap, ◌∙◌, subst, arith, eq_iff, String, true, false, ◌&&◌, not, List, [], ◌∷◌, ◌++◌,
  map, Option, none, some, string_eq, ◌==◌, ltb, All, any, Bool-cases, inl, inr,
}
use cairn_mdm.Prelude.Dict
use cairn_mdm.Prelude.Dict.{Dict}
use cairn_mdm.Importer.{
  EnrollmentRow, CertAuthRow, Options, Mismatch, topic_differs, magic_differs, Report, is_ok,
  none_of, device_id, PushInfo, Destination, Source, Step, resume, next, reading,
}
use cairn_mdm.Importer.Verify.{
  by_id, unless_same, compare_info, compare_all, enabled_rows, check_associations, mismatches_of,
  verify, disable_all, finish, counted, phases, gate, run,
}

append-nil_left : (xs ys : List Mismatch) → xs ++ ys ≡ [] → xs ≡ []
append-nil_left [] ys h = refl
append-nil_left (x ∷ xs) ys h = cc

append-nil_right : (xs ys : List Mismatch) → xs ++ ys ≡ [] → ys ≡ []
append-nil_right [] ys h = h
append-nil_right (x ∷ xs) ys h = cc

unless_same-nil : (s t : String) (m : Mismatch) → unless_same s t m ≡ [] → s ≡ t
unless_same-nil s t m h = ground (arith, eq_iff s t)

-- The push information of an enrollment, as the destination answers it, is that of the source.
abbrev pub Agrees : Option EnrollmentRow → Option PushInfo → Type 0
Agrees none p = ⊥
Agrees (some e) p =
    (i : PushInfo) × (p ≡ some i)
    × (i.topic ≡ e.topic)
    × (i.push_magic ≡ e.push_magic)
    × (i.token_hex ≡ e.token_hex)

by_id-found :
    (id : String) (es : List EnrollmentRow) (e : EnrollmentRow)
    → (x : EnrollmentRow) × (by_id id es (some e) ≡ some x)
by_id-found id [] e = (e, refl)
by_id-found id (y ∷ ys) e = elim (Bool-cases (y.id == id)) [
  | inl t ↦ rw t (by_id-found id ys y)
  | inr t ↦ rw t (by_id-found id ys e)
]

by_id-member :
    (id : String) (es : List EnrollmentRow)
    → any (λ y. y.id == id) es ≡ true
    → (x : EnrollmentRow) × (by_id id es none ≡ some x)
by_id-member id [] h = cc
by_id-member id (y ∷ ys) h = elim (Bool-cases (y.id == id)) [
  | inl t ↦ rw t (by_id-found id ys y)
  | inr t ↦ rw t (by_id-member id ys (ground arith))
]

-- The row has its own ID among the rows.
abbrev Listed : List EnrollmentRow → EnrollmentRow → Type 0
Listed rows e = any (λ y. y.id == e.id) rows ≡ true

weaken-Listed :
    (y : EnrollmentRow) (rows es : List EnrollmentRow)
    → All (Listed rows) es
    → All (Listed (y ∷ rows)) es
weaken-Listed y rows [] h = tt
weaken-Listed y rows (e ∷ es) (h, hs) = (ground arith, weaken-Listed y rows es hs)

rows-Listed : (rows : List EnrollmentRow) → All (Listed rows) rows
rows-Listed [] = tt
rows-Listed (y ∷ ys) = (ground (arith, eq_iff y.id y.id), weaken-Listed y ys ys (rows-Listed ys))

enabled-Listed :
    (rows es : List EnrollmentRow) → All (Listed rows) es → All (Listed rows) (enabled_rows es)
enabled-Listed rows [] h = tt
enabled-Listed rows (e ∷ es) (h, hs) = elim (Bool-cases e.enabled) [
  | inl t ↦ rw t (h, enabled-Listed rows es hs)
  | inr t ↦ rw t (enabled-Listed rows es hs)
]

compare_info-Agrees :
    (id : String) (e : EnrollmentRow) (o : Option PushInfo)
    → compare_info id (some e) o ≡ []
    → Agrees (some e) o
compare_info-Agrees id e none h = cc
compare_info-Agrees id e (some p) h =
    let rest = append-nil_right (unless_same p.topic e.topic (topic_differs id)) _ h in
    (
      p,
      refl,
      unless_same-nil _ _ _ (append-nil_left (unless_same p.topic e.topic (topic_differs id)) _ h),
      unless_same-nil _ _ _
          (append-nil_left (unless_same p.push_magic e.push_magic (magic_differs id)) _ rest),
      unless_same-nil _ _ _
          (append-nil_right (unless_same p.push_magic e.push_magic (magic_differs id)) _ rest),
    )

compare_all-Agrees :
    (rows : List EnrollmentRow) (infos : Dict PushInfo) (es : List EnrollmentRow)
    → All (Listed rows) es
    → compare_all rows infos es ≡ []
    → All (λ e. Agrees (by_id e.id rows none) (Dict.lookup e.id infos)) es
compare_all-Agrees rows infos [] l h = tt
compare_all-Agrees rows infos (e ∷ es) (l, ls) h =
    let (x, found) = by_id-member e.id rows l in
    let first =
      append-nil_left (compare_info e.id (by_id e.id rows none) (Dict.lookup e.id infos)) _ h in
    let others =
      append-nil_right (compare_info e.id (by_id e.id rows none) (Dict.lookup e.id infos)) _ h in
    (
      rw found (compare_info-Agrees e.id x _ (rw found at first)),
      compare_all-Agrees rows infos es ls others,
    )

module _ {D M : Type 0} (dst : Destination D M) where
  -- Every enabled enrollment can be pushed to as before, and every certificate is known.
  pub record IsVerified (rows : List EnrollmentRow) (certs : List CertAuthRow) (d : D)
      : Type 0 where
    pub infos : Dict PushInfo
    pub answers : dst.push_info (map (λ e. e.id) (enabled_rows rows)) d ≡ some infos
    pub pushable :
        All (λ e. Agrees (by_id e.id rows none) (Dict.lookup e.id infos)) (enabled_rows rows)
    pub known :
        All (λ (a : CertAuthRow). dst.is_associated (device_id a.id) a.sha256 d ≡ true) certs

  check_associations-known :
      (certs : List CertAuthRow) (d : D)
      → check_associations dst certs d ≡ []
      → All (λ (a : CertAuthRow). dst.is_associated (device_id a.id) a.sha256 d ≡ true) certs
  check_associations-known [] d h = tt
  check_associations-known (a ∷ rest) d h =
      elim (Bool-cases (dst.is_associated (device_id a.id) a.sha256 d)) [
        | inl t ↦ (t, check_associations-known rest d (rw t at h))
        | inr t ↦ ground arith
      ]

  mismatches_of-IsVerified :
      (rows : List EnrollmentRow) (certs : List CertAuthRow) (d : D) (o : Option (Dict PushInfo))
      → dst.push_info (map (λ e. e.id) (enabled_rows rows)) d ≡ o
      → mismatches_of dst rows certs d o ≡ []
      → IsVerified rows certs d
  mismatches_of-IsVerified rows certs d none read h = cc
  mismatches_of-IsVerified rows certs d (some infos) read h = record {
    infos = infos;
    answers = read;
    pushable =
        compare_all-Agrees rows infos (enabled_rows rows)
          (enabled-Listed rows rows (rows-Listed rows))
          (append-nil_left (compare_all rows infos (enabled_rows rows)) _ h);
    known =
        check_associations-known certs d
          (append-nil_right (compare_all rows infos (enabled_rows rows)) _ h);
  }

  abbrev mismatches : Option Report → List Mismatch
  mismatches none = []
  mismatches (some r) = r.mismatches

  ok-no_mismatch : (r : Report) → is_ok r ≡ true → none_of r.mismatches ≡ true
  unfolding is_ok
  ok-no_mismatch r h = ground arith

  none_of-nil : (xs : List Mismatch) → none_of xs ≡ true → xs ≡ []
  none_of-nil [] h = refl
  none_of-nil (x ∷ xs) h = cc

  verify-IsVerified :
      (rows : List EnrollmentRow) (certs : List CertAuthRow) (r r' : Report) (d d' : D)
      → verify dst rows certs r d ≡ (some r', d')
      → is_ok r' ≡ true
      → IsVerified rows certs d'
  unfolding verify
  verify-IsVerified rows certs r r' d d' h good =
      let found = ap (λ (p : Option Report × D). mismatches p.0) h in
      let none_left = found ∙ none_of-nil r'.mismatches (ok-no_mismatch r' good) in
      subst (IsVerified rows certs) (ap (λ (p : Option Report × D). p.1) h)
        (mismatches_of-IsVerified rows certs d _ refl (append-nil_right r.mismatches _ none_left))

module _ {D : Type 0} where
  next-some :
      (f g : Step D) (r r' : Report) (d d' : D)
      → next f g r d ≡ (some r', d')
      → (s : Report) × (e : D) × (g s e ≡ (some r', d'))
  unfolding next
  next-some f g r r' d d' h = go (f r d).0 refl h
    where
      go :
          (o : Option Report)
          → (f r d).0 ≡ o
          → resume o g (f r d).1 ≡ (some r', d')
          → (s : Report) × (e : D) × (g s e ≡ (some r', d'))
      go none o h = ground (arith, ap (λ (p : Option Report × D). p.0) h)
      go (some s) o h = (s, (f r d).1, h)

  reading-some :
      {A : Type 0}
      → (o : Option A) (f : A → Step D) (r r' : Report) (d d' : D) → reading o f r d ≡ (some r', d')
      → (a : A) × (o ≡ some a) × (f a r d ≡ (some r', d'))
  reading-some none f r r' d d' h = ground (arith, ap (λ (p : Option Report × D). p.0) h)
  reading-some (some a) f r r' d d' h = (a, refl, h)

module _ {D M : Type 0} (dst : Destination D M) (now : ℕ) (o : Options) where
  finish-IsVerified :
      (rows : List EnrollmentRow) (certs : List CertAuthRow) (r r' : Report) (d d' : D)
      → o.dry_run ≡ false
      → finish dst now o rows certs r d ≡ (some r', d')
      → is_ok r' ≡ true
      → IsVerified dst rows certs d'
  finish-IsVerified rows certs r r' d d' live h good =
      let (s, e, last) =
        next-some (disable_all dst rows) (verify dst rows certs) r r' d d' (rw live at h) in
      verify-IsVerified dst rows certs s r' e d' last good

  -- What a run that is safe to cut over has read and checked.
  pub record IsSafe (src : Source) (d : D) : Type 0 where
    pub rows : List EnrollmentRow
    pub certs : List CertAuthRow
    pub enrollments : src.enrollments ≡ some rows
    pub associations : src.associations ≡ some certs
    pub verified : IsVerified dst rows certs d

  phases-IsSafe :
      (src : Source) (r r' : Report) (d d' : D)
      → o.dry_run ≡ false
      → phases dst now o src r d ≡ (some r', d')
      → is_ok r' ≡ true
      → IsSafe src d'
  phases-IsSafe src r r' d d' live h good =
      let (r1, d1, h1) = next-some _ _ r r' d d' h in
      let (r2, d2, h2) = next-some _ _ r1 r' d1 d' h1 in
      let (r3, d3, h3) = next-some _ _ r2 r' d2 d' h2 in
      let (certs, c, h4) = reading-some src.associations _ r3 r' d3 d' h3 in
      let (r5, d5, h5) = next-some _ _ r3 r' d3 d' h4 in
      let (r6, d6, h6) = next-some _ _ r5 r' d5 d' h5 in
      let (rows, e, h7) = reading-some src.enrollments _ r6 r' d6 d' h6 in
      record {
        rows = rows;
        certs = certs;
        enrollments = e;
        associations = c;
        verified = finish-IsVerified rows certs (counted dst now o rows r6) r' d6 d' live h7 good;
      }

  -- When a run that is not a dry run returns a report that is OK, then in the destination that it
  -- leaves every enabled enrollment of the source has push information with the topic, the push
  -- magic and the token of the last source row of its ID, and every certificate of the source is
  -- associated with its device.
  pub run-IsSafe :
      (src : Source) (r : Report) (d d' : D)
      → o.dry_run ≡ false
      → run dst now o src d ≡ (some r, d')
      → is_ok r ≡ true
      → IsSafe src d'
  unfolding run
  run-IsSafe src r d d' live h good = go src.pending h
    where
      go : (p : Option ℕ) → gate dst now o src p d ≡ (some r, d') → IsSafe src d'
      go none h = ground (arith, ap (λ (q : Option Report × D). q.0) h)
      go (some n) h = elim (Bool-cases (ltb 0 n && not o.allow_pending)) [
        | inl t ↦ ground (arith, ap (λ (q : Option Report × D). q.0) (rw t at h))
        | inr t ↦ phases-IsSafe src _ r d d' live (rw t at h) good
      ]
