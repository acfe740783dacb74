-- ===== src/Storage/CertAuth/Bindings.antt =====
-- Which certificates an enrollment may use.
use cairn_mdm.Prelude.{
  String, Bool, true, ◌&&◌, ◌||◌, List, [], ◌∷◌, ◌++◌, ◌≡◌, refl, string_eq, ◌==◌, any, arith,
  eq_iff, Bool-cases, inl, inr,
}
use cairn_mdm.Sql.{ok, working, stmt}
use cairn_mdm.Storage.CertAuth.{CertAuth, is_binding, associate_cert_hash, is_cert_hash_associated}

any-append :
    (p : CertAuth → Bool) (xs : List CertAuth) (y : CertAuth)
    → any p (xs ++ y ∷ []) ≡ (any p xs || p y)
any-append p [] y = ground arith
any-append p (x ∷ xs) y = ground (arith, any-append p xs y)

same_binding :
    (id hash other asked : String) (rows : List CertAuth)
    → any (is_binding id hash) rows ≡ true
    → (id == other && hash == asked) ≡ true
    → any (is_binding other asked) rows ≡ true
same_binding id hash other asked [] h e = cc
same_binding id hash other asked (r ∷ rs) h e = ground (
  arith,
  same_binding id hash other asked rs,
  eq_iff id other,
  eq_iff hash asked,
  eq_iff r.enrollment_id id,
  eq_iff r.sha256 hash,
  eq_iff r.enrollment_id other,
  eq_iff r.sha256 asked,
)

-- Where no statement fails: after a certificate is bound to an enrollment, exactly the bindings of before
-- and the new one hold. No earlier certificate of that enrollment or of another one is lost.
pub associate-exact :
    (id hash other asked : String) (rows : List CertAuth)
    → (is_cert_hash_associated other asked (associate_cert_hash id hash (working rows)).1).0
      ≡ ok (any (is_binding other asked) rows || (id == other && hash == asked))
unfolding is_cert_hash_associated associate_cert_hash stmt
associate-exact id hash other asked rows = elim (Bool-cases (any (is_binding id hash) rows)) [
  | inl e ↦ elim (Bool-cases (id == other && hash == asked)) [
    | inl h ↦ rw (e, same_binding id hash other asked rows e h) refl
    | inr h ↦
        rw (e, h)
          (elim (Bool-cases (any (is_binding other asked) rows)) [
            | inl k ↦ rw k refl
            | inr k ↦ rw k refl
          ])
  ]
  | inr e ↦
      rw
        (e, any-append (is_binding other asked) rows (record { enrollment_id = id; sha256 = hash }))
        refl
]
