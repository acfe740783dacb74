-- ===== src/Push/Loading.antt =====
-- What a push certificate must pass before it is stored.
use cairn_mdm.Prelude.{
  ℕ, ◌≤◌, String, true, some, ◌≡◌, refl, ◌⊎◌, inl, inr, Bool-cases, Option-cases, ltb, arith,
}
use cairn_mdm.Sql.{Conn, fail}
use cairn_mdm.Push.{Leaf, Library, Pairs, load_cert}

module _ {P : Type 0} (l : Library P) (now : ℕ) (cert key : String) where
  -- The key fits the certificate, which carries a topic and is in its validity window.
  pub record IsValidated : Type 0 where
    pub pair : l.key_pair cert key ≡ true
    pub topic : String
    pub has_topic : l.topic_from_pem cert ≡ some topic
    pub leaf : Leaf
    pub has_leaf : l.leaf_of cert ≡ some leaf
    pub begun : leaf.not_before ≤ now
    pub not_over : now ≤ leaf.not_after

  -- Whatever fails: loading a push certificate leaves the stored pairs and the settings as they were, or the
  -- private key fits the certificate, the certificate carries a topic, and the time lies within its
  -- validity.
  pub load_cert-IsValidated :
      (c : Conn (Pairs P)) → ((load_cert l now cert key c).1 ≡ c) ⊎ IsValidated
  unfolding load_cert fail
  load_cert-IsValidated c = elim (Bool-cases (l.key_pair cert key)) [
    | inr e ↦ inl (rw e refl)
    | inl pair ↦ elim (Option-cases (l.topic_from_pem cert)) [
      | inl e ↦ inl (rw (pair, e) refl)
      | inr (topic, has_topic) ↦ elim (Option-cases (l.leaf_of cert)) [
        | inl e ↦ inl (rw (pair, has_topic, e) refl)
        | inr (leaf, has_leaf) ↦ elim (Bool-cases (ltb now leaf.not_before)) [
          | inl e ↦ inl (rw (pair, has_topic, has_leaf, e) refl)
          | inr begun ↦ elim (Bool-cases (ltb leaf.not_after now)) [
            | inl e ↦ inl (rw (pair, has_topic, has_leaf, begun, e) refl)
            | inr running ↦ inr (record {
              pair = pair;
              topic = topic;
              has_topic = has_topic;
              leaf = leaf;
              has_leaf = has_leaf;
              begun = ground arith;
              not_over = ground arith;
            })
          ]
        ]
      ]
    ]
  ]
