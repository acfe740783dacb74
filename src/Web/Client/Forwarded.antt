-- ===== src/Web/Client/Forwarded.antt =====
-- Which address a request is attributed to, by what the peer is.
use cairn_mdm.Prelude.{
  String, true, false, not, List, [], ◌∷◌, ◌++◌, reverse, ◌≡◌, ◌≢◌, refl, inl, inr, arith, eq_iff,
  ◌⊎◌, All, ap, some, string_eq, ◌==◌, any, Bool-cases, Option-cases,
}
use cairn_mdm.Web.Client.{Net, is_trusted_proxy, passed_over, walk, host_of, is_none, client_ip}

module _ {Ip Network : Type 0} (n : Net Ip Network) (trusted : List Network) where
  -- The text is the address of a trusted proxy.
  abbrev pub IsProxy : String → Type 0
  IsProxy s =
      (ip : Ip) × (n.parse_ip (n.trim_space s) ≡ some ip)
      × (any (λ net. n.within net ip) trusted ≡ true)

  abbrev pub Skipped : String → Type 0
  Skipped p = (n.trim_space p ≡ "") ⊎ IsProxy (n.trim_space p)

  -- `address` is the part before which, in this list, all are blank or trusted proxies, and which is
  -- neither; or `host`, where all are.
  pub record IsFirst (host : String) (parts : List String) (address : String) : Type 0 where
    pub seen : List String
    pub skipped : All Skipped seen
    pub attributed :
        ((parts ≡ seen) × (address ≡ host))
        ⊎ ((p : String) × (left : List String) × (parts ≡ seen ++ p ∷ left)
            × (address ≡ n.trim_space p)
            × (n.trim_space p ≢ "")
            × (IsProxy (n.trim_space p) → ⊥))

  is_trusted_proxy-IsProxy : (s : String) → is_trusted_proxy n trusted s ≡ true → IsProxy s
  unfolding is_trusted_proxy
  is_trusted_proxy-IsProxy s h = elim (Option-cases (n.parse_ip (n.trim_space s))) [
    | inl e ↦ ground arith
    | inr (ip, e) ↦ (ip, e, rw e at h)
  ]

  not_proxy : (s : String) → is_trusted_proxy n trusted s ≡ false → IsProxy s → ⊥
  unfolding is_trusted_proxy
  not_proxy s h (ip, e, inside) = ground arith

  passed_over-Skipped : (p : String) → passed_over n trusted p ≡ true → Skipped p
  passed_over-Skipped p h = elim (Bool-cases (n.trim_space p == "")) [
    | inl e ↦ inl ((eq_iff (n.trim_space p) "").0 e)
    | inr e ↦ inr (is_trusted_proxy-IsProxy (n.trim_space p) (ground arith))
  ]

  walk-IsFirst : (host : String) (ps : List String) → IsFirst host ps (walk n trusted host ps)
  walk-IsFirst host [] = record { seen = []; skipped = tt; attributed = inl (refl, refl) }
  walk-IsFirst host (p ∷ ps) = elim (Bool-cases (passed_over n trusted p)) [
    | inl e ↦
        let rest = walk-IsFirst host ps in
        rw e (record {
          seen = p ∷ rest.seen;
          skipped = (passed_over-Skipped p e, rest.skipped);
          attributed = elim rest.attributed [
            | inl (all, same) ↦ inl (ap (λ xs. p ∷ xs) all, same)
            | inr (q, left, split, same, full, other) ↦
                inr (q, left, ap (λ xs. p ∷ xs) split, same, full, other)
          ];
        })
    | inr e ↦ rw e (record {
      seen = [];
      skipped = tt;
      attributed = inr (
        p,
        ps,
        refl,
        refl,
        (λ z. ground (arith, eq_iff (n.trim_space p) "")),
        not_proxy (n.trim_space p) (ground arith),
      );
    })
  ]

  walk-prefix :
      (host : String) (ps junk : List String)
      → any (λ p. not (passed_over n trusted p)) ps ≡ true
      → walk n trusted host (ps ++ junk) ≡ walk n trusted host ps
  walk-prefix host [] junk h = cc
  walk-prefix host (p ∷ ps) junk h = ground (arith, walk-prefix host ps junk)

  trusted-not_empty :
      (nets : List Network) (s : String) → is_trusted_proxy n nets s ≡ true → is_none n nets ≡ false
  unfolding is_trusted_proxy
  trusted-not_empty [] s h = elim (Option-cases (n.parse_ip (n.trim_space s))) [
    | inl e ↦ ground arith
    | inr (ip, e) ↦ ground arith
  ]
  trusted-not_empty (net ∷ nets) s h = refl

  -- A request from a trusted proxy that sends X-Forwarded-For is attributed to the first address
  -- from the right of that header that is neither blank nor a trusted proxy, or to the proxy
  -- itself if there is none.
  pub client_ip-IsFirst :
      (remote_addr header : String)
      → is_trusted_proxy n trusted (host_of n remote_addr) ≡ true
      → header ≢ ""
      → IsFirst
          (host_of n remote_addr)
          (reverse (n.split_commas header))
          (client_ip n trusted remote_addr header)
  unfolding client_ip
  client_ip-IsFirst remote_addr header t h =
      let blank : (header == "") ≡ false = ground (arith, eq_iff header "") in
      rw (t, trusted-not_empty trusted _ t, blank)
        (walk-IsFirst (host_of n remote_addr) (reverse (n.split_commas header)))

  -- Whoever the peer is, two headers that agree from the right up to an address that is neither
  -- blank nor a trusted proxy give the same attribution: what a client writes to the left of what
  -- the proxies added has no effect.
  pub client_ip-unspoofable :
      (remote_addr header other : String) (seen left left' : List String)
      → header ≢ ""
      → other ≢ ""
      → reverse (n.split_commas header) ≡ seen ++ left
      → reverse (n.split_commas other) ≡ seen ++ left'
      → any (λ p. not (passed_over n trusted p)) seen ≡ true
      → client_ip n trusted remote_addr header ≡ client_ip n trusted remote_addr other
  unfolding client_ip
  client_ip-unspoofable remote_addr header other seen left left' h h' parts parts' shown =
      let first : (header == "") ≡ false = ground (arith, eq_iff header "") in
      let second : (other == "") ≡ false = ground (arith, eq_iff other "") in
      let host = host_of n remote_addr in
      rw
        (
          first,
          second,
          parts,
          parts',
          walk-prefix host seen left shown,
          walk-prefix host seen left' shown,
        )
        refl
