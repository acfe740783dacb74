-- ===== src/Profile/Closed.antt =====
-- Where the references inside a profile lead.
use cairn_mdm.Prelude.{
  ℕ, ◌+◌, length, String, Bool, true, false, ◌&&◌, ◌||◌, List, [], ◌∷◌, ◌++◌, ◌≡◌, refl, string_eq,
  ◌==◌, if◌then◌else◌, any, map, arith, eq_iff, concat, not,
}
use cairn_mdm.Profile.{
  Checked, valid, invalid, Content, root, scep, mdm, wifi, personal, enterprise, Payload,
  ConfigProfile, EnrollmentParams, root_payloads, build_enrollment, enrollment_of, scep_payload,
  mdm_payload,
}
use cairn_mdm.Profile.Payloads.{
  Texts, WifiParams, KerberosSsoParams, build_wifi, build_kerberos_sso, anchor_payloads,
  enterprise_payloads, identity_payload, wifi_payload, wifi_root, is_empty,
}

abbrev pub is_root : Content → Bool
is_root (root der) = true
is_root _ = false

abbrev pub is_scep : Content → Bool
is_scep (scep c) = true
is_scep _ = false

-- a payload of this kind has the UUID
abbrev pub has : (Content → Bool) → List Payload → String → Bool
has kind ps u = any (λ p. kind p.content && p.uuid == u) ps

abbrev pub all : {A : Type 0} → (A → Bool) → List A → Bool
all p [] = true
all p (x ∷ xs) = p x && all p xs

-- the identity of the MDM payload and of the network are SCEP payloads, and the anchors of the network
-- are certificate payloads
abbrev pub resolved : List Payload → Content → Bool
resolved ps (mdm c) = has is_scep ps c.identity_certificate_uuid
resolved ps (wifi c) = elim c.security [
  | personal password ↦ true
  | enterprise anchors names identity ↦ all (has is_root ps) anchors && has is_scep ps identity
]
resolved ps _ = true

abbrev pub IsClosed : ConfigProfile → Type 0
IsClosed p = all (λ q. resolved p.payloads q.content) p.payloads ≡ true

abbrev pub IsClosedIfBuilt : Checked ConfigProfile → Type 0
IsClosedIfBuilt (invalid e) = Unit
IsClosedIfBuilt (valid p) = IsClosed p

if-Built :
    (b : Bool) (m n : Checked ConfigProfile)
    → IsClosedIfBuilt m
    → IsClosedIfBuilt n
    → IsClosedIfBuilt (if b then m else n)
if-Built true m n h k = h
if-Built false m n h k = k

module _ (draw : ℕ → String) (itoa : ℕ → String) where
  -- root payloads refer to nothing
  roots_resolved :
      (ps : List Payload) (prefix label : String) (n i : ℕ) (ders : List String)
      (rest : List Payload)
      → all (λ q. resolved ps q.content) rest ≡ true
      → all (λ q. resolved ps q.content) (root_payloads draw itoa prefix label n i ders ++ rest)
        ≡ true
  roots_resolved ps prefix label n i [] rest h = h
  roots_resolved ps prefix label n i (d ∷ ds) rest h =
      roots_resolved ps prefix label (n + 1) (i + 1) ds rest h

  has-append_scep :
      (prefix label : String) (n i : ℕ) (ders : List String) (q : Payload) (rest : List Payload)
      → is_scep q.content ≡ true
      → has is_scep (root_payloads draw itoa prefix label n i ders ++ q ∷ rest) q.uuid ≡ true
  has-append_scep prefix label n i [] q rest h = ground (arith, eq_iff q.uuid q.uuid)
  has-append_scep prefix label n i (d ∷ ds) q rest h =
      has-append_scep prefix label (n + 1) (i + 1) ds q rest h

  all-widen :
      (p : Payload) (ps : List Payload) (us : List String)
      → all (has is_root ps) us ≡ true
      → all (has is_root (p ∷ ps)) us ≡ true
  all-widen p ps [] h = refl
  all-widen p ps (u ∷ us) h = ground (arith, all-widen p ps us)

  anchors_found :
      (prefix label : String) (n i : ℕ) (ders : List String) (rest : List Payload)
      → all
          (has is_root (root_payloads draw itoa prefix label n i ders ++ rest))
          (map (λ q. q.uuid) (root_payloads draw itoa prefix label n i ders))
        ≡ true
  anchors_found prefix label n i [] rest = refl
  anchors_found prefix label n i (d ∷ ds) rest = ground (
    arith,
    eq_iff (draw n) (draw n),
    all-widen
        (record {
          identifier = concat prefix (itoa i);
          uuid = draw n;
          display_name = label;
          content = root d;
        })
        (root_payloads draw itoa prefix label (n + 1) (i + 1) ds ++ rest)
        (map (λ q. q.uuid) (root_payloads draw itoa prefix label (n + 1) (i + 1) ds))
        (anchors_found prefix label (n + 1) (i + 1) ds rest),
  )

  enrollment-IsClosed : (p : EnrollmentParams) → IsClosed (enrollment_of draw itoa p)
  enrollment-IsClosed p =
      let tail = scep_payload draw itoa p ∷ mdm_payload draw itoa p ∷ [] in
      roots_resolved (enrollment_of draw itoa p).payloads _ _ 2 0 p.ca_anchors_der tail (
        ground (
          arith,
          has-append_scep (concat p.organization ".ca.") "Certificate Authority" 2 0
              p.ca_anchors_der (scep_payload draw itoa p) (mdm_payload draw itoa p ∷ []) refl,
        ))

  module _ (x : Texts) where
    enterprise_resolved :
        (p : WifiParams)
        → all
            (λ q. resolved (enterprise_payloads x draw itoa p) q.content)
            (enterprise_payloads x draw itoa p)
          ≡ true
    enterprise_resolved p =
        let identity = identity_payload x draw itoa p (draw (1 + length p.ca_anchors_der)) in
        let network = wifi_payload x draw itoa p (
          enterprise (map (λ q. q.uuid) (anchor_payloads x draw itoa p)) p.trusted_server_names
            (draw (1 + length p.ca_anchors_der))) in
        roots_resolved (enterprise_payloads x draw itoa p) _ _ 1 0 p.ca_anchors_der
          (identity ∷ network ∷ [])
          (ground (
            arith,
            anchors_found (concat (wifi_root x draw itoa p) ".ca.") "RADIUS Certificate Authority" 1
                0 p.ca_anchors_der (identity ∷ network ∷ []),
            has-append_scep (concat (wifi_root x draw itoa p) ".ca.") "RADIUS Certificate Authority"
                1 0 p.ca_anchors_der identity (network ∷ []) refl,
          ))

    -- Whatever the parameters: a profile that one of the three builders returns names only payloads of
    -- its own. The identity of the MDM payload and of an enterprise network is a SCEP payload of that
    -- profile, and each trust anchor of the network is a certificate payload of it.
    pub builders-IsClosed :
        (e : EnrollmentParams) (w : WifiParams) (k : KerberosSsoParams)
        → IsClosedIfBuilt (build_enrollment draw itoa e)
          × IsClosedIfBuilt (build_wifi x draw itoa w)
          × IsClosedIfBuilt (build_kerberos_sso x draw itoa k)
    unfolding build_enrollment build_wifi build_kerberos_sso
    builders-IsClosed e w k = (
      if-Built (e.organization == "") _ _ tt
          (if-Built (e.topic == "") _ _ tt (enrollment-IsClosed e)),
      if-Built (w.organization == "" || w.ssid == "") _ _ tt (
          if-Built (not w.enterprise) _ _ (if-Built (w.password == "") _ _ tt refl) (
            if-Built (w.scep_url == "" || w.subject_cn == "") _ _ tt
              (if-Built (is_empty w.ca_anchors_der) _ _ tt (enterprise_resolved w)))),
      if-Built (k.organization == "" || k.realm == "") _ _ tt
          (if-Built (is_empty k.hosts) _ _ tt refl),
    )
