-- ===== src/Enroll/Served.antt =====
-- What becomes of an enrollment link.
use cairn_mdm.Prelude.{
  ℕ, ◌+◌, String, Bool, true, ◌&&◌, List, Option, none, some, ◌≡◌, ◌≢◌, refl, ◌⊎◌, inl, inr,
  string_eq, ◌==◌, if◌then◌else◌, find, update, arith, eq_iff, Bool-cases, Option-cases, subst, ◌∙◌,
  concat,
}
use cairn_mdm.Sql.{
  Conn, Result, Error, ok, err, driver, grant_invalid, pure, catch, stmt, is_failing, later, zoom,
}
use cairn_mdm.Storage.Grants.{Grant, redeemable, use_once, redemption, redeem_grant, redeem_rows}
use cairn_mdm.Storage.Grants.Redeeming.{live}
use cairn_mdm.Storage.Settings.{Setting, has_key, get_setting}
use cairn_mdm.Profile.{Checked, valid, invalid, ConfigProfile, EnrollmentParams, build_enrollment}
use cairn_mdm.Enroll.{
  Tables, Handler, Response, profile_bytes, http_error, signed, sign_with, rendered, respond,
  serve_profile, serve_grant, after_redeem, on_grants, on_settings,
}

module _ (h : Handler) (now : ℕ) (token : String) where
  abbrev pub hashed : String
  hashed = h.hash (h.trim_space token)

  -- a grant of the token that can be used now
  abbrev pub usable : Grant → Bool
  usable g = g.token_hash == hashed && live now g

  -- The statement fails, or no grant of the token can be used now; the link is refused, and no grant is
  -- touched.
  pub record IsRefused (c : Conn Tables) (after : Result Response × Conn Tables) : Type 0 where
    pub reason : (is_failing c.faults ≡ true) ⊎ (find usable c.rows.grants ≡ none)
    pub gone :
        after.0 ≡ ok (http_error "This enrollment link is invalid, expired, or already used." 410)
    pub grants : after.1.rows.grants ≡ c.rows.grants

  abbrev pub common_name : String
  common_name =
      if h.subject_prefix == ""
      then "%SerialNumber%"
      else concat "%SerialNumber%" (concat "." h.subject_prefix)

  -- what a profile for this owner and this topic is built from
  abbrev pub enrollment_for : String → String → EnrollmentParams
  enrollment_for owner topic = record {
    organization = h.organization;
    display_name = "";
    ca_anchors_der = h.ca_anchors_der;
    scep_url = h.scep_url;
    scep_name = "";
    subject_cn = common_name;
    challenge = h.challenge;
    key_size = 0;
    owner_rfc822 = owner;
    mdm_server_url = h.mdm_server_url;
    mdm_check_in_url = h.mdm_server_url;
    topic = topic;
  }

  -- What is served of a profile: its encoding, signed where there is a signer, or 500 where it cannot be
  -- built, encoded or signed.
  pub data IsServed : Checked ConfigProfile → Response → Type 0 where
    not_built : (e : String) → IsServed (invalid e) (http_error "failed to build profile" 500)
    not_encoded :
        (p : ConfigProfile)
        → h.marshal p ≡ none
        → IsServed (valid p) (http_error "failed to render profile" 500)
    plain :
        (p : ConfigProfile) (xml : String)
        → h.marshal p ≡ some xml
        → h.sign ≡ none
        → IsServed (valid p) (record { status = 200; body = profile_bytes xml })
    is_signed :
        (p : ConfigProfile) (xml bytes : String) (sign : String → Option String)
        → h.marshal p ≡ some xml
        → h.sign ≡ some sign
        → sign xml ≡ some bytes
        → IsServed (valid p) (record { status = 200; body = profile_bytes bytes })
    not_signed :
        (p : ConfigProfile) (xml : String) (sign : String → Option String)
        → h.marshal p ≡ some xml
        → h.sign ≡ some sign
        → sign xml ≡ none
        → IsServed (valid p) (http_error "failed to sign profile" 500)

  -- The answer for an owner, by the setting of the topic: none or an empty one, or a failing read, is
  -- "not ready"; otherwise it is what is served of the profile for that topic.
  abbrev pub Answers : String → Bool → List Setting → Result Response → Type 0
  Answers owner failing settings answer =
      ((answer ≡ ok (http_error "server not ready: no APNs push certificate loaded" 503))
        × ((failing ≡ true)
            ⊎ ((find (λ s. s.key == h.topic_key) settings ≡ none)
                ⊎ ((s : Setting) × (find (λ s. s.key == h.topic_key) settings ≡ some s)
                    × (s.value ≡ "")))))
      ⊎ ((s : Setting) × (find (λ s. s.key == h.topic_key) settings ≡ some s)
          × (s.value ≢ "")
          × (resp : Response) × (answer ≡ ok resp)
          × IsServed (build_enrollment h.uuids h.itoa (enrollment_for owner s.value)) resp)

  -- One use of the grant is spent, and the answer follows from the topic that is set: a profile for the
  -- grant's owner, or "not ready".
  pub record IsSpent (c : Conn Tables) (after : Result Response × Conn Tables) : Type 0 where
    pub grant : Grant
    pub found : find usable c.rows.grants ≡ some grant
    pub grants :
        after.1.rows.grants
        ≡ update usable
            (λ g. record g { use_count = g.use_count + 1; last_used_at = some now })
            c.rows.grants
    pub answer : Answers grant.owner (is_failing (later c.faults)) c.rows.settings after.0

  redeem_grant-outcome :
      (c : Conn (List Grant))
      → ((e : Error) × ((redeem_grant h.hash now (h.trim_space token) c).0 ≡ err e)
          × ((redeem_grant h.hash now (h.trim_space token) c).1.rows ≡ c.rows)
          × ((is_failing c.faults ≡ true) ⊎ (find usable c.rows ≡ none)))
        ⊎ ((g : Grant) × (find (redeemable now hashed) c.rows ≡ some g)
            × ((redeem_grant h.hash now (h.trim_space token) c).0 ≡ ok (redemption g))
            × ((redeem_grant h.hash now (h.trim_space token) c).1.rows
                ≡ update (redeemable now hashed) (use_once now) c.rows)
            × ((redeem_grant h.hash now (h.trim_space token) c).1.faults ≡ later c.faults))
  unfolding redeem_grant redeem_rows stmt
  redeem_grant-outcome c = elim (Bool-cases (is_failing c.faults)) [
    | inl e ↦ inl (driver, rw e refl, rw e refl, inl e)
    | inr e ↦ elim (Option-cases (find (redeemable now hashed) c.rows)) [
      | inl n ↦ inl (grant_invalid, rw (e, n) refl, rw (e, n) refl, inr n)
      | inr (g, s) ↦ inr (g, s, rw (e, s) refl, rw (e, s) refl, rw e refl)
    ]
  ]

  signed-IsServed :
      (p : ConfigProfile) (xml : String) (sign : String → Option String) (o : Option String)
      → h.marshal p ≡ some xml
      → h.sign ≡ some sign
      → sign xml ≡ o
      → IsServed (valid p) (signed h o)
  signed-IsServed p xml sign none e u v = not_signed p xml sign e u v
  signed-IsServed p xml sign (some bytes) e u v = is_signed p xml bytes sign e u v

  sign_with-IsServed :
      (p : ConfigProfile) (xml : String) (o : Option (String → Option String))
      → h.marshal p ≡ some xml
      → h.sign ≡ o
      → IsServed (valid p) (sign_with h o xml)
  sign_with-IsServed p xml none e u = plain p xml e u
  sign_with-IsServed p xml (some sign) e u = signed-IsServed p xml sign (sign xml) e u refl

  rendered-IsServed :
      (p : ConfigProfile) (o : Option String) → h.marshal p ≡ o → IsServed (valid p) (rendered h o)
  rendered-IsServed p none e = not_encoded p e
  rendered-IsServed p (some xml) e = sign_with-IsServed p xml h.sign e refl

  respond-IsServed : (o : Checked ConfigProfile) → IsServed o (respond h o)
  respond-IsServed (invalid e) = not_built e
  respond-IsServed (valid p) = rendered-IsServed p (h.marshal p) refl

  serve_profile-Answers :
      (g : Grant) (c : Conn Tables)
      → Answers g.owner (is_failing c.faults) c.rows.settings (serve_profile h (redemption g) c).0
  unfolding serve_profile get_setting on_settings zoom stmt catch pure
  serve_profile-Answers g c = elim (Bool-cases (is_failing c.faults)) [
    | inl e ↦ inl (rw e refl, inl e)
    | inr e ↦ elim (Option-cases (find (has_key h.topic_key) c.rows.settings)) [
      | inl u ↦ inl (rw (e, u) refl, inr (inl u))
      | inr (s, u) ↦ elim (Bool-cases (s.value == "")) [
        | inl v ↦ inl (rw (e, u, v) refl, inr (inr (s, u, (eq_iff s.value "").0 v)))
        | inr v ↦ inr (
          s,
          u,
          (λ z. ground (arith, eq_iff s.value "")),
          respond h (build_enrollment h.uuids h.itoa (enrollment_for g.owner s.value)),
          rw (e, u, v) refl,
          respond-IsServed _,
        )
      ]
    ]
  ]

  serve_profile-grants :
      (g : Grant) (c : Conn Tables)
      → (serve_profile h (redemption g) c).1.rows.grants ≡ c.rows.grants
  unfolding serve_profile catch pure on_settings zoom
  serve_profile-grants g c = refl

  abbrev redeemed : Conn Tables → Result Response × Conn Tables
  redeemed c = catch (on_grants (redeem_grant h.hash now (h.trim_space token))) (after_redeem h) c

  serve_grant-redeems :
      (c : Conn Tables) → h.has_redeemer ≡ true → serve_grant h now token c ≡ redeemed c
  unfolding serve_grant
  serve_grant-redeems c on = rw on refl

  redeemed-outcome : (c : Conn Tables) → IsRefused c (redeemed c) ⊎ IsSpent c (redeemed c)
  unfolding on_grants zoom catch pure
  redeemed-outcome c =
      elim (redeem_grant-outcome (record { rows = c.rows.grants; faults = c.faults })) [
        | inl (e, told, same, why) ↦
            inl (record { reason = why; gone = rw told refl; grants = rw told same })
        | inr (g, found, told, spent, faults) ↦ inr (record {
          grant = g;
          found = found;
          grants = rw told (serve_profile-grants g _ ∙ spent);
          answer = rw told (
              subst
                (λ fs.
                  Answers g.owner (is_failing fs) c.rows.settings
                    (serve_profile h (redemption g)
                      (on_grants (redeem_grant h.hash now (h.trim_space token)) c).1).0)
                faults
                (serve_profile-Answers g
                  (on_grants (redeem_grant h.hash now (h.trim_space token)) c).1));
        })
      ]

  -- A visit to an enrollment link, whatever statements fail. Either it is answered with 410 and no
  -- grant is touched, and then the statement failed or no grant of the token can be used. Or a
  -- grant of the token is found that is not revoked, has a use left and has not expired; its count
  -- of uses goes up by one; and the answer is 503 where the topic of the push certificate is not
  -- set, is empty or cannot be read, and else what is served of the profile for that topic and the
  -- owner of that grant: the encoded profile, signed where there is a signer, or 500.
  pub serve_grant-outcome :
      (c : Conn Tables)
      → h.has_redeemer ≡ true
      → IsRefused c (serve_grant h now token c) ⊎ IsSpent c (serve_grant h now token c)
  serve_grant-outcome c on = rw (serve_grant-redeems c on) (redeemed-outcome c)
