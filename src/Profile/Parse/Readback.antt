-- ===== src/Profile/Parse/Readback.antt =====
-- What the parser makes of a profile that the library builds.
use cairn_mdm.Prelude.{
  String, true, map, some, ◌≡◌, ◌≢◌, refl, string_eq, ◌==◌, eq_iff, Bool-cases, inl, inr,
}
use cairn_mdm.Profile.{ConfigProfile, valid, payload_type}
use cairn_mdm.Profile.Parse.{Top, Reader, looks_like_xml, parse_info, types_of}

-- the keys of a built profile that the parser reads
abbrev pub top_of : ConfigProfile → Top
top_of p = record {
  payload_type = "Configuration";
  payload_identifier = p.identifier;
  payload_uuid = p.uuid;
  payload_display_name = p.display_name;
  payload_organization = p.organization;
  payload_content = map (λ q. some (payload_type q.content)) p.payloads;
}

-- The plist library writes XML, and reads back what it wrote.
pub record IsFaithful (r : Reader) (marshal : ConfigProfile → String) : Type 0 where
  pub writes_xml : (p : ConfigProfile) → looks_like_xml r (marshal p) ≡ true
  pub reads_back : (p : ConfigProfile) → r.unmarshal (marshal p) ≡ valid (top_of p)

-- Over a plist library that reads back what it wrote: the parser accepts a built profile with an
-- identifier and a display name, with exactly these, its UUID, its organization and the sorted types
-- of its payloads.
pub parse_info-marshal :
    (r : Reader) (marshal : ConfigProfile → String) (p : ConfigProfile)
    → IsFaithful r marshal
    → p.identifier ≢ ""
    → p.display_name ≢ ""
    → parse_info r (marshal p)
      ≡ valid (record {
        identifier = p.identifier;
        uuid = p.uuid;
        name = p.display_name;
        organization = p.organization;
        payload_types = types_of (map (λ q. some (payload_type q.content)) p.payloads);
      })
unfolding parse_info
parse_info-marshal r marshal p f h k =
    rw (f.writes_xml p, f.reads_back p)
      (elim (Bool-cases (p.identifier == "")) [
        | inl e ↦ absurd (h ((eq_iff p.identifier "").0 e))
        | inr e ↦ elim (Bool-cases (p.display_name == "")) [
          | inl d ↦ absurd (k ((eq_iff p.display_name "").0 d))
          | inr d ↦ rw (e, d) refl
        ]
      ])
