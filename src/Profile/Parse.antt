-- ===== src/Profile/Parse.antt =====
-- What the library takes from an uploaded profile (internal/profile/parse.go). The CMS wrapper and the
-- plist are read by libraries: parameters.
pub mod Readback
use cairn_mdm.Prelude.{
  String, Bool, true, false, ◌||◌, not, List, [], ◌∷◌, Option, none, some, string_eq, ◌==◌,
  if◌then◌else◌, any, sort_by, text_before, starts_with,
}
use cairn_mdm.Profile.{Checked, valid, invalid}

pub record Info : Type 0 where
  pub identifier : String
  pub uuid : String
  pub name : String
  pub organization : String
  pub payload_types : List String

-- the keys that are read of the top-level dict; the type of a payload is `none` where it is no text
pub record Top : Type 0 where
  pub payload_type : String
  pub payload_identifier : String
  pub payload_uuid : String
  pub payload_display_name : String
  pub payload_organization : String
  pub payload_content : List (Option String)

pub record Reader : Type 0 where
  -- the first 64 bytes, without white space in front
  pub head_of : String → String
  pub unwrap : String → Checked String
  pub unmarshal : String → Checked Top

-- the types that are texts and not empty, each once
abbrev pub add_type : Option String → List String → List String
add_type none ts = ts
add_type (some t) ts = if t == "" || any (λ u. u == t) ts then ts else t ∷ ts

abbrev pub distinct_types : List (Option String) → List String
distinct_types [] = []
distinct_types (t ∷ ts) = add_type t (distinct_types ts)

-- the types, sorted
unfoldable pub types_of : List (Option String) → List String
types_of ts = sort_by text_before (distinct_types ts)

abbrev pub info_of : Top → Info
info_of t = record {
  identifier = t.payload_identifier;
  uuid = t.payload_uuid;
  name = if t.payload_display_name == "" then t.payload_identifier else t.payload_display_name;
  organization = t.payload_organization;
  payload_types = types_of t.payload_content;
}

abbrev pub checked_top : Checked Top → Checked Info
checked_top (invalid e) = invalid e
checked_top (valid t) =
    if not (t.payload_type == "Configuration")
    then invalid "profile: top-level PayloadType is not \"Configuration\""
    else if t.payload_identifier == ""
    then invalid "profile: missing PayloadIdentifier"
    else valid (info_of t)

module _ (r : Reader) where
  -- `looksLikeXML`
  unfoldable pub looks_like_xml : String → Bool
  looks_like_xml b =
      starts_with (r.head_of b) "<?xml"
      || (starts_with (r.head_of b) "<!DOCTYPE" || starts_with (r.head_of b) "<plist")

  abbrev pub parse_body : Checked String → Checked Info
  parse_body (invalid e) = invalid e
  parse_body (valid body) =
      if looks_like_xml body
      then checked_top (r.unmarshal body)
      else invalid "profile: signed content is not an XML plist"

  -- `ParseInfo`
  unfoldable pub parse_info : String → Checked Info
  unfolding looks_like_xml types_of
  parse_info bytes =
      if looks_like_xml bytes then checked_top (r.unmarshal bytes) else parse_body (r.unwrap bytes)
