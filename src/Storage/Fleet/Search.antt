-- ===== src/Storage/Fleet/Search.antt =====
-- The search over the inventory (`ListDevicesFiltered` and `escapeLike` in
-- internal/storage/sqlite/devices.go). A text is read as its code points, by a parameter; `LIKE` with
-- its escape character and `LOWER` are SQLite's, which fold ASCII letters only.
mod Literal
mod Tests
use cairn_mdm.Prelude.{
  ℕ, ◌+◌, ◌*◌, String, Bool, true, false, ◌&&◌, ◌||◌, not, List, [], ◌∷◌, ◌++◌, map, Option, none,
  some, ltb, leb, ◌==◌, string_eq, nat_eq, if◌then◌else◌, select, any, sort_by,
}
use cairn_mdm.Sql.{Sql, Result, ok, stmt}
use cairn_mdm.Storage.Fleet.{Fleet, Device}
use cairn_mdm.Storage.Fleet.Devices.{is_null}

-- what a rune of a pattern is: `\`, `%`, `_` or any other
pub data Kind : Type 0 where
  escape percent underscore plain : Kind

abbrev pub kind : ℕ → Kind
kind c =
    if c == 92 then escape else if c == 37 then percent else if c == 95 then underscore else plain

abbrev pub with_escape : Kind → ℕ → List ℕ → List ℕ
with_escape plain c cs = c ∷ cs
with_escape escape c cs = 92 ∷ c ∷ cs
with_escape percent c cs = 92 ∷ c ∷ cs
with_escape underscore c cs = 92 ∷ c ∷ cs

-- `escapeLike`
unfoldable pub escape_like : List ℕ → List ℕ
escape_like [] = []
escape_like (c ∷ cs) = with_escape (kind c) c (escape_like cs)

-- `LOWER` of one rune
abbrev pub lower : ℕ → ℕ
lower c = if leb 65 c && leb c 90 then c + 32 else c

-- the parts of a `LIKE` pattern; an escape character at its end matches nothing
pub data Token : Type 0 where
  any_text any_rune dangling : Token
  rune : ℕ → Token

abbrev pub read_escaped : Bool → List ℕ → List Token
read_escaped true [] = dangling ∷ []
read_escaped false [] = []
read_escaped true (c ∷ cs) = rune c ∷ read_escaped false cs
read_escaped false (c ∷ cs) = elim (kind c) [
  | escape ↦ read_escaped true cs
  | percent ↦ any_text ∷ read_escaped false cs
  | underscore ↦ any_rune ∷ read_escaped false cs
  | plain ↦ rune c ∷ read_escaped false cs
]

abbrev pub suffixes : List ℕ → List (List ℕ)
suffixes [] = [] ∷ []
suffixes (c ∷ cs) = (c ∷ cs) ∷ suffixes cs

abbrev pub matches : List Token → List ℕ → Bool
matches [] [] = true
matches [] (x ∷ xs) = false
matches (any_text ∷ p) xs = any (matches p) (suffixes xs)
matches (any_rune ∷ p) [] = false
matches (any_rune ∷ p) (x ∷ xs) = matches p xs
matches (dangling ∷ p) xs = false
matches (rune c ∷ p) [] = false
matches (rune c ∷ p) (x ∷ xs) = lower c == lower x && matches p xs

-- `x LIKE p ESCAPE '\'`
abbrev pub like : List ℕ → List ℕ → Bool
like x p = matches (read_escaped false p) x

-- the pattern that is bound
abbrev pub pattern_of : List ℕ → List ℕ
pattern_of query = 37 ∷ escape_like query ++ 37 ∷ []

abbrev pub later : Option ℕ → Option ℕ → Bool
later none b = false
later (some a) none = true
later (some a) (some b) = ltb b a

-- `ORDER BY last_seen DESC`
abbrev pub seen_later : Device → Device → Bool
seen_later a b = later a.last_seen b.last_seen

module _ (runes : String → List ℕ) where
  abbrev pub column_like : String → String → Bool
  unfolding escape_like
  column_like query column = like (map lower (runes column)) (map lower (pattern_of (runes query)))

  abbrev pub text_filter : String → Device → Bool
  text_filter query d =
      column_like query d.name
      || column_like query d.serial
      || column_like query d.model
      || column_like query d.udid

  -- the `WHERE` clause
  abbrev pub is_shown : String → Bool → Device → Bool
  is_shown query enrolled_only d =
      (if query == "" then true else text_filter query d)
      && (if enrolled_only then is_null d.checked_out_at else true)

  -- `ListDevicesFiltered`
  unfoldable pub list_devices_filtered : String → Bool → Sql Fleet (List Device)
  list_devices_filtered query enrolled_only =
      stmt (λ f. (ok (sort_by seen_later (select (is_shown query enrolled_only) f.devices)), f))

  -- `ListDevices`
  unfoldable pub list_devices : Sql Fleet (List Device)
  unfolding list_devices_filtered
  list_devices = list_devices_filtered "" false
