-- ===== src/Storage/Fleet/Search/Literal.antt =====
-- What a search finds.
use cairn_mdm.Prelude.{
  ℕ, String, Bool, true, false, ◌&&◌, ◌||◌, List, [], ◌∷◌, ◌++◌, map, ◌≡◌, refl, fun_ext, ap, ◌==◌,
  string_eq, nat_eq, if◌then◌else◌, select, any, sort_by, arith,
}
use cairn_mdm.Sql.{ok, Conn, stmt}
use cairn_mdm.Storage.Fleet.{Fleet, Device}
use cairn_mdm.Storage.Fleet.Devices.{is_null}
use cairn_mdm.Storage.Fleet.Search.{
  Kind, escape, percent, underscore, plain, kind, with_escape, escape_like, lower, Token, any_text,
  rune, read_escaped, suffixes, matches, like, pattern_of, seen_later, column_like, is_shown,
  list_devices_filtered,
}

-- the text begins with the query, but for the case of ASCII letters
abbrev pub begins : List ℕ → List ℕ → Bool
begins [] xs = true
begins (c ∷ cs) [] = false
begins (c ∷ cs) (x ∷ xs) = lower c == lower x && begins cs xs

-- the query stands somewhere in the text
abbrev pub contains : List ℕ → List ℕ → Bool
contains query xs = any (begins query) (suffixes xs)

lower-lower : (c : ℕ) → lower (lower c) ≡ lower c
lower-lower c = ground arith

abbrev literal : List ℕ → List Token
literal [] = any_text ∷ []
literal (c ∷ cs) = rune (lower c) ∷ literal cs

read-escaped_rune :
    (c : ℕ) (cs : List ℕ)
    → read_escaped false (map lower (with_escape (kind c) c cs))
      ≡ rune (lower c) ∷ read_escaped false (map lower cs)
read-escaped_rune c cs = ground arith

with_escape-append :
    (k : Kind) (c : ℕ) (xs ys : List ℕ) → with_escape k c xs ++ ys ≡ with_escape k c (xs ++ ys)
with_escape-append escape c xs ys = refl
with_escape-append percent c xs ys = refl
with_escape-append underscore c xs ys = refl
with_escape-append plain c xs ys = refl

read-escape_like :
    (cs : List ℕ) → read_escaped false (map lower (escape_like cs ++ 37 ∷ [])) ≡ literal cs
unfolding escape_like
read-escape_like [] = refl
read-escape_like (c ∷ cs) =
    rw
      (
        with_escape-append (kind c) c (escape_like cs) (37 ∷ []),
        read-escaped_rune c (escape_like cs ++ 37 ∷ []),
        read-escape_like cs,
      )
      refl

ends : (xs : List ℕ) → any (matches []) (suffixes xs) ≡ true
ends [] = refl
ends (x ∷ xs) = ends xs

matches-literal : (cs xs : List ℕ) → matches (literal cs) (map lower xs) ≡ begins cs xs
matches-literal [] xs = ends (map lower xs)
matches-literal (c ∷ cs) [] = refl
matches-literal (c ∷ cs) (x ∷ xs) = rw (lower-lower c, lower-lower x, matches-literal cs xs) refl

any-literal :
    (cs xs : List ℕ) → any (matches (literal cs)) (suffixes (map lower xs)) ≡ contains cs xs
any-literal cs [] = rw (matches-literal cs []) refl
any-literal cs (x ∷ xs) = rw (matches-literal cs (x ∷ xs), any-literal cs xs) refl

like-pattern : (cs xs : List ℕ) → like (map lower xs) (map lower (pattern_of cs)) ≡ contains cs xs
like-pattern cs xs = rw (read-escape_like cs) (any-literal cs xs)

module _ (runes : String → List ℕ) where
  -- a device that the search should show
  abbrev pub is_meant : String → Bool → Device → Bool
  is_meant query enrolled_only d =
      (if query == ""
        then true
        else contains (runes query) (runes d.name)
          || contains (runes query) (runes d.serial)
          || contains (runes query) (runes d.model)
          || contains (runes query) (runes d.udid))
      && (if enrolled_only then is_null d.checked_out_at else true)

  shown-meant :
      (query : String) (enrolled_only : Bool) (d : Device)
      → is_shown runes query enrolled_only d ≡ is_meant query enrolled_only d
  unfolding column_like
  shown-meant query enrolled_only d =
      rw
        (
          like-pattern (runes query) (runes d.name),
          like-pattern (runes query) (runes d.serial),
          like-pattern (runes query) (runes d.model),
          like-pattern (runes query) (runes d.udid),
        )
        refl

  -- Whatever the query is, wildcards and backslashes included, the search lists exactly the devices of
  -- which the name, the serial, the model or the UDID contains the query as it stands, but for the
  -- case of ASCII letters, and all of them for an empty query; with the flag, only those that are not
  -- checked out; the latest seen come first. If its statement fails, it fails and changes nothing.
  pub list_devices_filtered-literal :
      (query : String) (enrolled_only : Bool) (c : Conn Fleet)
      → list_devices_filtered runes query enrolled_only c
        ≡ stmt
            (λ f. (ok (sort_by seen_later (select (is_meant query enrolled_only) f.devices)), f))
            c
  unfolding list_devices_filtered
  list_devices_filtered-literal query enrolled_only c =
      ap (λ p. stmt (λ f. (ok (sort_by seen_later (select p f.devices)), f)) c)
        (fun_ext (shown-meant query enrolled_only))
