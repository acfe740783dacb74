-- ===== src/Storage/Migrations/Ordering.antt =====
-- The order of the migrations, and which files they are.
use cairn_mdm.Prelude.{
  ℕ, String, Bool, true, false, ◌&&◌, not, List, [], ◌∷◌, ◌≡◌, refl, ◌⊎◌, inl, inr, string_eq, ◌==◌,
  count, insert_by, sort_by, text_before, Bool-cases, arith,
}
use cairn_mdm.Storage.Migrations.{File, Schema, precedes}

-- an entry that is a file with the suffix `.sql`
abbrev pub is_script : {D : Type 0} → Schema D → File → Bool
is_script s f = not f.is_dir && s.has_suffix f.name

-- how often a name occurs
abbrev pub times : String → List File → ℕ
times name fs = count (λ f. f.name == name) fs

-- `f` may stand right before `g`: its name is before that of `g`, or that of `g` is not before its own.
abbrev pub MayPrecede : File → File → Type 0
MayPrecede f g = (text_before f.name g.name ≡ true) ⊎ (text_before g.name f.name ≡ false)

abbrev pub IsFirstOf : File → List File → Type 0
IsFirstOf f [] = Unit
IsFirstOf f (g ∷ gs) = MayPrecede f g

-- Each file may stand right before the next one.
abbrev pub IsOrdered : List File → Type 0
IsOrdered [] = Unit
IsOrdered (f ∷ fs) = IsFirstOf f fs × IsOrdered fs

insert_by-IsFirstOf :
    (f g : File) (fs : List File)
    → MayPrecede f g
    → IsFirstOf f fs
    → IsFirstOf f (insert_by precedes g fs)
insert_by-IsFirstOf f g [] p h = p
insert_by-IsFirstOf f g (x ∷ xs) p h = elim (Bool-cases (precedes x g)) [
  | inl e ↦ rw e h
  | inr e ↦ rw e p
]

insert_by-IsOrdered :
    (g : File) (fs : List File) → IsOrdered fs → IsOrdered (insert_by precedes g fs)
insert_by-IsOrdered g [] h = (tt, tt)
insert_by-IsOrdered g (x ∷ xs) (first, h) = elim (Bool-cases (precedes x g)) [
  | inl e ↦ rw e (insert_by-IsFirstOf x g xs (inl e) first, insert_by-IsOrdered g xs h)
  | inr e ↦ rw e (inr e, (first, h))
]

pub sort_by-IsOrdered : (fs : List File) → IsOrdered (sort_by precedes fs)
sort_by-IsOrdered [] = tt
sort_by-IsOrdered (f ∷ fs) = insert_by-IsOrdered f (sort_by precedes fs) (sort_by-IsOrdered fs)

insert_by-times :
    (name : String) (g : File) (fs : List File)
    → times name (insert_by precedes g fs) ≡ times name (g ∷ fs)
insert_by-times name g [] = refl
insert_by-times name g (x ∷ xs) = elim (Bool-cases (precedes x g)) [
  | inl e ↦ rw e (omega (arith, insert_by-times name g xs))
  | inr e ↦ rw e refl
]

pub sort_by-times :
    (name : String) (fs : List File) → times name (sort_by precedes fs) ≡ times name fs
sort_by-times name [] = refl
sort_by-times name (f ∷ fs) =
    omega (arith, insert_by-times name f (sort_by precedes fs), sort_by-times name fs)
