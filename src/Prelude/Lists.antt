-- ===== src/Prelude/Lists.antt =====
-- Lists over the native numbers, and the selections that a query makes of a table.
use Prim.Native.Nat.{ℕ, zero, suc, ◌+◌}
use mathlib.Core.Path.{◌≡◌, refl}
use mathlib.Core.Logic.{◌⊎◌, inl, inr}
use mathlib.Core.Bool.{Bool, true, false, ◌||◌}
use mathlib.Core.Option.{Option, none, some}
use mathlib.Core.List.{List, [], ◌∷◌, ◌++◌}
use native.Mathlib.Omega.{arith}
use cairn_mdm.Prelude.Tests.{if◌then◌else◌, Bool-cases}

-- A property of each element.
abbrev pub All {ℓ κ} : {A : Type ℓ} → (A → Type κ) → List A → Type κ
All P [] = Unit
All P (x ∷ xs) = P x × All P xs

-- A property of some element, which is shown.
abbrev pub Any {ℓ} : {A : Type ℓ} → (A → Type 0) → List A → Type 0
Any P [] = ⊥
Any P (x ∷ xs) = P x ⊎ Any P xs

module _ {ℓ} {A : Type ℓ} where
  abbrev pub length : List A → ℕ
  length [] = 0
  length (x ∷ xs) = suc (length xs)

  -- `SELECT ... WHERE p`
  abbrev pub select : (A → Bool) → List A → List A
  select p [] = []
  select p (x ∷ xs) = let rest = select p xs in if p x then x ∷ rest else rest

  -- `UPDATE ... SET f WHERE p`
  abbrev pub update : (A → Bool) → (A → A) → List A → List A
  update p f [] = []
  update p f (x ∷ xs) = (if p x then f x else x) ∷ update p f xs

  -- `SELECT count(*) ... WHERE p`; the number of rows that a statement changes
  abbrev pub count : (A → Bool) → List A → ℕ
  count p [] = 0
  count p (x ∷ xs) = (if p x then 1 else 0) + count p xs

  abbrev pub any : (A → Bool) → List A → Bool
  any p [] = false
  any p (x ∷ xs) = p x || any p xs

  -- `QueryRow`: the first row
  abbrev pub find : (A → Bool) → List A → Option A
  find p [] = none
  find p (x ∷ xs) = if p x then some x else find p xs

  abbrev pub take : ℕ → List A → List A
  take n [] = []
  take zero (x ∷ xs) = []
  take (suc n) (x ∷ xs) = x ∷ take n xs

  -- `ORDER BY`: a row goes before the first row that does not come before it
  abbrev pub insert_by : (A → A → Bool) → A → List A → List A
  insert_by before x [] = x ∷ []
  insert_by before x (y ∷ ys) =
      let rest = insert_by before x ys in if before y x then y ∷ rest else x ∷ y ∷ ys

  abbrev pub sort_by : (A → A → Bool) → List A → List A
  sort_by before [] = []
  sort_by before (x ∷ xs) = insert_by before x (sort_by before xs)

  pub length-append : (xs ys : List A) → length (xs ++ ys) ≡ length xs + length ys
  length-append [] ys = omega arith
  length-append (x ∷ xs) ys = omega (arith, length-append xs ys)

  pub update_of_find-none :
      (p : A → Bool) (f : A → A) (xs : List A) → find p xs ≡ none → update p f xs ≡ xs
  update_of_find-none p f [] h = refl
  update_of_find-none p f (x ∷ xs) h = ground (arith, update_of_find-none p f xs)

  pub find-append_last :
      (p : A → Bool) (xs : List A) (y : A)
      → any p xs ≡ false
      → p y ≡ true
      → find p (xs ++ y ∷ []) ≡ some y
  find-append_last p [] y h e = ground arith
  find-append_last p (x ∷ xs) y h e = ground (arith, find-append_last p xs y)

  pub find-select :
      (p q : A → Bool) (xs : List A) (x : A) → find p (select q xs) ≡ some x → q x ≡ true
  find-select p q [] x h = cc
  find-select p q (y ∷ ys) x h = ground (arith, find-select p q ys x)

  pub find-holds : (p : A → Bool) (xs : List A) (x : A) → find p xs ≡ some x → p x ≡ true
  find-holds p [] x h = cc
  find-holds p (y ∷ ys) x h = ground (arith, find-holds p ys x)

  pub find-update :
      (p : A → Bool) (f : A → A) (xs : List A) (y : A)
      → ((x : A) → p (f x) ≡ p x)
      → find p (update p f xs) ≡ some y
      → (x : A) × (find p xs ≡ some x) × (f x ≡ y)
  find-update p f [] y same h = cc
  find-update p f (x ∷ xs) y same h = elim (Bool-cases (p x)) [
    | inl e ↦ (x, ground arith, ground (arith, same x))
    | inr e ↦
        let (z, found, to) = find-update p f xs y same (ground (arith, same x)) in
        (z, ground arith, to)
  ]
