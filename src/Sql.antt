-- ===== src/Sql.antt =====
-- Statements on the database (database/sql over SQLite). A statement is one atomic step on the
-- rows that a component uses. Whether the driver fails at it is decided by the outside world: the
-- list `faults` says so for the statements to come, and a list that has run out means no failure.
-- A failed statement changes no row. `fmt.Errorf` with `%w` keeps the error it wraps; its text is
-- left out.
pub mod Keeps
use cairn_mdm.Prelude.{
  Bool, true, false, List, [], ◌∷◌, Option, none, some, String, ◌≡◌, refl, ◌⊎◌, inl, inr,
}

pub data Error : Type 0 where
  driver no_rows constraint : Error
  grant_invalid no_session invalid_credentials setting_not_found key_not_found : Error
  message : String → Error

pub data Result {ℓ} (A : Type ℓ) : Type ℓ where
  ok : A → Result A
  err : Error → Result A

pub record Conn {ℓ} (S : Type ℓ) : Type ℓ where
  pub rows : S
  pub faults : List Bool

-- A database at which no statement fails.
abbrev pub working {ℓ} : {S : Type ℓ} → S → Conn S
working rows = record { rows = rows; faults = [] }

-- A call on the database: what it returns, and the rows it leaves.
abbrev pub Sql {ℓ} : Type ℓ → Type ℓ → Type ℓ
Sql S A = Conn S → Result A × Conn S

abbrev pub is_failing : List Bool → Bool
is_failing [] = false
is_failing (b ∷ bs) = b

abbrev pub later : List Bool → List Bool
later [] = []
later (b ∷ bs) = bs

module _ {ℓ} {S A : Type ℓ} where
  abbrev pub answer : Bool → (S → Result A × S) → Sql S A
  answer true f c = (err driver, record c { faults = later c.faults })
  answer false f c = let (r, s) = f c.rows in (r, record { rows = s; faults = later c.faults })

  -- `QueryRow(...).Scan`: the row that was found, or `sql.ErrNoRows`
  abbrev pub query_row : S → Option A → Result A × S
  query_row s none = (err no_rows, s)
  query_row s (some a) = (ok a, s)

  unfoldable pub stmt : (S → Result A × S) → Sql S A
  stmt f c = answer (is_failing c.faults) f c

  unfoldable pub pure : A → Sql S A
  pure a c = (ok a, c)

  unfoldable pub fail : Error → Sql S A
  fail e c = (err e, c)

module _ {ℓ} {S A B : Type ℓ} where
  abbrev pub continue : Result A → (A → Sql S B) → Sql S B
  continue (ok a) f c = f a c
  continue (err e) f c = (err e, c)

  infixl 10 ◌>>=◌ ◌>>◌
  unfoldable pub ◌>>=◌ : Sql S A → (A → Sql S B) → Sql S B
  unfolding pure fail
  ◌>>=◌ m f c = let (r, c') = m c in continue r f c'

  abbrev pub ◌>>◌ : Sql S A → Sql S B → Sql S B
  m >> n = m >>= λ _. n

  -- The rest reads the outcome, as a handler of an error does.
  unfoldable pub catch : Sql S A → (Result A → Sql S B) → Sql S B
  unfolding pure fail
  catch m f c = let (r, c') = m c in f r c'

pub Result-cases {ℓ} :
    {A : Type ℓ} (r : Result A) → ((a : A) × (r ≡ ok a)) ⊎ ((e : Error) × (r ≡ err e))
Result-cases (ok a) = inl (a, refl)
Result-cases (err e) = inr (e, refl)

-- A call on a part of the state.
unfoldable pub zoom : {S W A : Type 0} → (W → S) → (S → W → W) → Sql S A → Sql W A
zoom get put m c =
    let (r, d) = m (record { rows = get c.rows; faults = c.faults }) in
    (r, record { rows = put d.rows c.rows; faults = d.faults })
