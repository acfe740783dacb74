-- ===== src/Sql/Keeps.antt =====
-- What calls keep of the rows, whatever fails: one rule for each way to build a call.
use cairn_mdm.Prelude.{◌≡◌, refl, Bool, true, false, if◌then◌else◌}
use cairn_mdm.Sql.{
  Conn, Sql, Result, ok, err, Error, is_failing, answer, stmt, pure, fail, catch, continue, ◌>>=◌,
}

pub record Keeps {ℓ} {S A : Type ℓ} (P : S → Type ℓ) (m : Sql S A) : Type ℓ where
  pub at : (c : Conn S) → P c.rows → P (m c).1.rows

module _ {ℓ} {S A : Type ℓ} {P : S → Type ℓ} where
  pub Keeps-stmt : (f : S → Result A × S) → ((s : S) → P s → P (f s).1) → Keeps P (stmt f)
  unfolding stmt
  Keeps-stmt f keep = record { at = λ c h. go c (is_failing c.faults) h }
    where
      go : (c : Conn S) (b : Bool) → P c.rows → P (answer b f c).1.rows
      go c true h = h
      go c false h = keep c.rows h

  pub Keeps-pure : (a : A) → Keeps P (pure a)
  unfolding pure
  Keeps-pure a = record { at = λ c h. h }

  pub Keeps-fail : (e : Error) → Keeps P (fail {A = A} e)
  unfolding fail
  Keeps-fail e = record { at = λ c h. h }

  pub Keeps-if : (b : Bool) (m n : Sql S A) → Keeps P m → Keeps P n → Keeps P (if b then m else n)
  Keeps-if true m n km kn = km
  Keeps-if false m n km kn = kn

module _ {ℓ} {S A B : Type ℓ} {P : S → Type ℓ} where
  pub Keeps-catch :
      (m : Sql S A) (f : Result A → Sql S B)
      → Keeps P m
      → ((r : Result A) → Keeps P (f r))
      → Keeps P (catch m f)
  unfolding catch
  Keeps-catch m f km kf = record { at = λ c h. let (r, c') = m c in (kf r).at c' (km.at c h) }

  pub Keeps-bind :
      (m : Sql S A) (f : A → Sql S B) → Keeps P m → ((a : A) → Keeps P (f a)) → Keeps P (m >>= f)
  unfolding ◌>>=◌
  Keeps-bind m f km kf = record { at = λ c h. let (r, c') = m c in go r c' (km.at c h) }
    where
      go : (r : Result A) (c : Conn S) → P c.rows → P (continue r f c).1.rows
      go (ok a) c h = (kf a).at c h
      go (err e) c h = h

pub ruleset keeps_rules = (Keeps-pure, Keeps-fail, Keeps-if, Keeps-catch, Keeps-bind)

-- The call keeps this of the rows and returns no error, whatever fails.
pub record Serves {ℓ} {S A : Type ℓ} (P : S → Type ℓ) (m : Sql S A) : Type ℓ where
  pub at : (c : Conn S) → P c.rows → ((a : A) × ((m c).0 ≡ ok a)) × P (m c).1.rows

module _ {ℓ} {S A : Type ℓ} {P : S → Type ℓ} where
  pub Serves-pure : (a : A) → Serves P (pure a)
  unfolding pure
  Serves-pure a = record { at = λ c h. ((a, refl), h) }

  pub Serves-if :
      (b : Bool) (m n : Sql S A) → Serves P m → Serves P n → Serves P (if b then m else n)
  Serves-if true m n am an = am
  Serves-if false m n am an = an

module _ {ℓ} {S A B : Type ℓ} {P : S → Type ℓ} where
  pub Serves-catch :
      (m : Sql S A) (f : Result A → Sql S B)
      → Keeps P m
      → ((r : Result A) → Serves P (f r))
      → Serves P (catch m f)
  unfolding catch
  Serves-catch m f km sf = record { at = λ c h. (sf (m c).0).at (m c).1 (km.at c h) }

  pub Serves-bind :
      (m : Sql S A) (f : A → Sql S B) → Serves P m → ((a : A) → Serves P (f a)) → Serves P (m >>= f)
  unfolding ◌>>=◌
  Serves-bind m f sm sf = record {
    at = λ c h.
        let ((a, e), k) = sm.at c h in
        let ((b, g), l) = (sf a).at (m c).1 k in ((b, rw e g), rw e l);
  }

pub ruleset serves_rules = (Serves-pure, Serves-if, Serves-catch, Serves-bind)
