-- ===== src/Server/Execute.antt =====
-- A service method: it reads and writes the state and may throw, and what it wrote before it threw
-- stays written.
use pocket_dev.Base.{Result, ok, err, Exception}

abbrev pub Execute {ℓ} : Type ℓ → Type ℓ → Type ℓ
Execute S A = S → Result A × S

module _ {ℓ} {S A : Type ℓ} where
  abbrev pub return : A → Execute S A
  return a s = (ok a, s)

  abbrev pub throw : Exception → Execute S A
  throw e s = (err e, s)

  abbrev pub modify : (S → S) → A → Execute S A
  modify f a s = (ok a, f s)

module _ {ℓ} {S A B : Type ℓ} where
  abbrev pub continue : Result A → (A → Execute S B) → Execute S B
  continue (ok a) f s = f a s
  continue (err e) f s = (err e, s)

  infixl 5 ◌>>=◌ ◌>>◌
  abbrev pub ◌>>=◌ : Execute S A → (A → Execute S B) → Execute S B
  ◌>>=◌ m f s = let (r, s') = m s in continue r f s'

  abbrev pub ◌>>◌ : Execute S A → Execute S B → Execute S B
  m >> n = m >>= λ _. n
