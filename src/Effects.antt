-- ===== src/Effects.antt =====
-- Code that changes a state and may raise: `none` is an exception, and the state comes back either
-- way, since what was written before an exception stays written.
use grace_mem.Common.{◌≡◌, refl, Option, none, some}

abbrev pub Exec : Type 0 → Type 0 → Type 0
Exec S A = S → Option A × S

module _ {S : Type 0} where
  abbrev pub continue : {A B : Type 0} → Option A → (A → Exec S B) → Exec S B
  continue none f s = (none, s)
  continue (some a) f s = f a s

  infixl 5 ◌>>=◌ ◌>>◌
  abbrev pub ◌>>=◌ : {A B : Type 0} → Exec S A → (A → Exec S B) → Exec S B
  ◌>>=◌ m f s = let (o, s') = m s in continue o f s'

  abbrev pub ◌>>◌ : {A B : Type 0} → Exec S A → Exec S B → Exec S B
  m >> k = m >>= λ _. k

  abbrev pub return : {A : Type 0} → A → Exec S A
  return a s = (some a, s)

  -- A call that changes nothing and may raise.
  abbrev pub attempt : {A : Type 0} → Option A → Exec S A
  attempt o s = (o, s)

  abbrev pub modify : (S → S) → Exec S (Unit {0})
  modify f s = (some tt, f s)

  -- Inversion of a chain that returned.
  pub attempt-eq-some :
      {A B : Type 0} (o : Option A) (f : A → Exec S B) (s : S) {b : B}
      → ((attempt o >>= f) s).0 ≡ some b
      → (a : A) × (o ≡ some a) × ((f a s).0 ≡ some b)
  attempt-eq-some none f s h = absurd (cc h)
  attempt-eq-some (some a) f s h = (a, refl, h)
