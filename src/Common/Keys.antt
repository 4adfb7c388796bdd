-- ===== src/Common/Keys.antt =====
-- Types with a Boolean equality, and lists used as Python sets and as lists without duplicates.
use Prim.Native.Nat.{ℕ}
use mathlib.Core.Path.{◌≡◌, refl, sym, ap, ◌∙◌}
use mathlib.Core.Logic.{◌↔◌, inl, inr}
use mathlib.Core.Bool.{Bool, true, false, ◌&&◌, ◌||◌}
use mathlib.Core.List.{List, [], ◌∷◌, ◌++◌, append-nil, append_assoc}
use native.Mathlib.Omega.{arith}
use grace_mem.Common.Tests.{if◌then◌else◌, eqb, eqb_iff, Bool-cases}
use grace_mem.Common.Lists.{filter, All, Subseq, done, keep, skip}

pub record Eq (A : Type 0) : Type 0 where
  pub beq : A → A → Bool
  pub beq_iff : (a b : A) → (beq a b ≡ true) ↔ (a ≡ b)

infix 50 ◌==◌
abbrev pub ◌==◌ : {A : Type 0} ⦃e : Eq A⦄ → A → A → Bool
◌==◌ ⦃e⦄ = e.beq

instance abbrev pub nat_eq : Eq ℕ
nat_eq = record { beq = eqb; beq_iff = eqb_iff }

unfoldable pub list_beq : {A : Type 0} ⦃e : Eq A⦄ → List A → List A → Bool
list_beq [] [] = true
list_beq (x ∷ xs) (y ∷ ys) = x == y && list_beq xs ys
list_beq _ _ = false

module _ {A : Type 0} ⦃e : Eq A⦄ where
  pub beq_refl : (a : A) → (a == a) ≡ true
  beq_refl a = (e.beq_iff a a).1 refl

  beq_symm : (a b : A) → (a == b) ≡ (b == a)
  beq_symm a b = ground (arith, e.beq_iff a b, e.beq_iff b a)

  list_beq_sound : (xs ys : List A) → list_beq xs ys ≡ true → xs ≡ ys
  unfolding list_beq
  list_beq_sound [] [] h = refl
  list_beq_sound [] (y ∷ ys) h = cc
  list_beq_sound (x ∷ xs) [] h = cc
  list_beq_sound (x ∷ xs) (y ∷ ys) h = ground (arith, e.beq_iff x y, list_beq_sound xs ys)

  list_beq_refl : (xs : List A) → list_beq xs xs ≡ true
  unfolding list_beq
  list_beq_refl [] = refl
  list_beq_refl (x ∷ xs) = rw (beq_refl x) (list_beq_refl xs)

  list_beq_complete : (xs ys : List A) → xs ≡ ys → list_beq xs ys ≡ true
  list_beq_complete xs ys h = rw (← h) (list_beq_refl xs)

  pub list_beq_iff : (xs ys : List A) → (list_beq xs ys ≡ true) ↔ (xs ≡ ys)
  list_beq_iff xs ys = (list_beq_sound xs ys, list_beq_complete xs ys)

-- Python texts are lists of code points.
abbrev pub Text : Type 0
Text = List ℕ

instance abbrev pub text_eq : Eq Text
text_eq = record { beq = list_beq; beq_iff = list_beq_iff }

module _ {A : Type 0} ⦃e : Eq A⦄ where
  -- `a in xs`
  unfoldable pub contains : List A → A → Bool
  contains [] a = false
  contains (x ∷ xs) a = a == x || contains xs a

  pub contains-append :
      (xs ys : List A) (a : A) → contains (xs ++ ys) a ≡ (contains xs a || contains ys a)
  unfolding contains
  contains-append [] ys a = refl
  contains-append (x ∷ xs) ys a = ground (arith, contains-append xs ys a)

  pub contains-cons_self : (a : A) (xs : List A) → contains (a ∷ xs) a ≡ true
  unfolding contains
  contains-cons_self a xs = rw (beq_refl a)

  pub contains-cons_of : (x a : A) (xs : List A) → contains xs a ≡ true → contains (x ∷ xs) a ≡ true
  unfolding contains
  contains-cons_of x a xs h = ground arith

  pub contains-filter :
      (p : A → Bool) (xs : List A) (a : A) → contains (filter p xs) a ≡ (contains xs a && p a)
  unfolding contains
  contains-filter p [] a = refl
  contains-filter p (x ∷ xs) a = elim (Bool-cases (a == x)) [
    | inl same ↦ let q = (e.beq_iff a x).0 same in ground (arith, ap p q, contains-filter p xs a)
    | inr other ↦ ground (arith, contains-filter p xs a)
  ]

  pub contains-All {κ} :
      (P : A → Type κ) (xs : List A) (a : A) → All P xs → contains xs a ≡ true → P a
  unfolding contains
  contains-All P [] a h c = absurd (cc c)
  contains-All P (x ∷ xs) a h c = elim (Bool-cases (a == x)) [
    | inl same ↦ rw ((e.beq_iff a x).0 same) h.0
    | inr other ↦ contains-All P xs a h.1 (rw other at c)
  ]

  pub All_of_contains {κ} :
      (P : A → Type κ) (xs : List A) → ((a : A) → contains xs a ≡ true → P a) → All P xs
  All_of_contains P [] h = tt
  All_of_contains P (x ∷ xs) h =
      (h x (contains-cons_self x xs), All_of_contains P xs (λ a c. h a (contains-cons_of x a xs c)))

  pub contains-Subseq :
      {xs ys : List A} → Subseq xs ys → (a : A) → contains xs a ≡ true → contains ys a ≡ true
  unfolding contains
  contains-Subseq done a h = h
  contains-Subseq (keep x s) a h = ground (arith, contains-Subseq s a)
  contains-Subseq (skip y s) a h = ground (arith, contains-Subseq s a)

  -- No element twice.
  abbrev pub Distinct : List A → Type 0
  Distinct [] = Unit
  Distinct (x ∷ xs) = (contains xs x ≡ false) × Distinct xs

  not-contains-Subseq :
      {xs ys : List A} → Subseq xs ys → (a : A) → contains ys a ≡ false → contains xs a ≡ false
  not-contains-Subseq {xs} s a h = elim (Bool-cases (contains xs a)) [
    | inl c ↦ absurd (cc (contains-Subseq s a c))
    | inr c ↦ c
  ]

  pub Distinct-Subseq : {xs ys : List A} → Subseq xs ys → Distinct ys → Distinct xs
  Distinct-Subseq done d = tt
  Distinct-Subseq (keep x s) d = (not-contains-Subseq s x d.0, Distinct-Subseq s d.1)
  Distinct-Subseq (skip y s) d = Distinct-Subseq s d.1

  pub Distinct-append :
      (xs ys : List A)
      → Distinct xs
      → Distinct ys
      → ((a : A) → contains xs a ≡ true → contains ys a ≡ false)
      → Distinct (xs ++ ys)
  unfolding contains
  Distinct-append [] ys dx dy h = dy
  Distinct-append (x ∷ xs) ys dx dy h = (
    rw (contains-append xs ys x, dx.0) (h x (contains-cons_self x xs)),
    Distinct-append xs ys dx.1 dy (λ a c. h a (contains-cons_of x a xs c)),
  )

  -- The loop `for x in xs: if x not in seen: seen.add(x); out.append(x)`, from an `out` whose
  -- elements are `seen`.
  unfoldable pub dedup_into : List A → List A → List A
  dedup_into out [] = out
  dedup_into out (x ∷ xs) = dedup_into (if contains out x then out else out ++ (x ∷ [])) xs

  abbrev pub dedup : List A → List A
  dedup xs = dedup_into [] xs

  contains-push :
      (out : List A) (x a : A)
      → contains (if contains out x then out else out ++ (x ∷ [])) a ≡ (contains out a || (a == x))
  unfolding contains
  contains-push out x a = elim (Bool-cases (contains out x)) [
    | inl old ↦ elim (Bool-cases (a == x)) [
      | inl same ↦ let q = (e.beq_iff a x).0 same in ground (arith, ap (contains out) q)
      | inr other ↦ ground arith
    ]
    | inr new ↦ ground (arith, contains-append out (x ∷ []) a)
  ]

  pub contains-dedup_into :
      (out xs : List A) (a : A) → contains (dedup_into out xs) a ≡ (contains out a || contains xs a)
  unfolding dedup_into contains
  contains-dedup_into out [] a = ground arith
  contains-dedup_into out (x ∷ xs) a = ground (
    arith,
    contains-dedup_into (if contains out x then out else out ++ (x ∷ [])) xs a,
    contains-push out x a,
  )

  pub contains-dedup : (xs : List A) (a : A) → contains (dedup xs) a ≡ contains xs a
  unfolding contains
  contains-dedup xs a = contains-dedup_into [] xs a

  Distinct-push :
      (out : List A) (x : A)
      → Distinct out
      → Distinct (if contains out x then out else out ++ (x ∷ []))
  unfolding contains
  Distinct-push out x d = elim (Bool-cases (contains out x)) [
    | inl old ↦ rw old d
    | inr new ↦ rw new (
        Distinct-append out (x ∷ []) d (refl, tt)
          (λ a c. elim (Bool-cases (a == x)) [
            | inl same ↦
                let q = (e.beq_iff a x).0 same in absurd (ground (arith, ap (contains out) q))
            | inr other ↦ rw other
          ]))
  ]

  pub Distinct-dedup_into : (out xs : List A) → Distinct out → Distinct (dedup_into out xs)
  unfolding dedup_into
  Distinct-dedup_into out [] d = d
  Distinct-dedup_into out (x ∷ xs) d =
      Distinct-dedup_into (if contains out x then out else out ++ (x ∷ [])) xs
        (Distinct-push out x d)

  pub Distinct-dedup : (xs : List A) → Distinct (dedup xs)
  Distinct-dedup xs = Distinct-dedup_into [] xs tt

  not_head :
      (x a : A) (xs : List A)
      → contains xs x ≡ false
      → contains xs a ≡ true
      → contains (x ∷ []) a ≡ false
  unfolding contains
  not_head x a xs n c = elim (Bool-cases (a == x)) [
    | inl same ↦ let q = (e.beq_iff a x).0 same in absurd (ground (arith, ap (contains xs) q))
    | inr other ↦ rw other
  ]

  -- A list without duplicates goes through unchanged.
  pub dedup_into-Distinct :
      (xs out : List A)
      → Distinct xs
      → ((a : A) → contains xs a ≡ true → contains out a ≡ false)
      → dedup_into out xs ≡ out ++ xs
  unfolding dedup_into
  dedup_into-Distinct [] out d h = sym (append-nil out)
  dedup_into-Distinct (x ∷ xs) out d h = rw (h x (contains-cons_self x xs)) (
      rw (dedup_into-Distinct xs (out ++ (x ∷ [])) d.1 (fresh d.0 h))
        (append_assoc out (x ∷ []) xs))
    where
      fresh :
          contains xs x ≡ false
          → ((a : A) → contains (x ∷ xs) a ≡ true → contains out a ≡ false)
          → (a : A) → contains xs a ≡ true
          → contains (out ++ (x ∷ [])) a ≡ false
      fresh n g a c =
          rw (contains-append out (x ∷ []) a, g a (contains-cons_of x a xs c)) (other n a c)
        where
          other :
              contains xs x ≡ false → (a : A) → contains xs a ≡ true → contains (x ∷ []) a ≡ false
          other n a c = not_head x a xs n c

  pub dedup-Distinct : (xs : List A) → Distinct xs → dedup xs ≡ xs
  unfolding contains
  dedup-Distinct xs d = dedup_into-Distinct xs [] d (λ a c. refl)

  pub All-dedup {κ} : (P : A → Type κ) (xs : List A) → All P xs → All P (dedup xs)
  All-dedup P xs h =
      All_of_contains P (dedup xs) (λ a c. contains-All P xs a h (sym (contains-dedup xs a) ∙ c))

  pub All-Subseq {κ} : (P : A → Type κ) {xs ys : List A} → Subseq xs ys → All P ys → All P xs
  All-Subseq P done h = tt
  All-Subseq P (keep x s) h = (h.0, All-Subseq P s h.1)
  All-Subseq P (skip y s) h = All-Subseq P s h.1
