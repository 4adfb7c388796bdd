-- ===== src/Common/Lists.antt =====
-- Lists measured and indexed by native numbers, and filtered by Boolean tests, under the library's
-- names.
use Prim.Native.Nat.{ℕ, zero, suc, ◌+◌, ◌-◌, ◌≤◌, min}
use mathlib.Core.Path.{◌≡◌, refl, ap, ◌∙◌}
use mathlib.Core.Bool.{Bool, true, false, ◌&&◌, ◌||◌}
use mathlib.Core.List.{List, [], ◌∷◌, ◌++◌, map}
use mathlib.Core.Option.{Option, none, some}
use native.Mathlib.Omega.{arith}
use mathlib.Core.Logic.{◌⊎◌, inl, inr}
use grace_mem.Common.Tests.{if◌then◌else◌, Bool-cases}

module _ {ℓ} {A : Type ℓ} where
  abbrev pub length : List A → ℕ
  length [] = 0
  length (x ∷ xs) = suc (length xs)

  abbrev pub get_elem? : List A → ℕ → Option A
  get_elem? [] i = none
  get_elem? (x ∷ xs) zero = some x
  get_elem? (x ∷ xs) (suc i) = get_elem? xs i

  abbrev pub take : ℕ → List A → List A
  take zero xs = []
  take (suc n) [] = []
  take (suc n) (x ∷ xs) = x ∷ take n xs

  abbrev pub drop : ℕ → List A → List A
  drop zero xs = xs
  drop (suc n) [] = []
  drop (suc n) (x ∷ xs) = drop n xs

  pub length-append : (xs ys : List A) → length (xs ++ ys) ≡ length xs + length ys
  length-append [] ys = omega arith
  length-append (x ∷ xs) ys = omega (arith, length-append xs ys)

  pub length-take-le : (n : ℕ) (xs : List A) → length (take n xs) ≤ n
  length-take-le zero xs = omega arith
  length-take-le (suc n) [] = omega arith
  length-take-le (suc n) (x ∷ xs) = omega (arith, length-take-le n xs)

  pub take_of_length-le : (n : ℕ) (xs : List A) → length xs ≤ n → take n xs ≡ xs
  take_of_length-le zero [] short = refl
  take_of_length-le (suc m) [] short = refl
  take_of_length-le zero (y ∷ ys) short = absurd (omega arith)
  take_of_length-le (suc m) (y ∷ ys) short =
      let rest = take_of_length-le m ys (omega arith) in ap (λ zs. y ∷ zs) rest

  pub take-append :
      (n : ℕ) (xs ys : List A) → length xs ≤ n → take n (xs ++ ys) ≡ xs ++ take (n - length xs) ys
  take-append n [] ys h = ap (λ k. take k ys) (omega arith)
  take-append zero (x ∷ xs) ys h = absurd (omega arith)
  take-append (suc n) (x ∷ xs) ys h =
      ap (◌∷◌ x) (take-append n xs ys (omega arith) ∙ ap (λ k. xs ++ take k ys) (omega arith))

  pub length-take : (n : ℕ) (xs : List A) → length (take n xs) ≡ min n (length xs)
  length-take zero xs = omega arith
  length-take (suc n) [] = omega arith
  length-take (suc n) (x ∷ xs) = omega (arith, length-take n xs)

  pub length-drop : (n : ℕ) (xs : List A) → length (drop n xs) ≡ length xs - n
  length-drop zero xs = omega arith
  length-drop (suc n) [] = omega arith
  length-drop (suc n) (x ∷ xs) = omega (arith, length-drop n xs)

  -- `not xs`
  abbrev pub is_nil : List A → Bool
  is_nil [] = true
  is_nil (x ∷ xs) = false

  -- `[x for x in xs if p(x)]`
  abbrev pub filter : (A → Bool) → List A → List A
  filter p [] = []
  filter p (x ∷ xs) = let rest = filter p xs in if p x then x ∷ rest else rest

  -- `any(p(x) for x in xs)` and `all(...)`
  abbrev pub any : (A → Bool) → List A → Bool
  any p [] = false
  any p (x ∷ xs) = p x || any p xs

  abbrev pub all : (A → Bool) → List A → Bool
  all p [] = true
  all p (x ∷ xs) = p x && all p xs

  pub length-filter-le : (p : A → Bool) (xs : List A) → length (filter p xs) ≤ length xs
  length-filter-le p [] = omega arith
  length-filter-le p (x ∷ xs) = ground (arith, length-filter-le p xs)

  -- A predicate on every element.
  abbrev pub All {κ} : (A → Type κ) → List A → Type κ
  All P [] = Unit
  All P (x ∷ xs) = P x × All P xs

  pub All-append {κ} :
      (P : A → Type κ) (front back : List A) → All P front → All P back → All P (front ++ back)
  All-append P [] back hf hb = hb
  All-append P (a ∷ front) back (here, there) hb = (here, All-append P front back there hb)

  pub All-take {κ} : (P : A → Type κ) (n : ℕ) (xs : List A) → All P xs → All P (take n xs)
  All-take P zero xs h = tt
  All-take P (suc n) [] h = tt
  All-take P (suc n) (x ∷ xs) h = (h.0, All-take P n xs h.1)

  -- `xs` with some elements left out, in order.
  pub data Subseq : List A → List A → Type ℓ where
    done : Subseq [] []
    keep : (x : A) {xs ys : List A} → Subseq xs ys → Subseq (x ∷ xs) (x ∷ ys)
    skip : (y : A) {xs ys : List A} → Subseq xs ys → Subseq xs (y ∷ ys)

  pub Subseq-nil : (ys : List A) → Subseq [] ys
  Subseq-nil [] = done
  Subseq-nil (y ∷ ys) = skip y (Subseq-nil ys)

  pub Subseq-refl : (xs : List A) → Subseq xs xs
  Subseq-refl [] = done
  Subseq-refl (x ∷ xs) = keep x (Subseq-refl xs)

  pub Subseq-trans : {ys zs : List A} → Subseq ys zs → {xs : List A} → Subseq xs ys → Subseq xs zs
  Subseq-trans done s = s
  Subseq-trans (skip y t) s = skip y (Subseq-trans t s)
  Subseq-trans (keep x t) (keep _ s) = keep x (Subseq-trans t s)
  Subseq-trans (keep x t) (skip _ s) = skip x (Subseq-trans t s)

  pub Subseq-take : (n : ℕ) (xs : List A) → Subseq (take n xs) xs
  Subseq-take zero xs = Subseq-nil xs
  Subseq-take (suc n) [] = done
  Subseq-take (suc n) (x ∷ xs) = keep x (Subseq-take n xs)

  Subseq-if :
      (b : Bool) (x : A) {xs ys : List A}
      → Subseq xs ys
      → Subseq (if b then x ∷ xs else xs) (x ∷ ys)
  Subseq-if true x s = keep x s
  Subseq-if false x s = skip x s

  pub Subseq-filter : (p : A → Bool) (xs : List A) → Subseq (filter p xs) xs
  Subseq-filter p [] = done
  Subseq-filter p (x ∷ xs) = Subseq-if (p x) x (Subseq-filter p xs)

  pub length-Subseq : {xs ys : List A} → Subseq xs ys → length xs ≤ length ys
  length-Subseq done = omega arith
  length-Subseq (keep x s) = omega (arith, length-Subseq s)
  length-Subseq (skip y s) = omega (arith, length-Subseq s)

module _ {ℓ κ} {A : Type ℓ} {B : Type κ} where
  abbrev pub foldl : (B → A → B) → B → List A → B
  foldl f b [] = b
  foldl f b (x ∷ xs) = foldl f (f b x) xs

  pub foldl-append :
      (f : B → A → B) (b : B) (xs ys : List A) → foldl f b (xs ++ ys) ≡ foldl f (foldl f b xs) ys
  foldl-append f b [] ys = refl
  foldl-append f b (x ∷ xs) ys = foldl-append f (f b x) xs ys

  pub length-map : (f : A → B) (xs : List A) → length (map f xs) ≡ length xs
  length-map f [] = refl
  length-map f (x ∷ xs) = ap suc (length-map f xs)

module _ {A : Type 0} where
  -- `a` is an element.
  abbrev pub In : A → List A → Type 0
  In a [] = ⊥
  In a (x ∷ xs) = (a ≡ x) ⊎ In a xs

  pub In-append_left : (a : A) (xs ys : List A) → In a xs → In a (xs ++ ys)
  In-append_left a [] ys h = elim h [ ]
  In-append_left a (x ∷ xs) ys (inl e) = inl e
  In-append_left a (x ∷ xs) ys (inr h) = inr (In-append_left a xs ys h)

  pub In-append_right : (a : A) (xs ys : List A) → In a ys → In a (xs ++ ys)
  In-append_right a [] ys h = h
  In-append_right a (x ∷ xs) ys h = inr (In-append_right a xs ys h)

  pub In-of-filter : (p : A → Bool) (a : A) (xs : List A) → In a (filter p xs) → In a xs
  In-of-filter p a [] h = h
  In-of-filter p a (x ∷ xs) h = elim (Bool-cases (p x)) [
    | inl y ↦ elim (rw y at h) [ inl e ↦ inl e | inr t ↦ inr (In-of-filter p a xs t) ]
    | inr n ↦ inr (In-of-filter p a xs (rw n at h))
  ]

  pub All-In {κ} : (P : A → Type κ) (xs : List A) → All P xs → (a : A) → In a xs → P a
  All-In P [] h a m = elim m [ ]
  All-In P (x ∷ xs) h a (inl e) = rw e h.0
  All-In P (x ∷ xs) h a (inr m) = All-In P xs h.1 a m

  pub All_of_In {κ} : (P : A → Type κ) (xs : List A) → ((a : A) → In a xs → P a) → All P xs
  All_of_In P [] h = tt
  All_of_In P (x ∷ xs) h = (h x (inl refl), All_of_In P xs (λ a m. h a (inr m)))

  pub All-filter {κ} :
      (P : A → Type κ) (p : A → Bool) (xs : List A)
      → ((a : A) → In a xs → p a ≡ true → P a)
      → All P (filter p xs)
  All-filter P p [] h = tt
  All-filter P p (x ∷ xs) h = elim (Bool-cases (p x)) [
    | inl y ↦ rw y (h x (inl refl) y, All-filter P p xs (λ a m. h a (inr m)))
    | inr n ↦ rw n (All-filter P p xs (λ a m. h a (inr m)))
  ]

  pub All-map {κ} :
      {B : Type 0} (f : A → B) (P : B → Type κ) (xs : List A)
      → All (λ a. P (f a)) xs
      → All P (map f xs)
  All-map f P [] h = tt
  All-map f P (x ∷ xs) h = (h.0, All-map f P xs h.1)
