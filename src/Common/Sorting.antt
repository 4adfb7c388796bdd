-- ===== src/Common/Sorting.antt =====
-- Python's stable sort, by insertion, over the order that the sort's key gives.
use Prim.Native.Nat.{ℕ, suc, ◌<◌}
use mathlib.Core.Path.{◌≡◌, refl, ap, ◌∙◌}
use mathlib.Core.Logic.{inl, inr}
use mathlib.Core.Bool.{Bool, true, false, ◌||◌}
use mathlib.Core.List.{List, [], ◌∷◌, map}
use native.Mathlib.Omega.{arith}
use grace_mem.Common.Tests.{if◌then◌else◌, leb, Bool-cases}
use grace_mem.Common.Lists.{length, All, In, Subseq, keep, skip, Subseq-nil}
use grace_mem.Common.Keys.{Eq, nat_eq, ◌==◌, contains, Distinct}

module _ {A : Type 0} (le : A → A → Bool) where
  unfoldable pub insert_by : A → List A → List A
  insert_by e [] = e ∷ []
  insert_by e (f ∷ fs) = if le e f then e ∷ f ∷ fs else f ∷ insert_by e fs

  -- `sorted(xs)`, where `le` compares keys: elements with equal keys keep their order.
  unfoldable pub sort_by : List A → List A
  unfolding insert_by
  sort_by [] = []
  sort_by (e ∷ es) = insert_by e (sort_by es)

  length-insert_by : (e : A) (fs : List A) → length (insert_by e fs) ≡ suc (length fs)
  unfolding insert_by
  length-insert_by e [] = refl
  length-insert_by e (f ∷ fs) = ground (arith, length-insert_by e fs)

  pub length-sort_by : (es : List A) → length (sort_by es) ≡ length es
  unfolding sort_by
  length-sort_by [] = refl
  length-sort_by (e ∷ es) = ground (arith, length-insert_by e (sort_by es), length-sort_by es)

  pub All-insert_by {κ} :
      (P : A → Type κ) (e : A) (fs : List A) → P e → All P fs → All P (insert_by e fs)
  unfolding insert_by
  All-insert_by P e [] p h = (p, tt)
  All-insert_by P e (f ∷ fs) p h = elim (Bool-cases (le e f)) [
    | inl low ↦ rw low (p, h)
    | inr high ↦ rw high (h.0, All-insert_by P e fs p h.1)
  ]

  pub All-sort_by {κ} : (P : A → Type κ) (es : List A) → All P es → All P (sort_by es)
  unfolding sort_by
  All-sort_by P [] h = tt
  All-sort_by P (e ∷ es) h = All-insert_by P e (sort_by es) h.0 (All-sort_by P es h.1)

  In-insert_by-head : (e : A) (fs : List A) → In e (insert_by e fs)
  unfolding insert_by
  In-insert_by-head e [] = inl refl
  In-insert_by-head e (f ∷ fs) = elim (Bool-cases (le e f)) [
    | inl low ↦ rw low (inl refl)
    | inr high ↦ rw high (inr (In-insert_by-head e fs))
  ]

  In-insert_by-tail : (x e : A) (fs : List A) → In x fs → In x (insert_by e fs)
  unfolding insert_by
  In-insert_by-tail x e [] m = elim m [ ]
  In-insert_by-tail x e (f ∷ fs) m = elim (Bool-cases (le e f)) [
    | inl low ↦ rw low (inr m)
    | inr high ↦ rw high (elim m [ inl q ↦ inl q | inr r ↦ inr (In-insert_by-tail x e fs r) ])
  ]

  -- Sorting loses nothing.
  pub In-sort_by : (x : A) (es : List A) → In x es → In x (sort_by es)
  unfolding sort_by
  In-sort_by x [] m = elim m [ ]
  In-sort_by x (e ∷ es) (inl q) = rw q (In-insert_by-head e (sort_by es))
  In-sort_by x (e ∷ es) (inr m) = In-insert_by-tail x e (sort_by es) (In-sort_by x es m)

  -- Every element comes before the ones that follow it.
  abbrev pub IsSorted : List A → Type 0
  IsSorted [] = Unit
  IsSorted (x ∷ xs) = All (λ y. le x y ≡ true) xs × IsSorted xs

  module _ (total : (a b : A) → le a b ≡ false → le b a ≡ true)
      (trans : (a b c : A) → le a b ≡ true → le b c ≡ true → le a c ≡ true) where
    All-below :
        (x f : A) (fs : List A)
        → le x f ≡ true
        → All (λ y. le f y ≡ true) fs
        → All (λ y. le x y ≡ true) fs
    All-below x f [] p h = tt
    All-below x f (g ∷ gs) p h = (trans x f g p h.0, All-below x f gs p h.1)

    insert_by-IsSorted : (e : A) (fs : List A) → IsSorted fs → IsSorted (insert_by e fs)
    unfolding insert_by
    insert_by-IsSorted e [] h = (tt, tt)
    insert_by-IsSorted e (f ∷ fs) h = elim (Bool-cases (le e f)) [
      | inl low ↦ rw low ((low, All-below e f fs low h.0), h)
      | inr high ↦ rw high (
        All-insert_by (λ y. le f y ≡ true) e fs (total e f high) h.0,
        insert_by-IsSorted e fs h.1,
      )
    ]

    pub sort_by-IsSorted : (es : List A) → IsSorted (sort_by es)
    unfolding sort_by
    sort_by-IsSorted [] = tt
    sort_by-IsSorted (e ∷ es) = insert_by-IsSorted e (sort_by es) (sort_by-IsSorted es)

  module _ {K : Type 0} ⦃eq : Eq K⦄ (key : A → K) where
    contains-insert_by :
        (k : K) (e : A) (fs : List A)
        → contains (map key (insert_by e fs)) k ≡ (k == key e || contains (map key fs) k)
    unfolding insert_by contains
    contains-insert_by k e [] = refl
    contains-insert_by k e (f ∷ fs) = ground (arith, contains-insert_by k e fs)

    pub contains-sort_by :
        (k : K) (es : List A) → contains (map key (sort_by es)) k ≡ contains (map key es) k
    unfolding sort_by contains
    contains-sort_by k [] = refl
    contains-sort_by k (e ∷ es) =
        ground (arith, contains-insert_by k e (sort_by es), contains-sort_by k es)

    Distinct-insert_by :
        (e : A) (fs : List A)
        → contains (map key fs) (key e) ≡ false
        → Distinct (map key fs)
        → Distinct (map key (insert_by e fs))
    unfolding insert_by contains
    Distinct-insert_by e [] n d = (refl, tt)
    Distinct-insert_by e (f ∷ fs) n d = elim (Bool-cases (le e f)) [
      | inl low ↦ rw low (n, d)
      | inr high ↦ rw high (
        ground (
          arith,
          contains-insert_by (key f) e fs,
          eq.beq_iff (key e) (key f),
          eq.beq_iff (key f) (key e),
          n,
          d.0,
        ),
        Distinct-insert_by e fs (ground (arith, n)) d.1,
      )
    ]

    -- Sorting makes no two keys equal.
    pub Distinct-sort_by : (es : List A) → Distinct (map key es) → Distinct (map key (sort_by es))
    unfolding sort_by
    Distinct-sort_by [] d = tt
    Distinct-sort_by (e ∷ es) d =
        Distinct-insert_by e (sort_by es) (contains-sort_by (key e) es ∙ d.0)
          (Distinct-sort_by es d.1)

-- A list whose indices grow.
module _ {A : Type 0} (key : A → ℕ) where
  abbrev pub Increasing : List A → Type 0
  Increasing [] = Unit
  Increasing (x ∷ xs) = All (λ y. key x < key y) xs × Increasing xs

  not_below :
      (x y : A) (xs ys : List A)
      → key x ≡ key y
      → All (λ z. key x < key z) xs
      → All (λ z. In z (y ∷ ys)) xs
      → All (λ z. In z ys) xs
  not_below x y [] ys q h m = tt
  not_below x y (z ∷ zs) ys q h (inl r, ms) = absurd (ground (arith, q, h.0, ap key r))
  not_below x y (z ∷ zs) ys q h (inr r, ms) = (r, not_below x y zs ys q h.1 ms)

  above : (z : A) (ys : List A) (k : ℕ) → All (λ w. k < key w) ys → In z ys → k < key z
  above z [] k h m = elim m [ ]
  above z (y ∷ ys) k h (inl q) = ground (arith, h.0, ap key q)
  above z (y ∷ ys) k h (inr m) = above z ys k h.1 m

  all_above :
      (x : A) (xs : List A) (k : ℕ)
      → k < key x
      → All (λ z. key x < key z) xs
      → All (λ z. k < key z) xs
  all_above x [] k p h = tt
  all_above x (z ∷ zs) k p h = (ground (arith, h.0), all_above x zs k p h.1)

  past_head :
      (y : A) (xs ys : List A)
      → All (λ z. key y < key z) xs
      → All (λ z. In z (y ∷ ys)) xs
      → All (λ z. In z ys) xs
  past_head y xs ys h m = not_below y y xs ys refl h m

  -- A growing list of elements of a growing list leaves some of them out, in order.
  pub Subseq-Increasing :
      (xs ys : List A) → Increasing xs → Increasing ys → All (λ z. In z ys) xs → Subseq xs ys
  Subseq-Increasing [] ys hx hy m = Subseq-nil ys
  Subseq-Increasing (x ∷ xs) [] hx hy m = elim m.0 [ ]
  Subseq-Increasing (x ∷ xs) (y ∷ ys) hx hy (inl q, ms) =
      rw q (keep y (Subseq-Increasing xs ys hx.1 hy.1 (not_below x y xs ys (ap key q) hx.0 ms)))
  Subseq-Increasing (x ∷ xs) (y ∷ ys) hx hy (inr m, ms) =
      let p = above x ys (key y) hy.0 m in
      skip y (
        Subseq-Increasing (x ∷ xs) ys hx hy.1
          (m, past_head y xs ys (all_above x xs (key y) p hx.0) ms))

  abbrev pub le_key : A → A → Bool
  le_key a b = leb (key a) (key b)

  strictly : (xs : List A) → IsSorted le_key xs → Distinct (map key xs) → Increasing xs
  unfolding contains
  strictly [] s d = tt
  strictly (x ∷ xs) s d = (heads xs s.0 d.0, strictly xs s.1 d.1)
    where
      heads :
          (zs : List A)
          → All (λ z. le_key x z ≡ true) zs
          → contains (map key zs) (key x) ≡ false
          → All (λ z. key x < key z) zs
      heads [] h n = tt
      heads (z ∷ zs) h n = (ground (arith, h.0, n), heads zs h.1 (ground (arith, n)))

  -- Sorting by an index that no two elements share gives a growing list.
  pub sort_by-Increasing : (es : List A) → Distinct (map key es) → Increasing (sort_by le_key es)
  sort_by-Increasing es d =
      strictly (sort_by le_key es)
        (sort_by-IsSorted le_key (λ a b h. ground (arith, h)) (λ a b c p q. ground (arith, p, q))
          es)
        (Distinct-sort_by le_key key es d)
