-- ===== src/Temporal/Classifier/Pairs.antt =====
-- A symmetric relation between every two elements of a list, which sorting and reversing keep, and the
-- greedy choice of grace_mem/temporal/classifier.py.
use grace_mem.Common.{
  subst, sym, ◌≤◌, ◌≡◌, refl, inl, inr, Bool, true, false, List, [], ◌∷◌, arith, Bool-cases,
  if◌then◌else◌, All, In, sort_by, insert_by, All-insert_by, IsSorted, All-sort_by, if_both, ◌⊎◌,
}
use grace_mem.Temporal.Classifier.{
  TemporalMatch, width, not_after, overlap, overlaps_any, accept, reversed,
}

module _ {A : Type 0} (R : A → A → Type 0) where
  abbrev pub Pairs : List A → Type 0
  Pairs [] = Unit
  Pairs (x ∷ xs) = All (R x) xs × Pairs xs

  module _ (symmetric : (a b : A) → R a b → R b a) where
    turned : (x : A) (xs : List A) → All (R x) xs → All (λ y. R y x) xs
    turned x [] h = tt
    turned x (y ∷ ys) h = (symmetric x y h.0, turned x ys h.1)

    Pairs-insert_by :
        (le : A → A → Bool) (e : A) (fs : List A)
        → All (R e) fs
        → Pairs fs
        → Pairs (insert_by le e fs)
    unfolding insert_by
    Pairs-insert_by le e [] h p = (tt, tt)
    Pairs-insert_by le e (f ∷ fs) h p = elim (Bool-cases (le e f)) [
      | inl low ↦ rw low (h, p)
      | inr high ↦
          rw high
            (All-insert_by le (R f) e fs (symmetric e f h.0) p.0, Pairs-insert_by le e fs h.1 p.1)
    ]

    pub Pairs-sort_by : (le : A → A → Bool) (es : List A) → Pairs es → Pairs (sort_by le es)
    unfolding sort_by
    Pairs-sort_by le [] p = tt
    Pairs-sort_by le (e ∷ es) p =
        Pairs-insert_by le e (sort_by le es) (All-sort_by le (R e) es p.0) (Pairs-sort_by le es p.1)

-- Every element is one that `P` holds of.
pub All-reversed :
    (P : TemporalMatch → Type 0) (out ms : List TemporalMatch)
    → All P out
    → All P ms
    → All P (reversed out ms)
unfolding reversed
All-reversed P out [] a b = a
All-reversed P out (m ∷ ms) a b = All-reversed P (m ∷ out) ms (b.0, a) b.1

pub In-reversed :
    (o : TemporalMatch) (out ms : List TemporalMatch) → In o out ⊎ In o ms → In o (reversed out ms)
unfolding reversed
In-reversed o out [] (inl m) = m
In-reversed o out [] (inr m) = absurd m
In-reversed o out (m ∷ ms) (inl i) = In-reversed o (m ∷ out) ms (inl (inr i))
In-reversed o out (m ∷ ms) (inr (inl e)) = In-reversed o (m ∷ out) ms (inl (inl e))
In-reversed o out (m ∷ ms) (inr (inr i)) = In-reversed o (m ∷ out) ms (inr i)

-- The spans of two matches do not overlap.
abbrev pub Apart : TemporalMatch → TemporalMatch → Type 0
Apart a b = overlap a b ≡ false

pub Apart-symmetric : (a b : TemporalMatch) → Apart a b → Apart b a
unfolding overlap
Apart-symmetric a b h = ground (arith, h)

All-add :
    (R : TemporalMatch → TemporalMatch → Type 0) (x : TemporalMatch) (out ms : List TemporalMatch)
    → All (R x) ms
    → All (λ m. All (R m) out) ms
    → ((a b : TemporalMatch) → R a b → R b a)
    → All (λ m. All (R m) (x ∷ out)) ms
All-add R x out [] h k s = tt
All-add R x out (m ∷ ms) h k s = ((s x m h.0, k.0), All-add R x out ms h.1 k.1 s)

pub Pairs-reversed :
    (out ms : List TemporalMatch)
    → Pairs Apart out
    → Pairs Apart ms
    → All (λ m. All (Apart m) out) ms
    → Pairs Apart (reversed out ms)
unfolding reversed
Pairs-reversed out [] a b h = a
Pairs-reversed out (m ∷ ms) a b h =
    Pairs-reversed (m ∷ out) ms (h.0, a) b.1 (All-add Apart m out ms b.0 h.1 Apart-symmetric)

Apart-from :
    (m : TemporalMatch) (os : List TemporalMatch) → overlaps_any m os ≡ false → All (Apart m) os
unfolding overlaps_any
Apart-from m [] h = tt
Apart-from m (o ∷ os) h = (ground (arith, h), Apart-from m os (ground (arith, h)))

pub accept-Pairs :
    (accepted ms : List TemporalMatch) → Pairs Apart accepted → Pairs Apart (accept accepted ms)
unfolding accept
accept-Pairs accepted [] h = h
accept-Pairs accepted (m ∷ ms) h = elim (Bool-cases (overlaps_any m accepted)) [
  | inl met ↦ rw met (accept-Pairs accepted ms h)
  | inr free ↦ rw free (accept-Pairs (m ∷ accepted) ms (Apart-from m accepted free, h))
]

pub accept-All :
    (P : TemporalMatch → Type 0) (accepted ms : List TemporalMatch)
    → All P accepted
    → All P ms
    → All P (accept accepted ms)
unfolding accept
accept-All P accepted [] h k = h
accept-All P accepted (m ∷ ms) h k =
    accept-All P (if overlaps_any m accepted then accepted else m ∷ accepted) ms
      (if_both (All P) (overlaps_any m accepted) accepted (m ∷ accepted) h (k.0, h)) k.1

accept-In :
    (o : TemporalMatch) (accepted ms : List TemporalMatch)
    → In o accepted
    → In o (accept accepted ms)
unfolding accept
accept-In o accepted [] h = h
accept-In o accepted (m ∷ ms) h =
    accept-In o (if overlaps_any m accepted then accepted else m ∷ accepted) ms
      (if_both (In o) (overlaps_any m accepted) accepted (m ∷ accepted) h (inr h))

-- A match at least as wide as `m` that overlaps it.
abbrev pub Covered : List TemporalMatch → TemporalMatch → Type 0
Covered os m = (o : TemporalMatch) × In o os × (overlap m o ≡ true) × (width m ≤ width o)

met_by :
    (m : TemporalMatch) (os : List TemporalMatch)
    → overlaps_any m os ≡ true
    → All (λ o. width m ≤ width o) os
    → Covered os m
unfolding overlaps_any
met_by m [] h k = cc
met_by m (o ∷ os) h k = elim (Bool-cases (overlap m o)) [
  | inl here ↦ (o, inl refl, here, k.0)
  | inr apart ↦ let (u, i, e, w) = met_by m os (ground (arith, h, apart)) k.1 in (u, inr i, e, w)
]

wide_too :
    (m : TemporalMatch) (accepted ms : List TemporalMatch)
    → All (λ n. width n ≤ width m) ms
    → All (λ n. All (λ o. width n ≤ width o) accepted) ms
    → All (λ n. All (λ o. width n ≤ width o) (m ∷ accepted)) ms
wide_too m accepted [] h k = tt
wide_too m accepted (n ∷ ns) h k = ((h.0, k.0), wide_too m accepted ns h.1 k.1)

no_wider :
    (m : TemporalMatch) (ms : List TemporalMatch)
    → All (λ n. not_after m n ≡ true) ms
    → All (λ n. width n ≤ width m) ms
no_wider m [] h = tt
no_wider m (n ∷ ns) h = (unfold not_after in ground (arith, h.0), no_wider m ns h.1)

accept_met :
    (m : TemporalMatch) (accepted ms : List TemporalMatch)
    → overlaps_any m accepted ≡ true
    → accept accepted (m ∷ ms) ≡ accept accepted ms
unfolding accept
accept_met m accepted ms h = rw h refl

accept_free :
    (m : TemporalMatch) (accepted ms : List TemporalMatch)
    → overlaps_any m accepted ≡ false
    → accept accepted (m ∷ ms) ≡ accept (m ∷ accepted) ms
unfolding accept
accept_free m accepted ms h = rw h refl

-- A match that has been passed over overlaps one that was taken before it.
pub accept-Covered :
    (accepted ms : List TemporalMatch)
    → IsSorted not_after ms
    → All (λ m. All (λ o. width m ≤ width o) accepted) ms
    → All (λ m. overlap m m ≡ true) ms
    → All (Covered (accept accepted ms)) ms
accept-Covered accepted [] s h n = tt
accept-Covered accepted (m ∷ ms) s h n = elim (Bool-cases (overlaps_any m accepted)) [
  | inl met ↦
      let (o, i, e, w) = met_by m accepted met h.0 in
      subst (λ os. All (Covered os) (m ∷ ms)) (sym (accept_met m accepted ms met))
        ((o, accept-In o accepted ms i, e, w), accept-Covered accepted ms s.1 h.1 n.1)
  | inr free ↦
      subst (λ os. All (Covered os) (m ∷ ms)) (sym (accept_free m accepted ms free))
        (
          (m, accept-In m (m ∷ accepted) ms (inl refl), n.0, omega arith),
          accept-Covered (m ∷ accepted) ms s.1 (wide_too m accepted ms (no_wider m ms s.0) h.1) n.1,
        )
]
