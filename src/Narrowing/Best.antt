-- ===== src/Narrowing/Best.antt =====
-- The choice of the snippets: how many there are, their order, and that none left out scored more.
use grace_mem.Common.{
  ℕ, zero, suc, ◌+◌, ◌≤◌, ◌<◌, min, ◌≡◌, refl, ◌⊎◌, inl, inr, true, false, List, [], ◌∷◌, map,
  arith, leb, length, take, drop, filter, is_nil, All, All-take, In, Subseq, done, keep, skip,
  All_of_In, contains, Distinct, Distinct-Subseq, nat_eq, length-take, Bool-cases, sort_by,
  length-sort_by, All-sort_by, Distinct-sort_by, Increasing, Subseq-Increasing, sort_by-Increasing,
  sort_by-IsSorted, IsSorted, In-sort_by, Subseq-refl, Subseq-filter, Subseq-take, Text,
}
use grace_mem.Narrowing.{Scored, chosen, above_floor, by_overlap, by_index, score_from}

-- Whether the indices grow along the list.
abbrev pub IsNumbered : List Scored → Type 0
IsNumbered scored = Increasing (λ s. s.idx) scored

above_floor-Subseq : (n : ℕ) (scored : List Scored) → Subseq (above_floor n scored) scored
unfolding above_floor
above_floor-Subseq n scored = elim (Bool-cases (is_nil (filter (λ s. leb n s.overlap) scored))) [
  | inl none_left ↦ rw none_left (Subseq-refl scored)
  | inr some_left ↦ rw some_left (Subseq-filter (λ s. leb n s.overlap) scored)
]

Subseq-map :
    {xs ys : List Scored} → Subseq xs ys → Subseq (map (λ s. s.idx) xs) (map (λ s. s.idx) ys)
Subseq-map done = done
Subseq-map (keep x s) = keep x.idx (Subseq-map s)
Subseq-map (skip y s) = skip y.idx (Subseq-map s)

not_in_above :
    (k : ℕ) (ys : List Scored) → All (λ y. k < y.idx) ys → contains (map (λ s. s.idx) ys) k ≡ false
unfolding contains
not_in_above k [] h = refl
not_in_above k (y ∷ ys) h = ground (arith, h.0, not_in_above k ys h.1)

IsNumbered-Distinct :
    (scored : List Scored) → IsNumbered scored → Distinct (map (λ s. s.idx) scored)
IsNumbered-Distinct [] h = tt
IsNumbered-Distinct (x ∷ xs) h = (not_in_above x.idx xs h.0, IsNumbered-Distinct xs h.1)

In-Subseq : {xs ys : List Scored} → Subseq xs ys → (x : Scored) → In x xs → In x ys
In-Subseq done x m = elim m [ ]
In-Subseq (keep y s) x (inl q) = inl q
In-Subseq (keep y s) x (inr m) = inr (In-Subseq s x m)
In-Subseq (skip y s) x m = inr (In-Subseq s x m)

-- Out of snippets that are numbered as they stand, the kept ones stay in their order.
pub chosen-Subseq :
    (keep_top_n min_overlap : ℕ) (scored : List Scored)
    → IsNumbered scored
    → Subseq (chosen keep_top_n min_overlap scored) scored
unfolding chosen by_index
chosen-Subseq n m scored h =
    Subseq-Increasing (λ s. s.idx) (sort_by by_index best) scored
      (sort_by-Increasing (λ s. s.idx) best
        (Distinct-Subseq (Subseq-map (Subseq-take n ranked)) distinct))
      h (All-sort_by by_index (λ s. In s scored) best (All-take (λ s. In s scored) n ranked inside))
  where
    pool : List Scored
    pool = above_floor m scored

    ranked : List Scored
    ranked = sort_by by_overlap pool

    best : List Scored
    best = take n ranked

    distinct : Distinct (map (λ s. s.idx) ranked)
    distinct =
        Distinct-sort_by by_overlap (λ s. s.idx) pool
          (Distinct-Subseq (Subseq-map (above_floor-Subseq m scored))
            (IsNumbered-Distinct scored h))

    inside : All (λ s. In s scored) ranked
    inside =
        All-sort_by by_overlap (λ s. In s scored) pool
          (All_of_In (λ s. In s scored) pool (In-Subseq (above_floor-Subseq m scored)))

-- As many snippets are kept as the limit allows, out of those that reach the floor.
pub length-chosen :
    (keep_top_n min_overlap : ℕ) (scored : List Scored)
    → length (chosen keep_top_n min_overlap scored)
      ≡ min keep_top_n (length (above_floor min_overlap scored))
unfolding chosen
length-chosen n m scored = ground (
  arith,
  length-sort_by by_index (take n (sort_by by_overlap (above_floor m scored))),
  length-take n (sort_by by_overlap (above_floor m scored)),
  length-sort_by by_overlap (above_floor m scored),
)

take_or_drop :
    (n : ℕ) (xs : List Scored) (x : Scored) → In x xs → In x (take n xs) ⊎ In x (drop n xs)
take_or_drop zero xs x m = inr m
take_or_drop (suc n) [] x m = elim m [ ]
take_or_drop (suc n) (y ∷ ys) x (inl q) = inl (inl q)
take_or_drop (suc n) (y ∷ ys) x (inr m) = elim (take_or_drop n ys x m) [
  | inl a ↦ inl (inr a)
  | inr b ↦ inr b
]

-- `x` scored no more than any of the list.
abbrev pub IsBeaten : Scored → List Scored → Type 0
IsBeaten x ys = All (λ y. x.overlap ≤ y.overlap) ys

beaten :
    (n : ℕ) (xs : List Scored) (x : Scored)
    → IsSorted by_overlap xs
    → In x (drop n xs)
    → IsBeaten x (take n xs)
unfolding by_overlap
beaten zero xs x s m = tt
beaten (suc n) [] x s m = tt
beaten (suc n) (y ∷ ys) x s m = (first y ys s.0 (inside n ys m), beaten n ys x s.1 m)
  where
    inside : (n : ℕ) (ys : List Scored) → In x (drop n ys) → In x ys
    inside zero ys m = m
    inside (suc n) [] m = m
    inside (suc n) (z ∷ zs) m = inr (inside n zs m)

    first :
        (y : Scored) (ys : List Scored)
        → All (λ z. by_overlap y z ≡ true) ys
        → In x ys
        → x.overlap ≤ y.overlap
    first y [] h m = elim m [ ]
    first y (z ∷ zs) h (inl q) = rw q (ground (arith, h.0))
    first y (z ∷ zs) h (inr m) = first y zs h.1 m

-- A snippet that reaches the floor is kept, or each that is kept scored at least as much.
pub chosen-best :
    (keep_top_n min_overlap : ℕ) (scored : List Scored) (x : Scored)
    → In x (above_floor min_overlap scored)
    → In x (chosen keep_top_n min_overlap scored)
      ⊎ IsBeaten x (chosen keep_top_n min_overlap scored)
unfolding chosen by_overlap
chosen-best n m scored x h =
    elim (take_or_drop n ranked x (In-sort_by by_overlap x (above_floor m scored) h)) [
      | inl kept ↦ inl (In-sort_by by_index x (take n ranked) kept)
      | inr left ↦ inr (
          All-sort_by by_index (λ y. x.overlap ≤ y.overlap) (take n ranked)
            (beaten n ranked x sorted left))
    ]
  where
    ranked : List Scored
    ranked = sort_by by_overlap (above_floor m scored)

    sorted : IsSorted by_overlap ranked
    sorted =
        sort_by-IsSorted by_overlap (λ a b q. ground (arith, q)) (λ a b c p q. ground (arith, p, q))
          (above_floor m scored)

-- The snippets of a block are numbered as they stand.
pub score_from-IsNumbered :
    (lower : Text → Text) (terms : List Text) (i : ℕ) (snips : List Text)
    → IsNumbered (score_from lower terms i snips)
unfolding score_from
score_from-IsNumbered lower terms i [] = tt
score_from-IsNumbered lower terms i (s ∷ snips) =
    (later (i + 1) snips (ground arith), score_from-IsNumbered lower terms (i + 1) snips)
  where
    later :
        (j : ℕ) (snips : List Text) → i < j → All (λ y. i < y.idx) (score_from lower terms j snips)
    later j [] p = tt
    later j (s ∷ snips) p = (p, later (j + 1) snips (ground (arith, p)))
