-- ===== src/Temporal/Classifier/Chosen.antt =====
-- What `classify_temporal_matches` of grace_mem/temporal/classifier.py gives.
use grace_mem.Common.{
  ℕ, ◌≤◌, ◌<◌, ◌≡◌, refl, inr, Bool, true, false, ◌||◌, ◌&&◌, List, [], ◌∷◌, arith, ltb, leb, eqb,
  All, In, sort_by, All-sort_by, In-sort_by, IsSorted, sort_by-IsSorted, All-append, All-In,
  All_of_In, Text,
}
use grace_mem.Temporal.Types.{Regex, Patterns}
use grace_mem.Temporal.Classifier.{
  TemporalMatch, PatternSpec, pattern_specs, width, not_after, overlap, accept, starts_no_later,
  reversed, matches_of, candidates_of, iter_candidates, classify_temporal_matches,
}
use grace_mem.Temporal.Classifier.Pairs.{
  Pairs, Pairs-sort_by, All-reversed, In-reversed, Apart, Apart-symmetric, Pairs-reversed,
  accept-Pairs, accept-All, Covered, accept-Covered,
}

not_after_total : (a b : TemporalMatch) → not_after a b ≡ false → not_after b a ≡ true
unfolding not_after
not_after_total a b h = ground (arith, h)

lexicographic :
    (x y z : ℕ) (r s t : Bool)
    → (ltb x y || (eqb x y && r)) ≡ true
    → (ltb y z || (eqb y z && s)) ≡ true
    → (r ≡ true → s ≡ true → t ≡ true)
    → (ltb x z || (eqb x z && t)) ≡ true
lexicographic x y z true true t h k f = ground (arith, h, k, f refl refl)
lexicographic x y z true false t h k f = ground (arith, h, k)
lexicographic x y z false s t h k f = ground (arith, h, k)

not_after_trans :
    (a b c : TemporalMatch) → not_after a b ≡ true → not_after b c ≡ true → not_after a c ≡ true
unfolding not_after
not_after_trans a b c h k = lexicographic (width c) (width b) (width a) _ _ _ k h (λ k h.
    lexicographic c.priority b.priority a.priority _ _ _ k h (λ k h.
      lexicographic a.first b.first c.first (leb a.after b.after) (leb b.after c.after)
        (leb a.after c.after) h k (λ h k. ground (arith, h, k))))

starts_total : (a b : TemporalMatch) → starts_no_later a b ≡ false → starts_no_later b a ≡ true
unfolding starts_no_later
starts_total a b h = ground (arith, h)

starts_trans :
    (a b c : TemporalMatch)
    → starts_no_later a b ≡ true
    → starts_no_later b c ≡ true
    → starts_no_later a c ≡ true
unfolding starts_no_later
starts_trans a b c h k = ground (arith, h, k)

-- The expressions match no empty text.
pub record SpansNonEmpty (p : Patterns) : Type 0 where
  pub non_empty : (re : Regex) (text : Text) → All (λ s. s.0 < s.1) (p.finditer re text)

abbrev NonEmpty : TemporalMatch → Type 0
NonEmpty m = m.first < m.after

in_order :
    (a b : TemporalMatch)
    → NonEmpty a
    → NonEmpty b
    → Apart a b
    → starts_no_later a b ≡ true
    → a.after ≤ b.first
unfolding overlap starts_no_later
in_order a b p q h k = ground (arith, p, q, h, k)

follow :
    (a : TemporalMatch) (ms : List TemporalMatch)
    → NonEmpty a
    → All NonEmpty ms
    → All (Apart a) ms
    → All (λ b. starts_no_later a b ≡ true) ms
    → All (λ b. a.after ≤ b.first) ms
follow a [] p q h k = tt
follow a (b ∷ bs) p q h k = (in_order a b p q.0 h.0 k.0, follow a bs p q.1 h.1 k.1)

ordered :
    (ms : List TemporalMatch)
    → All NonEmpty ms
    → Pairs Apart ms
    → IsSorted starts_no_later ms
    → Pairs (λ a b. a.after ≤ b.first) ms
ordered [] p h s = tt
ordered (m ∷ ms) p h s = (follow m ms p.0 p.1 h.0 s.0, ordered ms p.1 h.1 s.1)

module _ (p : Patterns) (text : Text) (R : ℕ → ℕ → Type 0) where
  matches_of-All :
      (spec : PatternSpec) (spans : List (ℕ × ℕ))
      → All (λ s. R s.0 s.1) spans
      → All (λ m. R m.first m.after) (matches_of p text spec spans)
  unfolding matches_of
  matches_of-All spec [] h = tt
  matches_of-All spec ((a, b) ∷ spans) h = (h.0, matches_of-All spec spans h.1)

  candidates_of-All :
      ((re : Regex) → All (λ s. R s.0 s.1) (p.finditer re text))
      → (specs : List PatternSpec) → All (λ m. R m.first m.after) (candidates_of p text specs)
  unfolding candidates_of
  candidates_of-All h [] = tt
  candidates_of-All h (spec ∷ specs) =
      All-append (λ m. R m.first m.after) (matches_of p text spec (p.finditer spec.0 text))
        (candidates_of p text specs) (matches_of-All spec (p.finditer spec.0 text) (h spec.0))
        (candidates_of-All h specs)

  -- What holds of every span that is found holds of every candidate.
  pub iter_candidates-All :
      ((re : Regex) → All (λ s. R s.0 s.1) (p.finditer re text))
      → All (λ m. R m.first m.after) (iter_candidates p text)
  unfolding iter_candidates
  iter_candidates-All h = candidates_of-All h pattern_specs

module _ (p : Patterns) (ne : SpansNonEmpty p) where
  self_overlap : (m : TemporalMatch) → NonEmpty m → overlap m m ≡ true
  unfolding overlap
  self_overlap m h = ground (arith, h)

  self_overlaps : (ms : List TemporalMatch) → All NonEmpty ms → All (λ m. overlap m m ≡ true) ms
  self_overlaps [] h = tt
  self_overlaps (m ∷ ms) h = (self_overlap m h.0, self_overlaps ms h.1)

  none_taken : (ms : List TemporalMatch) → All (λ m. All (λ o. width m ≤ width o) []) ms
  none_taken [] = tt
  none_taken (m ∷ ms) = (tt, none_taken ms)

  none_before : (ms : List TemporalMatch) → All (λ m. All (Apart m) []) ms
  none_before [] = tt
  none_before (m ∷ ms) = (tt, none_before ms)

  -- For expressions that match no empty text: the matches given are candidates, in the order of the
  -- text, each one ending before the next starts, and every candidate is given or overlaps a given
  -- match that is at least as wide.
  pub classify_temporal_matches-greedy :
      (text : Text)
      → All (λ m. In m (iter_candidates p text)) (classify_temporal_matches p text)
        × Pairs (λ a b. a.after ≤ b.first) (classify_temporal_matches p text)
        × All (Covered (classify_temporal_matches p text)) (iter_candidates p text)
  unfolding classify_temporal_matches
  classify_temporal_matches-greedy text =
      let found = iter_candidates p text in
      let sorted = sort_by not_after found in
      let taken = accept [] sorted in
      let given = reversed [] taken in
      let own = All_of_In (λ m. In m found) found (λ m i. i) in
      let keep_all = λ (P : TemporalMatch → Type 0) (h : All P found).
        All-sort_by starts_no_later P given (
          All-reversed P [] taken tt
            (accept-All P [] sorted tt (All-sort_by not_after P found h))) in
      let apart =
        Pairs-sort_by Apart Apart-symmetric starts_no_later given
          (Pairs-reversed [] taken tt (accept-Pairs [] sorted tt) (none_before taken)) in
      let widest =
        accept-Covered [] sorted (sort_by-IsSorted not_after not_after_total not_after_trans found)
          (none_taken sorted)
          (self_overlaps sorted (
            All-sort_by not_after NonEmpty found
              (iter_candidates-All p text (λ a b. a < b) (λ re. ne.non_empty re text)))) in
      (
        keep_all (λ m. In m found) own,
        ordered (sort_by starts_no_later given)
            (keep_all NonEmpty
              (iter_candidates-All p text (λ a b. a < b) (λ re. ne.non_empty re text)))
            apart (sort_by-IsSorted starts_no_later starts_total starts_trans given),
        All_of_In (Covered (sort_by starts_no_later given)) found (λ m i.
            let (o, at, e, w) =
              All-In (Covered taken) sorted widest m (In-sort_by not_after m found i) in
            (o, In-sort_by starts_no_later o given (In-reversed o [] taken (inr at)), e, w)),
      )
