-- ===== src/Temporal/Normalizer/Rewrite.antt =====
-- `rewrite_temporal_text` replaces the matches of the classifier, all at once.
use grace_mem.Common.{
  ℕ, ◌≤◌, ◌<◌, ◌≡◌, ◌∙◌, sym, ap, none, some, List, [], ◌∷◌, arith, Text, length, All, All-In,
  All_of_In, In, >>=-eq-some, some-injective, subst, map, option_both, if◌then◌else◌,
}
use grace_mem.Temporal.Types.{Context, Resolved, Regex, Patterns}
use grace_mem.Temporal.Calendar.{}
use grace_mem.Temporal.Classifier.{
  TemporalMatch, iter_candidates, classify_temporal_matches, classify_single_expression,
}
use grace_mem.Temporal.Classifier.Pairs.{Pairs}
use grace_mem.Temporal.Classifier.Chosen.{
  SpansNonEmpty, iter_candidates-All, classify_temporal_matches-greedy,
}
use grace_mem.Temporal.Resolver.{resolve_match}
use grace_mem.Temporal.Normalizer.{
  Texts, Constraint, second_part, has_operator, constraint_of, constraints_of,
  parse_temporal_expressions, rewrite_constraint, rewrite_temporal_text,
}
use grace_mem.Temporal.Normalizer.Splice.{InPlace, substituted, foldl-substituted}

-- What `finditer` gives: spans that are not empty and lie in the text.
pub record SpansInside (p : Patterns) : Type 0 where
  pub inside :
      (re : Regex) (text : Text) → All (λ s. (s.0 < s.1) × (s.1 ≤ length text)) (p.finditer re text)

first_parts :
    (text : Text) (spans : List (ℕ × ℕ))
    → All (λ s. (s.0 < s.1) × (s.1 ≤ length text)) spans
    → All (λ s. s.0 < s.1) spans
first_parts text [] h = tt
first_parts text (s ∷ spans) h = (h.0.0, first_parts text spans h.1)

in_place :
    (text : Text) (pos : ℕ) (cs : List Constraint)
    → pos ≤ length text
    → All (λ m. (m.first < m.after) × (m.after ≤ length text)) (map (λ d. d.match) cs)
    → Pairs (λ a b. a.after ≤ b.first) (map (λ d. d.match) cs)
    → All (λ m. pos ≤ m.first) (map (λ d. d.match) cs)
    → InPlace text pos cs
in_place text pos [] le h q from = le
in_place text pos (c ∷ cs) le h q from =
    (from.0, h.0.0, in_place text c.match.after cs h.0.1 h.1 q.1 q.0)

from_zero : (ms : List TemporalMatch) → All (λ m. 0 ≤ m.first) ms
from_zero [] = tt
from_zero (m ∷ ms) = (omega arith, from_zero ms)

module _ (p : Patterns) where
  constraint_of-match :
      (room : ℕ) (c : Context) (m : TemporalMatch) (r : Resolved) (d : Constraint)
      → constraint_of p room c m r ≡ some d
      → d.match ≡ m
  unfolding constraint_of
  constraint_of-match room c m r d =
      option_both (λ o. o ≡ some d → d.match ≡ m)
        (if has_operator r then second_part m.text else none) _ _
        (λ h. sym (ap (λ e. e.match) (some-injective _ _ h)))
        (λ anchor _ h.
          let a = classify_single_expression p anchor in
          let (found, _, same) = >>=-eq-some (resolve_match p room a.text a.category c) _ h in
          sym (ap (λ e. e.match) (some-injective _ _ same)))

  constraints_of-map :
      (room : ℕ) (c : Context) (ms : List TemporalMatch) (cs : List Constraint)
      → constraints_of p room c ms ≡ some cs
      → map (λ d. d.match) cs ≡ ms
  unfolding constraints_of
  constraints_of-map room c [] cs h = sym (ap (map (λ d. d.match)) (some-injective _ _ h))
  constraints_of-map room c (m ∷ ms) cs h =
      let (r, _, rest) = >>=-eq-some (resolve_match p room m.text m.category c) _ h in
      let (d, one, rest) = >>=-eq-some (constraint_of p room c m r) _ rest in
      let (ds, more, same) = >>=-eq-some (constraints_of p room c ms) _ rest in
      sym (ap (map (λ d. d.match)) (some-injective _ _ same))
      ∙ (ap (λ k. k ∷ map (λ d. d.match) ds) (constraint_of-match room c m r d one)
          ∙ ap (λ ks. m ∷ ks) (constraints_of-map room c ms ds more))

  -- The constraints of a text have the classifier's matches, and stand in place.
  pub parsed-InPlace :
      (room : ℕ) (text : Text) (c : Context) (cs : List Constraint)
      → SpansInside p
      → parse_temporal_expressions p room text c ≡ some cs
      → (map (λ d. d.match) cs ≡ classify_temporal_matches p text) × InPlace text 0 cs
  unfolding parse_temporal_expressions
  parsed-InPlace room text c cs inside parsed =
      let matches = constraints_of-map room c (classify_temporal_matches p text) cs parsed in
      let ne : SpansNonEmpty p = record {
        non_empty = λ re t. first_parts t (p.finditer re t) (inside.inside re t);
      } in
      let (member, apart, _) = classify_temporal_matches-greedy p ne text in
      let fits =
        iter_candidates-All p text (λ a b. (a < b) × (b ≤ length text))
          (λ re. inside.inside re text) in
      let bounded_all =
        All_of_In (λ m. (m.first < m.after) × (m.after ≤ length text))
          (classify_temporal_matches p text)
          (λ m i.
            All-In (λ m. (m.first < m.after) × (m.after ≤ length text)) (iter_candidates p text)
              fits m
              (All-In (λ m. In m (iter_candidates p text)) (classify_temporal_matches p text) member
                m i)) in
      (
        matches,
        in_place text 0 cs (omega arith)
            (subst (All (λ m. (m.first < m.after) × (m.after ≤ length text))) (sym matches)
              bounded_all)
            (subst (Pairs (λ a b. a.after ≤ b.first)) (sym matches) apart)
            (from_zero (map (λ d. d.match) cs)),
      )

  -- For regular expressions that find non-empty spans inside the text: a rewriting that gives a result
  -- has a constraint for each match of the classifier, in the order of the text, and its text is the
  -- source with each span that has a replacement replaced, all at once: no replacement moves another.
  pub rewrite_temporal_text-substituted :
      (w : Texts) (room : ℕ) (text : Text) (c : Context) (rewritten : Text)
      (constraints : List Constraint)
      → SpansInside p
      → rewrite_temporal_text p w room text c ≡ some (rewritten, constraints)
      → (map (λ d. d.match) constraints ≡ classify_temporal_matches p text)
        × (rewritten ≡ substituted (λ d. rewrite_constraint p w d text) text 0 constraints)
  unfolding rewrite_temporal_text
  rewrite_temporal_text-substituted w room text c rewritten constraints inside h =
      let (cs, parsed, same) = >>=-eq-some (parse_temporal_expressions p room text c) _ h in
      let pair = some-injective _ _ same in
      let replace = λ (d : Constraint). rewrite_constraint p w d text in
      let (matches, placed) = parsed-InPlace room text c cs inside parsed in
      (
        ap (λ (v : Text × List Constraint). map (λ d. d.match) v.1) (sym pair) ∙ matches,
        ap (λ (v : Text × List Constraint). v.0) (sym pair)
            ∙ (foldl-substituted replace text 0 cs placed
                ∙ ap (λ (v : Text × List Constraint). substituted replace text 0 v.1) pair),
      )
