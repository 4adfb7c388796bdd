-- ===== src/Temporal/Normalizer.antt =====
-- grace_mem/temporal/normalizer.py: parse_temporal_expressions and rewrite_temporal_text. `Texts` stands
-- for the display texts of the resolver and for `isoformat` and `strftime`; `none` is an exception that
-- the resolver lets out. Of the metadata only the constraints are kept.
use grace_mem.Common.{
  ℕ, ◌+◌, ◌-◌, ◌≤◌, Bool, true, false, not, ◌&&◌, ◌||◌, Option, none, some, List, [], ◌∷◌, ◌++◌,
  if◌then◌else◌, leb, ◌>>=◌, Text, text_eq, ◌==◌, codes, is_space, is_empty, lstrip, take, drop,
  has_substring, sort_by, foldl, length,
}
use grace_mem.Temporal.Calendar.{Date, Stamp}
use grace_mem.Temporal.Types.{
  Category, relative_daypart, daypart_time, Granularity, by_day, by_time, by_week, by_weekend,
  by_month, by_season, by_year, by_range, Context, Resolved, Patterns, if_resolved,
}
use grace_mem.Temporal.Classifier.{
  TemporalMatch, classify_temporal_matches, classify_single_expression,
}
use grace_mem.Temporal.Resolver.{resolve_match}
pub mod Splice
pub mod Rewrite

pub record Texts : Type 0 where
  pub display_value : TemporalMatch → Resolved → Option Text
  pub isoformat : Date → Text
  pub hour_minute : Stamp → Text

pub record Constraint : Type 0 where
  pub match : TemporalMatch
  pub anchor_text : Option Text
  pub anchor_resolution : Option Resolved
  pub resolution : Resolved

unfoldable pub after_word : Text → Text
after_word [] = []
after_word (c ∷ s) = let rest = after_word s in if is_space c then c ∷ s else rest

-- `text.split(None, 1)[1]`, where there is one
unfoldable pub second_part : Text → Option Text
unfolding after_word
second_part text =
    let rest = lstrip (after_word (lstrip text)) in if is_empty rest then none else some rest

unfoldable pub has_preposition : Text → Bool
has_preposition prefix =
    has_substring prefix (codes "from ")
    || (has_substring prefix (codes "since ")
        || (has_substring prefix (codes "on ")
            || (has_substring prefix (codes "in ")
                || (has_substring prefix (codes "during ")
                    || (has_substring prefix (codes "before ")
                        || has_substring prefix (codes "after "))))))

-- `source_text[max(0, start - n):start]`
unfoldable pub before_at : ℕ → Text → ℕ → Text
before_at n source start = take (start - (start - n)) (drop (start - n) source)

-- `_replacement_prefix`
unfoldable pub replacement_prefix : (Text → Text) → Text → ℕ → Text
unfolding has_preposition before_at
replacement_prefix lower source start =
    if has_preposition (lower (before_at 7 source start)) then [] else codes "on "

unfoldable pub preposition : Option Granularity → Text
preposition (some by_day) = codes "on "
preposition (some by_time) = codes "at "
preposition (some by_week) = codes "during "
preposition (some by_weekend) = codes "during "
preposition (some by_season) = codes "during "
preposition (some by_range) = codes "during "
preposition (some by_month) = codes "in "
preposition (some by_year) = codes "in "
preposition none = codes "in "

-- `_replacement_prefix_for_granularity`
unfoldable pub prefix_for : (Text → Text) → Option Granularity → Text → ℕ → Text
unfolding has_preposition before_at preposition
prefix_for lower g source start =
    if has_preposition (lower (before_at 10 source start)) then [] else preposition g

unfoldable pub is_daypart : Category → Bool
is_daypart relative_daypart = true
is_daypart daypart_time = true
is_daypart _ = false

abbrev pub is_day : Option Granularity → Bool
is_day (some by_day) = true
is_day _ = false

abbrev pub is_time : Option Granularity → Bool
is_time (some by_time) = true
is_time _ = false

-- `text[:start] + replacement + text[end:]`
unfoldable pub splice : Text → ℕ → ℕ → Text → Text
splice text start end replacement = take start text ++ (replacement ++ drop end text)

abbrev pub has_operator : Resolved → Bool
has_operator r = elim r.operator [ none ↦ false | some operator ↦ not (is_empty operator) ]

-- The order of `sorted(…, key=start, reverse=True)`.
unfoldable pub starts_later : Constraint → Constraint → Bool
starts_later a b = leb b.match.first a.match.first

-- `resolution.display_value`, where an empty one counts as none.
unfoldable pub shown : Texts → Constraint → Option Text
shown w c = elim (w.display_value c.match c.resolution) [
  | none ↦ none
  | some d ↦ if is_empty d then none else some d
]

-- The body of the loop over the sorted constraints, for a choice of replacements.
unfoldable pub replace_one : (Constraint → Option Text) → Text → Constraint → Text
unfolding splice
replace_one replace text c = elim (replace c) [
  | none ↦ text
  | some replacement ↦ splice text c.match.first c.match.after replacement
]

module _ (p : Patterns) where
  -- The anchor of an operator, resolved once more.
  unfoldable pub constraint_of : ℕ → Context → TemporalMatch → Resolved → Option Constraint
  unfolding second_part classify_single_expression resolve_match
  constraint_of room c m r = elim (if has_operator r then second_part m.text else none) [
    | none ↦
        some (record { match = m; anchor_text = none; anchor_resolution = none; resolution = r })
    | some anchor ↦ do
      let a = classify_single_expression p anchor
      found ← resolve_match p room a.text a.category c
      some (record {
        match = m;
        anchor_text = some anchor;
        anchor_resolution = some found;
        resolution = r;
      })
  ]

  unfoldable pub constraints_of : ℕ → Context → List TemporalMatch → Option (List Constraint)
  unfolding constraint_of resolve_match
  constraints_of room c [] = some []
  constraints_of room c (m ∷ ms) = do
    r ← resolve_match p room m.text m.category c
    one ← constraint_of room c m r
    rest ← constraints_of room c ms
    some (one ∷ rest)

  unfoldable pub parse_temporal_expressions : ℕ → Text → Context → Option (List Constraint)
  unfolding constraints_of classify_temporal_matches
  parse_temporal_expressions room text c = constraints_of room c (classify_temporal_matches p text)

module _ (p : Patterns) (w : Texts) where
  unfoldable pub display_text : Constraint → Option Granularity → Text → Option Text
  unfolding shown prefix_for
  display_text c g source = elim (shown w c) [
    | none ↦ none
    | some d ↦ some (prefix_for p.lower g source c.match.first ++ d)
  ]

  unfoldable pub time_text : Constraint → Text → Option Text
  unfolding display_text prefix_for
  time_text c source =
      elim (if is_time c.resolution.granularity then c.resolution.start else none) [
        | none ↦ display_text c c.resolution.granularity source
        | some s ↦
            some
              (prefix_for p.lower c.resolution.granularity source c.match.first ++ w.hour_minute s)
      ]

  unfoldable pub daypart_text : Constraint → Text → Option Text
  unfolding shown display_text time_text is_daypart
  daypart_text c source = elim (if is_daypart c.resolution.category then shown w c else none) [
    | none ↦ time_text c source
    | some d ↦ display_text c (some by_range) source
  ]

  unfoldable pub day_text : Constraint → Text → Option Text
  unfolding daypart_text replacement_prefix
  day_text c source = elim (if is_day c.resolution.granularity then c.resolution.start else none) [
    | none ↦ daypart_text c source
    | some s ↦ some (replacement_prefix p.lower source c.match.first ++ w.isoformat s.date)
  ]

  unfoldable pub rewrite_resolved : Constraint → Text → Option Text
  unfolding shown day_text
  rewrite_resolved c source = elim (if has_operator c.resolution then shown w c else none) [
    | none ↦ day_text c source
    | some d ↦ some d
  ]

  unfoldable pub rewrite_constraint : Constraint → Text → Option Text
  unfolding rewrite_resolved
  rewrite_constraint c source =
      if_resolved c.resolution.status (if c.resolution.ok then rewrite_resolved c source else none)
        none

  unfoldable pub rewrite_temporal_text : ℕ → Text → Context → Option (Text × List Constraint)
  unfolding parse_temporal_expressions starts_later replace_one rewrite_constraint
  rewrite_temporal_text room text c = do
    constraints ← parse_temporal_expressions p room text c
    some (
      foldl (replace_one (λ d. rewrite_constraint d text)) text (sort_by starts_later constraints),
      constraints,
    )
