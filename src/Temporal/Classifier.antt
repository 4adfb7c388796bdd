-- ===== src/Temporal/Classifier.antt =====
-- grace_mem/temporal/classifier.py: the search for time expressions in a text. `Patterns.finditer`
-- stands for the regular expressions' `finditer`. The status of a match, which is RESOLVED in every
-- row of the table, is left out.
pub mod Pairs
pub mod Chosen
use grace_mem.Common.{
  ℕ, ◌-◌, Bool, false, not, ◌&&◌, ◌||◌, Option, none, some, List, [], ◌∷◌, ◌++◌, if◌then◌else◌, ltb,
  leb, eqb, Text, length, sort_by, take, drop,
}
use grace_mem.Temporal.Types.{
  Category, absolute_date, absolute_time, relative_day, relative_daypart, relative_weekday,
  relative_hour, daypart_time, relative_window, week_point, weekend, month_point, season_point,
  year_point, boundary, month_week_range, unknown, Regex, boundary_re, month_week_range_re,
  absolute_date_re, absolute_time_re, relative_weekday_re, relative_daypart_re, daypart_time_re,
  relative_day_re, in_last_re, relative_hour_re, ago_re, week_point_re, weekend_re, month_point_re,
  season_point_re, year_point_re, fuzzy_re, Patterns,
}

pub record TemporalMatch : Type 0 where
  pub text : Text
  pub first : ℕ
  pub after : ℕ
  pub category : Category
  pub priority : ℕ

abbrev pub PatternSpec : Type 0
PatternSpec = Regex × Category × ℕ

unfoldable pub pattern_specs : List PatternSpec
pattern_specs =
    (boundary_re, boundary, 100)
    ∷ (month_week_range_re, month_week_range, 90)
    ∷ (absolute_date_re, absolute_date, 80)
    ∷ (absolute_time_re, absolute_time, 79)
    ∷ (relative_weekday_re, relative_weekday, 70)
    ∷ (relative_daypart_re, relative_daypart, 67)
    ∷ (daypart_time_re, daypart_time, 66)
    ∷ (relative_day_re, relative_day, 65)
    ∷ (in_last_re, relative_window, 60)
    ∷ (relative_hour_re, relative_hour, 58)
    ∷ (ago_re, relative_window, 55)
    ∷ (week_point_re, week_point, 50)
    ∷ (weekend_re, weekend, 48)
    ∷ (month_point_re, month_point, 40)
    ∷ (season_point_re, season_point, 35)
    ∷ (year_point_re, year_point, 30)
    ∷ (fuzzy_re, unknown, 10)
    ∷ []

-- `item.span[1] - item.span[0]`
unfoldable pub width : TemporalMatch → ℕ
width m = m.after - m.first

-- The order of the sort's keys, `(-width, -priority, start, end)`.
unfoldable pub not_after : TemporalMatch → TemporalMatch → Bool
unfolding width
not_after a b =
    ltb (width b) (width a)
    || (eqb (width b) (width a)
        && (ltb b.priority a.priority
            || (eqb b.priority a.priority
                && (ltb a.first b.first || (eqb a.first b.first && leb a.after b.after)))))

-- `not (end <= occ_start or start >= occ_end)`
unfoldable pub overlap : TemporalMatch → TemporalMatch → Bool
overlap a b = not (leb a.after b.first || leb b.after a.first)

unfoldable pub overlaps_any : TemporalMatch → List TemporalMatch → Bool
unfolding overlap
overlaps_any m [] = false
overlaps_any m (o ∷ os) = overlap m o || overlaps_any m os

-- The loop over the candidates, where `accepted` has been taken, the last one first.
unfoldable pub accept : List TemporalMatch → List TemporalMatch → List TemporalMatch
accept accepted [] = accepted
accept accepted (m ∷ ms) = accept (if overlaps_any m accepted then accepted else m ∷ accepted) ms

unfoldable pub starts_no_later : TemporalMatch → TemporalMatch → Bool
starts_no_later a b = leb a.first b.first

abbrev pub whole : Text → TemporalMatch → Bool
whole text m = eqb m.first 0 && eqb m.after (length text)

unfoldable pub first_whole : Text → List TemporalMatch → Option TemporalMatch
first_whole text [] = none
first_whole text (m ∷ ms) = if whole text m then some m else first_whole text ms

unfoldable pub reversed : List TemporalMatch → List TemporalMatch → List TemporalMatch
reversed out [] = out
reversed out (m ∷ ms) = reversed (m ∷ out) ms

module _ (p : Patterns) where
  unfoldable pub matches_of : Text → PatternSpec → List (ℕ × ℕ) → List TemporalMatch
  matches_of text spec [] = []
  matches_of text spec ((a, b) ∷ spans) =
      record {
        text = take (b - a) (drop a text);
        first = a;
        after = b;
        category = spec.1;
        priority = spec.2;
      }
      ∷ matches_of text spec spans

  unfoldable pub candidates_of : Text → List PatternSpec → List TemporalMatch
  unfolding matches_of
  candidates_of text [] = []
  candidates_of text (spec ∷ specs) =
      matches_of text spec (p.finditer spec.0 text) ++ candidates_of text specs

  -- `_iter_candidates`
  unfoldable pub iter_candidates : Text → List TemporalMatch
  unfolding candidates_of pattern_specs
  iter_candidates text = candidates_of text pattern_specs

  unfoldable pub classify_temporal_matches : Text → List TemporalMatch
  unfolding iter_candidates accept not_after starts_no_later reversed
  classify_temporal_matches text =
      sort_by starts_no_later (reversed [] (accept [] (sort_by not_after (iter_candidates text))))

  unfoldable pub classify_single_expression : Text → TemporalMatch
  unfolding classify_temporal_matches first_whole
  classify_single_expression text =
      let unmatched : TemporalMatch = record {
        text = text;
        first = 0;
        after = length text;
        category = unknown;
        priority = 0;
      } in
      elim (classify_temporal_matches text) [
        | [] ↦ unmatched
        | m ∷ ms ↦ elim (first_whole text (m ∷ ms)) [ none ↦ m | some exact ↦ exact ]
      ]
