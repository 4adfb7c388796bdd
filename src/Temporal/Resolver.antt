-- ===== src/Temporal/Resolver.antt =====
-- grace_mem/temporal/resolver.py: the resolvers of the longer expressions and `resolve_match`. The
-- calls that the resolvers make of each other count against `room`, Python's recursion limit; `none`
-- is an exception that `resolve_match` lets out.
pub mod Sound
pub mod Years
use grace_mem.Common.{
  ℕ, ◌+◌, ◌-◌, zero, suc, ◌||◌, Option, none, some, List, [], ◌∷◌, if◌then◌else◌, ◌>>=◌, Text,
  text_eq, codes, lookup, strip, starts_with,
}
use grace_mem.Temporal.Calendar.{}
use grace_mem.Temporal.Types.{
  Category, absolute_date, absolute_time, relative_day, relative_daypart, relative_weekday,
  relative_hour, daypart_time, relative_window, week_point, weekend, month_point, season_point,
  year_point, boundary, month_week_range, unknown, unresolved, by_day, by_week, by_weekend,
  by_month, by_season, by_year, by_range, relative_window_parse_failed, relative_window_number,
  week_parse_failed, month_parse_failed, season_parse_failed, year_parse_failed,
  month_week_parse_failed, boundary_parse_failed, weekend_parse_failed, unknown_pattern, Context,
  Resolved, modified, anchored, Patterns, month_numbers, season_numbers, split_from, is_word, back,
  ahead, start_of, end_of, refuse, validate,
}
use grace_mem.Temporal.Classifier.{classify_single_expression}
use grace_mem.Temporal.Days.{
  resolve_absolute_date, resolve_absolute_time, resolve_relative_day, resolve_relative_daypart,
  resolve_relative_hour, resolve_daypart_time, resolve_relative_weekday,
}
use grace_mem.Temporal.Spans.{
  season_window, named_season, days_result, window_day, unit_granularity, weekend_days,
  month_week_days,
}
use grace_mem.Temporal.Results.{
  fuzzy_days, fuzzy_result, beside_anchor, modified_week, anchored_week, month_result,
  season_result, nearby_month, year_result,
}

module _ (p : Patterns) where
  unfoldable pub resolve_relative_window : Text → Context → Option Resolved
  unfolding validate refuse start_of end_of window_day unit_granularity
  resolve_relative_window text c =
      let ref = c.reference_dt.date in
      elim (p.in_last (strip text)) [
        | some (token, unit) ↦ elim (p.parse_number token) [
          | none ↦ some (refuse relative_window unresolved none relative_window_number)
          | some count ↦ do
            t ← window_day (p.lower unit) count ref
            some (days_result relative_window (unit_granularity (p.lower unit)) t ref)
        ]
        | none ↦ elim (p.ago (strip text)) [
          | none ↦ some (refuse relative_window unresolved none relative_window_parse_failed)
          | some (token, unit) ↦ elim (p.parse_number token) [
            | none ↦ some (refuse relative_window unresolved none relative_window_number)
            | some count ↦ do
              t ← window_day (p.lower unit) count ref
              some (days_result relative_window by_day t t)
          ]
        ]
      ]

  unfoldable pub resolve_weekend : Text → Context → Option Resolved
  unfolding validate refuse start_of end_of weekend_days
  resolve_weekend text c = elim (p.weekend_phrase (strip text)) [
    | none ↦ some (refuse weekend unresolved (some by_range) weekend_parse_failed)
    | some modifier ↦ do
      w ← weekend_days (p.lower (strip modifier)) c.reference_dt.date
      some (days_result weekend by_weekend w.0 w.1)
  ]

  unfoldable pub named_month : List Text → Option Resolved
  unfolding month_result month_numbers
  named_month (name ∷ year ∷ rest) = do
    m ← lookup (p.lower name) month_numbers
    y ← p.int_of year
    month_result y m
  named_month (name ∷ []) = none
  named_month [] = none

  unfoldable pub resolve_month_point : Text → Context → Option Resolved
  unfolding refuse nearby_month named_month split_from
  resolve_month_point text c =
      let lower = p.lower (strip text) in
      if is_word lower "last month"
      then nearby_month c (back 1)
      else (if is_word lower "this month"
          then nearby_month c (ahead 0)
          else (if is_word lower "next month"
              then nearby_month c (ahead 1)
              else (if p.is_month_point (strip text)
                  then named_month (split_from [] (strip text))
                  else some (refuse month_point unresolved (some by_month) month_parse_failed))))

  unfoldable pub season_of : Text → Context → List Text → Option Resolved
  unfolding season_result named_season season_window season_numbers
  season_of lower c (word ∷ other ∷ []) =
      if starts_with lower (codes "last ")
        || (starts_with lower (codes "this ") || starts_with lower (codes "next "))
      then (do
        season ← lookup other season_numbers
        season_result (named_season word season c.reference_dt.date))
      else (do
        season ← lookup word season_numbers
        y ← p.int_of other
        season_result (season_window season y))
  season_of lower c [] = none
  season_of lower c (word ∷ []) = none
  season_of lower c (word ∷ other ∷ more ∷ rest) = none

  unfoldable pub resolve_season_point : Text → Context → Option Resolved
  unfolding refuse season_of split_from
  resolve_season_point text c =
      if p.is_season_point (strip text)
      then season_of (p.lower (strip text)) c (split_from [] (p.lower (strip text)))
      else some (refuse season_point unresolved (some by_season) season_parse_failed)

  unfoldable pub resolve_year_point : Text → Context → Option Resolved
  unfolding refuse year_result
  resolve_year_point text c =
      let lower = p.lower (strip text) in
      if is_word lower "last year"
      then year_result (c.reference_dt.date.year - 1)
      else (if is_word lower "this year"
          then year_result c.reference_dt.date.year
          else (if is_word lower "next year"
              then year_result (c.reference_dt.date.year + 1)
              else some (refuse year_point unresolved (some by_year) year_parse_failed)))

  unfoldable pub resolve_month_week_range : Text → Context → Option Resolved
  unfolding refuse validate start_of end_of month_week_days month_numbers
  resolve_month_week_range text c = elim (p.month_week (strip text)) [
    | none ↦ some (refuse month_week_range unresolved (some by_range) month_week_parse_failed)
    | some (which, name, y) ↦ do
      m ← lookup (p.lower name) month_numbers
      w ← month_week_days (p.lower which) y m
      some (days_result month_week_range by_range w.0 w.1)
  ]

  -- The last branches of `resolve_match`, which take the category UNKNOWN.
  unfoldable pub resolve_fuzzy : Text → Context → Option Resolved
  unfolding refuse fuzzy_days fuzzy_result
  resolve_fuzzy text c = elim (p.fuzzy (p.lower (strip text))) [
    | none ↦ some (refuse unknown unresolved none unknown_pattern)
    | some f ↦ fuzzy_days f c.reference_dt.date >>= (λ w. some (fuzzy_result w))
  ]

  -- A resolver's call of `resolve_match` on the text of an anchor, where `again` is that call.
  abbrev pub on_anchor :
      (Text → Category → Context → Option Resolved) → Text → Context → Option Resolved
  on_anchor again text c = let m = classify_single_expression p text in again m.text m.category c

  unfoldable pub resolve_week_point :
      (Text → Category → Context → Option Resolved) → Text → Context → Option Resolved
  unfolding refuse modified_week anchored_week classify_single_expression
  resolve_week_point again text c = elim (p.week (strip text)) [
    | none ↦ some (refuse week_point unresolved (some by_week) week_parse_failed)
    | some (modified modifier) ↦ modified_week (p.lower modifier) c.reference_dt.date
    | some (anchored operator anchor) ↦
        on_anchor again anchor c >>= (λ r. anchored_week (p.lower operator) r)
  ]

  unfoldable pub resolve_boundary :
      (Text → Category → Context → Option Resolved) → Text → Context → Option Resolved
  unfolding refuse beside_anchor classify_single_expression
  resolve_boundary again text c = elim (p.boundary_phrase (strip text)) [
    | none ↦ some (refuse boundary unresolved (some by_range) boundary_parse_failed)
    | some (operator, anchor) ↦
        on_anchor again anchor c >>= (λ r. beside_anchor (p.lower operator) r)
  ]

  unfoldable pub resolve_match : ℕ → Text → Category → Context → Option Resolved
  unfolding resolve_absolute_date resolve_absolute_time resolve_relative_day
      resolve_relative_daypart resolve_relative_hour resolve_daypart_time resolve_relative_weekday
      resolve_relative_window resolve_week_point resolve_weekend resolve_month_point
      resolve_season_point resolve_year_point resolve_month_week_range resolve_boundary
      resolve_fuzzy
  resolve_match zero text category c = none
  resolve_match (suc room) text absolute_date c = resolve_absolute_date p text c
  resolve_match (suc room) text absolute_time c = resolve_absolute_time p text c
  resolve_match (suc room) text relative_day c = resolve_relative_day p text c
  resolve_match (suc room) text relative_daypart c = resolve_relative_daypart p text c
  resolve_match (suc room) text relative_hour c = resolve_relative_hour p text c
  resolve_match (suc room) text daypart_time c = resolve_daypart_time p text c
  resolve_match (suc room) text relative_weekday c = resolve_relative_weekday p text c
  resolve_match (suc room) text relative_window c = resolve_relative_window text c
  resolve_match (suc room) text week_point c = resolve_week_point (resolve_match room) text c
  resolve_match (suc room) text weekend c = resolve_weekend text c
  resolve_match (suc room) text month_point c = resolve_month_point text c
  resolve_match (suc room) text season_point c = resolve_season_point text c
  resolve_match (suc room) text year_point c = resolve_year_point text c
  resolve_match (suc room) text month_week_range c = resolve_month_week_range text c
  resolve_match (suc room) text boundary c = resolve_boundary (resolve_match room) text c
  resolve_match (suc room) text unknown c = resolve_fuzzy text c
