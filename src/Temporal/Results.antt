-- ===== src/Temporal/Results.antt =====
-- grace_mem/temporal/resolver.py: what the longer expressions resolve to, from the groups of their
-- regular expressions and from the result of an anchor.
pub mod Closed
pub mod Adjacent
use grace_mem.Common.{
  ℕ, ◌-◌, Bool, true, false, Option, none, some, if◌then◌else◌, ltb, ◌>>=◌, Text, text_eq,
}
use grace_mem.Temporal.Calendar.{
  Date, days_in_month, weekday, make_date, plus_days, minus_days, Stamp, instant, plus_micros,
  minus_micros,
}
use grace_mem.Temporal.Types.{
  relative_window, week_point, month_point, season_point, year_point, boundary, Status, resolved,
  partially_resolved, ambiguous, unresolved, invalid, by_week, by_month, by_season, by_year,
  by_range, Code, valid, week_anchor_unresolved, boundary_anchor_unresolved, boundary_before,
  boundary_after, boundary_since, fuzzy_resolved, Context, Resolved, Fuzzy, few_days, other_day,
  few_years, few_weeks, while_ago, recently, is_word, Offset, start_of, end_of, if_resolved, refuse,
  bounded, validate,
}
use grace_mem.Temporal.Spans.{add_months, month_end, Window, days_result, both}

-- The days before the reference day that a vague expression stands for, first and last.
unfoldable pub fuzzy_days : Fuzzy → Date → Option Window
unfolding make_date
fuzzy_days few_days ref = both (minus_days ref 5) (minus_days ref 2)
fuzzy_days other_day ref = both (minus_days ref 4) (minus_days ref 1)
fuzzy_days few_years ref =
    both (make_date (ref.year - 5) ref.month ref.day) (make_date (ref.year - 2) ref.month ref.day)
fuzzy_days few_weeks ref = both (minus_days ref 28) (minus_days ref 14)
fuzzy_days while_ago ref = both (minus_days ref 14) (some ref)
fuzzy_days recently ref = both (minus_days ref 7) (some ref)

unfoldable pub fuzzy_result : Window → Resolved
unfolding bounded start_of end_of
fuzzy_result w =
    bounded relative_window resolved (some by_range) (some (start_of w.0)) (some (end_of w.1)) true
      fuzzy_resolved

-- The status of an expression whose anchor has none of the bounds that are needed.
unfoldable pub anchor_status : Status → Status
anchor_status ambiguous = partially_resolved
anchor_status unresolved = partially_resolved
anchor_status resolved = resolved
anchor_status partially_resolved = partially_resolved
anchor_status invalid = invalid

unfoldable pub boundary_result : Text → Option Stamp → Option Stamp → Bool → Code → Resolved
boundary_result operator start end ok code = record {
  category = boundary;
  status = if ok then resolved else invalid;
  granularity = some by_range;
  start = start;
  end = end;
  operator = some operator;
  ok = ok;
  code = if ok then valid else code;
}

-- The side of a resolved anchor, from `start` to `end`, that the operator asks for.
unfoldable pub beside : Text → Stamp → Stamp → Option Resolved
unfolding boundary_result
beside operator start end =
    if is_word operator "before"
    then (minus_micros start 1 >>= (λ e.
        some (
          boundary_result operator none (some e) (ltb (instant e) (instant start))
            boundary_before)))
    else (if is_word operator "after"
        then (plus_micros end 1 >>= (λ s. some (
            boundary_result operator (some s) none (ltb (instant end) (instant s)) boundary_after)))
        else some (boundary_result operator (some start) none true boundary_since))

unfoldable pub unresolved_boundary : Text → Status → Resolved
unresolved_boundary operator status = record {
  category = boundary;
  status = anchor_status status;
  granularity = some by_range;
  start = none;
  end = none;
  operator = some operator;
  ok = false;
  code = boundary_anchor_unresolved;
}

unfoldable pub beside_anchor : Text → Resolved → Option Resolved
unfolding beside unresolved_boundary anchor_status
beside_anchor operator r =
    if_resolved r.status
      (elim r.start [
        | none ↦ some (unresolved_boundary operator r.status)
        | some start ↦ elim r.end [
          | none ↦ some (unresolved_boundary operator r.status)
          | some end ↦ beside operator start end
        ]
      ])
      (some (unresolved_boundary operator r.status))

unfoldable pub week_from : Option Date → Option Resolved
unfolding validate start_of end_of
week_from o = do
  first ← o
  last ← plus_days first 6
  some (days_result week_point by_week first last)

unfoldable pub modified_week : Text → Date → Option Resolved
unfolding week_from
modified_week modifier ref = do
  monday ← minus_days ref (weekday ref)
  (if is_word modifier "last"
      then week_from (minus_days monday 7)
      else (if is_word modifier "this"
          then week_from (some monday)
          else (if is_word modifier "next" then week_from (plus_days monday 7) else none)))

unfoldable pub anchored_week : Text → Resolved → Option Resolved
unfolding week_from refuse
anchored_week operator r =
    if_resolved r.status
      (elim r.start [
        | none ↦ some (refuse week_point unresolved (some by_week) week_anchor_unresolved)
        | some start ↦ do
          monday ← minus_days start.date (weekday start.date)
          (if is_word operator "before"
              then week_from (minus_days monday 7)
              else (if is_word operator "after"
                  then week_from (plus_days monday 7)
                  else week_from (some monday)))
      ])
      (some (refuse week_point unresolved (some by_week) week_anchor_unresolved))

unfoldable pub month_result : ℕ → ℕ → Option Resolved
unfolding make_date days_in_month validate start_of end_of
month_result y m = do
  first ← make_date y m 1
  last ← month_end y m
  some (days_result month_point by_month first last)

unfoldable pub season_result : Option Window → Option Resolved
unfolding validate start_of end_of
season_result o = o >>= (λ w. some (days_result season_point by_season w.0 w.1))

unfoldable pub nearby_month : Context → Offset → Option Resolved
unfolding month_result add_months make_date
nearby_month c offset = do
  first ← make_date c.reference_dt.date.year c.reference_dt.date.month 1
  target ← add_months first offset
  month_result target.year target.month

unfoldable pub year_result : ℕ → Option Resolved
unfolding make_date validate start_of end_of
year_result y =
    both (make_date y 1 1) (make_date y 12 31)
    >>= (λ w. some (days_result year_point by_year w.0 w.1))
