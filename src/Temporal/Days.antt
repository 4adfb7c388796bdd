-- ===== src/Temporal/Days.antt =====
-- grace_mem/temporal/resolver.py: the resolvers of a day, a clock time, a part of a day, a number of
-- hours and a weekday. `none` is an exception that the resolver lets out.
pub mod Closed
pub mod Weekdays
use grace_mem.Common.{
  ℕ, ◌+◌, ◌-◌, ◌*◌, ◌%◌, true, not, ◌&&◌, Option, none, some, [], ◌∷◌, if◌then◌else◌, leb, eqb,
  ◌>>=◌, Text, text_eq, codes, String, Dict, lookup, strip, ◌==◌, map,
}
use grace_mem.Temporal.Calendar.{
  Date, make_date, plus_days, minus_days, weekday, plus_micros, minus_micros, hour_micros,
}
use grace_mem.Temporal.Types.{
  absolute_date, absolute_time, relative_day, relative_daypart, relative_weekday, relative_hour,
  daypart_time, resolved, unresolved, invalid, by_day, by_time, by_range, valid, invalid_date,
  absolute_time_parse_failed, absolute_time_hour, absolute_time_minute, unsupported_relative_day,
  relative_daypart_parse_failed, relative_daypart_modifier, relative_daypart_anchor_invalid,
  relative_hour_parse_failed, relative_hour_number, daypart_time_parse_failed,
  daypart_time_anchor_invalid, weekday_parse_failed, weekday_mismatch, Context, Resolved, in_hours,
  ago_hours, Patterns, month_numbers, weekday_numbers, is_word, Offset, back, ahead, shift,
  start_of, end_of, combine_time, refuse, bounded, validate, anchor_map, parse_hhmm,
}

-- `date(y, m, d)` under the `try` of `_resolve_absolute_date`.
unfoldable pub whole_day : Option Date → Resolved
unfolding validate refuse start_of end_of
whole_day none = refuse absolute_date invalid (some by_day) invalid_date
whole_day (some t) = validate absolute_date (some by_day) (some (start_of t)) (some (end_of t))

unfoldable pub relative_days : Dict Text Offset
relative_days =
    map (λ (w : String × Offset). (codes w.0, w.1))
      (("today", ahead 0)
        ∷ ("yesterday", back 1)
        ∷ ("tomorrow", ahead 1)
        ∷ ("last night", back 1)
        ∷ ("tonight", ahead 0)
        ∷ ("this morning", ahead 0)
        ∷ ("this afternoon", ahead 0)
        ∷ ("this evening", ahead 0)
        ∷ ("yesterday morning", back 1)
        ∷ ("yesterday afternoon", back 1)
        ∷ ("yesterday evening", back 1)
        ∷ ("yesterday night", back 1)
        ∷ ("tomorrow morning", ahead 1)
        ∷ ("tomorrow afternoon", ahead 1)
        ∷ ("tomorrow evening", ahead 1)
        ∷ [])

unfoldable pub daypart_days : Dict Text Offset
daypart_days =
    map (λ (w : String × Offset). (codes w.0, w.1))
      (("yesterday", back 1) ∷ ("tomorrow", ahead 1) ∷ ("last", back 1) ∷ [])

-- The hour of a 12-hour clock on the 24-hour one.
unfoldable pub hour_of : Text → ℕ → ℕ
hour_of meridiem hour =
    if is_word meridiem "pm" && not (eqb hour 12)
    then hour + 12
    else (if is_word meridiem "am" && eqb hour 12 then 0 else hour)

-- Python's `(a - b) % 7` of two weekdays.
unfoldable pub days_since : ℕ → ℕ → ℕ
days_since a b = (a + 7 - b) % 7

abbrev pub or_week : ℕ → ℕ
or_week delta = if eqb delta 0 then 7 else delta

-- `_weekday_target`
unfoldable pub weekday_target : Text → ℕ → Date → Text → Option Date
unfolding days_since
weekday_target modifier day ref policy =
    if is_word modifier "this"
    then (minus_days ref (weekday ref) >>= (λ monday. plus_days monday day))
    else (if is_word modifier "last"
        then (if is_word policy "previous_calendar_week"
            then (do
              monday ← minus_days ref (weekday ref)
              earlier ← minus_days monday 7
              plus_days earlier day)
            else minus_days ref (or_week (days_since (weekday ref) day)))
        else plus_days ref (or_week (days_since day (weekday ref))))

unfoldable pub weekday_result : ℕ → Date → Resolved
unfolding bounded refuse start_of end_of
weekday_result day target =
    if eqb (weekday target) day
    then bounded relative_weekday resolved (some by_day) (some (start_of target))
        (some (end_of target)) true valid
    else refuse relative_weekday invalid (some by_day) weekday_mismatch

unfoldable pub clock_time : Context → ℕ → ℕ → Resolved
unfolding refuse validate combine_time
clock_time c hour minute =
    if not (leb minute 59)
    then refuse absolute_time invalid (some by_time) absolute_time_minute
    else validate absolute_time (some by_time) (some (combine_time c.reference_dt.date hour minute))
        (some (combine_time c.reference_dt.date hour minute))

module _ (p : Patterns) where
  unfoldable pub resolve_absolute_date : Text → Context → Option Resolved
  unfolding whole_day month_numbers
  resolve_absolute_date text c = elim (p.iso_date (strip text)) [
    | some (y, m, d) ↦ some (whole_day (make_date y m d))
    | none ↦ elim (p.month_first (strip text)) [
      | some (name, d, y) ↦ do
        m ← lookup (p.lower name) month_numbers
        some (whole_day (make_date y m d))
      | none ↦ elim (p.day_first (strip text)) [
        | some (d, name, y) ↦ do
          m ← lookup (p.lower name) month_numbers
          some (whole_day (make_date y m d))
        | none ↦ some (whole_day none)
      ]
    ]
  ]

  unfoldable pub resolve_absolute_time : Text → Context → Option Resolved
  unfolding clock_time hour_of refuse
  resolve_absolute_time text c = elim (p.clock (strip text)) [
    | none ↦ some (refuse absolute_time unresolved (some by_time) absolute_time_parse_failed)
    | some (hour, minutes, written) ↦
        let minute : ℕ = elim minutes [ none ↦ 0 | some m ↦ m ] in
        let meridiem = p.lower written in
        some (
          if not (meridiem == [])
          then (if not (leb 1 hour && leb hour 12)
              then refuse absolute_time invalid (some by_time) absolute_time_hour
              else clock_time c (hour_of meridiem hour) minute)
          else (if not (leb hour 23)
              then refuse absolute_time invalid (some by_time) absolute_time_hour
              else clock_time c hour minute))
  ]

  unfoldable pub resolve_relative_day : Text → Context → Option Resolved
  unfolding relative_days refuse validate start_of end_of shift
  resolve_relative_day text c = elim (lookup (p.lower (strip text)) relative_days) [
    | none ↦ some (refuse relative_day unresolved (some by_day) unsupported_relative_day)
    | some offset ↦ do
      t ← shift c.reference_dt.date offset
      some (validate relative_day (some by_day) (some (start_of t)) (some (end_of t)))
  ]

  -- `_parse_hhmm(_daypart_anchor_map(context).get(name) or "")`
  unfoldable pub anchor_time : Context → Text → Option (ℕ × ℕ)
  unfolding anchor_map parse_hhmm
  anchor_time c name =
      parse_hhmm p (elim (lookup name (anchor_map p c)) [ none ↦ [] | some hhmm ↦ hhmm ])

  unfoldable pub resolve_relative_daypart : Text → Context → Option Resolved
  unfolding daypart_days refuse validate combine_time shift anchor_time
  resolve_relative_daypart text c = elim (p.daypart (strip text)) [
    | none ↦ some (refuse relative_daypart unresolved (some by_time) relative_daypart_parse_failed)
    | some (rel, part) ↦ elim (lookup (p.lower rel) daypart_days) [
      | none ↦ some (refuse relative_daypart unresolved (some by_time) relative_daypart_modifier)
      | some offset ↦ elim (anchor_time c (p.lower part)) [
        | none ↦
            some (refuse relative_daypart invalid (some by_time) relative_daypart_anchor_invalid)
        | some (hour, minute) ↦ do
          t ← shift c.reference_dt.date offset
          let at = some (combine_time t hour minute)
          some (validate relative_daypart (some by_range) at at)
      ]
    ]
  ]

  unfoldable pub resolve_relative_hour : Text → Context → Option Resolved
  unfolding refuse validate
  resolve_relative_hour text c = elim (p.hours (strip text)) [
    | none ↦ some (refuse relative_hour unresolved (some by_time) relative_hour_parse_failed)
    | some (in_hours token) ↦ elim (p.parse_number token) [
      | none ↦ some (refuse relative_hour unresolved (some by_time) relative_hour_number)
      | some count ↦ do
        at ← plus_micros c.reference_dt (count * hour_micros)
        some (validate relative_hour (some by_time) (some at) (some at))
    ]
    | some (ago_hours token) ↦ elim (p.parse_number token) [
      | none ↦ some (refuse relative_hour unresolved (some by_time) relative_hour_number)
      | some count ↦ do
        at ← minus_micros c.reference_dt (count * hour_micros)
        some (validate relative_hour (some by_time) (some at) (some at))
    ]
  ]

  unfoldable pub resolve_daypart_time : Text → Context → Option Resolved
  unfolding refuse validate combine_time anchor_time
  resolve_daypart_time text c =
      let lower = p.lower (strip text) in
      if not (p.is_daypart_time lower)
      then some (refuse daypart_time unresolved (some by_time) daypart_time_parse_failed)
      else elim (anchor_time c lower) [
        | none ↦ some (refuse daypart_time invalid (some by_time) daypart_time_anchor_invalid)
        | some (hour, minute) ↦
            let at = some (combine_time c.reference_dt.date hour minute) in
            some (validate daypart_time (some by_range) at at)
      ]

  unfoldable pub resolve_relative_weekday : Text → Context → Option Resolved
  unfolding refuse weekday_target weekday_result weekday_numbers
  resolve_relative_weekday text c = elim (p.weekday_phrase (strip text)) [
    | none ↦ some (refuse relative_weekday unresolved (some by_day) weekday_parse_failed)
    | some (modifier, name) ↦ do
      day ← lookup (p.lower name) weekday_numbers
      target ← weekday_target (p.lower modifier) day c.reference_dt.date c.last_weekday_policy
      some (weekday_result day target)
  ]
