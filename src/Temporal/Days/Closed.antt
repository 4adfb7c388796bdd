-- ===== src/Temporal/Days/Closed.antt =====
-- The resolvers of a day, a clock time and a weekday give results that hold together.
use grace_mem.Common.{
  ℕ, ◌+◌, ◌*◌, ◌≤◌, ◌≡◌, refl, inl, inr, Bool, true, false, Option, none, some, arith, Bool-cases,
  if◌then◌else◌, if_both, option_both, subst, >>=-eq-some, some-injective, leb, eqb, not, ◌&&◌,
  strip, Text, text_eq, lookup, ◌==◌, has_char, partition_colon, colon, sym, ◌∙◌, Option-cases, [],
}
use grace_mem.Temporal.Calendar.{
  Date, weekday, make_date, minus_days, hour_micros, plus_micros, minus_micros, IsDate,
}
use grace_mem.Temporal.Calendar.Ordinal.{make_date-IsDate}
use grace_mem.Temporal.Calendar.Shift.{
  plus_days_sound, minus_days_sound, plus_micros_sound, minus_micros_sound,
}
use grace_mem.Temporal.Types.{
  Category, absolute_date, absolute_time, relative_day, relative_daypart, relative_weekday,
  relative_hour, daypart_time, unresolved, invalid, by_day, by_time, by_range, valid, invalid_date,
  absolute_time_parse_failed, absolute_time_hour, absolute_time_minute, unsupported_relative_day,
  relative_daypart_parse_failed, relative_daypart_modifier, relative_daypart_anchor_invalid,
  relative_hour_parse_failed, relative_hour_number, daypart_time_parse_failed,
  daypart_time_anchor_invalid, weekday_parse_failed, weekday_mismatch, Context, in_hours, ago_hours,
  Patterns, month_numbers, weekday_numbers, is_word, Offset, back, ahead, shift, start_of, end_of,
  combine_time, refuse, validate, anchor_map, parse_hhmm,
}
use grace_mem.Temporal.Types.Closed.{
  IsClosed, refuse-IsClosed, bounded-IsClosed, start_of-IsStamp, end_of-IsStamp, days-IsClosed,
  point-IsClosed, combine_time-IsStamp, Closed, some-Closed, bind-Closed, refuse-Closed,
  not_resolved,
}
use grace_mem.Temporal.Days.{
  whole_day, relative_days, daypart_days, hour_of, weekday_target, weekday_result,
  resolve_absolute_date, clock_time, resolve_absolute_time, resolve_relative_day, anchor_time,
  resolve_relative_daypart, resolve_relative_hour, resolve_daypart_time, resolve_relative_weekday,
}

whole_day-IsClosed : (y m d : ℕ) → IsClosed (whole_day (make_date y m d))
unfolding whole_day
whole_day-IsClosed y m d =
    option_both IsClosed (make_date y m d) _ _
      (refuse-IsClosed absolute_date invalid (some by_day) invalid_date not_resolved.1)
      (λ t h.
        let v = ((make_date-IsDate y m d t).0 h).0 in
        days-IsClosed absolute_date (some by_day) t t v v (omega arith))

shift-IsDate : (t : Date) (offset : Offset) (u : Date) → shift t offset ≡ some u → IsDate u
unfolding shift
shift-IsDate t (back n) u h = (minus_days_sound t n u h).0
shift-IsDate t (ahead n) u h = (plus_days_sound t n u h).0

in_day :
    (a b : ℕ) (v : ℕ × ℕ) (o : Option (ℕ × ℕ))
    → o ≡ some (a, b)
    → (if leb a 23 && leb b 59 then o else none) ≡ some v
    → (v.0 ≤ 23) × (v.1 ≤ 59)
in_day a b v o e h = elim (Bool-cases (leb a 23 && leb b 59)) [
  | inl fits ↦
      let same : some (a, b) ≡ some v = sym e ∙ (rw fits at h) in
      subst (λ w. (w.0 ≤ 23) × (w.1 ≤ 59)) (some-injective _ _ same)
        (ground (arith, fits), ground (arith, fits))
  | inr misses ↦ (let e : none ≡ some v = rw misses at h in cc)
]

-- `_parse_hhmm` gives a time of the day.
parse_hhmm_bounds :
    (p : Patterns) (value : Text) (v : ℕ × ℕ)
    → parse_hhmm p value ≡ some v
    → (v.0 ≤ 23) × (v.1 ≤ 59)
unfolding parse_hhmm
parse_hhmm_bounds p value v h =
    let (a, _, rest) =
      >>=-eq-some (if has_char colon value then p.int_of (partition_colon value).0 else none) _ h in
    let (b, _, rest) = >>=-eq-some (p.int_of (partition_colon value).1) _ rest in
    in_day a b v (some (a, b)) refl rest

clock_bound :
    (a b : Bool) (hour : ℕ)
    → hour ≤ 12
    → (if a && not (eqb hour 12) then hour + 12 else (if b && eqb hour 12 then 0 else hour)) ≤ 23
clock_bound a b hour h = ground (arith, h)

hour_of_bound : (meridiem : Text) (hour : ℕ) → hour ≤ 12 → hour_of meridiem hour ≤ 23
unfolding hour_of
hour_of_bound meridiem hour h = clock_bound (is_word meridiem "pm") (is_word meridiem "am") hour h

clock_time-IsClosed :
    (c : Context) (hour minute : ℕ)
    → IsDate c.reference_dt.date
    → hour ≤ 23
    → IsClosed (clock_time c hour minute)
unfolding clock_time
clock_time-IsClosed c hour minute v h = elim (Bool-cases (leb minute 59)) [
  | inl fits ↦ rw fits (
      point-IsClosed absolute_time (some by_time) (combine_time c.reference_dt.date hour minute)
        (combine_time-IsStamp c.reference_dt.date hour minute v h (ground (arith, fits))))
  | inr late ↦
      rw late
        (refuse-IsClosed absolute_time invalid (some by_time) absolute_time_minute not_resolved.1)
]

on_clock :
    (c : Context) (meridiem : Text) (hour minute : ℕ) (b : Bool)
    → IsDate c.reference_dt.date
    → IsClosed (
        if b
        then (if not (leb 1 hour && leb hour 12)
            then refuse absolute_time invalid (some by_time) absolute_time_hour
            else clock_time c (hour_of meridiem hour) minute)
        else (if not (leb hour 23)
            then refuse absolute_time invalid (some by_time) absolute_time_hour
            else clock_time c hour minute))
on_clock c meridiem hour minute true v = elim (Bool-cases (leb 1 hour && leb hour 12)) [
  | inl fits ↦ rw fits (
      clock_time-IsClosed c (hour_of meridiem hour) minute v
        (hour_of_bound meridiem hour (ground (arith, fits))))
  | inr off ↦
      rw off
        (refuse-IsClosed absolute_time invalid (some by_time) absolute_time_hour not_resolved.1)
]
on_clock c meridiem hour minute false v = elim (Bool-cases (leb hour 23)) [
  | inl fits ↦ rw fits (clock_time-IsClosed c hour minute v (ground (arith, fits)))
  | inr off ↦
      rw off
        (refuse-IsClosed absolute_time invalid (some by_time) absolute_time_hour not_resolved.1)
]

weekday_result-IsClosed : (day : ℕ) (t : Date) → IsDate t → IsClosed (weekday_result day t)
unfolding weekday_result
weekday_result-IsClosed day t v =
    if_both IsClosed (eqb (weekday t) day) _ _
      (bounded-IsClosed relative_weekday (some by_day) (start_of t) (end_of t) valid
        (start_of-IsStamp t v) (end_of-IsStamp t v) (unfold start_of end_of in omega arith))
      (refuse-IsClosed relative_weekday invalid (some by_day) weekday_mismatch not_resolved.1)

-- Every day that `o` can give is a date.
abbrev Dates : Option Date → Type 0
Dates o = (t : Date) → o ≡ some t → IsDate t

weekday_target-Dates :
    (modifier : Text) (day : ℕ) (ref : Date) (policy : Text)
    → Dates (weekday_target modifier day ref policy)
unfolding weekday_target
weekday_target-Dates modifier day ref policy =
    if_both Dates (is_word modifier "this") _ _
      (λ t h.
        let (monday, _, on) = >>=-eq-some (minus_days ref (weekday ref)) _ h in
        (plus_days_sound monday day t on).0)
      (if_both Dates (is_word modifier "last") _ _
        (if_both Dates (is_word policy "previous_calendar_week") _ _
          (λ t h.
            let (monday, _, rest) = >>=-eq-some (minus_days ref (weekday ref)) _ h in
            let (earlier, _, on) = >>=-eq-some (minus_days monday 7) _ rest in
            (plus_days_sound earlier day t on).0)
          (λ t h. (minus_days_sound ref _ t h).0))
        (λ t h. (plus_days_sound ref _ t h).0))

module _ (p : Patterns) (c : Context) where
  anchored_time :
      (category : Category) (t : Date) (v : ℕ × ℕ) (name : Text)
      → IsDate t
      → anchor_time p c name ≡ some v
      → IsClosed (
          validate category
            (some by_range)
            (some (combine_time t v.0 v.1))
            (some (combine_time t v.0 v.1)))
  unfolding anchor_time
  anchored_time category t v name d h =
      let (a, b) =
        parse_hhmm_bounds p (elim (lookup name (anchor_map p c)) [ none ↦ [] | some hhmm ↦ hhmm ]) v
          h in
      point-IsClosed category (some by_range) (combine_time t v.0 v.1)
        (combine_time-IsStamp t v.0 v.1 d a b)

  pub resolve_absolute_date-Closed : (text : Text) → Closed (resolve_absolute_date p text c)
  unfolding resolve_absolute_date
  resolve_absolute_date-Closed text =
      option_both Closed (p.iso_date (strip text)) _ _
        (option_both Closed (p.month_first (strip text)) _ _
          (option_both Closed (p.day_first (strip text)) _ _
            (some-Closed _ (
              unfold whole_day in
              refuse-IsClosed absolute_date invalid (some by_day) invalid_date not_resolved.1))
            (λ g _.
              bind-Closed (lookup (p.lower g.1) month_numbers) _
                (λ m _. some-Closed _ (whole_day-IsClosed g.2 m g.0))))
          (λ g _.
            bind-Closed (lookup (p.lower g.0) month_numbers) _
              (λ m _. some-Closed _ (whole_day-IsClosed g.2 m g.1))))
        (λ g _. some-Closed _ (whole_day-IsClosed g.0 g.1 g.2))

  pub resolve_absolute_time-Closed :
      (text : Text) → IsDate c.reference_dt.date → Closed (resolve_absolute_time p text c)
  unfolding resolve_absolute_time
  resolve_absolute_time-Closed text v =
      option_both Closed (p.clock (strip text)) _ _
        (refuse-Closed absolute_time unresolved (some by_time) absolute_time_parse_failed
          not_resolved.0)
        (λ g _. some-Closed _ (
          on_clock c (p.lower g.2) g.0 (elim g.1 [ none ↦ 0 | some m ↦ m ])
            (not (p.lower g.2 == [])) v))

  pub resolve_relative_day-Closed : (text : Text) → Closed (resolve_relative_day p text c)
  unfolding resolve_relative_day
  resolve_relative_day-Closed text =
      option_both Closed (lookup (p.lower (strip text)) relative_days) _ _
        (refuse-Closed relative_day unresolved (some by_day) unsupported_relative_day
          not_resolved.0)
        (λ offset _. bind-Closed (shift c.reference_dt.date offset) _ (λ t h.
          let v = shift-IsDate c.reference_dt.date offset t h in
          some-Closed _ (days-IsClosed relative_day (some by_day) t t v v (omega arith))))

  pub resolve_relative_daypart-Closed : (text : Text) → Closed (resolve_relative_daypart p text c)
  unfolding resolve_relative_daypart
  resolve_relative_daypart-Closed text =
      option_both Closed (p.daypart (strip text)) _ _
        (refuse-Closed relative_daypart unresolved (some by_time) relative_daypart_parse_failed
          not_resolved.0)
        (λ g _.
          option_both Closed (lookup (p.lower g.0) daypart_days) _ _
            (refuse-Closed relative_daypart unresolved (some by_time) relative_daypart_modifier
              not_resolved.0)
            (λ offset _.
              option_both Closed (anchor_time p c (p.lower g.1)) _ _
                (refuse-Closed relative_daypart invalid (some by_time)
                  relative_daypart_anchor_invalid not_resolved.1)
                (λ v found. bind-Closed (shift c.reference_dt.date offset) _ (λ t h. some-Closed _ (
                  anchored_time relative_daypart t v (p.lower g.1)
                    (shift-IsDate c.reference_dt.date offset t h) found)))))

  pub resolve_relative_hour-Closed : (text : Text) → Closed (resolve_relative_hour p text c)
  unfolding resolve_relative_hour
  resolve_relative_hour-Closed text = elim (Option-cases (p.hours (strip text))) [
    | inl e ↦
        rw (e, resolve_relative_hour)
          (refuse-Closed relative_hour unresolved (some by_time) relative_hour_parse_failed
            not_resolved.0)
    | inr (in_hours token, e) ↦
        rw (e, resolve_relative_hour)
          (option_both Closed (p.parse_number token) _ _
            (refuse-Closed relative_hour unresolved (some by_time) relative_hour_number
              not_resolved.0)
            (λ n _. bind-Closed (plus_micros c.reference_dt (n * hour_micros)) _ (λ s h.
              some-Closed _ (
                point-IsClosed relative_hour (some by_time) s
                  (plus_micros_sound c.reference_dt _ s h).0))))
    | inr (ago_hours token, e) ↦
        rw (e, resolve_relative_hour)
          (option_both Closed (p.parse_number token) _ _
            (refuse-Closed relative_hour unresolved (some by_time) relative_hour_number
              not_resolved.0)
            (λ n _. bind-Closed (minus_micros c.reference_dt (n * hour_micros)) _ (λ s h.
              some-Closed _ (
                point-IsClosed relative_hour (some by_time) s
                  (minus_micros_sound c.reference_dt _ s h).0))))
  ]

  pub resolve_daypart_time-Closed :
      (text : Text) → IsDate c.reference_dt.date → Closed (resolve_daypart_time p text c)
  unfolding resolve_daypart_time
  resolve_daypart_time-Closed text d =
      if_both Closed (not (p.is_daypart_time (p.lower (strip text)))) _ _
        (refuse-Closed daypart_time unresolved (some by_time) daypart_time_parse_failed
          not_resolved.0)
        (option_both Closed (anchor_time p c (p.lower (strip text))) _ _
          (refuse-Closed daypart_time invalid (some by_time) daypart_time_anchor_invalid
            not_resolved.1)
          (λ v found.
            some-Closed _
              (anchored_time daypart_time c.reference_dt.date v (p.lower (strip text)) d found)))

  pub resolve_relative_weekday-Closed : (text : Text) → Closed (resolve_relative_weekday p text c)
  unfolding resolve_relative_weekday
  resolve_relative_weekday-Closed text =
      option_both Closed (p.weekday_phrase (strip text)) _ _
        (refuse-Closed relative_weekday unresolved (some by_day) weekday_parse_failed
          not_resolved.0)
        (λ g _. bind-Closed (lookup (p.lower g.1) weekday_numbers) _ (λ day _.
          bind-Closed (weekday_target (p.lower g.0) day c.reference_dt.date c.last_weekday_policy) _
            (λ t h. some-Closed _ (
              weekday_result-IsClosed day t (
                weekday_target-Dates (p.lower g.0) day c.reference_dt.date c.last_weekday_policy t
                  h)))))
