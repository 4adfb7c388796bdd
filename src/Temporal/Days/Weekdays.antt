-- ===== src/Temporal/Days/Weekdays.antt =====
-- The day that "last", "this" and "next" name, in grace_mem/temporal/resolver.py.
use grace_mem.Common.{
  ℕ, ◌+◌, ◌/◌, ◌≤◌, ◌<◌, ◌≡◌, refl, Bool, true, false, some, arith, if◌then◌else◌, if_both, eqb,
  Text, text_eq, ◌>>=◌, >>=-eq-some, ◌==◌, lookup, strip, All, Dict, [], ◌∷◌, subst, some-injective,
  sym, ◌∙◌,
}
use grace_mem.Temporal.Calendar.{Date, ordinal, weekday, plus_days, minus_days}
use grace_mem.Temporal.Calendar.Ordinal.{}
use grace_mem.Temporal.Calendar.Shift.{plus_days_sound, minus_days_sound}
use grace_mem.Temporal.Types.{
  relative_weekday, resolved, by_day, valid, Context, Resolved, Patterns, weekday_numbers, is_word,
  start_of, end_of, bounded,
}
use grace_mem.Temporal.Days.{
  days_since, or_week, weekday_target, weekday_result, resolve_relative_weekday,
}

-- The weeks from Monday to Sunday, numbered.
abbrev pub week_number : Date → ℕ
week_number t = (ordinal t + 6) / 7

-- The nearest day before `ref`, or after it, with the weekday asked for.
back_to :
    (ref t : Date) (day : ℕ)
    → day ≤ 6
    → minus_days ref (or_week (days_since (weekday ref) day)) ≡ some t
    → (weekday t ≡ day) × (ordinal t < ordinal ref) × (ordinal ref ≤ ordinal t + 7)
unfolding days_since weekday
back_to ref t day le h =
    let (_, e) = minus_days_sound ref (or_week (days_since (weekday ref) day)) t h in
    ground (arith, e, le)

on_to :
    (ref t : Date) (day : ℕ)
    → day ≤ 6
    → plus_days ref (or_week (days_since day (weekday ref))) ≡ some t
    → (weekday t ≡ day) × (ordinal ref < ordinal t) × (ordinal t ≤ ordinal ref + 7)
unfolding days_since weekday
on_to ref t day le h =
    let (_, e) = plus_days_sound ref (or_week (days_since day (weekday ref))) t h in
    ground (arith, e, le)

-- What a modifier asks of the day `t`, where the tests are for "this", for "last" and for the policy of
-- the previous calendar week.
abbrev pub AskedBy : Bool → Bool → Bool → Date → Date → Type 0
AskedBy true last policy ref t = week_number t ≡ week_number ref
AskedBy false true true ref t = week_number t + 1 ≡ week_number ref
AskedBy false true false ref t = (ordinal t < ordinal ref) × (ordinal ref ≤ ordinal t + 7)
AskedBy false false policy ref t = (ordinal ref < ordinal t) × (ordinal t ≤ ordinal ref + 7)

abbrev pub Asked : Text → Text → Date → Date → Type 0
Asked modifier policy ref t =
    AskedBy (is_word modifier "this") (is_word modifier "last")
      (is_word policy "previous_calendar_week") ref t

target_of :
    (this last calendar : Bool) (ref t : Date) (day : ℕ)
    → day ≤ 6
    → (if this
        then (minus_days ref (weekday ref) >>= (λ monday. plus_days monday day))
        else (if last
            then (if calendar
                then (minus_days ref (weekday ref)
                    >>= (λ monday. minus_days monday 7 >>= (λ earlier. plus_days earlier day)))
                else minus_days ref (or_week (days_since (weekday ref) day)))
            else plus_days ref (or_week (days_since day (weekday ref)))))
      ≡ some t
    → (weekday t ≡ day) × AskedBy this last calendar ref t
unfolding weekday
target_of true last calendar ref t day le h =
    let (monday, found, on) = >>=-eq-some (minus_days ref (weekday ref)) _ h in
    let e = (minus_days_sound ref (weekday ref) monday found).1 in
    let f = (plus_days_sound monday day t on).1 in omega (arith, e, f, le)
target_of false true true ref t day le h =
    let (monday, found, rest) = >>=-eq-some (minus_days ref (weekday ref)) _ h in
    let (earlier, back_a_week, on) = >>=-eq-some (minus_days monday 7) _ rest in
    let e = (minus_days_sound ref (weekday ref) monday found).1 in
    let f = (minus_days_sound monday 7 earlier back_a_week).1 in
    let g = (plus_days_sound earlier day t on).1 in omega (arith, e, f, g, le)
target_of false true false ref t day le h = let r = back_to ref t day le h in (r.0, (r.1, r.2))
target_of false false calendar ref t day le h = let r = on_to ref t day le h in (r.0, (r.1, r.2))

-- The target has the weekday asked for.
weekday_target_sound :
    (modifier : Text) (day : ℕ) (ref : Date) (policy : Text) (t : Date)
    → day ≤ 6
    → weekday_target modifier day ref policy ≡ some t
    → (weekday t ≡ day) × Asked modifier policy ref t
unfolding weekday_target
weekday_target_sound modifier day ref policy t le h =
    target_of (is_word modifier "this") (is_word modifier "last")
      (is_word policy "previous_calendar_week") ref t day le h

lookup-All :
    (P : ℕ → Type 0) (k : Text) (d : Dict Text ℕ) (n : ℕ)
    → All (λ kv. P kv.1) d
    → lookup k d ≡ some n
    → P n
unfolding lookup
lookup-All P k [] n h = λ e. cc
lookup-All P k ((j, m) ∷ d) n h =
    if_both (λ o. o ≡ some n → P n) (j == k) (some m) (lookup k d)
      (λ e. subst P (some-injective _ _ e) h.0) (λ e. lookup-All P k d n h.1 e)

weekday_numbers-le : All (λ (kv : Text × ℕ). kv.1 ≤ 6) weekday_numbers
unfolding weekday_numbers
weekday_numbers-le = omega arith

-- A weekday phrase that gives a result gives the whole day that it names: the day has the weekday of
-- the name, "this" stays in the reference day's week from Monday to Sunday, "last" is one of the seven
-- days before the reference day or, under the policy of the previous calendar week, in the week before,
-- and any other modifier is one of the seven days after it. The check of the weekday never fails.
pub resolve_relative_weekday-named :
    (p : Patterns) (c : Context) (text modifier name : Text) (r : Resolved)
    → p.weekday_phrase (strip text) ≡ some (modifier, name)
    → resolve_relative_weekday p text c ≡ some r
    → (day : ℕ) × (t : Date) × (lookup (p.lower name) weekday_numbers ≡ some day)
      × (weekday t ≡ day)
      × Asked (p.lower modifier) c.last_weekday_policy c.reference_dt.date t
      × (r
          ≡ bounded relative_weekday resolved
              (some by_day)
              (some (start_of t))
              (some (end_of t))
              true
              valid)
unfolding resolve_relative_weekday weekday_result
resolve_relative_weekday-named p c text modifier name r phrase h =
    let h : ((lookup (p.lower name) weekday_numbers >>= (λ day.
      weekday_target (p.lower modifier) day c.reference_dt.date c.last_weekday_policy
      >>= (λ target. some (weekday_result day target))))
        ≡ some r) =
      rw (phrase, resolve_relative_weekday) at h in
    let (day, named, rest) = >>=-eq-some (lookup (p.lower name) weekday_numbers) _ h in
    let (t, found, same) =
      >>=-eq-some (weekday_target (p.lower modifier) day c.reference_dt.date c.last_weekday_policy)
        _ rest in
    let le = lookup-All (λ n. n ≤ 6) (p.lower name) weekday_numbers day weekday_numbers-le named in
    let (on, asked) =
      weekday_target_sound (p.lower modifier) day c.reference_dt.date c.last_weekday_policy t le
        found in
    let pass : eqb (weekday t) day ≡ true = ground (arith, on) in
    (day, t, named, on, asked, sym (some-injective _ _ same) ∙ (rw pass refl))
