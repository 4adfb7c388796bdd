-- ===== src/Temporal/Results/Closed.antt =====
-- The results of the longer expressions hold together.
use grace_mem.Common.{
  ℕ, ◌-◌, ◌≡◌, ◌≢◌, refl, Bool, true, Option, some, arith, ltb, if◌then◌else◌, if_both, option_both,
  subst, >>=-eq-some, some-injective, Text, text_eq, ◌>>=◌,
}
use grace_mem.Temporal.Calendar.{
  Date, weekday, make_date, plus_days, minus_days, Stamp, instant, plus_micros, minus_micros,
  IsDate, IsStamp,
}
use grace_mem.Temporal.Calendar.Ordinal.{make_date-IsDate}
use grace_mem.Temporal.Calendar.Shift.{
  plus_days_sound, minus_days_sound, plus_micros_sound, minus_micros_sound,
}
use grace_mem.Temporal.Types.{
  Category, relative_window, week_point, month_point, season_point, year_point, Status, resolved,
  partially_resolved, ambiguous, unresolved, invalid, Granularity, by_week, by_month, by_season,
  by_year, by_range, week_anchor_unresolved, fuzzy_resolved, Context, Resolved, Fuzzy, few_days,
  other_day, few_years, few_weeks, while_ago, recently, is_word, Offset, start_of, end_of, refuse,
}
use grace_mem.Temporal.Types.Closed.{
  span, IsClosed, nothing, IsSound, closed, until, since, bounded-IsClosed, start_of-IsStamp,
  end_of-IsStamp, days-IsClosed, Closed, some-Closed, bind-Closed, refuse-Closed, not_resolved,
  resolved_both,
}
use grace_mem.Temporal.Spans.{add_months, month_end, Window, days_result, both}
use grace_mem.Temporal.Spans.Order.{IsWindow}
use grace_mem.Temporal.Spans.Windows.{
  Windows, both-eq-some, both-some, days_back-Windows, since-Windows, months-Windows, month-Windows,
}
use grace_mem.Temporal.Results.{
  fuzzy_days, fuzzy_result, anchor_status, boundary_result, beside, unresolved_boundary,
  beside_anchor, week_from, modified_week, anchored_week, month_result, season_result, nearby_month,
  year_result,
}

pub window-IsClosed :
    (category : Category) (g : Granularity) (w : Window)
    → IsWindow w
    → IsClosed (days_result category g w.0 w.1)
window-IsClosed category g w v =
    days-IsClosed category (some g) w.0 w.1 v.first_date v.last_date v.forward

pub Windows-Closed :
    (category : Category) (g : Granularity) (o : Option Window)
    → Windows o
    → Closed (o >>= (λ w. some (days_result category g w.0 w.1)))
Windows-Closed category g o h =
    bind-Closed o _ (λ w e. some-Closed _ (window-IsClosed category g w (h w e)))

pub fuzzy_days-Windows : (f : Fuzzy) (ref : Date) → IsDate ref → Windows (fuzzy_days f ref)
unfolding fuzzy_days
fuzzy_days-Windows few_days ref v = days_back-Windows ref 5 2 (omega arith)
fuzzy_days-Windows other_day ref v = days_back-Windows ref 4 1 (omega arith)
fuzzy_days-Windows few_years ref v = λ w h.
    let (a, b) =
      both-eq-some (make_date (ref.year - 5) ref.month ref.day)
        (make_date (ref.year - 2) ref.month ref.day) w h in
    let low = ((make_date-IsDate (ref.year - 5) ref.month ref.day w.0).0 a).0.year_low in
    let year = ((make_date-IsDate (ref.year - 5) ref.month ref.day w.0).0 a).1 in
    months-Windows (ref.year - 5) ref.month ref.day (ref.year - 2) ref.month ref.day
      (omega (arith, low, year)) w h
fuzzy_days-Windows few_weeks ref v = days_back-Windows ref 28 14 (omega arith)
fuzzy_days-Windows while_ago ref v = since-Windows ref 14 v
fuzzy_days-Windows recently ref v = since-Windows ref 7 v

pub fuzzy_result-IsClosed : (w : Window) → IsWindow w → IsClosed (fuzzy_result w)
unfolding fuzzy_result
fuzzy_result-IsClosed w v =
    bounded-IsClosed relative_window (some by_range) (start_of w.0) (end_of w.1) fuzzy_resolved
      (start_of-IsStamp w.0 v.first_date) (end_of-IsStamp w.1 v.last_date)
      (unfold start_of end_of in omega (arith, v.forward))

week_from-Closed : (o : Option Date) → ((t : Date) → o ≡ some t → IsDate t) → Closed (week_from o)
unfolding week_from
week_from-Closed o h = bind-Closed o _ (λ a first. bind-Closed (plus_days a 6) _ (λ b last.
    let (v, e) = plus_days_sound a 6 b last in
    some-Closed _ (days-IsClosed week_point (some by_week) a b (h a first) v (omega (arith, e)))))

-- The weeks before and after a Monday, and its own.
week_by :
    (monday : Date) (a b : Bool) (other : Option Resolved)
    → IsDate monday
    → Closed other
    → Closed (
        if a
        then week_from (minus_days monday 7)
        else (if b then week_from (plus_days monday 7) else other))
week_by monday a b other v h =
    if_both Closed a _ _
      (week_from-Closed (minus_days monday 7) (λ t e. (minus_days_sound monday 7 t e).0))
      (if_both Closed b _ _
        (week_from-Closed (plus_days monday 7) (λ t e. (plus_days_sound monday 7 t e).0)) h)

own_week : (monday : Date) → IsDate monday → Closed (week_from (some monday))
own_week monday v = week_from-Closed (some monday) (λ t e. subst IsDate (some-injective _ _ e) v)

pub modified_week-Closed : (modifier : Text) (ref : Date) → Closed (modified_week modifier ref)
unfolding modified_week
modified_week-Closed modifier ref = bind-Closed (minus_days ref (weekday ref)) _ (λ monday e.
    let v = (minus_days_sound ref (weekday ref) monday e).0 in
    if_both Closed (is_word modifier "last") _ _
      (week_from-Closed (minus_days monday 7) (λ t e. (minus_days_sound monday 7 t e).0))
      (if_both Closed (is_word modifier "this") _ _ (own_week monday v) (
        if_both Closed (is_word modifier "next") _ _
          (week_from-Closed (plus_days monday 7) (λ t e. (plus_days_sound monday 7 t e).0))
          (λ r h. cc))))

refused_week : Closed (some (refuse week_point unresolved (some by_week) week_anchor_unresolved))
refused_week =
    refuse-Closed week_point unresolved (some by_week) week_anchor_unresolved not_resolved.0

pub anchored_week-Closed : (operator : Text) (r : Resolved) → Closed (anchored_week operator r)
unfolding anchored_week
anchored_week-Closed operator r =
    resolved_both Closed r.status _ _
      (λ _. option_both Closed r.start _ _ refused_week (λ start _.
        bind-Closed (minus_days start.date (weekday start.date)) _ (λ monday e.
          let v = (minus_days_sound start.date (weekday start.date) monday e).0 in
          week_by monday (is_word operator "before") (is_word operator "after") _ v
            (own_week monday v))))
      (λ _. refused_week)

pub month_result-Closed : (y m : ℕ) → Closed (month_result y m)
unfolding month_result
month_result-Closed y m = bind-Closed (make_date y m 1) _ (λ a first.
    bind-Closed (month_end y m) _ (λ b last.
      let w =
        month-Windows y m (a, b) (both-some (make_date y m 1) (month_end y m) a b first last) in
      some-Closed _ (window-IsClosed month_point by_month (a, b) w)))

pub nearby_month-Closed : (c : Context) (offset : Offset) → Closed (nearby_month c offset)
unfolding nearby_month
nearby_month-Closed c offset =
    bind-Closed (make_date c.reference_dt.date.year c.reference_dt.date.month 1) _
      (λ a _. bind-Closed (add_months a offset) _ (λ b _. month_result-Closed b.year b.month))

pub season_result-Closed : (o : Option Window) → Windows o → Closed (season_result o)
unfolding season_result
season_result-Closed o h = Windows-Closed season_point by_season o h

pub year_result-Closed : (y : ℕ) → Closed (year_result y)
unfolding year_result
year_result-Closed y =
    Windows-Closed year_point by_year (both (make_date y 1 1) (make_date y 12 31))
      (months-Windows y 1 1 y 12 31 (omega arith))

-- Whatever `o` gives is sound.
abbrev pub Sound : Option Resolved → Type 0
Sound o = (r : Resolved) → o ≡ some r → IsSound r

some-Sound : (r : Resolved) → IsSound r → Sound (some r)
some-Sound r v s h = subst IsSound (some-injective _ _ h) v

pub Closed-Sound : (o : Option Resolved) → Closed o → Sound o
Closed-Sound o h r e = closed (h r e)

-- A bound one microsecond off a stamp passes the check that the resolver makes of it.
beside-Sound : (operator : Text) (s e : Stamp) → IsStamp s → Sound (beside operator s e)
unfolding beside boundary_result
beside-Sound operator s e v =
    if_both Sound (is_word operator "before") _ _
      (λ r h.
        let (t, found, same) = >>=-eq-some (minus_micros s 1) _ h in
        let (vt, et) = minus_micros_sound s 1 t found in
        let order : ltb (instant t) (instant s) ≡ true = ground (arith, et) in
        some-Sound _ (rw order (until t refl refl refl refl vt)) r same)
      (if_both Sound (is_word operator "after") _ _
        (λ r h.
          let (t, found, same) = >>=-eq-some (plus_micros e 1) _ h in
          let (vt, et) = plus_micros_sound e 1 t found in
          let order : ltb (instant e) (instant t) ≡ true = ground (arith, et) in
          some-Sound _ (rw order (since t refl refl refl refl vt)) r same)
        (some-Sound _ (since s refl refl refl refl v)))

anchor_status_apart : (s : Status) → s ≢ resolved → anchor_status s ≢ resolved
unfolding anchor_status
anchor_status_apart ambiguous h = λ e. cc
anchor_status_apart unresolved h = λ e. cc
anchor_status_apart resolved h = absurd (h refl)
anchor_status_apart partially_resolved h = h
anchor_status_apart invalid h = h

unresolved_boundary-Sound :
    (operator : Text) (s : Status) → s ≢ resolved → Sound (some (unresolved_boundary operator s))
unfolding unresolved_boundary
unresolved_boundary-Sound operator s h =
    some-Sound _ (closed (nothing refl (anchor_status_apart s h) refl refl))

pub beside_anchor-Sound :
    (operator : Text) (r : Resolved) → IsClosed r → Sound (beside_anchor operator r)
unfolding beside_anchor
beside_anchor-Sound operator r (nothing _ apart _ _) =
    resolved_both Sound r.status _ _ (λ e. absurd (apart e))
      (λ n. unresolved_boundary-Sound operator r.status n)
beside_anchor-Sound operator r (span s e _ same begun done vs _ _) =
    rw (same, begun, done) (beside-Sound operator s e vs)
