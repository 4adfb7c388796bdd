-- ===== src/Temporal/Spans/Windows.antt =====
-- The windows that grace_mem/temporal/resolver.py computes are dates in order.
use grace_mem.Common.{
  ℕ, ◌+◌, ◌*◌, ◌≤◌, ◌<◌, ◌≡◌, refl, ap, Bool, true, false, ◌||◌, Option, none, some, some-injective,
  arith, ltb, eqb, subst, ◌>>=◌, >>=-eq-some, Text, text_eq, if◌then◌else◌, if_both,
}
use grace_mem.Temporal.Calendar.{
  Date, is_leap, days_in_month, ordinal, weekday, make_date, plus_days, minus_days, IsDate,
}
use grace_mem.Temporal.Calendar.Ordinal.{make_date-IsDate}
use grace_mem.Temporal.Calendar.Shift.{
  plus_days_sound, minus_days_sound, ordinal-lt_of_month, ordinal-le_of_day,
}
use grace_mem.Temporal.Types.{is_word}
use grace_mem.Temporal.Spans.{
  later, sooner, month_end, Window, season_window, both, weekend_days, month_week_days,
}
use grace_mem.Temporal.Spans.Order.{IsWindow}

-- Every window that `o` can give is in order.
abbrev pub Windows : Option Window → Type 0
Windows o = (w : Window) → o ≡ some w → IsWindow w

pub both-eq-some :
    (a b : Option Date) (w : Window) → both a b ≡ some w → (a ≡ some w.0) × (b ≡ some w.1)
both-eq-some none b w h = cc
both-eq-some (some t) none w h = cc
both-eq-some (some t) (some u) w h =
    let e = some-injective _ _ h in (ap (λ v. some v.0) e, ap (λ v. some v.1) e)

pub both-some : (a b : Option Date) (t u : Date) → a ≡ some t → b ≡ some u → both a b ≡ some (t, u)
both-some a b t u p q = rw (p, q) refl

pub window_of : (w : Window) → IsDate w.0 → IsDate w.1 → ordinal w.0 ≤ ordinal w.1 → IsWindow w
window_of w a b h = record { first_date = a; last_date = b; forward = h }

pub days_back-Windows :
    (t : Date) (n m : ℕ) → m ≤ n → Windows (both (minus_days t n) (minus_days t m))
days_back-Windows t n m le w h =
    let (a, b) = both-eq-some (minus_days t n) (minus_days t m) w h in
    let (va, ea) = minus_days_sound t n w.0 a in
    let (vb, eb) = minus_days_sound t m w.1 b in window_of w va vb (omega (arith, ea, eb, le))

pub since-Windows : (t : Date) (n : ℕ) → IsDate t → Windows (both (minus_days t n) (some t))
since-Windows t n v w h =
    let (a, b) = both-eq-some (minus_days t n) (some t) w h in
    let (va, ea) = minus_days_sound t n w.0 a in
    let e = some-injective _ _ b in
    window_of w va (subst IsDate e v) (omega (arith, ea, ap ordinal e))

days_ahead-Windows : (t : Date) (n m : ℕ) → n ≤ m → Windows (both (plus_days t n) (plus_days t m))
days_ahead-Windows t n m le w h =
    let (a, b) = both-eq-some (plus_days t n) (plus_days t m) w h in
    let (va, ea) = plus_days_sound t n w.0 a in
    let (vb, eb) = plus_days_sound t m w.1 b in window_of w va vb (omega (arith, ea, eb, le))

pub weekend_days-Windows : (modifier : Text) (ref : Date) → Windows (weekend_days modifier ref)
unfolding weekend_days
weekend_days-Windows modifier ref w h =
    let (monday, _, rest) = >>=-eq-some (minus_days ref (weekday ref)) _ h in
    if_both Windows (is_word modifier "last" || is_word modifier "this past") _ _
      (days_back-Windows monday 2 1 (omega arith))
      (if_both Windows (is_word modifier "this") _ _ (days_ahead-Windows monday 5 6 (omega arith))
        (days_ahead-Windows monday 12 13 (omega arith)))
      w rest

-- Two dates, the second one in a later month.
pub months-Windows :
    (y m d x k e : ℕ) → y * 12 + m < x * 12 + k → Windows (both (make_date y m d) (make_date x k e))
months-Windows y m d x k e lt w h =
    let (a, b) = both-eq-some (make_date y m d) (make_date x k e) w h in
    let (va, ya, ma, _) = (make_date-IsDate y m d w.0).0 a in
    let (vb, yb, mb, _) = (make_date-IsDate x k e w.1).0 b in
    let p : w.0.year * 12 + w.0.month < w.1.year * 12 + w.1.month =
      omega (arith, lt, ya, ma, yb, mb) in
    window_of w va vb (omega (arith, ordinal-lt_of_month w.0 w.1 va vb p))

-- The days of one month.
pub month-Windows : (y m : ℕ) → Windows (both (make_date y m 1) (month_end y m))
month-Windows y m w h =
    let (a, b) = both-eq-some (make_date y m 1) (month_end y m) w h in
    let (va, ya, ma, da) = (make_date-IsDate y m 1 w.0).0 a in
    let (vb, yb, mb, _) = (make_date-IsDate y m (days_in_month y m) w.1).0 b in
    window_of w va vb (
      ordinal-le_of_day w.0 w.1 (omega (arith, ya, yb)) (omega (arith, ma, mb))
        (omega (arith, da, vb.day_low)))

season_last :
    (a b c : Bool) (y : ℕ) (t : Date)
    → (if a
        then make_date y 5 31
        else (if b
            then make_date y 8 31
            else (if c
                then make_date y 11 30
                else make_date (y + 1) 2 (if is_leap (y + 1) then 29 else 28))))
      ≡ some t
    → IsDate t
      × (t.year * 12 + t.month
          ≡ y * 12 + 2 + (if a then 3 else (if b then 6 else (if c then 9 else 12))))
season_last true b c y t h =
    let (v, p, q, _) = (make_date-IsDate y 5 31 t).0 h in (v, omega (arith, p, q))
season_last false true c y t h =
    let (v, p, q, _) = (make_date-IsDate y 8 31 t).0 h in (v, omega (arith, p, q))
season_last false false true y t h =
    let (v, p, q, _) = (make_date-IsDate y 11 30 t).0 h in (v, omega (arith, p, q))
season_last false false false y t h =
    let (v, p, q, _) = (make_date-IsDate (y + 1) 2 (if is_leap (y + 1) then 29 else 28) t).0 h in
    (v, omega (arith, p, q))

pub season_window-Windows : (season y : ℕ) → Windows (season_window season y)
unfolding season_window
season_window-Windows season y w h =
    let m : ℕ =
      if eqb season 0 then 3 else (if eqb season 1 then 6 else (if eqb season 2 then 9 else 12)) in
    let (a, first, rest) = >>=-eq-some (make_date y m 1) _ h in
    let (b, last, same) = >>=-eq-some _ (λ l. some (a, l)) rest in
    let (va, ya, ma, _) = (make_date-IsDate y m 1 a).0 first in
    let (vb, e) = season_last (eqb season 0) (eqb season 1) (eqb season 2) y b last in
    let p : a.year * 12 + a.month < b.year * 12 + b.month = omega (arith, ya, ma, e) in
    subst IsWindow (some-injective _ _ same)
      (window_of (a, b) va vb (omega (arith, ordinal-lt_of_month a b va vb p)))

-- Two spans that share a day overlap in dates in order.
clip :
    (first last monday sunday : Date) (day : ℕ)
    → IsWindow (first, last)
    → IsDate monday
    → IsDate sunday
    → ordinal first ≤ day
    → day ≤ ordinal last
    → ordinal monday ≤ day
    → day ≤ ordinal sunday
    → IsWindow (later first monday, sooner last sunday)
clip first last monday sunday day v m s a b c d =
    let low =
      if_both (λ t. ordinal t ≤ day) (ltb (ordinal first) (ordinal monday)) monday first c a in
    let high =
      if_both (λ t. day ≤ ordinal t) (ltb (ordinal sunday) (ordinal last)) sunday last d b in
    window_of (later first monday, sooner last sunday)
      (if_both IsDate (ltb (ordinal first) (ordinal monday)) monday first m v.first_date)
      (if_both IsDate (ltb (ordinal sunday) (ordinal last)) sunday last s v.last_date)
      (omega (arith, low, high))

week_about :
    (first last : Date) (inside : Date)
    → IsWindow (first, last)
    → ordinal first ≤ ordinal inside
    → ordinal inside ≤ ordinal last
    → (w : Window)
    → (minus_days inside (weekday inside) >>= (λ monday.
        plus_days monday 6 >>= (λ sunday. some (later first monday, sooner last sunday))))
      ≡ some w
    → IsWindow w
unfolding weekday
week_about first last inside v a b w h =
    let (monday, begun, rest) = >>=-eq-some (minus_days inside (weekday inside)) _ h in
    let (sunday, done, same) = >>=-eq-some (plus_days monday 6) _ rest in
    let (vm, em) = minus_days_sound inside (weekday inside) monday begun in
    let (vs, es) = plus_days_sound monday 6 sunday done in
    subst IsWindow (some-injective _ _ same) (
      clip first last monday sunday (ordinal inside) v vm vs a b (omega (arith, em))
        (omega (arith, em, es)))

-- The part of a week that lies in the month is not empty.
pub month_week_days-Windows : (which : Text) (y m : ℕ) → Windows (month_week_days which y m)
unfolding month_week_days
month_week_days-Windows which y m w h =
    let (first, f, rest) = >>=-eq-some (make_date y m 1) _ h in
    let (last, l, rest) = >>=-eq-some (month_end y m) _ rest in
    let v =
      month-Windows y m (first, last)
        (both-some (make_date y m 1) (month_end y m) first last f l) in
    let inside = if is_word which "first" then first else last in
    week_about first last inside v
      (if_both (λ t. ordinal first ≤ ordinal t) (is_word which "first") first last (omega arith)
        v.forward)
      (if_both (λ t. ordinal t ≤ ordinal last) (is_word which "first") first last v.forward
        (omega arith))
      w rest
