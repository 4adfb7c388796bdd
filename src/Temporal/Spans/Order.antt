-- ===== src/Temporal/Spans/Order.antt =====
-- The windows of grace_mem/temporal/resolver.py begin no later than they end.
use grace_mem.Common.{
  ℕ, ◌+◌, ◌-◌, ◌*◌, ◌/◌, ◌%◌, ◌≤◌, ◌≡◌, ◌∙◌, inl, inr, min, Option, some, arith, ◌>>=◌, >>=-eq-some,
  Text, codes, starts_with, text_eq, if_both,
}
use grace_mem.Temporal.Calendar.{Date, days_in_month, ordinal, weekday, minus_days, IsDate}
use grace_mem.Temporal.Calendar.Ordinal.{make_date-IsDate}
use grace_mem.Temporal.Calendar.Shift.{
  trichotomy, minus_days_sound, ordinal-lt_of_month, ordinal-le_of_day,
}
use grace_mem.Temporal.Types.{Offset, back, ahead}
use grace_mem.Temporal.Spans.{add_months, back_years, Window, window_day}

pub record IsWindow (w : Window) : Type 0 where
  pub first_date : IsDate w.0
  pub last_date : IsDate w.1
  pub forward : ordinal w.0 ≤ ordinal w.1

-- The months that `_add_months` counts from.
abbrev pub total_months : Date → Offset → ℕ
total_months t (ahead n) = t.year * 12 + (t.month - 1) + n
total_months t (back n) = t.year * 12 + (t.month - 1) - n

-- What `_add_months` gives is in the month asked for, on the same day or on the month's last.
pub add_months_sound :
    (t : Date) (offset : Offset) (u : Date)
    → add_months t offset ≡ some u
    → IsDate u
      × (u.year * 12 + u.month ≡ total_months t offset + 1)
      × (u.day ≡ min t.day (days_in_month u.year u.month))
unfolding add_months
add_months_sound t (ahead n) u h =
    let count = t.year * 12 + (t.month - 1) + n in
    let (v, y, m, d) =
      (make_date-IsDate (count / 12) (count % 12 + 1)
          (min t.day (days_in_month (count / 12) (count % 12 + 1))) u).0
        h in
    (v, omega (arith, y, m), rw (y, m) d)
add_months_sound t (back n) u h =
    let count = t.year * 12 + (t.month - 1) - n in
    let (v, y, m, d) =
      (make_date-IsDate (count / 12) (count % 12 + 1)
          (min t.day (days_in_month (count / 12) (count % 12 + 1))) u).0
        h in
    (v, omega (arith, y, m), rw (y, m) d)

-- Every day that `o` can give is no later than `ref`.
abbrev pub Back : Date → Option Date → Type 0
Back ref o = (u : Date) → o ≡ some u → IsDate u × (ordinal u ≤ ordinal ref)

months-Back : (t : Date) (n : ℕ) → IsDate t → Back t (add_months t (back n))
months-Back t n v u h =
    let (w, count, day) = add_months_sound t (back n) u h in
    elim (trichotomy (u.year * 12 + u.month) (t.year * 12 + t.month)) [
      | inl less ↦ (w, omega (arith, ordinal-lt_of_month u t w v less))
      | inr (inr more) ↦ absurd (omega (arith, count, more, v.month_low))
      | inr (inl same) ↦ (
        w,
        ordinal-le_of_day u t
            (omega (arith, same, v.month_low, v.month_high, w.month_low, w.month_high))
            (omega (arith, same, v.month_low, v.month_high, w.month_low, w.month_high))
            (omega (arith, day)),
      )
    ]

years-Back : (t : Date) (n : ℕ) → IsDate t → Back t (back_years t n)
unfolding back_years
years-Back t n v u h =
    let (w, y, m, d) =
      (make_date-IsDate (t.year - n) t.month (min t.day (days_in_month (t.year - n) t.month)) u).0
        h in
    elim (trichotomy u.year t.year) [
      | inl less ↦
          (w, omega (arith, ordinal-lt_of_month u t w v (omega (arith, less, m, v.month_low))))
      | inr (inr more) ↦ absurd (omega (arith, y, more))
      | inr (inl same) ↦ (w, ordinal-le_of_day u t same m (omega (arith, d)))
    ]

pub days-Back : (t : Date) (n : ℕ) → Back t (minus_days t n)
days-Back t n u h = let (v, e) = minus_days_sound t n u h in (v, omega (arith, e))

weeks-Back :
    (t : Date) (n : ℕ) (r : Date → Option Date)
    → Back t (minus_days t n >>= (λ u. r u >>= (λ a. minus_days a n >>= (λ b. some u))))
weeks-Back t n r u h =
    let (found, reached, rest) = >>=-eq-some (minus_days t n) _ h in
    let (a, _, rest) = >>=-eq-some (r found) _ rest in
    let (b, _, same) = >>=-eq-some (minus_days a n) _ rest in days-Back t n u (reached ∙ same)

-- A window reaches back to a day that is not after the reference day.
pub window_day-Back :
    (unit : Text) (count : ℕ) (ref : Date) → IsDate ref → Back ref (window_day unit count ref)
unfolding window_day
window_day-Back unit count ref v =
    if_both (Back ref) (starts_with unit (codes "day")) _ _ (days-Back ref count) (
      if_both (Back ref) (starts_with unit (codes "week")) _ _
        (weeks-Back ref (count * 7) (λ u. minus_days ref (weekday ref)))
        (if_both (Back ref) (starts_with unit (codes "month")) _ _ (months-Back ref count v)
          (years-Back ref count v)))
