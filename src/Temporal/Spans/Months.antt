-- ===== src/Temporal/Spans/Months.antt =====
-- `_add_months` keeps the order of dates.
use grace_mem.Common.{◌+◌, ◌-◌, ◌*◌, ◌≤◌, ◌≡◌, inl, inr, some, arith, ap}
use grace_mem.Temporal.Calendar.{
  Date, days_in_month, days_before_year, days_of_months, ordinal, IsDate,
}
use grace_mem.Temporal.Calendar.Ordinal.{}
use grace_mem.Temporal.Calendar.Shift.{trichotomy, ordinal-lt_of_month, ordinal-le_of_day}
use grace_mem.Temporal.Types.{Offset, back, ahead}
use grace_mem.Temporal.Spans.{add_months}
use grace_mem.Temporal.Spans.Order.{total_months, add_months_sound}

-- Earlier dates count no more months, and in one month no more days.
count_mono :
    (a b : Date)
    → IsDate a
    → IsDate b
    → ordinal a ≤ ordinal b
    → a.year * 12 + a.month ≤ b.year * 12 + b.month
count_mono a b va vb h = elim (trichotomy (b.year * 12 + b.month) (a.year * 12 + a.month)) [
  | inl less ↦ absurd (omega (arith, ordinal-lt_of_month b a vb va less, h))
  | inr (inl same) ↦ omega (arith, same)
  | inr (inr more) ↦ omega (arith, more)
]

same_month :
    (a b : Date)
    → IsDate a
    → IsDate b
    → a.year * 12 + a.month ≡ b.year * 12 + b.month
    → (a.year ≡ b.year) × (a.month ≡ b.month)
same_month a b va vb h = (
  omega (arith, h, va.month_low, va.month_high, vb.month_low, vb.month_high),
  omega (arith, h, va.month_low, va.month_high, vb.month_low, vb.month_high),
)

day_mono :
    (a b : Date) → a.year ≡ b.year → a.month ≡ b.month → ordinal a ≤ ordinal b → a.day ≤ b.day
unfolding ordinal
day_mono a b p q h = omega (
  arith,
  ap days_before_year p,
  ap (λ y. days_of_months y (a.month - 1)) p,
  ap (λ m. days_of_months b.year (m - 1)) q,
  h,
)

count_add :
    (a : Date) (offset : Offset) (s : Date)
    → add_months a offset ≡ some s
    → s.year * 12 + s.month ≡ total_months a offset + 1
count_add a offset s h = (add_months_sound a offset s h).1

total_mono :
    (a b : Date) (offset : Offset)
    → IsDate a
    → IsDate b
    → a.year * 12 + a.month ≤ b.year * 12 + b.month
    → total_months a offset ≤ total_months b offset
total_mono a b (ahead n) va vb h = omega (arith, va.month_low, vb.month_low, h)
total_mono a b (back n) va vb h = omega (arith, va.month_low, vb.month_low, h)

-- Where a month is left to go back to, equal months later come from equal months before.
total_inj :
    (a b s : Date) (offset : Offset)
    → IsDate a
    → IsDate b
    → IsDate s
    → s.year * 12 + s.month ≡ total_months a offset + 1
    → total_months a offset ≡ total_months b offset
    → a.year * 12 + a.month ≡ b.year * 12 + b.month
total_inj a b s (ahead n) va vb vs e h = omega (arith, va.month_low, vb.month_low, h)
total_inj a b s (back n) va vb vs e h =
    omega (arith, va.month_low, vb.month_low, vs.year_low, vs.month_low, e, h)

-- `_add_months` keeps the order: of two dates, the earlier one's sum is no later, for one number of
-- months ahead or back for which both sums exist.
pub add_months_mono :
    (a b : Date) (offset : Offset) (s t : Date)
    → IsDate a
    → IsDate b
    → ordinal a ≤ ordinal b
    → add_months a offset ≡ some s
    → add_months b offset ≡ some t
    → ordinal s ≤ ordinal t
add_months_mono a b offset s t va vb h p q =
    let (vs, cs, ds) = add_months_sound a offset s p in
    let (vt, ct, dt) = add_months_sound b offset t q in
    let le = total_mono a b offset va vb (count_mono a b va vb h) in
    elim (trichotomy (s.year * 12 + s.month) (t.year * 12 + t.month)) [
      | inl less ↦ omega (arith, ordinal-lt_of_month s t vs vt less)
      | inr (inr more) ↦ absurd (omega (arith, cs, ct, le, more))
      | inr (inl same) ↦
          let (sy, sm) = same_month s t vs vt same in
          let (ay, am) =
            same_month a b va vb
              (total_inj a b s offset va vb vs cs (omega (arith, cs, ct, same))) in
          ordinal-le_of_day s t sy sm (
            omega (
              arith,
              ds,
              dt,
              day_mono a b ay am h,
              ap (λ y. days_in_month y s.month) sy,
              ap (λ m. days_in_month t.year m) sm,
            ))
    ]
