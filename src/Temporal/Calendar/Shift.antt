-- ===== src/Temporal/Calendar/Shift.antt =====
-- Days and microseconds added to dates and stamps, and the order of dates.
use grace_mem.Common.{
  ℕ, ◌+◌, ◌-◌, ◌*◌, ◌/◌, ◌%◌, ◌≤◌, ◌<◌, ◌≡◌, sym, ap, ◌∙◌, ◌⊎◌, inl, inr, some, some-injective,
  arith, ltb, eqb, Bool-cases, subst, >>=-eq-some,
}
use grace_mem.Temporal.Calendar.{
  Date, Stamp, days_in_month, days_of_months, days_before_year, ordinal, of_ordinal, plus_days,
  minus_days, IsDate, IsStamp, instant, of_instant, day_micros, plus_micros, minus_micros,
}
use grace_mem.Temporal.Calendar.Ordinal.{
  ordinal_in_year, ordinal_bounds, days_before_year_mono, days_of_months_mono, days_of_months-next,
  of_ordinal_sound, of_ordinal-IsDateOf,
}

-- What `t + timedelta(days=n)` gives is the date whose ordinal is larger by `n`.
pub plus_days_sound :
    (t : Date) (n : ℕ) (u : Date) → plus_days t n ≡ some u → IsDate u × (ordinal u ≡ ordinal t + n)
unfolding plus_days
plus_days_sound t n u h = let s = of_ordinal_sound (ordinal t + n) u h in (s.is_date, s.counted)

-- What `t - timedelta(days=n)` gives is the date whose ordinal is smaller by `n`.
pub minus_days_sound :
    (t : Date) (n : ℕ) (u : Date) → minus_days t n ≡ some u → IsDate u × (ordinal u + n ≡ ordinal t)
unfolding minus_days
minus_days_sound t n u h =
    let s = of_ordinal_sound (ordinal t - n) u h in
    (s.is_date, omega (arith, s.counted, (ordinal_bounds u s.is_date).0))

earlier_year : (a b : Date) → IsDate a → IsDate b → a.year < b.year → ordinal a < ordinal b
earlier_year a b va vb h = omega (
  arith,
  ordinal_in_year a va,
  ordinal_in_year b vb,
  days_before_year_mono (a.year + 1) b.year (omega arith) (omega (arith, h)),
)

months_apart :
    (y a b d e : ℕ)
    → 1 ≤ a
    → a < b
    → d ≤ days_in_month y a
    → 1 ≤ e
    → days_of_months y (a - 1) + d < days_of_months y (b - 1) + e
months_apart y a b d e lo lt fits pos = omega (
  arith,
  days_of_months-next y a lo,
  days_of_months_mono y ((a + 1) - 1) (b - 1) (omega (arith, lo, lt)),
  fits,
  pos,
)

earlier_month :
    (a b : Date) → IsDate a → IsDate b → a.year ≡ b.year → a.month < b.month → ordinal a < ordinal b
unfolding ordinal
earlier_month a b va vb e h = omega (
  arith,
  months_apart a.year a.month b.month a.day b.day va.month_low h va.day_high vb.day_low,
  ap days_before_year e,
  ap (λ y. days_of_months y (b.month - 1)) e,
)

pub trichotomy : (a b : ℕ) → (a < b) ⊎ ((a ≡ b) ⊎ (b < a))
trichotomy a b = elim (Bool-cases (ltb a b)) [
  | inl less ↦ inl (ground (arith, less))
  | inr more ↦ elim (Bool-cases (eqb a b)) [
    | inl same ↦ inr (inl (ground (arith, same)))
    | inr apart ↦ inr (inr (ground (arith, more, apart)))
  ]
]

-- A date in an earlier month comes first.
pub ordinal-lt_of_month :
    (a b : Date)
    → IsDate a
    → IsDate b
    → a.year * 12 + a.month < b.year * 12 + b.month
    → ordinal a < ordinal b
ordinal-lt_of_month a b va vb h = elim (trichotomy a.year b.year) [
  | inl less ↦ earlier_year a b va vb less
  | inr (inl same) ↦ earlier_month a b va vb same (omega (arith, same, h))
  | inr (inr more) ↦ absurd (omega (arith, more, h, va.month_low, vb.month_high))
]

-- In one month the days count.
pub ordinal-le_of_day :
    (a b : Date) → a.year ≡ b.year → a.month ≡ b.month → a.day ≤ b.day → ordinal a ≤ ordinal b
unfolding ordinal
ordinal-le_of_day a b p q h = omega (
  arith,
  ap days_before_year p,
  ap (λ y. days_of_months y (a.month - 1)) p,
  ap (λ m. days_of_months b.year (m - 1)) q,
  h,
)

date_ext : (a b : Date) → a.year ≡ b.year → a.month ≡ b.month → a.day ≡ b.day → a ≡ b
date_ext a b p q r = λ i. record { year = p i; month = q i; day = r i }

same_day :
    (a b : Date) → a.year ≡ b.year → a.month ≡ b.month → ordinal a ≡ ordinal b → a.day ≡ b.day
unfolding ordinal
same_day a b p q h = omega (
  arith,
  ap days_before_year p,
  ap (λ y. days_of_months y (a.month - 1)) p,
  ap (λ m. days_of_months b.year (m - 1)) q,
  h,
)

-- Two dates with one ordinal are equal.
pub ordinal_inj : (a b : Date) → IsDate a → IsDate b → ordinal a ≡ ordinal b → a ≡ b
ordinal_inj a b va vb h = elim (trichotomy a.year b.year) [
  | inl less ↦ absurd (omega (arith, earlier_year a b va vb less, h))
  | inr (inr more) ↦ absurd (omega (arith, earlier_year b a vb va more, h))
  | inr (inl year) ↦ elim (trichotomy a.month b.month) [
    | inl less ↦ absurd (omega (arith, earlier_month a b va vb year less, h))
    | inr (inr more) ↦ absurd (omega (arith, earlier_month b a vb va (sym year) more, h))
    | inr (inl month) ↦ date_ext a b year month (same_day a b year month h)
  ]
]

-- `date.fromordinal` undoes `date.toordinal`.
pub of_ordinal-ordinal : (t : Date) → IsDate t → of_ordinal (ordinal t) ≡ some t
of_ordinal-ordinal t v =
    let b = ordinal_bounds t v in
    let (u, ran, s) = of_ordinal-IsDateOf (ordinal t) b.0 b.1 in
    ran ∙ ap some (ordinal_inj u t s.is_date v s.counted)

div_mod : (n : ℕ) → (n / day_micros) * day_micros + n % day_micros ≡ n
div_mod n = omega arith

within_day : (n : ℕ) → n % day_micros < day_micros
within_day n = omega arith

-- What `of_instant` gives is the stamp of that instant.
pub of_instant_sound : (n : ℕ) (s : Stamp) → of_instant n ≡ some s → IsStamp s × (instant s ≡ n)
unfolding of_instant
of_instant_sound n s h =
    let (t, found, e) = >>=-eq-some (of_ordinal (n / day_micros)) _ h in
    let d = of_ordinal_sound (n / day_micros) t found in
    subst (λ s. IsStamp s × (instant s ≡ n)) (some-injective _ _ e)
      (
        record { on = d.is_date; within = within_day n },
        ap (λ o. o * day_micros + n % day_micros) d.counted ∙ div_mod n,
      )

-- What an addition of microseconds gives is the stamp that much later.
pub plus_micros_sound :
    (s : Stamp) (n : ℕ) (r : Stamp)
    → plus_micros s n ≡ some r
    → IsStamp r × (instant r ≡ instant s + n)
unfolding plus_micros
plus_micros_sound s n r h = of_instant_sound (instant s + n) r h

-- What a subtraction gives is the stamp that much earlier.
pub minus_micros_sound :
    (s : Stamp) (n : ℕ) (r : Stamp)
    → minus_micros s n ≡ some r
    → IsStamp r × (instant r + n ≡ instant s)
unfolding minus_micros
minus_micros_sound s n r h =
    let (v, e) = of_instant_sound (instant s - n) r h in
    (v, omega (arith, e, (ordinal_bounds r.date v.on).0))
