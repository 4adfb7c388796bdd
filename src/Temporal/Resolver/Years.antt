-- ===== src/Temporal/Resolver/Years.antt =====
-- "a few years ago" in grace_mem/temporal/resolver.py, on days that other years do not have.
use grace_mem.Common.{
  ℕ, ◌-◌, ◌≤◌, ◌≡◌, ◌↔◌, ◌⊎◌, inl, inr, refl, Option, none, some, arith, leb, eqb, ◌>>=◌,
  Bool-cases, Text, strip, ap, sym, ◌∙◌, ◌≢◌,
}
use grace_mem.Temporal.Calendar.{Date, is_leap, days_in_month, make_date, IsDate}
use grace_mem.Temporal.Calendar.Ordinal.{}
use grace_mem.Temporal.Types.{Context, few_years, Patterns}
use grace_mem.Temporal.Spans.{Window, both}
use grace_mem.Temporal.Spans.Windows.{both-some}
use grace_mem.Temporal.Results.{fuzzy_days, fuzzy_result}
use grace_mem.Temporal.Resolver.{resolve_fuzzy}

-- A day that is in every year's calendar, or the leap day.
leap_day : (y m d x : ℕ) → d ≤ days_in_month y m → ((m ≡ 2) × (d ≡ 29)) ⊎ (d ≤ days_in_month x m)
unfolding days_in_month
leap_day y m d x h = elim (Bool-cases (eqb m 2)) [
  | inl february ↦ elim (Bool-cases (eqb d 29)) [
    | inl last ↦ inl (ground (arith, february), ground (arith, last))
    | inr other ↦ inr (ground (arith, february, other, h))
  ]
  | inr else_month ↦ inr (ground (arith, else_month, h))
]

never_leap : (y d : ℕ) → 6 ≤ y → 29 ≤ days_in_month y 2 → make_date (y - 5) 2 29 ≡ none
unfolding days_in_month is_leap make_date
never_leap y d lo h = ground (arith, lo, h)

date_some :
    (y m d : ℕ)
    → 1 ≤ y
    → y ≤ 9999
    → 1 ≤ m
    → m ≤ 12
    → 1 ≤ d
    → d ≤ days_in_month y m
    → make_date y m d ≡ some (record { year = y; month = m; day = d })
unfolding make_date
date_some y m d a b e f g h = ground (arith, a, b, e, f, g, h)

year_zero : (y m d : ℕ) → y ≤ 5 → make_date (y - 5) m d ≡ none
unfolding make_date
year_zero y m d h = ground (arith, h)

few_years_eq :
    (ref : Date)
    → fuzzy_days few_years ref
      ≡ both
          (make_date (ref.year - 5) ref.month ref.day)
          (make_date (ref.year - 2) ref.month ref.day)
unfolding fuzzy_days
few_years_eq ref = refl

no_first : (a b : Option Date) → a ≡ none → both a b ≡ none
no_first a b h = rw h refl

few_years-some :
    (ref : Date)
    → IsDate ref
    → 6 ≤ ref.year
    → ref.day ≤ days_in_month (ref.year - 5) ref.month
    → ref.day ≤ days_in_month (ref.year - 2) ref.month
    → fuzzy_days few_years ref ≢ none
few_years-some ref v lo a b h =
    let p =
      date_some (ref.year - 5) ref.month ref.day (omega (arith, lo)) (omega (arith, v.year_high))
        v.month_low v.month_high v.day_low a in
    let q =
      date_some (ref.year - 2) ref.month ref.day (omega (arith, lo)) (omega (arith, v.year_high))
        v.month_low v.month_high v.day_low b in
    let e : some _ ≡ none = sym (both-some _ _ _ _ p q) ∙ (sym (few_years_eq ref) ∙ h) in cc

few_years-none_iff :
    (ref : Date)
    → IsDate ref
    → (fuzzy_days few_years ref ≡ none) ↔ ((ref.year ≤ 5) ⊎ ((ref.month ≡ 2) × (ref.day ≡ 29)))
few_years-none_iff ref v = (λ h. missing h, λ h. raises h)
  where
    missing : fuzzy_days few_years ref ≡ none → (ref.year ≤ 5) ⊎ ((ref.month ≡ 2) × (ref.day ≡ 29))
    missing h = elim (Bool-cases (leb ref.year 5)) [
      | inl early ↦ inl (ground (arith, early))
      | inr late ↦ elim (leap_day ref.year ref.month ref.day (ref.year - 5) v.day_high) [
        | inl leap ↦ inr leap
        | inr a ↦ elim (leap_day ref.year ref.month ref.day (ref.year - 2) v.day_high) [
          | inl leap ↦ inr leap
          | inr b ↦ absurd (few_years-some ref v (ground (arith, late)) a b h)
        ]
      ]
    ]

    raises : (ref.year ≤ 5) ⊎ ((ref.month ≡ 2) × (ref.day ≡ 29)) → fuzzy_days few_years ref ≡ none
    raises (inl early) =
        few_years_eq ref ∙ no_first _ _ (year_zero ref.year ref.month ref.day early)
    raises (inr (month, day)) = elim (Bool-cases (leb ref.year 5)) [
      | inl early ↦
          few_years_eq ref
          ∙ no_first _ _ (year_zero ref.year ref.month ref.day (ground (arith, early)))
      | inr late ↦
          few_years_eq ref
          ∙ no_first _ _ (
              rw (month, day)
                (never_leap ref.year 29 (ground (arith, late))
                  (omega (arith, v.day_high, day, ap (days_in_month ref.year) month))))
    ]

bound_none : (o : Option Window) → (o >>= (λ w. some (fuzzy_result w))) ≡ none → o ≡ none
bound_none none h = refl
bound_none (some w) h = cc

-- At a reference date of the calendar, "a few years ago" raises an exception exactly on 29 February
-- and in the first five years: the dates five and two years back are built without clamping the day.
pub few_years-raises_iff :
    (p : Patterns) (c : Context) (text : Text)
    → IsDate c.reference_dt.date
    → p.fuzzy (p.lower (strip text)) ≡ some few_years
    → (resolve_fuzzy p text c ≡ none) ↔ (
        (c.reference_dt.date.year ≤ 5)
        ⊎ ((c.reference_dt.date.month ≡ 2) × (c.reference_dt.date.day ≡ 29)))
unfolding resolve_fuzzy
few_years-raises_iff p c text v e =
    rw (e, resolve_fuzzy)
      (
        λ h. (few_years-none_iff c.reference_dt.date v).0 (bound_none _ h),
        λ h. rw ((few_years-none_iff c.reference_dt.date v).1 h) refl,
      )
