-- ===== src/Temporal/Calendar/Ordinal.antt =====
-- Ordinals: the day after a date is its successor, and the date of an ordinal is found again.
use grace_mem.Common.{
  ℕ, zero, suc, ◌+◌, ◌-◌, ◌≤◌, ◌<◌, ◌≡◌, refl, ap, ◌↔◌, ◌⊎◌, inl, inr, true, ◌&&◌, some,
  some-injective, arith, leb, Bool-cases, subst,
}
use grace_mem.Temporal.Calendar.{
  Date, max_year, days_in_month, days_in_year, days_before_year, days_of_months, ordinal, make_date,
  find_month, find_year, max_ordinal, of_ordinal, IsDate,
}

pub days_before_year-suc :
    (y : ℕ) → 1 ≤ y → days_before_year (y + 1) ≡ days_before_year y + days_in_year y
unfolding days_before_year days_in_year
days_before_year-suc y h = ground arith

pub days_of_months-12 : (y : ℕ) → days_of_months y 12 ≡ days_in_year y
unfolding days_of_months days_in_year days_in_month
days_of_months-12 y = ground arith

pub days_in_month_bounds : (y m : ℕ) → (28 ≤ days_in_month y m) × (days_in_month y m ≤ 31)
unfolding days_in_month
days_in_month_bounds y m = ground arith

le_suc_cases : (a b : ℕ) → a ≤ suc b → (a ≡ suc b) ⊎ (a ≤ b)
le_suc_cases a b h = elim (Bool-cases (leb a b)) [
  | inl low ↦ inr (ground (arith, low))
  | inr high ↦ inl (ground (arith, high))
]

-- A function that grows from each number to the next grows.
grows :
    (f : ℕ → ℕ) (low : ℕ)
    → ((k : ℕ) → low ≤ k → f k ≤ f (suc k))
    → (a b : ℕ) → low ≤ a
    → a ≤ b
    → f a ≤ f b
grows f low step a zero p q = let e : a ≡ 0 = omega arith in omega (arith, ap f e)
grows f low step a (suc b) p q = elim (le_suc_cases a b q) [
  | inl same ↦ omega (arith, ap f same)
  | inr less ↦ omega (arith, grows f low step a b p less, step b (omega (arith, p, less)))
]

days_of_months-step : (y k : ℕ) → 0 ≤ k → days_of_months y k ≤ days_of_months y (suc k)
unfolding days_of_months
days_of_months-step y k h = omega arith

pub days_of_months_mono : (y a b : ℕ) → a ≤ b → days_of_months y a ≤ days_of_months y b
days_of_months_mono y a b h = grows (days_of_months y) 0 (days_of_months-step y) a b (omega arith) h

days_before_year-step : (k : ℕ) → 1 ≤ k → days_before_year k ≤ days_before_year (suc k)
days_before_year-step k h =
    let e : k + 1 ≡ suc k = omega arith in
    ground (arith, days_before_year-suc k h, ap days_before_year e)

pub days_before_year_mono : (a b : ℕ) → 1 ≤ a → a ≤ b → days_before_year a ≤ days_before_year b
days_before_year_mono a b p q = grows days_before_year 1 days_before_year-step a b p q

pub year_ends : (days_before_year 1 ≡ 0) × (days_before_year 10000 ≡ max_ordinal)
unfolding days_before_year
year_ends = (refl, refl)

days_of_months-suc :
    (y m : ℕ) → days_of_months y (suc m) ≡ days_of_months y m + days_in_month y (suc m)
unfolding days_of_months
days_of_months-suc y m = refl

days_of_months-through :
    (y m : ℕ) → 1 ≤ m → m ≤ 12 → days_of_months y (m - 1) + days_in_month y m ≤ days_in_year y
days_of_months-through y zero p q = absurd (omega arith)
days_of_months-through y (suc m) p q =
    let e : suc m - 1 ≡ m = omega arith in
    omega (
      arith,
      ap (days_of_months y) e,
      days_of_months-suc y m,
      days_of_months_mono y (suc m) 12 q,
      days_of_months-12 y,
    )

-- A date lies in its year.
pub ordinal_in_year :
    (t : Date)
    → IsDate t
    → (days_before_year t.year < ordinal t) × (ordinal t ≤ days_before_year (t.year + 1))
unfolding ordinal
ordinal_in_year t v = omega (
  arith,
  days_of_months-through t.year t.month v.month_low v.month_high,
  v.day_high,
  v.day_low,
  days_before_year-suc t.year v.year_low,
)

-- Ordinals run from 1 to that of 9999-12-31.
pub ordinal_bounds : (t : Date) → IsDate t → (1 ≤ ordinal t) × (ordinal t ≤ max_ordinal)
ordinal_bounds t v = omega (
  arith,
  ordinal_in_year t v,
  year_ends,
  days_before_year_mono (t.year + 1) 10000 (omega arith) (omega (arith, v.year_high)),
)

-- The date `n` days after the start of month `m`.
record IsFound (y total : ℕ) (t : Date) : Type 0 where
  pub same_year : t.year ≡ y
  pub months_ok : (1 ≤ t.month) × (t.month ≤ 12)
  pub days_ok : (1 ≤ t.day) × (t.day ≤ days_in_month y t.month)
  pub adds_up : days_of_months y (t.month - 1) + t.day ≡ total

pub days_of_months-next :
    (y m : ℕ)
    → 1 ≤ m
    → days_of_months y ((m + 1) - 1) ≡ days_of_months y (m - 1) + days_in_month y m
days_of_months-next y zero h = absurd (omega arith)
days_of_months-next y (suc m) h =
    let e : (suc m + 1) - 1 ≡ suc m = omega arith in
    let e' : suc m - 1 ≡ m = omega arith in
    omega (arith, ap (days_of_months y) e, ap (days_of_months y) e', days_of_months-suc y m)

december :
    (y m n : ℕ) → m ≡ 12 → days_of_months y (m - 1) + n ≤ days_in_year y → n ≤ days_in_month y m
december y m n e fits = omega (
  arith,
  ap (λ k. days_of_months y (k - 1)) e,
  ap (days_in_month y) e,
  days_of_months-12 y,
  days_of_months-suc y 11,
  fits,
)

find_month-IsFound :
    (months y m n total : ℕ)
    → m + months ≡ 12
    → 1 ≤ m
    → 1 ≤ n
    → days_of_months y (m - 1) + n ≡ total
    → total ≤ days_in_year y
    → IsFound y total (find_month months y m n)
unfolding find_month
find_month-IsFound zero y m n total e lo pos sum fits = record {
  same_year = refl;
  months_ok = omega (arith, e, lo);
  days_ok = (pos, december y m n (omega (arith, e)) (omega (arith, sum, fits)));
  adds_up = sum;
}
find_month-IsFound (suc months) y m n total e lo pos sum fits =
    elim (Bool-cases (leb n (days_in_month y m))) [
      | inl here ↦
          rw (here, find_month)
            (record {
              same_year = refl;
              months_ok = omega (arith, e, lo);
              days_ok = ground (arith, here, pos);
              adds_up = sum;
            })
      | inr later ↦
          rw (later, find_month)
            (find_month-IsFound months y (m + 1) (n - days_in_month y m) total (omega (arith, e))
              (omega arith) (ground (arith, later))
              (ground (arith, later, sum, days_of_months-next y m lo)) fits)
    ]

-- The date with an ordinal.
pub record IsDateOf (n : ℕ) (t : Date) : Type 0 where
  pub is_date : IsDate t
  pub counted : ordinal t ≡ n

find_month-IsDateOf :
    (y r total : ℕ)
    → 1 ≤ y
    → y ≤ max_year
    → 1 ≤ r
    → r ≤ days_in_year y
    → days_before_year y + r ≡ total
    → IsDateOf total (find_month 11 y 1 r)
find_month-IsDateOf y r total lo hi pos fits sum =
    let f : IsFound y r (find_month 11 y 1 r) =
      find_month-IsFound 11 y 1 r r refl (omega arith) pos (months-0 y r) fits in
    of_found (find_month 11 y 1 r) f
  where
    months-0 : (y r : ℕ) → days_of_months y (1 - 1) + r ≡ r
    months-0 y r = unfold days_of_months in omega arith

    of_found : (t : Date) → IsFound y r t → IsDateOf total t
    of_found t f = record {
      is_date = record {
        year_low = omega (arith, f.same_year, lo);
        year_high = omega (arith, f.same_year, hi);
        month_low = f.months_ok.0;
        month_high = f.months_ok.1;
        day_low = f.days_ok.0;
        day_high = omega (arith, f.days_ok, ap (λ z. days_in_month z t.month) f.same_year);
      };
      counted =
          unfold ordinal in
          omega (
            arith,
            f.adds_up,
            sum,
            ap days_before_year f.same_year,
            ap (λ z. days_of_months z (t.month - 1)) f.same_year,
          );
    }

find_year-IsDateOf :
    (years y r total : ℕ)
    → y + years ≡ max_year
    → 1 ≤ y
    → 1 ≤ r
    → days_before_year y + r ≡ total
    → total ≤ max_ordinal
    → IsDateOf total (find_year years y r)
unfolding find_year
find_year-IsDateOf zero y r total e lo pos sum fits =
    find_month-IsDateOf y r total lo (omega (arith, e)) pos last sum
  where
    last : r ≤ days_in_year y
    last =
        let at : y + 1 ≡ 10000 = omega (arith, e) in
        omega (arith, days_before_year-suc y lo, ap days_before_year at, year_ends, sum, fits)
find_year-IsDateOf (suc years) y r total e lo pos sum fits =
    elim (Bool-cases (leb r (days_in_year y))) [
      | inl here ↦
          rw (here, find_year)
            (find_month-IsDateOf y r total lo (omega (arith, e)) pos (ground (arith, here)) sum)
      | inr later ↦
          rw (later, find_year)
            (find_year-IsDateOf years (y + 1) (r - days_in_year y) total (omega (arith, e))
              (omega arith) (ground (arith, later))
              (ground (arith, later, sum, days_before_year-suc y lo)) fits)
    ]

in_range : (n k : ℕ) → (leb 1 n && leb n k) ≡ true → (1 ≤ n) × (n ≤ k)
in_range n k h = ground arith

in_range_of : (n k : ℕ) → 1 ≤ n → n ≤ k → (leb 1 n && leb n k) ≡ true
in_range_of n k lo hi = ground arith

-- Every ordinal from 1 to that of 9999-12-31 has its date.
pub of_ordinal-IsDateOf :
    (n : ℕ) → 1 ≤ n → n ≤ max_ordinal → (t : Date) × (of_ordinal n ≡ some t) × IsDateOf n t
unfolding of_ordinal
of_ordinal-IsDateOf n lo hi = (
  find_year 9998 1 n,
  rw (in_range_of n max_ordinal lo hi) refl,
  find_year-IsDateOf 9998 1 n n refl (omega arith) lo (omega (arith, year_ends)) hi,
)

-- What `of_ordinal` gives is the date of that ordinal.
pub of_ordinal_sound : (n : ℕ) (t : Date) → of_ordinal n ≡ some t → IsDateOf n t
unfolding of_ordinal
of_ordinal_sound n t h = elim (Bool-cases (leb 1 n && leb n max_ordinal)) [
  | inl within ↦
      let (lo, hi) = in_range n max_ordinal within in
      subst (IsDateOf n) (some-injective _ _ (rw within at h))
        (find_year-IsDateOf 9998 1 n n refl (omega arith) lo (omega (arith, year_ends)) hi)
  | inr out ↦ absurd (cc (rw out at h))
]

-- `date(y, m, d)` gives a date, and gives it just for the fields of one.
pub make_date-IsDate :
    (y m d : ℕ) (t : Date)
    → (make_date y m d ≡ some t) ↔ (IsDate t × (t.year ≡ y) × (t.month ≡ m) × (t.day ≡ d))
unfolding make_date
make_date-IsDate y m d t = ground arith
