-- ===== src/Temporal/Spans/Neighbours.antt =====
-- "last" and "next" before a season's name have a window in the calendar, the nearest one.
use grace_mem.Common.{
  ℕ, ◌+◌, ◌-◌, ◌≤◌, ◌<◌, ◌≡◌, refl, sym, inl, inr, Bool, true, false, some, List, [], ◌∷◌, arith,
  subst, codes, if◌then◌else◌, All, In, eqb, text_eq, list_beq,
}
use grace_mem.Temporal.Calendar.{Date, is_leap, days_in_month, ordinal, make_date, IsDate}
use grace_mem.Temporal.Calendar.Ordinal.{}
use grace_mem.Temporal.Calendar.Shift.{ordinal-lt_of_month}
use grace_mem.Temporal.Spans.{
  Window, season_window, season_windows, years_about, ends_before, starts_after, named_season,
}
use grace_mem.Temporal.Spans.Order.{IsWindow}
use grace_mem.Temporal.Spans.Windows.{}
use grace_mem.Temporal.Spans.Seasons.{
  season_windows-All, ends_before-All, starts_after-All, latest-All, earliest-All,
}
use grace_mem.Temporal.Spans.Nearest.{
  latest_exists, earliest_exists, latest-max, earliest-min, ends_before-back, starts_after-back,
  latest-In, earliest-In,
}

season_last-some :
    (a b c : Bool) (y : ℕ)
    → 1 ≤ y
    → y ≤ 9998
    → (t : Date) × ((if a
          then make_date y 5 31
          else (if b
              then make_date y 8 31
              else (if c
                  then make_date y 11 30
                  else make_date (y + 1) 2 (if is_leap (y + 1) then 29 else 28))))
        ≡ some t)
      × (t.year ≤ y + 1)
unfolding make_date days_in_month
season_last-some true b c y lo hi =
    (record { year = y; month = 5; day = 31 }, ground (arith, lo, hi), omega arith)
season_last-some false true c y lo hi =
    (record { year = y; month = 8; day = 31 }, ground (arith, lo, hi), omega arith)
season_last-some false false true y lo hi =
    (record { year = y; month = 11; day = 30 }, ground (arith, lo, hi), omega arith)
season_last-some false false false y lo hi = (
  record { year = y + 1; month = 2; day = if is_leap (y + 1) then 29 else 28 },
  ground (arith, lo, hi),
  omega arith,
)

season_first-some :
    (m y : ℕ)
    → 1 ≤ y
    → y ≤ 9998
    → 1 ≤ m
    → m ≤ 12
    → (t : Date) × (make_date y m 1 ≡ some t) × (t.year ≡ y)
unfolding make_date days_in_month
season_first-some m y lo hi from to =
    (record { year = y; month = m; day = 1 }, ground (arith, lo, hi, from, to), refl)

-- Every year but the last has each season's window.
window_exists :
    (season y : ℕ)
    → 1 ≤ y
    → y ≤ 9998
    → (w : Window) × (season_window season y ≡ some w) × (w.0.year ≡ y) × (w.1.year ≤ y + 1)
unfolding season_window
window_exists season y lo hi =
    let (b, last, before) = season_last-some (eqb season 0) (eqb season 1) (eqb season 2) y lo hi in
    let (a, first, at) =
      season_first-some
        (if eqb season 0 then 3 else (if eqb season 1 then 6 else (if eqb season 2 then 9 else 12)))
        y lo hi (ground arith) (ground arith) in
    ((a, b), (rw (first, last) refl), at, before)

windows_exist :
    (season a b c d e : ℕ)
    → 1 ≤ a
    → a ≤ b
    → b ≤ c
    → c ≤ d
    → d ≤ e
    → e ≤ 9998
    → (v : Window) × (w : Window) × (vs : List Window) × (season_windows season
          (a ∷ b ∷ c ∷ d ∷ e ∷ [])
        ≡ some (v ∷ vs))
      × In w vs
      × (v.1.year ≤ a + 1)
      × (w.0.year ≡ e)
unfolding season_windows
windows_exist season a b c d e lo ab bc cd de hi =
    let (va, fa, _, ea) = window_exists season a (omega arith) (omega arith) in
    let (vb, fb, _, _) = window_exists season b (omega arith) (omega arith) in
    let (vc, fc, _, _) = window_exists season c (omega arith) (omega arith) in
    let (vd, fd, _, _) = window_exists season d (omega arith) (omega arith) in
    let (ve, fe, ye, _) = window_exists season e (omega arith) (omega arith) in
    (
      va,
      ve,
      vb ∷ vc ∷ vd ∷ ve ∷ [],
      (rw (fa, fb, fc, fd, fe) refl),
      inr (inr (inr (inl refl))),
      ea,
      ye,
    )

earlier_year : (t u : Date) → IsDate t → IsDate u → t.year < u.year → ordinal t < ordinal u
earlier_year t u vt vu h =
    ordinal-lt_of_month t u vt vu (omega (arith, h, vt.month_high, vu.month_low))

In-All-first : (u : Window) (ws : List Window) → In u ws → All IsWindow ws → IsDate u.0
In-All-first u [] m h = absurd m
In-All-first u (w ∷ ws) m h = elim m [
  | inl same ↦ subst (λ x. IsDate x.0) (sym same) h.0.first_date
  | inr rest ↦ In-All-first u ws rest h.1
]

-- For a season and a reference day of the years 3 to 9996, with `windows` the season's windows of the
-- five years about it: "last" gives one of those windows that ended before the day, and none of them
-- that ended before it ended later; "next" gives one of those windows that starts after the day, and
-- none of them that starts after it starts sooner.
pub named_season-neighbours :
    (season : ℕ) (ref : Date)
    → IsDate ref
    → 3 ≤ ref.year
    → ref.year ≤ 9996
    → (windows : List Window) × (season_windows season (years_about ref.year) ≡ some windows)
      × ((w : Window) × (named_season (codes "last") season ref ≡ some w)
          × In w windows
          × (ordinal w.1 < ordinal ref)
          × All (λ v. ordinal v.1 < ordinal ref → ordinal v.1 ≤ ordinal w.1) windows)
      × ((w : Window) × (named_season (codes "next") season ref ≡ some w)
          × In w windows
          × (ordinal ref < ordinal w.0)
          × All (λ v. ordinal ref < ordinal v.0 → ordinal w.0 ≤ ordinal v.0) windows)
unfolding named_season years_about list_beq
named_season-neighbours season ref d lo hi =
    let (v, u, vs, found, m, before, after) =
      windows_exist season (ref.year - 2) (ref.year - 1) ref.year (ref.year + 1) (ref.year + 2)
        (omega arith) (omega arith) (omega arith) (omega arith) (omega arith) (omega arith) in
    let sorted = season_windows-All season (years_about ref.year) (v ∷ vs) found in
    let past : ordinal v.1 < ordinal ref =
      earlier_year v.1 ref sorted.0.last_date d (omega (arith, before, lo)) in
    let ahead_of : ordinal ref < ordinal u.0 =
      earlier_year ref u.0 d (In-All-first u vs m sorted.1) (omega (arith, after)) in
    let (w, one) = latest_exists ref v vs past in
    let (x, two) = earliest_exists ref u (v ∷ vs) (inr m) ahead_of in
    (
      v ∷ vs,
      found,
      (
        w,
        (rw found one),
        latest-In ref (v ∷ vs) w one,
        (latest-All _ (ends_before ref (v ∷ vs)) w (ends_before-All ref (v ∷ vs) sorted) one).1,
        ends_before-back _ ref (v ∷ vs) (latest-max (ends_before ref (v ∷ vs)) w one),
      ),
      (
        x,
        (rw found two),
        earliest-In ref (v ∷ vs) x two,
        (earliest-All _ (starts_after ref (v ∷ vs)) x (starts_after-All ref (v ∷ vs) sorted) two).1,
        starts_after-back _ ref (v ∷ vs) (earliest-min (starts_after ref (v ∷ vs)) x two),
      ),
    )
