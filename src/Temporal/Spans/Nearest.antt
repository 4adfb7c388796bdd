-- ===== src/Temporal/Spans/Nearest.antt =====
-- The window of a list that ended last before a day, and the one that starts first after it.
use grace_mem.Common.{
  ◌≤◌, ◌<◌, ◌≡◌, refl, ap, inl, inr, true, some, some-injective, List, [], ◌∷◌, arith, ltb,
  Bool-cases, subst, if◌then◌else◌, All, In, text_eq,
}
use grace_mem.Temporal.Calendar.{Date, ordinal}
use grace_mem.Temporal.Calendar.Ordinal.{}
use grace_mem.Temporal.Spans.{
  Window, ends_before, starts_after, latest_from, latest, earliest_from, earliest,
}
use grace_mem.Temporal.Spans.Windows.{}
use grace_mem.Temporal.Spans.Seasons.{latest-All, earliest-All}

-- A window that fits is in the list.
pub latest_exists :
    (ref : Date) (v : Window) (vs : List Window)
    → ordinal v.1 < ordinal ref
    → (w : Window) × (latest (ends_before ref (v ∷ vs)) ≡ some w)
unfolding latest ends_before
latest_exists ref v vs h =
    let fits : ltb (ordinal v.1) (ordinal ref) ≡ true = ground (arith, h) in
    (latest_from v (ends_before ref vs), rw fits refl)

pub earliest_exists :
    (ref : Date) (w : Window) (vs : List Window)
    → In w vs
    → ordinal ref < ordinal w.0
    → (u : Window) × (earliest (starts_after ref vs) ≡ some u)
unfolding earliest starts_after
earliest_exists ref w [] m h = absurd m
earliest_exists ref w (v ∷ vs) m h = elim (Bool-cases (ltb (ordinal ref) (ordinal v.0))) [
  | inl fits ↦ (earliest_from v (starts_after ref vs), rw fits refl)
  | inr misses ↦ elim m [
    | inl same ↦ absurd (ground (arith, misses, h, ap (λ u. ordinal u.0) same))
    | inr later_on ↦ let (u, e) = earliest_exists ref w vs later_on h in (u, rw misses e)
  ]
]

latest_from-max :
    (w : Window) (ws : List Window)
    → (ordinal w.1 ≤ ordinal (latest_from w ws).1)
      × All (λ v. ordinal v.1 ≤ ordinal (latest_from w ws).1) ws
unfolding latest_from
latest_from-max w [] = (omega arith, tt)
latest_from-max w (v ∷ vs) =
    let (top, rest) = latest_from-max (if ltb (ordinal w.1) (ordinal v.1) then v else w) vs in
    (ground (arith, top), (ground (arith, top), rest))

earliest_from-min :
    (w : Window) (ws : List Window)
    → (ordinal (earliest_from w ws).0 ≤ ordinal w.0)
      × All (λ v. ordinal (earliest_from w ws).0 ≤ ordinal v.0) ws
unfolding earliest_from
earliest_from-min w [] = (omega arith, tt)
earliest_from-min w (v ∷ vs) =
    let (top, rest) = earliest_from-min (if ltb (ordinal v.0) (ordinal w.0) then v else w) vs in
    (ground (arith, top), (ground (arith, top), rest))

pub latest-max :
    (ws : List Window) (w : Window) → latest ws ≡ some w → All (λ v. ordinal v.1 ≤ ordinal w.1) ws
unfolding latest
latest-max [] w h = tt
latest-max (v ∷ vs) w h =
    subst (λ u. All (λ v. ordinal v.1 ≤ ordinal u.1) (v ∷ vs)) (some-injective _ _ h)
      (latest_from-max v vs)

pub earliest-min :
    (ws : List Window) (w : Window) → earliest ws ≡ some w → All (λ v. ordinal w.0 ≤ ordinal v.0) ws
unfolding earliest
earliest-min [] w h = tt
earliest-min (v ∷ vs) w h =
    subst (λ u. All (λ v. ordinal u.0 ≤ ordinal v.0) (v ∷ vs)) (some-injective _ _ h)
      (earliest_from-min v vs)

pub ends_before-back :
    (P : Window → Type 0) (ref : Date) (ws : List Window)
    → All P (ends_before ref ws)
    → All (λ v. ordinal v.1 < ordinal ref → P v) ws
unfolding ends_before
ends_before-back P ref [] h = tt
ends_before-back P ref (v ∷ vs) h = elim (Bool-cases (ltb (ordinal v.1) (ordinal ref))) [
  | inl fits ↦
      let h : All P (v ∷ ends_before ref vs) = rw (fits, ends_before) at h in
      (λ _. h.0, ends_before-back P ref vs h.1)
  | inr misses ↦
      let h : All P (ends_before ref vs) = rw (misses, ends_before) at h in
      (λ lt. absurd (ground (arith, misses, lt)), ends_before-back P ref vs h)
]

pub starts_after-back :
    (P : Window → Type 0) (ref : Date) (ws : List Window)
    → All P (starts_after ref ws)
    → All (λ v. ordinal ref < ordinal v.0 → P v) ws
unfolding starts_after
starts_after-back P ref [] h = tt
starts_after-back P ref (v ∷ vs) h = elim (Bool-cases (ltb (ordinal ref) (ordinal v.0))) [
  | inl fits ↦
      let h : All P (v ∷ starts_after ref vs) = rw (fits, starts_after) at h in
      (λ _. h.0, starts_after-back P ref vs h.1)
  | inr misses ↦
      let h : All P (starts_after ref vs) = rw (misses, starts_after) at h in
      (λ lt. absurd (ground (arith, misses, lt)), starts_after-back P ref vs h)
]

-- What holds of every window holds of those that ended before the day, and of those that start after.
ends_before-kept :
    (P : Window → Type 0) (ref : Date) (ws : List Window) → All P ws → All P (ends_before ref ws)
unfolding ends_before
ends_before-kept P ref [] h = tt
ends_before-kept P ref (w ∷ ws) h = elim (Bool-cases (ltb (ordinal w.1) (ordinal ref))) [
  | inl fits ↦ rw fits (h.0, ends_before-kept P ref ws h.1)
  | inr misses ↦ rw misses (ends_before-kept P ref ws h.1)
]

starts_after-kept :
    (P : Window → Type 0) (ref : Date) (ws : List Window) → All P ws → All P (starts_after ref ws)
unfolding starts_after
starts_after-kept P ref [] h = tt
starts_after-kept P ref (w ∷ ws) h = elim (Bool-cases (ltb (ordinal ref) (ordinal w.0))) [
  | inl fits ↦ rw fits (h.0, starts_after-kept P ref ws h.1)
  | inr misses ↦ rw misses (starts_after-kept P ref ws h.1)
]

All_of_In : (P : Window → Type 0) (ws : List Window) → ((w : Window) → In w ws → P w) → All P ws
All_of_In P [] h = tt
All_of_In P (w ∷ ws) h = (h w (inl refl), All_of_In P ws (λ v m. h v (inr m)))

pub latest-In :
    (ref : Date) (ws : List Window) (w : Window) → latest (ends_before ref ws) ≡ some w → In w ws
latest-In ref ws w =
    latest-All (λ v. In v ws) (ends_before ref ws) w
      (ends_before-kept (λ v. In v ws) ref ws (All_of_In (λ v. In v ws) ws (λ v m. m)))

pub earliest-In :
    (ref : Date) (ws : List Window) (w : Window) → earliest (starts_after ref ws) ≡ some w → In w ws
earliest-In ref ws w =
    earliest-All (λ v. In v ws) (starts_after ref ws) w
      (starts_after-kept (λ v. In v ws) ref ws (All_of_In (λ v. In v ws) ws (λ v m. m)))
