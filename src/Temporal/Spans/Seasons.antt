-- ===== src/Temporal/Spans/Seasons.antt =====
-- The seasons that "last", "this" and "next" ask for.
use grace_mem.Common.{
  ℕ, ◌<◌, ◌≡◌, inl, inr, ◌&&◌, none, some, some-injective, List, [], ◌∷◌, arith, ltb, leb,
  Bool-cases, Option-cases, subst, >>=-eq-some, Text, text_eq, if◌then◌else◌, if_both, All,
}
use grace_mem.Temporal.Calendar.{Date, ordinal}
use grace_mem.Temporal.Types.{is_word}
use grace_mem.Temporal.Spans.{
  Window, season_window, season_windows, years_about, ends_before, starts_after, latest_from,
  latest, earliest_from, earliest, current, named_season,
}
use grace_mem.Temporal.Spans.Order.{IsWindow}
use grace_mem.Temporal.Spans.Windows.{Windows, season_window-Windows}

-- The windows of the years asked for, all in order.
pub season_windows-All :
    (season : ℕ) (ys : List ℕ) (ws : List Window)
    → season_windows season ys ≡ some ws
    → All IsWindow ws
unfolding season_windows
season_windows-All season [] ws h = subst (All IsWindow) (some-injective _ _ h) tt
season_windows-All season (y ∷ ys) ws h =
    let (w, one, rest) = >>=-eq-some (season_window season y) _ h in
    let (vs, more, same) = >>=-eq-some (season_windows season ys) _ rest in
    subst (All IsWindow) (some-injective _ _ same)
      (season_window-Windows season y w one, season_windows-All season ys vs more)

pub ends_before-All :
    (ref : Date) (ws : List Window)
    → All IsWindow ws
    → All (λ w. IsWindow w × (ordinal w.1 < ordinal ref)) (ends_before ref ws)
unfolding ends_before
ends_before-All ref [] h = tt
ends_before-All ref (w ∷ ws) h = elim (Bool-cases (ltb (ordinal w.1) (ordinal ref))) [
  | inl less ↦ rw less ((h.0, ground (arith, less)), ends_before-All ref ws h.1)
  | inr more ↦ rw more (ends_before-All ref ws h.1)
]

pub starts_after-All :
    (ref : Date) (ws : List Window)
    → All IsWindow ws
    → All (λ w. IsWindow w × (ordinal ref < ordinal w.0)) (starts_after ref ws)
unfolding starts_after
starts_after-All ref [] h = tt
starts_after-All ref (w ∷ ws) h = elim (Bool-cases (ltb (ordinal ref) (ordinal w.0))) [
  | inl less ↦ rw less ((h.0, ground (arith, less)), starts_after-All ref ws h.1)
  | inr more ↦ rw more (starts_after-All ref ws h.1)
]

latest_from-All :
    (P : Window → Type 0) (w : Window) (ws : List Window) → P w → All P ws → P (latest_from w ws)
unfolding latest_from
latest_from-All P w [] p h = p
latest_from-All P w (v ∷ vs) p h =
    latest_from-All P (if ltb (ordinal w.1) (ordinal v.1) then v else w) vs
      (if_both P (ltb (ordinal w.1) (ordinal v.1)) v w h.0 p) h.1

pub latest-All :
    (P : Window → Type 0) (ws : List Window) (w : Window) → All P ws → latest ws ≡ some w → P w
unfolding latest
latest-All P [] w h e = cc
latest-All P (v ∷ vs) w h e = subst P (some-injective _ _ e) (latest_from-All P v vs h.0 h.1)

earliest_from-All :
    (P : Window → Type 0) (w : Window) (ws : List Window) → P w → All P ws → P (earliest_from w ws)
unfolding earliest_from
earliest_from-All P w [] p h = p
earliest_from-All P w (v ∷ vs) p h =
    earliest_from-All P (if ltb (ordinal v.0) (ordinal w.0) then v else w) vs
      (if_both P (ltb (ordinal v.0) (ordinal w.0)) v w h.0 p) h.1

pub earliest-All :
    (P : Window → Type 0) (ws : List Window) (w : Window) → All P ws → earliest ws ≡ some w → P w
unfolding earliest
earliest-All P [] w h e = cc
earliest-All P (v ∷ vs) w h e = subst P (some-injective _ _ e) (earliest_from-All P v vs h.0 h.1)

current-All :
    (P : Window → Type 0) (ref : Date) (ws : List Window) (w : Window)
    → All P ws
    → current ref ws ≡ some w
    → P w
unfolding current
current-All P ref [] w h = λ e. cc
current-All P ref (v ∷ vs) w h =
    if_both (λ o. o ≡ some w → P w)
      (leb (ordinal v.0) (ordinal ref) && leb (ordinal ref) (ordinal v.1)) (some v) (current ref vs)
      (λ e. subst P (some-injective _ _ e) h.0) (λ e. current-All P ref vs w h.1 e)

else_this_year :
    (season : ℕ) (ref : Date) (ws : List Window)
    → All IsWindow ws
    → Windows (elim (current ref ws) [ some w ↦ some w | none ↦ season_window season ref.year ])
else_this_year season ref ws h w = elim (Option-cases (current ref ws)) [
  | inl e ↦ rw e (season_window-Windows season ref.year w)
  | inr (v, e) ↦
      rw e (λ same. subst IsWindow (some-injective _ _ same) (current-All IsWindow ref ws v h e))
]

pub named_season-Windows :
    (modifier : Text) (season : ℕ) (ref : Date) → Windows (named_season modifier season ref)
unfolding named_season
named_season-Windows modifier season ref w h =
    let (ws, found, rest) = >>=-eq-some (season_windows season (years_about ref.year)) _ h in
    let v = season_windows-All season (years_about ref.year) ws found in
    if_both Windows (is_word modifier "last") _ _
      (λ w e. (latest-All _ (ends_before ref ws) w (ends_before-All ref ws v) e).0)
      (if_both Windows (is_word modifier "next") _ _
        (λ w e. (earliest-All _ (starts_after ref ws) w (starts_after-All ref ws v) e).0)
        (else_this_year season ref ws v))
      w rest
