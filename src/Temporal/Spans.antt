-- ===== src/Temporal/Spans.antt =====
-- grace_mem/temporal/resolver.py: the resolvers of windows, weekends, months, seasons, years and
-- weeks of a month. `none` is an exception that the resolver lets out.
pub mod Order
pub mod Windows
pub mod Seasons
pub mod Months
pub mod Nearest
pub mod Neighbours
use grace_mem.Common.{
  ℕ, ◌+◌, ◌-◌, ◌*◌, ◌%◌, ◌/◌, min, ◌&&◌, ◌||◌, Option, none, some, List, [], ◌∷◌, if◌then◌else◌,
  leb, ltb, eqb, ◌>>=◌, Text, text_eq, codes, starts_with,
}
use grace_mem.Temporal.Calendar.{
  Date, is_leap, days_in_month, ordinal, weekday, make_date, plus_days, minus_days,
}
use grace_mem.Temporal.Types.{
  Category, Granularity, by_day, by_week, by_month, by_year, Resolved, is_word, Offset, back, ahead,
  start_of, end_of, validate,
}

-- `_add_months`: a negative total has no date either.
unfoldable pub add_months : Date → Offset → Option Date
unfolding days_in_month make_date
add_months t offset =
    let total : ℕ = elim offset [
      | ahead n ↦ t.year * 12 + (t.month - 1) + n
      | back n ↦ t.year * 12 + (t.month - 1) - n
    ] in
    make_date (total / 12) (total % 12 + 1)
      (min t.day (days_in_month (total / 12) (total % 12 + 1)))

-- `_add_years`, for a number of years back
unfoldable pub back_years : Date → ℕ → Option Date
unfolding days_in_month make_date
back_years t n = make_date (t.year - n) t.month (min t.day (days_in_month (t.year - n) t.month))

abbrev pub month_end : ℕ → ℕ → Option Date
month_end y m = make_date y m (days_in_month y m)

abbrev pub Window : Type 0
Window = Date × Date

-- `_season_window`
unfoldable pub season_window : ℕ → ℕ → Option Window
unfolding make_date is_leap
season_window season y = do
  first ←
      make_date y
        (if eqb season 0 then 3 else (if eqb season 1 then 6 else (if eqb season 2 then 9 else 12)))
        1
  last ←
      (if eqb season 0
        then make_date y 5 31
        else (if eqb season 1
            then make_date y 8 31
            else (if eqb season 2
                then make_date y 11 30
                else make_date (y + 1) 2 (if is_leap (y + 1) then 29 else 28))))
  some (first, last)

-- The windows of five years from `y - 2` on, where `start_year` is `y - 2 + k`.
unfoldable pub season_windows : ℕ → List ℕ → Option (List Window)
season_windows season [] = some []
season_windows season (y ∷ ys) = do
  w ← season_window season y
  ws ← season_windows season ys
  some (w ∷ ws)

-- `range(y - 2, y + 3)`, where a year below 1 has no date.
unfoldable pub years_about : ℕ → List ℕ
years_about y = (y - 2) ∷ (y - 1) ∷ y ∷ (y + 1) ∷ (y + 2) ∷ []

unfoldable pub ends_before : Date → List Window → List Window
ends_before ref [] = []
ends_before ref (w ∷ ws) =
    let rest = ends_before ref ws in if ltb (ordinal w.1) (ordinal ref) then w ∷ rest else rest

unfoldable pub starts_after : Date → List Window → List Window
starts_after ref [] = []
starts_after ref (w ∷ ws) =
    let rest = starts_after ref ws in if ltb (ordinal ref) (ordinal w.0) then w ∷ rest else rest

-- `max(…, key=end)` and `min(…, key=start)`, which raise on an empty list and give the first of equals.
unfoldable pub latest_from : Window → List Window → Window
latest_from w [] = w
latest_from w (v ∷ vs) = latest_from (if ltb (ordinal w.1) (ordinal v.1) then v else w) vs

unfoldable pub latest : List Window → Option Window
unfolding latest_from
latest [] = none
latest (w ∷ ws) = some (latest_from w ws)

unfoldable pub earliest_from : Window → List Window → Window
earliest_from w [] = w
earliest_from w (v ∷ vs) = earliest_from (if ltb (ordinal v.0) (ordinal w.0) then v else w) vs

unfoldable pub earliest : List Window → Option Window
unfolding earliest_from
earliest [] = none
earliest (w ∷ ws) = some (earliest_from w ws)

-- The first window that holds the day.
unfoldable pub current : Date → List Window → Option Window
current ref [] = none
current ref (w ∷ ws) =
    if leb (ordinal w.0) (ordinal ref) && leb (ordinal ref) (ordinal w.1)
    then some w
    else current ref ws

unfoldable pub named_season : Text → ℕ → Date → Option Window
unfolding season_windows years_about latest earliest ends_before starts_after current season_window
named_season modifier season ref = do
  windows ← season_windows season (years_about ref.year)
  (if is_word modifier "last"
      then latest (ends_before ref windows)
      else (if is_word modifier "next"
          then earliest (starts_after ref windows)
          else elim (current ref windows) [
            | some w ↦ some w
            | none ↦ season_window season ref.year
          ]))

abbrev pub days_result : Category → Granularity → Date → Date → Resolved
days_result category granularity first last =
    validate category (some granularity) (some (start_of first)) (some (end_of last))

-- The day that a window reaches back to. A number of weeks needs the Monday of that week too.
unfoldable pub window_day : Text → ℕ → Date → Option Date
unfolding back_years add_months
window_day unit count ref =
    if starts_with unit (codes "day")
    then minus_days ref count
    else (if starts_with unit (codes "week")
        then (do
          t ← minus_days ref (count * 7)
          monday ← minus_days ref (weekday ref)
          shown ← minus_days monday (count * 7)
          some t)
        else (if starts_with unit (codes "month")
            then add_months ref (back count)
            else back_years ref count))

unfoldable pub unit_granularity : Text → Granularity
unit_granularity unit =
    if starts_with unit (codes "day")
    then by_day
    else (if starts_with unit (codes "week")
        then by_week
        else (if starts_with unit (codes "month") then by_month else by_year))

abbrev pub both : Option Date → Option Date → Option Window
both a b = a >>= (λ first. b >>= (λ last. some (first, last)))

-- The Saturday and the Sunday that a modifier asks for.
unfoldable pub weekend_days : Text → Date → Option Window
weekend_days modifier ref = do
  monday ← minus_days ref (weekday ref)
  (if is_word modifier "last" || is_word modifier "this past"
      then both (minus_days monday 2) (minus_days monday 1)
      else (if is_word modifier "this"
          then both (plus_days monday 5) (plus_days monday 6)
          else both (plus_days monday 12) (plus_days monday 13)))

abbrev pub later : Date → Date → Date
later a b = if ltb (ordinal a) (ordinal b) then b else a

abbrev pub sooner : Date → Date → Date
sooner a b = if ltb (ordinal b) (ordinal a) then b else a

-- The part of the first or of the last week that lies in the month.
unfoldable pub month_week_days : Text → ℕ → ℕ → Option Window
unfolding make_date days_in_month
month_week_days which y m = do
  first ← make_date y m 1
  last ← month_end y m
  let inside = if is_word which "first" then first else last
  monday ← minus_days inside (weekday inside)
  sunday ← plus_days monday 6
  some (later first monday, sooner last sunday)
