-- ===== src/Temporal/Resolver/Sound.antt =====
-- Every result of `resolve_match` holds together.
use grace_mem.Common.{
  ℕ, ◌+◌, ◌-◌, ◌≡◌, ◌≢◌, refl, ◌⊎◌, inl, inr, Option, none, some, arith, zero, suc, if_both,
  option_both, subst, >>=-eq-some, ◌||◌, Text, text_eq, ◌>>=◌, codes, Option-cases, List, [], ◌∷◌,
  strip, starts_with, lookup,
}
use grace_mem.Temporal.Calendar.{IsStamp}
use grace_mem.Temporal.Types.{
  Category, absolute_date, absolute_time, relative_day, relative_daypart, relative_weekday,
  relative_hour, daypart_time, relative_window, week_point, weekend, month_point, season_point,
  year_point, boundary, month_week_range, unknown, unresolved, Granularity, by_day, by_week,
  by_weekend, by_month, by_season, by_year, by_range, relative_window_parse_failed,
  relative_window_number, week_parse_failed, month_parse_failed, season_parse_failed,
  year_parse_failed, month_week_parse_failed, boundary_parse_failed, weekend_parse_failed,
  unknown_pattern, Context, Resolved, modified, anchored, Patterns, month_numbers, season_numbers,
  split_from, is_word, back, ahead,
}
use grace_mem.Temporal.Types.Closed.{
  closed, IsSound, days-IsClosed, Closed, some-Closed, bind-Closed, refuse-Closed, not_resolved,
}
use grace_mem.Temporal.Classifier.{classify_single_expression}
use grace_mem.Temporal.Days.{}
use grace_mem.Temporal.Days.Closed.{
  resolve_absolute_date-Closed, resolve_absolute_time-Closed, resolve_relative_day-Closed,
  resolve_relative_daypart-Closed, resolve_relative_hour-Closed, resolve_daypart_time-Closed,
  resolve_relative_weekday-Closed,
}
use grace_mem.Temporal.Spans.{
  season_window, named_season, days_result, window_day, unit_granularity,
}
use grace_mem.Temporal.Spans.Order.{window_day-Back}
use grace_mem.Temporal.Spans.Windows.{
  weekend_days-Windows, season_window-Windows, month_week_days-Windows,
}
use grace_mem.Temporal.Spans.Seasons.{named_season-Windows}
use grace_mem.Temporal.Results.{fuzzy_days}
use grace_mem.Temporal.Results.Closed.{
  Windows-Closed, fuzzy_days-Windows, fuzzy_result-IsClosed, modified_week-Closed,
  anchored_week-Closed, month_result-Closed, nearby_month-Closed, season_result-Closed,
  year_result-Closed, Sound, Closed-Sound, beside_anchor-Sound,
}
use grace_mem.Temporal.Resolver.{
  resolve_relative_window, resolve_weekend, named_month, resolve_month_point, season_of,
  resolve_season_point, resolve_year_point, resolve_month_week_range, resolve_fuzzy, on_anchor,
  resolve_week_point, resolve_boundary, resolve_match,
}

-- What `BOUNDARY_PARSE_RE` takes for an anchor is classified as another expression than a boundary.
pub record AnchorsAreInner (p : Patterns) : Type 0 where
  pub inner :
      (text operator anchor : Text)
      → p.boundary_phrase text ≡ some (operator, anchor)
      → (classify_single_expression p anchor).category ≢ boundary

boundary-cases : (category : Category) → (category ≡ boundary) ⊎ (category ≢ boundary)
boundary-cases boundary = inl refl
boundary-cases absolute_date = inr (λ e. cc)
boundary-cases absolute_time = inr (λ e. cc)
boundary-cases relative_day = inr (λ e. cc)
boundary-cases relative_daypart = inr (λ e. cc)
boundary-cases relative_weekday = inr (λ e. cc)
boundary-cases relative_hour = inr (λ e. cc)
boundary-cases daypart_time = inr (λ e. cc)
boundary-cases relative_window = inr (λ e. cc)
boundary-cases week_point = inr (λ e. cc)
boundary-cases weekend = inr (λ e. cc)
boundary-cases month_point = inr (λ e. cc)
boundary-cases season_point = inr (λ e. cc)
boundary-cases year_point = inr (λ e. cc)
boundary-cases month_week_range = inr (λ e. cc)
boundary-cases unknown = inr (λ e. cc)

module _ (p : Patterns) (c : Context) (v : IsStamp c.reference_dt) where
  window_result :
      (category : Category) (g : Granularity) (unit : Text) (count : ℕ)
      → Closed (
          window_day unit count c.reference_dt.date
          >>= (λ t. some (days_result category g t c.reference_dt.date)))
  window_result category g unit count =
      bind-Closed (window_day unit count c.reference_dt.date) _ (λ t h.
        let (vt, le) = window_day-Back unit count c.reference_dt.date v.on t h in
        some-Closed _ (days-IsClosed category (some g) t c.reference_dt.date vt v.on le))

  day_result :
      (unit : Text) (count : ℕ)
      → Closed (
          window_day unit count c.reference_dt.date
          >>= (λ t. some (days_result relative_window by_day t t)))
  day_result unit count = bind-Closed (window_day unit count c.reference_dt.date) _ (λ t h.
      let vt = (window_day-Back unit count c.reference_dt.date v.on t h).0 in
      some-Closed _ (days-IsClosed relative_window (some by_day) t t vt vt (omega arith)))

  resolve_relative_window-Closed : (text : Text) → Closed (resolve_relative_window p text c)
  unfolding resolve_relative_window
  resolve_relative_window-Closed text =
      option_both Closed (p.in_last (strip text)) _ _
        (option_both Closed (p.ago (strip text)) _ _
          (refuse-Closed relative_window unresolved none relative_window_parse_failed
            not_resolved.0)
          (λ g _.
            option_both Closed (p.parse_number g.0) _ _
              (refuse-Closed relative_window unresolved none relative_window_number not_resolved.0)
              (λ n _. day_result (p.lower g.1) n)))
        (λ g _.
          option_both Closed (p.parse_number g.0) _ _
            (refuse-Closed relative_window unresolved none relative_window_number not_resolved.0)
            (λ n _. window_result relative_window (unit_granularity (p.lower g.1)) (p.lower g.1) n))

  resolve_weekend-Closed : (text : Text) → Closed (resolve_weekend p text c)
  unfolding resolve_weekend
  resolve_weekend-Closed text =
      option_both Closed (p.weekend_phrase (strip text)) _ _
        (refuse-Closed weekend unresolved (some by_range) weekend_parse_failed not_resolved.0)
        (λ m _.
          Windows-Closed weekend by_weekend _
            (weekend_days-Windows (p.lower (strip m)) c.reference_dt.date))

  named_month-Closed : (parts : List Text) → Closed (named_month p parts)
  unfolding named_month
  named_month-Closed [] = λ r h. cc
  named_month-Closed (name ∷ []) = λ r h. cc
  named_month-Closed (name ∷ year ∷ rest) =
      bind-Closed (lookup (p.lower name) month_numbers) _
        (λ m _. bind-Closed (p.int_of year) _ (λ y _. month_result-Closed y m))

  resolve_month_point-Closed : (text : Text) → Closed (resolve_month_point p text c)
  unfolding resolve_month_point
  resolve_month_point-Closed text =
      let lower = p.lower (strip text) in
      if_both Closed (is_word lower "last month") _ _ (nearby_month-Closed c (back 1)) (
        if_both Closed (is_word lower "this month") _ _ (nearby_month-Closed c (ahead 0)) (
          if_both Closed (is_word lower "next month") _ _ (nearby_month-Closed c (ahead 1)) (
            if_both Closed (p.is_month_point (strip text)) _ _
              (named_month-Closed (split_from [] (strip text)))
              (refuse-Closed month_point unresolved (some by_month) month_parse_failed
                not_resolved.0))))

  season_of-Closed : (lower : Text) (parts : List Text) → Closed (season_of p lower c parts)
  unfolding season_of
  season_of-Closed lower [] = λ r h. cc
  season_of-Closed lower (word ∷ []) = λ r h. cc
  season_of-Closed lower (word ∷ other ∷ more ∷ rest) = λ r h. cc
  season_of-Closed lower (word ∷ other ∷ []) =
      if_both Closed
        (starts_with lower (codes "last ")
          || (starts_with lower (codes "this ") || starts_with lower (codes "next ")))
        _ _
        (bind-Closed (lookup other season_numbers) _ (λ s _.
          season_result-Closed (named_season word s c.reference_dt.date)
            (named_season-Windows word s c.reference_dt.date)))
        (bind-Closed (lookup word season_numbers) _ (λ s _.
          bind-Closed (p.int_of other) _
            (λ y _. season_result-Closed (season_window s y) (season_window-Windows s y))))

  resolve_season_point-Closed : (text : Text) → Closed (resolve_season_point p text c)
  unfolding resolve_season_point
  resolve_season_point-Closed text =
      if_both Closed (p.is_season_point (strip text)) _ _
        (season_of-Closed (p.lower (strip text)) (split_from [] (p.lower (strip text))))
        (refuse-Closed season_point unresolved (some by_season) season_parse_failed not_resolved.0)

  resolve_year_point-Closed : (text : Text) → Closed (resolve_year_point p text c)
  unfolding resolve_year_point
  resolve_year_point-Closed text =
      let lower = p.lower (strip text) in
      if_both Closed (is_word lower "last year") _ _
        (year_result-Closed (c.reference_dt.date.year - 1))
        (if_both Closed (is_word lower "this year") _ _
          (year_result-Closed c.reference_dt.date.year)
          (if_both Closed (is_word lower "next year") _ _
            (year_result-Closed (c.reference_dt.date.year + 1))
            (refuse-Closed year_point unresolved (some by_year) year_parse_failed not_resolved.0)))

  resolve_month_week_range-Closed : (text : Text) → Closed (resolve_month_week_range p text c)
  unfolding resolve_month_week_range
  resolve_month_week_range-Closed text =
      option_both Closed (p.month_week (strip text)) _ _
        (refuse-Closed month_week_range unresolved (some by_range) month_week_parse_failed
          not_resolved.0)
        (λ g _. bind-Closed (lookup (p.lower g.1) month_numbers) _ (λ m _.
          Windows-Closed month_week_range by_range _ (month_week_days-Windows (p.lower g.0) g.2 m)))

  resolve_fuzzy-Closed : (text : Text) → Closed (resolve_fuzzy p text c)
  unfolding resolve_fuzzy
  resolve_fuzzy-Closed text =
      option_both Closed (p.fuzzy (p.lower (strip text))) _ _
        (refuse-Closed unknown unresolved none unknown_pattern not_resolved.0)
        (λ f _. bind-Closed (fuzzy_days f c.reference_dt.date) _ (λ w h.
          some-Closed _
            (fuzzy_result-IsClosed w (fuzzy_days-Windows f c.reference_dt.date v.on w h))))

  resolve_week_point-Closed :
      (again : Text → Category → Context → Option Resolved) (text : Text)
      → Closed (resolve_week_point p again text c)
  unfolding resolve_week_point
  resolve_week_point-Closed again text = elim (Option-cases (p.week (strip text))) [
    | inl e ↦
        rw (e, resolve_week_point)
          (refuse-Closed week_point unresolved (some by_week) week_parse_failed not_resolved.0)
    | inr (modified m, e) ↦
        rw (e, resolve_week_point) (modified_week-Closed (p.lower m) c.reference_dt.date)
    | inr (anchored o a, e) ↦
        rw (e, resolve_week_point)
          (bind-Closed (on_anchor p again a c) _ (λ r _. anchored_week-Closed (p.lower o) r))
  ]

  resolve_boundary-Sound :
      (again : Text → Category → Context → Option Resolved) (text : Text)
      → AnchorsAreInner p
      → ((t : Text) (category : Category) → category ≢ boundary → Closed (again t category c))
      → Sound (resolve_boundary p again text c)
  unfolding resolve_boundary
  resolve_boundary-Sound again text inner h =
      option_both Sound (p.boundary_phrase (strip text)) _ _
        (Closed-Sound _
          (refuse-Closed boundary unresolved (some by_range) boundary_parse_failed not_resolved.0))
        (λ g found r e.
          let m = classify_single_expression p g.1 in
          let (anchor, reached, rest) = >>=-eq-some (again m.text m.category c) _ e in
          beside_anchor-Sound (p.lower g.0) anchor
            (h m.text m.category (inner.inner (strip text) g.0 g.1 found) anchor reached) r rest)

  -- The categories other than BOUNDARY.
  resolve_match-Closed :
      (room : ℕ) (text : Text) (category : Category)
      → category ≢ boundary
      → Closed (resolve_match p room text category c)
  unfolding resolve_match
  resolve_match-Closed zero text category n = λ r h. cc
  resolve_match-Closed (suc room) text absolute_date n = resolve_absolute_date-Closed p c text
  resolve_match-Closed (suc room) text absolute_time n = resolve_absolute_time-Closed p c text v.on
  resolve_match-Closed (suc room) text relative_day n = resolve_relative_day-Closed p c text
  resolve_match-Closed (suc room) text relative_daypart n = resolve_relative_daypart-Closed p c text
  resolve_match-Closed (suc room) text relative_hour n = resolve_relative_hour-Closed p c text
  resolve_match-Closed (suc room) text daypart_time n = resolve_daypart_time-Closed p c text v.on
  resolve_match-Closed (suc room) text relative_weekday n = resolve_relative_weekday-Closed p c text
  resolve_match-Closed (suc room) text relative_window n = resolve_relative_window-Closed text
  resolve_match-Closed (suc room) text week_point n =
      resolve_week_point-Closed (resolve_match p room) text
  resolve_match-Closed (suc room) text weekend n = resolve_weekend-Closed text
  resolve_match-Closed (suc room) text month_point n = resolve_month_point-Closed text
  resolve_match-Closed (suc room) text season_point n = resolve_season_point-Closed text
  resolve_match-Closed (suc room) text year_point n = resolve_year_point-Closed text
  resolve_match-Closed (suc room) text month_week_range n = resolve_month_week_range-Closed text
  resolve_match-Closed (suc room) text boundary n = absurd (n refl)
  resolve_match-Closed (suc room) text unknown n = resolve_fuzzy-Closed text

  -- At a valid reference time, and where no anchor of a boundary is classified as a boundary: whatever
  -- `resolve_match` gives holds together. With `ok` goes the status RESOLVED and two valid stamps in
  -- order, or one stamp and no other bound; without `ok` the status is another and both bounds are
  -- missing, so no reversed range and no half of a failed one gets out.
  pub resolve_match-IsSound :
      AnchorsAreInner p
      → (room : ℕ) (text : Text) (category : Category) (r : Resolved)
      → resolve_match p room text category c ≡ some r
      → IsSound r
  unfolding resolve_match
  resolve_match-IsSound inner room text category r h = elim (boundary-cases category) [
    | inr other ↦ closed (resolve_match-Closed room text category other r h)
    | inl e ↦ at_boundary room (subst (λ k. resolve_match p room text k c ≡ some r) e h)
  ]
    where
      at_boundary : (room : ℕ) → resolve_match p room text boundary c ≡ some r → IsSound r
      at_boundary zero = λ e. cc
      at_boundary (suc room) = λ e.
          resolve_boundary-Sound (resolve_match p room) text inner (resolve_match-Closed room) r e
