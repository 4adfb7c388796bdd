-- ===== src/Tests/Temporal.antt =====
-- Runs of the temporal resolver and of the classifier on patterns that know a few phrases.
use grace_mem.Common.{
  ℕ, ◌≤◌, ◌<◌, ◌≡◌, ◌≢◌, ◌↔◌, ◌⊎◌, inl, inr, refl, true, false, none, some, some-injective, List,
  [], ◌∷◌, arith, if◌then◌else◌, Text, text_eq, list_beq, codes, strip, lstrip, rstrip, close_with,
  is_space, lookup, All, In, Bool-cases, ap, length, sort_by, insert_by, subst, if_both, sym, ◌∙◌,
}
use grace_mem.Temporal.Calendar.{
  Date, is_leap, days_in_month, days_in_year, days_before_year, days_of_months, ordinal, weekday,
  make_date, find_month, find_year, of_ordinal, plus_days, minus_days, Stamp, instant, of_instant,
  plus_micros, minus_micros, IsDate, IsStamp,
}
use grace_mem.Temporal.Types.{
  relative_day, relative_weekday, boundary, resolved, by_day, valid, Context, Resolved, few_years,
  Regex, boundary_re, relative_day_re, Patterns, weekday_numbers, is_word, ahead, shift, start_of,
  end_of, bounded, validate,
}
use grace_mem.Temporal.Types.Closed.{IsSound}
use grace_mem.Temporal.Classifier.{
  pattern_specs, width, not_after, overlap, overlaps_any, accept, starts_no_later, first_whole,
  reversed, matches_of, candidates_of, iter_candidates, classify_temporal_matches,
  classify_single_expression,
}
use grace_mem.Temporal.Classifier.Pairs.{Pairs, Covered}
use grace_mem.Temporal.Classifier.Chosen.{classify_temporal_matches-greedy}
use grace_mem.Temporal.Days.{
  relative_days, days_since, weekday_target, weekday_result, resolve_relative_day,
  resolve_relative_weekday,
}
use grace_mem.Temporal.Days.Weekdays.{Asked, resolve_relative_weekday-named}
use grace_mem.Temporal.Spans.{add_months, Window, season_windows, years_about, named_season}
use grace_mem.Temporal.Spans.Neighbours.{named_season-neighbours}
use grace_mem.Temporal.Spans.Months.{add_months_mono}
use grace_mem.Temporal.Results.{boundary_result, beside, beside_anchor}
use grace_mem.Temporal.Results.Adjacent.{Admits, beside_anchor-Admits}
use grace_mem.Temporal.Resolver.{resolve_fuzzy, resolve_boundary, resolve_match}
use grace_mem.Temporal.Resolver.Sound.{AnchorsAreInner, resolve_match-IsSound}
use grace_mem.Temporal.Resolver.Years.{few_years-raises_iff}

abbrev pub phrase_spans : Regex → Text → List (ℕ × ℕ)
phrase_spans boundary_re text = if is_word text "before today" then (0, 12) ∷ [] else []
phrase_spans relative_day_re text =
    if is_word text "today"
    then (0, 5) ∷ []
    else (if is_word text "before today" then (7, 12) ∷ [] else [])
phrase_spans _ text = []

abbrev pub phrases : Patterns
phrases = record {
  lower = λ t. t;
  int_of = λ t. none;
  parse_number = λ t. none;
  iso_date = λ t. none;
  month_first = λ t. none;
  day_first = λ t. none;
  clock = λ t. none;
  daypart = λ t. none;
  hours = λ t. none;
  finditer = phrase_spans;
  is_daypart_time = λ t. false;
  weekday_phrase =
      λ t. if is_word t "last tuesday" then some (codes "last", codes "tuesday") else none;
  in_last = λ t. none;
  ago = λ t. none;
  week = λ t. none;
  weekend_phrase = λ t. none;
  is_month_point = λ t. false;
  is_season_point = λ t. false;
  month_week = λ t. none;
  boundary_phrase =
      λ t. if is_word t "before today" then some (codes "before", codes "today") else none;
  fuzzy = λ t. if is_word t "a few years ago" then some few_years else none;
}

abbrev pub leap : Date
leap = record { year = 8; month = 2; day = 29 }

abbrev pub noon : Context
noon = record {
  reference_dt = record { date = leap; micros = 43200000000 };
  last_weekday_policy = codes "nearest_previous";
  daypart_anchor_times = none;
}

leap-IsDate : IsDate leap
unfolding days_in_month is_leap
leap-IsDate = record {
  year_low = omega arith;
  year_high = omega arith;
  month_low = omega arith;
  month_high = omega arith;
  day_low = omega arith;
  day_high = omega arith;
}

noon-IsStamp : IsStamp noon.reference_dt
noon-IsStamp = record { on = leap-IsDate; within = omega arith }

today_category : (classify_single_expression phrases (codes "today")).category ≡ relative_day
unfolding classify_single_expression classify_temporal_matches iter_candidates candidates_of
    matches_of pattern_specs sort_by insert_by not_after width starts_no_later reversed accept
    overlaps_any overlap first_whole list_beq
today_category = refl

today_anchor :
    (anchor : Text)
    → codes "today" ≡ anchor
    → (classify_single_expression phrases anchor).category ≢ boundary
today_anchor anchor same e =
    let moved =
      subst (λ (t : Text). (classify_single_expression phrases t).category ≡ boundary) (sym same)
        e in
    let clash : relative_day ≡ boundary = sym today_category ∙ moved in cc

only_today :
    (text operator anchor : Text)
    → phrases.boundary_phrase text ≡ some (operator, anchor)
    → codes "today" ≡ anchor
only_today text operator anchor h = elim (Bool-cases (is_word text "before today")) [
  | inl same ↦
      let k : some (codes "before", codes "today") ≡ some (operator, anchor) = rw same at h in
      ap (λ v. v.1) (some-injective _ _ k)
  | inr other ↦ (let k : none ≡ some (operator, anchor) = rw other at h in cc)
]

phrases-AnchorsAreInner : AnchorsAreInner phrases
phrases-AnchorsAreInner = record {
  inner = λ text operator anchor h. today_anchor anchor (only_today text operator anchor h);
}

spans_some : (re : Regex) (text : Text) → All (λ s. s.0 < s.1) (phrase_spans re text)
spans_some boundary_re text =
    if_both (All (λ (s : ℕ × ℕ). s.0 < s.1)) (is_word text "before today") ((0, 12) ∷ []) []
      (omega arith) tt
spans_some relative_day_re text =
    if_both (All (λ (s : ℕ × ℕ). s.0 < s.1)) (is_word text "today") ((0, 5) ∷ []) _ (omega arith) (
      if_both (All (λ (s : ℕ × ℕ). s.0 < s.1)) (is_word text "before today") ((7, 12) ∷ []) []
        (omega arith) tt)
spans_some _ text = tt

classify_temporal_matches-greedy_example :
    All
      (λ m. In m (iter_candidates phrases (codes "before today")))
      (classify_temporal_matches phrases (codes "before today"))
    × Pairs (λ a b. a.after ≤ b.first) (classify_temporal_matches phrases (codes "before today"))
    × All
        (Covered (classify_temporal_matches phrases (codes "before today")))
        (iter_candidates phrases (codes "before today"))
classify_temporal_matches-greedy_example =
    classify_temporal_matches-greedy phrases (record { non_empty = spans_some })
      (codes "before today")

-- The boundary takes the place of the day within it.
one_match : length (classify_temporal_matches phrases (codes "before today")) ≡ 1
unfolding classify_temporal_matches iter_candidates candidates_of matches_of pattern_specs sort_by
    insert_by not_after width starts_no_later reversed accept overlaps_any overlap list_beq
one_match = refl

abbrev pub before_leap : Resolved
before_leap =
    boundary_result (codes "before") none (some (end_of (record { year = 8; month = 2; day = 28 })))
      true valid

resolved_before_today :
    resolve_match phrases 2 (codes "before today") boundary noon ≡ some before_leap
unfolding resolve_match resolve_boundary resolve_relative_day strip lstrip rstrip close_with
    is_space list_beq classify_single_expression classify_temporal_matches iter_candidates
    candidates_of matches_of pattern_specs sort_by insert_by not_after width starts_no_later
    reversed accept overlaps_any overlap first_whole lookup relative_days shift plus_days of_ordinal
    find_year find_month ordinal days_before_year days_of_months days_in_month days_in_year is_leap
    validate bounded start_of end_of beside_anchor beside boundary_result minus_micros of_instant
resolved_before_today = refl

resolve_match-IsSound_example : IsSound before_leap
resolve_match-IsSound_example =
    resolve_match-IsSound phrases noon noon-IsStamp phrases-AnchorsAreInner 2 (codes "before today")
      boundary before_leap resolved_before_today

few_years-raises_iff_example :
    (resolve_fuzzy phrases (codes "a few years ago") noon ≡ none)
    ↔ ((8 ≤ 5) ⊎ ((◌≡◌ {A = ℕ} 2 2) × (◌≡◌ {A = ℕ} 29 29)))
unfolding strip lstrip rstrip close_with is_space list_beq
few_years-raises_iff_example =
    few_years-raises_iff phrases noon (codes "a few years ago") leap-IsDate refl

-- 29 February of the year 8 is a Friday, and the Tuesday before it lies in the same week.
abbrev tuesday : Date
tuesday = record { year = 8; month = 2; day = 26 }

abbrev last_tuesday : Resolved
last_tuesday =
    bounded relative_weekday resolved (some by_day) (some (start_of tuesday))
      (some (end_of tuesday)) true valid

resolved_last_tuesday :
    resolve_relative_weekday phrases (codes "last tuesday") noon ≡ some last_tuesday
unfolding resolve_relative_weekday weekday_target weekday_result weekday_numbers lookup strip lstrip
    rstrip close_with is_space list_beq minus_days of_ordinal find_year find_month ordinal weekday
    days_since days_before_year days_of_months days_in_month days_in_year is_leap
resolved_last_tuesday = refl

resolve_relative_weekday-named_example :
    (day : ℕ) × (t : Date) × (lookup (codes "tuesday") weekday_numbers ≡ some day)
    × (weekday t ≡ day)
    × Asked (codes "last") (codes "nearest_previous") leap t
    × (last_tuesday
        ≡ bounded relative_weekday resolved
            (some by_day)
            (some (start_of t))
            (some (end_of t))
            true
            valid)
unfolding strip lstrip rstrip close_with is_space list_beq
resolve_relative_weekday-named_example =
    resolve_relative_weekday-named phrases noon (codes "last tuesday") (codes "last")
      (codes "tuesday") last_tuesday refl resolved_last_tuesday

named_season-neighbours_example :
    (windows : List Window) × (season_windows 3 (years_about 8) ≡ some windows)
    × ((w : Window) × (named_season (codes "last") 3 leap ≡ some w)
        × In w windows
        × (ordinal w.1 < ordinal leap)
        × All (λ v. ordinal v.1 < ordinal leap → ordinal v.1 ≤ ordinal w.1) windows)
    × ((w : Window) × (named_season (codes "next") 3 leap ≡ some w)
        × In w windows
        × (ordinal leap < ordinal w.0)
        × All (λ v. ordinal leap < ordinal v.0 → ordinal w.0 ≤ ordinal v.0) windows)
named_season-neighbours_example =
    named_season-neighbours 3 leap leap-IsDate (omega arith) (omega arith)

january : (d : ℕ) → 1 ≤ d → d ≤ 31 → IsDate (record { year = 8; month = 1; day = d })
unfolding days_in_month is_leap
january d lo hi = record {
  year_low = omega arith;
  year_high = omega arith;
  month_low = omega arith;
  month_high = omega arith;
  day_low = lo;
  day_high = hi;
}

january_days :
    ordinal (record { year = 8; month = 1; day = 30 })
    ≤ ordinal (record { year = 8; month = 1; day = 31 })
unfolding ordinal
january_days = omega arith

-- A month after 30 and after 31 January is 29 February.
add_months_mono_example : ordinal leap ≤ ordinal leap
unfolding add_months make_date days_in_month is_leap
add_months_mono_example =
    add_months_mono (record { year = 8; month = 1; day = 30 })
      (record { year = 8; month = 1; day = 31 }) (ahead 1) leap leap
      (january 30 (omega arith) (omega arith)) (january 31 (omega arith) (omega arith)) january_days
      refl refl

abbrev monday_end : Stamp
monday_end = end_of (record { year = 8; month = 2; day = 25 })

abbrev wednesday_start : Stamp
wednesday_start = start_of (record { year = 8; month = 2; day = 27 })

abbrev before_tuesday : Resolved
before_tuesday = boundary_result (codes "before") none (some monday_end) true valid

abbrev after_tuesday : Resolved
after_tuesday = boundary_result (codes "after") (some wednesday_start) none true valid

abbrev since_tuesday : Resolved
since_tuesday = boundary_result (codes "since") (some (start_of tuesday)) none true valid

beside_tuesday :
    (beside_anchor (codes "before") last_tuesday ≡ some before_tuesday)
    × (beside_anchor (codes "after") last_tuesday ≡ some after_tuesday)
    × (beside_anchor (codes "since") last_tuesday ≡ some since_tuesday)
unfolding beside_anchor beside boundary_result bounded list_beq start_of end_of minus_micros
    plus_micros of_instant of_ordinal find_year find_month ordinal days_before_year days_of_months
    days_in_month days_in_year is_leap
beside_tuesday = (refl, refl, refl)

beside_anchor-Admits_example :
    (Admits before_tuesday 0 ↔ (0 < instant (start_of tuesday)))
    × (Admits after_tuesday 0 ↔ (instant (end_of tuesday) < 0))
    × (Admits since_tuesday 0 ↔ (instant (start_of tuesday) ≤ 0))
unfolding bounded
beside_anchor-Admits_example =
    beside_anchor-Admits last_tuesday (start_of tuesday) (end_of tuesday) 0 before_tuesday
      after_tuesday since_tuesday refl refl refl beside_tuesday.0 beside_tuesday.1 beside_tuesday.2
