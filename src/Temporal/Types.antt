-- ===== src/Temporal/Types.antt =====
-- grace_mem/temporal/types.py and the helpers and word lists of resolver.py. `Patterns` stands for
-- the regular expressions of patterns.py, each with its groups, for `str.lower`, and for `int`, which
-- is none where it raises or gives a negative number. The display texts of a result are left out.
pub mod Closed
use grace_mem.Common.{
  ℕ, ◌+◌, ◌-◌, ◌*◌, Bool, true, false, ◌&&◌, Option, none, some, List, [], ◌∷◌, map, foldl,
  if◌then◌else◌, ltb, leb, ◌>>=◌, Text, text_eq, codes, String, Dict, put, partition_colon,
  has_char, colon, is_space, is_empty, ◌++◌, not, ◌==◌,
}
use grace_mem.Temporal.Calendar.{
  Date, Stamp, instant, day_micros, hour_micros, minute_micros, plus_days, minus_days,
}

pub data Category : Type 0 where
  absolute_date absolute_time relative_day relative_daypart relative_weekday : Category
  relative_hour daypart_time relative_window week_point weekend : Category
  month_point season_point year_point boundary month_week_range unknown : Category

pub data Status : Type 0 where
  resolved partially_resolved ambiguous unresolved invalid : Status

pub data Granularity : Type 0 where
  by_day by_time by_week by_weekend by_month by_season by_year by_range : Granularity

-- The codes of a validation that `resolve_match` gives.
pub data Code : Type 0 where
  valid missing_bounds range_order invalid_date absolute_time_parse_failed : Code
  absolute_time_hour absolute_time_minute unsupported_relative_day : Code
  relative_daypart_parse_failed relative_daypart_modifier relative_daypart_anchor_invalid : Code
  relative_hour_parse_failed relative_hour_number daypart_time_parse_failed : Code
  daypart_time_anchor_invalid weekday_parse_failed weekday_mismatch : Code
  relative_window_parse_failed relative_window_number week_parse_failed : Code
  week_anchor_unresolved month_parse_failed season_parse_failed year_parse_failed : Code
  month_week_parse_failed boundary_parse_failed boundary_anchor_unresolved : Code
  boundary_before boundary_after boundary_since weekend_parse_failed : Code
  fuzzy_resolved unknown_pattern : Code

pub record Context : Type 0 where
  pub reference_dt : Stamp
  pub last_weekday_policy : Text
  pub daypart_anchor_times : Option (Dict Text Text)

pub record Resolved : Type 0 where
  pub category : Category
  pub status : Status
  pub granularity : Option Granularity
  pub start : Option Stamp
  pub end : Option Stamp
  pub operator : Option Text
  pub ok : Bool
  pub code : Code

pub data HourGroups : Type 0 where
  in_hours : Text → HourGroups
  ago_hours : Text → HourGroups

pub data WeekGroups : Type 0 where
  modified : Text → WeekGroups
  anchored : Text → Text → WeekGroups

pub data Fuzzy : Type 0 where
  few_days other_day few_years few_weeks while_ago recently : Fuzzy

-- The expressions that the classifier searches for.
pub data Regex : Type 0 where
  boundary_re month_week_range_re absolute_date_re absolute_time_re relative_weekday_re : Regex
  relative_daypart_re daypart_time_re relative_day_re in_last_re relative_hour_re ago_re : Regex
  week_point_re weekend_re month_point_re season_point_re year_point_re fuzzy_re : Regex

pub record Patterns : Type 0 where
  pub lower : Text → Text
  pub int_of : Text → Option ℕ
  -- `_parse_number`
  pub parse_number : Text → Option ℕ
  pub iso_date : Text → Option (ℕ × ℕ × ℕ)
  pub month_first : Text → Option (Text × ℕ × ℕ)
  pub day_first : Text → Option (ℕ × Text × ℕ)
  pub clock : Text → Option (ℕ × Option ℕ × Text)
  pub daypart : Text → Option (Text × Text)
  pub hours : Text → Option HourGroups
  -- `regex.finditer(text)`, as spans
  pub finditer : Regex → Text → List (ℕ × ℕ)
  pub is_daypart_time : Text → Bool
  pub weekday_phrase : Text → Option (Text × Text)
  pub in_last : Text → Option (Text × Text)
  pub ago : Text → Option (Text × Text)
  pub week : Text → Option WeekGroups
  pub weekend_phrase : Text → Option Text
  pub is_month_point : Text → Bool
  pub is_season_point : Text → Bool
  pub month_week : Text → Option (Text × Text × ℕ)
  pub boundary_phrase : Text → Option (Text × Text)
  pub fuzzy : Text → Option Fuzzy

abbrev numbered : List (String × ℕ) → Dict Text ℕ
numbered ws = map (λ w. (codes w.0, w.1)) ws

unfoldable pub month_numbers : Dict Text ℕ
month_numbers = numbered (
    ("january", 1)
    ∷ ("jan", 1)
    ∷ ("february", 2)
    ∷ ("feb", 2)
    ∷ ("march", 3)
    ∷ ("mar", 3)
    ∷ ("april", 4)
    ∷ ("apr", 4)
    ∷ ("may", 5)
    ∷ ("june", 6)
    ∷ ("jun", 6)
    ∷ ("july", 7)
    ∷ ("jul", 7)
    ∷ ("august", 8)
    ∷ ("aug", 8)
    ∷ ("september", 9)
    ∷ ("sep", 9)
    ∷ ("sept", 9)
    ∷ ("october", 10)
    ∷ ("oct", 10)
    ∷ ("november", 11)
    ∷ ("nov", 11)
    ∷ ("december", 12)
    ∷ ("dec", 12)
    ∷ [])

unfoldable pub weekday_numbers : Dict Text ℕ
weekday_numbers = numbered (
    ("monday", 0)
    ∷ ("mon", 0)
    ∷ ("tuesday", 1)
    ∷ ("tue", 1)
    ∷ ("tues", 1)
    ∷ ("wednesday", 2)
    ∷ ("wed", 2)
    ∷ ("thursday", 3)
    ∷ ("thu", 3)
    ∷ ("thur", 3)
    ∷ ("thurs", 3)
    ∷ ("friday", 4)
    ∷ ("fri", 4)
    ∷ ("saturday", 5)
    ∷ ("sat", 5)
    ∷ ("sunday", 6)
    ∷ ("sun", 6)
    ∷ [])

unfoldable pub season_numbers : Dict Text ℕ
season_numbers =
    numbered (("spring", 0) ∷ ("summer", 1) ∷ ("fall", 2) ∷ ("autumn", 2) ∷ ("winter", 3) ∷ [])

abbrev named : List (String × String) → Dict Text Text
named ws = map (λ w. (codes w.0, codes w.1)) ws

unfoldable pub default_anchors : Dict Text Text
default_anchors = named (
    ("this morning", "09:00")
    ∷ ("this afternoon", "15:00")
    ∷ ("this evening", "19:00")
    ∷ ("tonight", "21:00")
    ∷ ("morning", "09:00")
    ∷ ("afternoon", "15:00")
    ∷ ("evening", "19:00")
    ∷ ("night", "21:00")
    ∷ [])

-- `text.split()`, where `word` has been read.
unfoldable pub split_from : Text → Text → List Text
split_from word [] = if is_empty word then [] else word ∷ []
split_from word (c ∷ s) =
    let rest = split_from (if is_space c then [] else word ++ (c ∷ [])) s in
    if is_space c && not (is_empty word) then word ∷ rest else rest

-- A text against a literal.
abbrev pub is_word : Text → String → Bool
is_word t w = t == codes w

-- A number of days to go back, or to go on.
pub data Offset : Type 0 where
  back : ℕ → Offset
  ahead : ℕ → Offset

-- `day + timedelta(days=offset)`
unfoldable pub shift : Date → Offset → Option Date
shift t (back n) = minus_days t n
shift t (ahead n) = plus_days t n

-- `_with_time`
unfoldable pub start_of : Date → Stamp
start_of t = record { date = t; micros = 0 }

unfoldable pub end_of : Date → Stamp
end_of t = record { date = t; micros = day_micros - 1 }

-- `_combine_time`
unfoldable pub combine_time : Date → ℕ → ℕ → Stamp
combine_time t hour minute = record {
  date = t;
  micros = hour * hour_micros + minute * minute_micros;
}

-- `x if status is RESOLVED else y`
abbrev pub if_resolved {ℓ} : {A : Type ℓ} → Status → A → A → A
if_resolved resolved x y = x
if_resolved partially_resolved x y = y
if_resolved ambiguous x y = y
if_resolved unresolved x y = y
if_resolved invalid x y = y

-- A result without bounds.
unfoldable pub refuse : Category → Status → Option Granularity → Code → Resolved
refuse category status granularity code = record {
  category = category;
  status = status;
  granularity = granularity;
  start = none;
  end = none;
  operator = none;
  ok = false;
  code = code;
}

unfoldable pub bounded :
    Category → Status → Option Granularity → Option Stamp → Option Stamp → Bool → Code → Resolved
bounded category status granularity start end ok code = record {
  category = category;
  status = status;
  granularity = granularity;
  start = start;
  end = end;
  operator = none;
  ok = ok;
  code = code;
}

-- `_validate_point_or_range`
unfoldable pub validate : Category → Option Granularity → Option Stamp → Option Stamp → Resolved
unfolding bounded
validate category granularity (some start) (some end) =
    if ltb (instant end) (instant start)
    then bounded category invalid granularity (some start) (some end) false range_order
    else bounded category resolved granularity (some start) (some end) true valid
validate category granularity none end =
    bounded category unresolved granularity none end false missing_bounds
validate category granularity (some start) none =
    bounded category unresolved granularity (some start) none false missing_bounds

module _ (p : Patterns) where
  -- `_daypart_anchor_map`
  unfoldable pub anchor_map : Context → Dict Text Text
  unfolding default_anchors
  anchor_map c = elim c.daypart_anchor_times [
    | none ↦ default_anchors
    | some given ↦ foldl (λ d kv. put (p.lower kv.0) kv.1 d) default_anchors given
  ]

  -- `_parse_hhmm`
  unfoldable pub parse_hhmm : Text → Option (ℕ × ℕ)
  parse_hhmm value = do
    let parts = partition_colon value
    hour ← (if has_char colon value then p.int_of parts.0 else none)
    minute ← p.int_of parts.1
    if leb hour 23 && leb minute 59 then some (hour, minute) else none
