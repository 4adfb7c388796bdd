-- ===== src/Temporal/Augment.antt =====
-- grace_mem/temporal/normalizer.py: the marker tags, augment_temporal_text and extract_temporal_hints.
-- `minute_stamp` stands for `strftime("%Y-%m-%dT%H:%M")`. Of a hint the reference time is left out.
use grace_mem.Common.{
  ℕ, Bool, true, false, not, ◌&&◌, ◌||◌, Option, none, some, List, [], ◌∷◌, ◌++◌, if◌then◌else◌,
  ◌>>=◌, Text, text_eq, codes, is_empty, join, contains, sort_by, foldl, map,
}
use grace_mem.Temporal.Calendar.{Stamp}
use grace_mem.Temporal.Types.{
  Category, Status, Granularity, Context, Resolved, Patterns, if_resolved,
}
use grace_mem.Temporal.Classifier.{}
use grace_mem.Temporal.Normalizer.{
  Texts, Constraint, is_daypart, is_day, is_time, starts_later, shown, replace_one,
  parse_temporal_expressions,
}
pub mod Substituted

pub data MarkerType : Type 0 where
  date_marker time_marker timespan_marker : MarkerType

pub record Marker : Type 0 where
  pub marker_type : MarkerType
  pub entity_name : Text

pub record Hint : Type 0 where
  pub original : Text
  pub resolved_to : Text
  pub display_value : Text
  pub normalized_time : Option Text
  pub normalized_start : Option Text
  pub normalized_end : Option Text
  pub granularity : Option Granularity
  pub category : Category
  pub status : Status
  pub markers : List Marker

unfoldable pub type_name : MarkerType → Text
type_name date_marker = codes "DATE"
type_name time_marker = codes "TIME"
type_name timespan_marker = codes "TIMESPAN"

-- `f'[{marker_type}: {entity_name}]'`
unfoldable pub tag : Marker → Text
unfolding type_name
tag m = codes "[" ++ (type_name m.marker_type ++ (codes ": " ++ (m.entity_name ++ codes "]")))

abbrev pub is_resolved : Status → Bool
is_resolved status = if_resolved status true false

abbrev pub usable : Resolved → Bool
usable r = is_resolved r.status && r.ok

abbrev pub timed : Resolved → Bool
timed r = is_time r.granularity || is_daypart r.category

unfoldable pub unresolved_of : List Constraint → List Constraint
unresolved_of [] = []
unresolved_of (c ∷ cs) =
    let rest = unresolved_of cs in if is_resolved c.resolution.status then rest else c ∷ rest

-- The texts seen and the hints.
abbrev pub Hints : Type 0
Hints = List Text × List Hint

module _ (w : Texts) (minute_stamp : Stamp → Text) where
  abbrev pub timespan : Constraint → List Marker
  timespan c = elim (shown w c) [
    | none ↦ []
    | some d ↦ record { marker_type = timespan_marker; entity_name = d } ∷ []
  ]

  unfoldable pub time_marker_of : Constraint → List Marker
  unfolding shown
  time_marker_of c = elim (if is_time c.resolution.granularity then c.resolution.start else none) [
    | none ↦ timespan c
    | some s ↦ record { marker_type = time_marker; entity_name = minute_stamp s } ∷ []
  ]

  unfoldable pub daypart_marker_of : Constraint → List Marker
  unfolding shown time_marker_of is_daypart
  daypart_marker_of c = elim (if is_daypart c.resolution.category then shown w c else none) [
    | none ↦ time_marker_of c
    | some d ↦ record { marker_type = timespan_marker; entity_name = d } ∷ []
  ]

  -- `_marker_entries_for_constraint`
  unfoldable pub marker_entries : Constraint → List Marker
  unfolding daypart_marker_of
  marker_entries c =
      if not (usable c.resolution)
      then []
      else elim (if is_day c.resolution.granularity then c.resolution.start else none) [
        | none ↦ daypart_marker_of c
        | some s ↦ record { marker_type = date_marker; entity_name = w.isoformat s.date } ∷ []
      ]

  -- `_marker_text_for_constraint`
  unfoldable pub marker_text : Constraint → Option Text
  unfolding marker_entries tag
  marker_text c = elim (marker_entries c) [
    | [] ↦ none
    | m ∷ ms ↦ some (join (codes " ") (map tag (m ∷ ms)))
  ]

  -- `resolved_to` in `extract_temporal_hints`
  unfoldable pub resolved_name : Constraint → Option Text
  unfolding shown
  resolved_name c = elim (if is_day c.resolution.granularity then c.resolution.start else none) [
    | none ↦ shown w c
    | some s ↦ some (w.isoformat s.date)
  ]

  -- `resolved_to` in `augment_temporal_text`, which takes the two bounds where nothing is displayed.
  unfoldable pub resolved_span : Constraint → Option Text
  unfolding resolved_name
  resolved_span c = elim (resolved_name c) [
    | some t ↦ some t
    | none ↦ elim c.resolution.start [
      | none ↦ none
      | some s ↦ elim c.resolution.end [
        | none ↦ none
        | some e ↦ some (w.isoformat s.date ++ (codes " to " ++ w.isoformat e.date))
      ]
    ]
  ]

  abbrev pub day_of : Option Stamp → Option Text
  day_of o = elim o [ none ↦ none | some s ↦ some (w.isoformat s.date) ]

  unfoldable pub hint_of : Constraint → Text → Hint
  unfolding shown is_daypart marker_entries
  hint_of c resolved_to = record {
    original = c.match.text;
    resolved_to = resolved_to;
    display_value = elim (shown w c) [ none ↦ resolved_to | some d ↦ d ];
    normalized_time =
        if timed c.resolution
        then elim c.resolution.start [ none ↦ none | some s ↦ some (w.hour_minute s) ]
        else none;
    normalized_start = day_of c.resolution.start;
    normalized_end = day_of c.resolution.end;
    granularity = c.resolution.granularity;
    category = c.resolution.category;
    status = c.resolution.status;
    markers = marker_entries c;
  }

  -- The tag that replaces a constraint in `augment_temporal_text`, where the loop goes on to that.
  unfoldable pub tag_of : Constraint → Option Text
  unfolding marker_text resolved_span
  tag_of c =
      if usable c.resolution
      then elim (marker_text c) [
        | none ↦ none
        | some replacement ↦ elim (resolved_span c) [ none ↦ none | some t ↦ some replacement ]
      ]
      else none

  -- A hint that has not been seen under its text in lower case.
  unfoldable pub add_hint : (Text → Text) → Constraint → Text → Hints → Hints
  unfolding hint_of
  add_hint lower c resolved_to (seen, hints) =
      if contains seen (lower c.match.text)
      then (seen, hints)
      else (seen ++ (lower c.match.text ∷ []), hints ++ (hint_of c resolved_to ∷ []))

  -- The hints and the unresolved constraints that the loop of `augment_temporal_text` leaves.
  unfoldable pub augment_hints : (Text → Text) → List Constraint → Hints → Hints
  unfolding tag_of add_hint resolved_span
  augment_hints lower [] out = out
  augment_hints lower (c ∷ cs) out = augment_hints lower cs (elim (tag_of c) [
    | none ↦ out
    | some replacement ↦ elim (resolved_span c) [ none ↦ out | some t ↦ add_hint lower c t out ]
  ])

  unfoldable pub augment_temporal_text :
      Patterns → ℕ → Text → Context → Option (Text × List Hint × List Constraint)
  unfolding parse_temporal_expressions starts_later replace_one tag_of augment_hints unresolved_of
  augment_temporal_text p room text c = do
    constraints ← parse_temporal_expressions p room text c
    let sorted = sort_by starts_later constraints
    some (
      foldl (replace_one tag_of) text sorted,
      (augment_hints p.lower sorted ([], [])).1,
      unresolved_of sorted,
    )

  -- The loop of `extract_temporal_hints` over the constraints of one text.
  unfoldable pub text_hints : (Text → Text) → List Constraint → Hints → Hints
  unfolding add_hint resolved_name
  text_hints lower [] out = out
  text_hints lower (c ∷ cs) out = text_hints lower cs (
      if usable c.resolution
      then elim (resolved_name c) [ none ↦ out | some t ↦ add_hint lower c t out ]
      else out)

  unfoldable pub hints_from : Patterns → ℕ → Context → List Text → Hints → Option Hints
  unfolding parse_temporal_expressions text_hints
  hints_from p room c [] out = some out
  hints_from p room c (text ∷ texts) out = do
    constraints ← parse_temporal_expressions p room text c
    hints_from p room c texts (text_hints p.lower constraints out)

  unfoldable pub extract_temporal_hints : Patterns → ℕ → List Text → Context → Option (List Hint)
  unfolding hints_from
  extract_temporal_hints p room texts c = do out ← hints_from p room c texts ([], []); some out.1
