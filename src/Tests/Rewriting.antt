-- ===== src/Tests/Rewriting.antt =====
-- A run of the rewriting of a text, grace_mem/temporal/normalizer.py.
use grace_mem.Common.{
  none, join, contains, Distinct, ◌≤◌, ◌<◌, ◌≡◌, refl, ap, inl, inr, true, some, List, [], ◌∷◌,
  arith, Text, text_eq, list_beq, ◌==◌, codes, length, All, map, Bool-cases, sort_by, insert_by,
  strip, lstrip, rstrip, close_with, is_space, is_empty, lookup,
}
use grace_mem.Temporal.Calendar.{
  is_leap, days_in_month, days_in_year, days_before_year, days_of_months, ordinal, find_month,
  find_year, of_ordinal, plus_days, Stamp, of_instant, minus_micros,
}
use grace_mem.Temporal.Types.{
  relative_day, boundary, resolved, by_day, by_range, valid, Resolved, Regex, boundary_re,
  relative_day_re, is_word, shift, start_of, end_of, bounded, validate,
}
use grace_mem.Temporal.Classifier.{
  TemporalMatch, pattern_specs, width, not_after, overlap, overlaps_any, accept, starts_no_later,
  first_whole, reversed, matches_of, candidates_of, iter_candidates, classify_temporal_matches,
  classify_single_expression,
}
use grace_mem.Temporal.Days.{relative_days, resolve_relative_day}
use grace_mem.Temporal.Results.{boundary_result, beside, beside_anchor}
use grace_mem.Temporal.Resolver.{resolve_boundary, resolve_match}
use grace_mem.Temporal.Normalizer.{
  Texts, Constraint, after_word, second_part, is_daypart, splice, starts_later, shown, replace_one,
  constraint_of, constraints_of, parse_temporal_expressions, rewrite_resolved, rewrite_constraint,
  rewrite_temporal_text,
}
use grace_mem.Temporal.Normalizer.Splice.{substituted}
use grace_mem.Temporal.Normalizer.Rewrite.{rewrite_temporal_text-substituted}
use grace_mem.Temporal.Augment.{
  timespan_marker, Hint, type_name, tag, unresolved_of, time_marker_of, daypart_marker_of,
  marker_entries, marker_text, resolved_name, resolved_span, hint_of, tag_of, add_hint,
  augment_hints, augment_temporal_text,
}
use grace_mem.Temporal.Augment.Substituted.{augment_temporal_text-substituted}
use grace_mem.Tests.Temporal.{phrases, phrase_spans, leap, noon, before_leap}

abbrev shown_texts : Texts
shown_texts = record {
  display_value = λ m r. some (codes "before 0008-02-29");
  isoformat = λ t. codes "0008-02-29";
  hour_minute = λ s. codes "12:00";
}

length_of : (text : Text) (t : Text) → (text == t) ≡ true → length text ≡ length t
length_of text t h = ap length ((text_eq.beq_iff text t).0 h)

spans_inside :
    (re : Regex) (text : Text) → All (λ s. (s.0 < s.1) × (s.1 ≤ length text)) (phrase_spans re text)
spans_inside boundary_re text = elim (Bool-cases (is_word text "before today")) [
  | inl same ↦
      rw same ((omega arith, omega (arith, length_of text (codes "before today") same)), tt)
  | inr other ↦ rw other tt
]
spans_inside relative_day_re text = elim (Bool-cases (is_word text "today")) [
  | inl same ↦ rw same ((omega arith, omega (arith, length_of text (codes "today") same)), tt)
  | inr other ↦ rw other (elim (Bool-cases (is_word text "before today")) [
    | inl same ↦
        rw same ((omega arith, omega (arith, length_of text (codes "before today") same)), tt)
    | inr none_of ↦ rw none_of tt
  ])
]
spans_inside _ text = tt

abbrev today_resolved : Resolved
today_resolved =
    bounded relative_day resolved (some by_day) (some (start_of leap)) (some (end_of leap)) true
      valid

abbrev boundary_match : TemporalMatch
boundary_match = record {
  text = codes "before today";
  first = 0;
  after = 12;
  category = boundary;
  priority = 100;
}

abbrev one_constraint : List Constraint
one_constraint =
    record {
      match = boundary_match;
      anchor_text = some (codes "today");
      anchor_resolution = some today_resolved;
      resolution = before_leap;
    }
    ∷ []

rewritten_boundary :
    rewrite_temporal_text phrases shown_texts 3 (codes "before today") noon
    ≡ some (codes "before 0008-02-29", one_constraint)
unfolding rewrite_temporal_text parse_temporal_expressions constraints_of constraint_of second_part
    after_word starts_later replace_one rewrite_constraint rewrite_resolved shown splice
    resolve_match resolve_boundary resolve_relative_day strip lstrip rstrip close_with is_space
    is_empty list_beq classify_single_expression classify_temporal_matches iter_candidates
    candidates_of matches_of pattern_specs sort_by insert_by not_after width starts_no_later
    reversed accept overlaps_any overlap first_whole lookup relative_days shift plus_days of_ordinal
    find_year find_month ordinal days_before_year days_of_months days_in_month days_in_year is_leap
    validate bounded start_of end_of beside_anchor beside boundary_result minus_micros of_instant
rewritten_boundary = refl

rewrite_temporal_text-substituted_example :
    (map (λ d. d.match) one_constraint ≡ classify_temporal_matches phrases (codes "before today"))
    × (codes "before 0008-02-29"
        ≡ substituted
            (λ d. rewrite_constraint phrases shown_texts d (codes "before today"))
            (codes "before today")
            0
            one_constraint)
rewrite_temporal_text-substituted_example =
    rewrite_temporal_text-substituted phrases shown_texts 3 (codes "before today") noon
      (codes "before 0008-02-29") one_constraint (record { inside = spans_inside })
      rewritten_boundary

abbrev no_stamp : Stamp → Text
no_stamp s = []

abbrev one_hint : Hint
one_hint = record {
  original = codes "before today";
  resolved_to = codes "before 0008-02-29";
  display_value = codes "before 0008-02-29";
  normalized_time = none;
  normalized_start = none;
  normalized_end = some (codes "0008-02-29");
  granularity = some by_range;
  category = boundary;
  status = resolved;
  markers = record { marker_type = timespan_marker; entity_name = codes "before 0008-02-29" } ∷ [];
}

tagged_boundary :
    augment_temporal_text shown_texts no_stamp phrases 3 (codes "before today") noon
    ≡ some (codes "[TIMESPAN: before 0008-02-29]", one_hint ∷ [], [])
unfolding parse_temporal_expressions constraints_of constraint_of second_part after_word
    starts_later replace_one shown splice resolve_match resolve_boundary resolve_relative_day strip
    lstrip rstrip close_with is_space is_empty list_beq classify_single_expression
    classify_temporal_matches iter_candidates candidates_of matches_of pattern_specs sort_by
    insert_by not_after width starts_no_later reversed accept overlaps_any overlap first_whole
    lookup relative_days shift plus_days of_ordinal find_year find_month ordinal days_before_year
    days_of_months days_in_month days_in_year is_leap validate bounded start_of end_of beside_anchor
    beside boundary_result minus_micros of_instant augment_temporal_text tag_of marker_text
    marker_entries daypart_marker_of time_marker_of is_daypart tag type_name join resolved_span
    resolved_name augment_hints add_hint hint_of unresolved_of contains
tagged_boundary = refl

augment_temporal_text-substituted_example :
    (cs : List Constraint) × (parse_temporal_expressions phrases 3 (codes "before today") noon
      ≡ some cs)
    × (map (λ d. d.match) cs ≡ classify_temporal_matches phrases (codes "before today"))
    × (codes "[TIMESPAN: before 0008-02-29]"
        ≡ substituted (tag_of shown_texts no_stamp) (codes "before today") 0 cs)
    × Distinct (map (λ h. phrases.lower h.original) (one_hint ∷ []))
augment_temporal_text-substituted_example =
    augment_temporal_text-substituted shown_texts no_stamp phrases 3 (codes "before today") noon
      (codes "[TIMESPAN: before 0008-02-29]") (one_hint ∷ []) [] (record { inside = spans_inside })
      tagged_boundary
