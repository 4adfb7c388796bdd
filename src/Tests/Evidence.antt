-- ===== src/Tests/Evidence.antt =====
-- Runs of the evidence cut and of the raw turns' lookup, grace_mem/retrieval/evidence.
use grace_mem.Common.{
  ℕ, ◌≤◌, ◌≡◌, min, refl, none, some, List, [], ◌∷◌, arith, ltb, Text, text_eq, list_beq, codes,
  length, sort_by, insert_by, lookup, put, if◌then◌else◌, strip, lstrip, rstrip, close_with,
  is_space, is_empty,
}
use grace_mem.Evidence.Cut.{Candidate, held, no_lower, share, with_quota, rank_and_cut}
use grace_mem.Evidence.Cut.Quota.{count, rank_and_cut-quota}
use grace_mem.Evidence.Raw.{
  CsvRow, turns_of, earlier, sort_turns, row_at, user_before, stripped, both_turns, pair_text,
  found, get, get_user_text, get_assistant_text, add_row, add_rows, load,
}
use grace_mem.Evidence.Raw.Parts.{joined, assistant_at, get-parts}

abbrev scored : List (Candidate ℕ Text)
scored =
    record { score = 9; event = codes "a" }
    ∷ record { score = 4; event = codes "b" }
    ∷ record { score = 8; event = codes "a" }
    ∷ record { score = 6; event = codes "c" }
    ∷ []

abbrev own_name : Text → Text
own_name t = t

-- Three sources with a quota of one: the cut to two keeps three candidates.
three_kept : length (rank_and_cut own_name ltb (some 2) 1 scored) ≡ 3
unfolding rank_and_cut with_quota share held no_lower sort_by insert_by lookup put list_beq
three_kept = refl

rank_and_cut-quota_example :
    (min 1 (count own_name (codes "b") scored)
      ≤ count own_name (codes "b") (rank_and_cut own_name ltb (some 2) 1 scored))
    × (count own_name (codes "b") (rank_and_cut own_name ltb (some 2) 1 scored)
        ≤ count own_name (codes "b") scored)
    × (min 2 (length scored) ≤ length (rank_and_cut own_name ltb (some 2) 1 scored))
    × (length (rank_and_cut own_name ltb (some 2) 1 scored) ≤ length scored)
rank_and_cut-quota_example = rank_and_cut-quota own_name ltb 1 2 (codes "b") scored (omega arith)

abbrev csv_rows : List CsvRow
csv_rows =
    record {
      session_id = codes "s1";
      role = codes "user";
      content = codes " hi ";
      turn_index = some 1;
    }
    ∷ record {
      session_id = codes "s1";
      role = codes "assistant";
      content = codes "yes";
      turn_index = some 2;
    }
    ∷ record {
      session_id = codes "s1";
      role = codes "user";
      content = codes "lost";
      turn_index = none;
    }
    ∷ []

found_pair :
    get (load (λ t. t) csv_rows) (codes "s1") 2 ≡ some (both_turns (codes "hi") (codes "yes"))
unfolding get found row_at user_before stripped pair_text load add_rows add_row turns_of sort_turns
    earlier sort_by insert_by lookup put list_beq strip lstrip rstrip close_with is_space is_empty
found_pair = refl

get-parts_example : get (load (λ t. t) csv_rows) (codes "s1") 2 ≡ (
    if assistant_at (load (λ t. t) csv_rows) (codes "s1") 2
    then joined
        (get_user_text (load (λ t. t) csv_rows) (codes "s1") 2)
        (get_assistant_text (load (λ t. t) csv_rows) (codes "s1") 2)
    else get_user_text (load (λ t. t) csv_rows) (codes "s1") 2)
get-parts_example = get-parts (λ t. t) csv_rows (codes "s1") 2
