-- ===== src/Tests/Retrieval.antt =====
-- Runs of the provenance merge, grace_mem/data_model, and of the retrieval stages, grace_mem/retrieval.
use grace_mem.Common.{
  ◌↔◌, ap, ℕ, ◌+◌, min, max, ◌≡◌, refl, ◌⊎◌, inl, inr, Bool, true, false, Option, none, some, List,
  [], ◌∷◌, map, arith, All, In, Distinct, Text, text_eq, codes, length, ltb, leb, has_char,
  list_beq, partition_colon, Bool-cases, some-injective, subst, length-map, ◌*◌, ◌/◌, ◌-◌,
  if◌then◌else◌, Dict,
}
use grace_mem.Provenance.{
  ProvEvent, Prov, flat, prov_to_events, origin, origin_beq, origin_eq, merge_prov,
}
use grace_mem.Provenance.Merge.{last_event, first_of, merge_prov-Distinct, merge_prov-In}
use grace_mem.Narrowing.{Scored, chosen, above_floor}
use grace_mem.Narrowing.Best.{IsNumbered, IsBeaten, chosen-best}
use grace_mem.Reranker.{score_batch, rank_pairs}
use grace_mem.Reranker.Order.{IsRanking, rank_pairs-IsRanking}
use grace_mem.Reranker.Batches.{score_batch-Scores}
use grace_mem.Ranking.{select}
use grace_mem.Ranking.Chosen.{IsSelection, select-IsSelection}
use grace_mem.Spreading.{Neighbor, Weights, run}
use grace_mem.Spreading.Spread.{run-total}

abbrev old : Prov
old = flat (codes "s:1" ∷ codes "s:2" ∷ []) none none none

abbrev new : Prov
new = flat (codes "s:2" ∷ []) none none (some (codes "May"))

merge_prov-Distinct_example : Distinct (map origin (merge_prov old new))
merge_prov-Distinct_example = merge_prov-Distinct old new

abbrev newer : ProvEvent
newer = record {
  ts = 0;
  summary_id = some (codes "s:2");
  session_id = some (codes "s");
  message_id = some (codes "2");
  dialogue_datetime = some (codes "May");
}

found :
    first_of
      (last_event (origin newer) (prov_to_events new))
      (last_event (origin newer) (prov_to_events old))
    ≡ some newer
unfolding last_event prov_to_events origin origin_beq has_char list_beq partition_colon
found = refl

merge_prov-In_example : In newer (merge_prov old new) ↔ (
    first_of
      (last_event (origin newer) (prov_to_events new))
      (last_event (origin newer) (prov_to_events old))
    ≡ some newer)
merge_prov-In_example = merge_prov-In old new newer

-- The event of the old blob that the new one overrides.
abbrev older : ProvEvent
older = record newer { dialogue_datetime = none }

overridden :
    (first_of
        (last_event (origin older) (prov_to_events new))
        (last_event (origin older) (prov_to_events old))
      ≡ some older)
    → ◌≡◌ {A = Bool} true false
unfolding last_event prov_to_events origin origin_beq has_char list_beq partition_colon
overridden h = absurd (cc (ap (λ (e : ProvEvent). e.dialogue_datetime) (some-injective _ _ h)))

abbrev snippet : ℕ → ℕ → Scored
snippet overlap idx = record { overlap = overlap; idx = idx; snippet = [] }

abbrev scored : List Scored
scored = snippet 1 0 ∷ snippet 3 1 ∷ snippet 2 2 ∷ []

numbered : IsNumbered scored
numbered = ((omega arith, (omega arith, tt)), ((omega arith, tt), (tt, tt)))

reaches : In (snippet 2 2) (above_floor 1 scored)
unfolding above_floor
reaches = inr (inr (inl refl))

chosen-best_example :
    In (snippet 2 2) (chosen 2 1 scored) ⊎ IsBeaten (snippet 2 2) (chosen 2 1 scored)
chosen-best_example = chosen-best 2 1 scored (snippet 2 2) reaches

abbrev same : Text → Text
same s = s

abbrev zeros : List Text → List ℕ
zeros ts = map length ts

-- A model that has no room for the first two batches.
abbrev gpu : ℕ → List Text → Option (List ℕ)
gpu tries b = if ltb tries 2 then none else some (zeros b)

gpu_one_each :
    (tries : ℕ) (b : List Text) (scores : List ℕ)
    → gpu tries b ≡ some scores
    → length scores ≡ length b
gpu_one_each tries b scores h = elim (Bool-cases (ltb tries 2)) [
  | inl full ↦ ground (arith, h, full)
  | inr fits ↦
      let e : some (zeros b) ≡ some scores = rw fits at h in
      subst (λ (xs : List ℕ). length xs ≡ length b) (some-injective _ _ e) (length-map length b)
]

score_batch-Scores_example :
    (scores : List ℕ) × (score_batch gpu length (codes "a" ∷ codes "b" ∷ codes "c" ∷ []) 8
      ≡ some scores)
    × (length scores ≡ 3)
score_batch-Scores_example =
    score_batch-Scores gpu length gpu_one_each (codes "a" ∷ codes "b" ∷ codes "c" ∷ []) 8
      (omega arith)

zeros_one_each : (ts : List Text) → length (zeros ts) ≡ length ts
zeros_one_each ts = length-map length ts

abbrev geb : ℕ → ℕ → Bool
geb a b = leb b a

abbrev cands : List (Text × Text)
cands = (codes "e1", codes "ab") ∷ (codes "e2", codes "abc") ∷ []

select-IsSelection_example : IsSelection geb zeros 1 1 cands (select geb zeros same 1 1 cands)
select-IsSelection_example = select-IsSelection geb zeros zeros_one_each same 1 1 cands

-- Percentages.
abbrev percent : Weights ℕ
percent = record {
  zero_w = 0;
  one_w = 100;
  add = ◌+◌;
  mul = λ a b. a * b / 100;
  smaller = min;
  larger = max;
  gtb = λ a b. ltb b a;
  rescale = λ a. a - 40;
  tau_a = 50;
}

abbrev graph : List Text → Dict Text (List Neighbor)
graph frontier =
    (codes "e1", record { neighbor_id = codes "e2"; rel_id = some (codes "r1") } ∷ []) ∷ []

run-total_example :
    (result : Dict Text ℕ) × (run percent (λ r. some (some 90)) graph 2 (codes "e1" ∷ [])
      ≡ some result)
    × All (λ e. ltb 50 e.1 ≡ true) result
run-total_example = run-total percent (λ r. some (some 90)) graph 2 (codes "e1" ∷ [])

rank_pairs-IsRanking_example :
    IsRanking geb zeros
      (codes "ab" ∷ codes "abc" ∷ [])
      (rank_pairs geb zeros (codes "ab" ∷ codes "abc" ∷ []) none)
rank_pairs-IsRanking_example =
    rank_pairs-IsRanking geb zeros (λ a b h. ground (arith, h)) (λ a b c p q. ground (arith, p, q))
      zeros_one_each (codes "ab") (codes "abc" ∷ [])
