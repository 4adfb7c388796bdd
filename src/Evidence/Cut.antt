-- ===== src/Evidence/Cut.antt =====
-- grace_mem/retrieval/evidence/ranking.py: rank_and_cut. The scores are floats, a parameter with their
-- order; `source` stands for `ev_source.get(id(ev), "")`. A top-K that is no int is none, and a
-- negative one is not modelled; neither are the log lines.
use grace_mem.Common.{
  ℕ, suc, ◌+◌, ◌-◌, ◌≤◌, Bool, not, Option, none, some, List, [], ◌∷◌, ◌++◌, if◌then◌else◌, ltb,
  Text, text_eq, Dict, lookup, put, length, take, sort_by,
}
pub mod Quota

pub record Candidate (F E : Type 0) : Type 0 where
  pub score : F
  pub event : E

-- `source_counts.get(src, 0)`
unfoldable pub held : Text → Dict Text ℕ → ℕ
held s counts = elim (lookup s counts) [ none ↦ 0 | some n ↦ n ]

-- The order of `sort(key=score, reverse=True)`, which keeps the order of equal scores.
unfoldable pub no_lower : {F E : Type 0} → (F → F → Bool) → Candidate F E → Candidate F E → Bool
no_lower lt a b = not (lt a.score b.score)

module _ {F E : Type 0} (source : E → Text) where
  -- The loop over the sorted candidates: the guaranteed ones and the remainder.
  unfoldable pub share :
      ℕ → Dict Text ℕ → List (Candidate F E) → List (Candidate F E) × List (Candidate F E)
  unfolding held
  share quota counts [] = ([], [])
  share quota counts (e ∷ es) =
      let n = held (source e.event) counts in
      let (guaranteed, remainder) =
        share quota (if ltb n quota then put (source e.event) (n + 1) counts else counts) es in
      if ltb n quota then (e ∷ guaranteed, remainder) else (guaranteed, e ∷ remainder)

  unfoldable pub with_quota : ℕ → ℕ → List (Candidate F E) → List (Candidate F E)
  unfolding share
  with_quota quota topk es =
      let (guaranteed, remainder) = share quota [] es in
      guaranteed ++ take (topk - length guaranteed) remainder

  unfoldable pub rank_and_cut :
      (F → F → Bool) → Option ℕ → ℕ → List (Candidate F E) → List (Candidate F E)
  unfolding no_lower with_quota
  rank_and_cut lt none quota events = sort_by (no_lower lt) events
  rank_and_cut lt (some topk) quota events =
      let sorted = sort_by (no_lower lt) events in
      if ltb 0 quota then with_quota quota topk sorted else take topk sorted
