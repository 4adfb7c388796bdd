-- ===== src/Reranker.antt =====
-- grace_mem/retrieval/ranking/reranker.py: the batches of the local backend, the ranking by score, the threshold.
-- `S` and `geb` stand for the float scores and `>=`; `gpu` for one batch on the model, which
-- sees how many batches were tried before it, where `none` is an out-of-memory error (no other exception is in the model); `cpu` for the
-- model on one document.
use grace_mem.Common.{
  ℕ, zero, suc, ◌+◌, ◌/◌, max, Bool, true, false, Option, none, some, List, [], ◌∷◌, ◌++◌,
  if◌then◌else◌, ltb, take, drop, filter, is_nil, Text, sort_by, length, ◌>>=◌,
}
pub mod Batches
pub mod Order

module _ {S : Type 0} (gpu : ℕ → List Text → Option (List S)) (cpu : Text → S) where
  -- The loop of `_score_batch` on the documents from `i` on, after `tries` batches; `none` where `room`
  -- rounds are not enough.
  unfoldable pub score_from : ℕ → ℕ → ℕ → List Text → Option (List S)
  score_from tries room current_batch_size [] = some []
  score_from tries zero current_batch_size (d ∷ docs) = none
  score_from tries (suc room) current_batch_size (d ∷ docs) =
      elim (gpu tries (take current_batch_size (d ∷ docs))) [
        | some scores ↦ do
          rest ← score_from (tries + 1) room current_batch_size (drop current_batch_size (d ∷ docs))
          some (scores ++ rest)
        | none ↦ elim (ltb 1 current_batch_size) [
          | true ↦ score_from (tries + 1) room (max 1 (current_batch_size / 2)) (d ∷ docs)
          | false ↦ do
            rest ← score_from (tries + 1) room current_batch_size docs
            some (cpu d ∷ rest)
        ]
      ]

  unfoldable pub score_batch : List Text → ℕ → Option (List S)
  unfolding score_from
  score_batch docs batch_size = score_from 0 (length docs + batch_size) batch_size docs

-- `list(enumerate(scores))`
unfoldable pub enumerate : {S : Type 0} → ℕ → List S → List (ℕ × S)
enumerate i [] = []
enumerate i (s ∷ scores) = (i, s) ∷ enumerate (i + 1) scores

module _ {S : Type 0} (geb : S → S → Bool) (score_all : List Text → List S) where
  unfoldable pub higher : ℕ × S → ℕ × S → Bool
  higher a b = geb a.1 b.1

  unfoldable pub rerank : List Text → List (ℕ × S)
  unfolding enumerate higher
  rerank docs = sort_by higher (enumerate 0 (score_all docs))

  unfoldable pub rank_pairs : List Text → Option S → List (ℕ × S)
  unfolding rerank
  rank_pairs [] threshold = []
  rank_pairs (d ∷ docs) none = rerank (d ∷ docs)
  rank_pairs (d ∷ docs) (some threshold) = filter (λ r. geb r.1 threshold) (rerank (d ∷ docs))
