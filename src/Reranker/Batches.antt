-- ===== src/Reranker/Batches.antt =====
-- The batches of the local reranker: the halving of the batch size ends, and every document has a score.
use grace_mem.Common.{
  ℕ, zero, suc, ◌+◌, ◌/◌, ◌≤◌, max, ◌≡◌, refl, inl, inr, Option, some, List, [], ◌∷◌, ◌++◌, arith,
  ltb, take, drop, length, length-append, length-take, length-drop, Text, Option-cases, Bool-cases,
}
use grace_mem.Reranker.{score_from, score_batch}

module _ {S : Type 0} (gpu : ℕ → List Text → Option (List S)) (cpu : Text → S)
    (one_each : (tries : ℕ) (b : List Text) (scores : List S)
      → gpu tries b ≡ some scores
      → length scores ≡ length b) where
  -- As many scores as documents.
  abbrev Scores : List Text → Option (List S) → Type 0
  Scores docs o = (scores : List S) × (o ≡ some scores) × (length scores ≡ length docs)

  score_from-Scores :
      (tries room size : ℕ) (docs : List Text)
      → 1 ≤ size
      → length docs + size ≤ room + 1
      → Scores docs (score_from gpu cpu tries room size docs)
  unfolding score_from
  score_from-Scores tries room size [] p q = ([], refl, refl)
  score_from-Scores tries zero size (d ∷ docs) p q = absurd (ground (arith, p, q))
  score_from-Scores tries (suc room) size (d ∷ docs) p q =
      elim (Option-cases (gpu tries (take size (d ∷ docs)))) [
        | inr (scores, hit) ↦
            let (rest, run, len) =
              score_from-Scores (tries + 1) room size (drop size (d ∷ docs)) p
                (ground (arith, length-drop size (d ∷ docs), p, q)) in
            (
              scores ++ rest,
              rw (hit, score_from, run) refl,
              ground (
                arith,
                length-append scores rest,
                one_each tries (take size (d ∷ docs)) scores hit,
                length-take size (d ∷ docs),
                length-drop size (d ∷ docs),
                len,
              ),
            )
        | inl full ↦ elim (Bool-cases (ltb 1 size)) [
          | inl many ↦
              let (rest, run, len) =
                score_from-Scores (tries + 1) room (max 1 (size / 2)) (d ∷ docs) (ground arith)
                  (ground (arith, many, q)) in
              (rest, rw (full, score_from, many) run, len)
          | inr one ↦
              let (rest, run, len) =
                score_from-Scores (tries + 1) room size docs p (ground (arith, q)) in
              (cpu d ∷ rest, rw (full, score_from, one, run) refl, ground (arith, len))
        ]
      ]

  -- Scoring in batches of at least one document ends, whichever batches run out of memory, and gives
  -- one score for each document, where each batch that does not run out gives one for each of its own.
  pub score_batch-Scores :
      (docs : List Text) (batch_size : ℕ)
      → 1 ≤ batch_size
      → Scores docs (score_batch gpu cpu docs batch_size)
  unfolding score_batch
  score_batch-Scores docs size p =
      score_from-Scores 0 (length docs + size) size docs p (ground arith)
