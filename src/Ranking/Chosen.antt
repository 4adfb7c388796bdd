-- ===== src/Ranking/Chosen.antt =====
-- The selection by score: it never leaves the list of ids, it keeps to the limit, its rows account for every candidate.
use grace_mem.Common.{
  ℕ, zero, suc, ◌+◌, ◌≤◌, ◌<◌, ◌≡◌, refl, sym, ◌↔◌, Bool, true, false, Option, none, some, List, [],
  ◌∷◌, ◌++◌, map, arith, if◌then◌else◌, take, filter, length, length-map, length-take-le, get_elem?,
  All, All-take, All-filter, All-dedup, All-In, Text, text_eq, contains, contains-dedup,
  contains-cons_of, contains-cons_self, dedup, dedup_into, length-append, Distinct, Distinct-dedup,
  length-sort_by, All-sort_by,
}
use grace_mem.Reranker.{enumerate, rank_pairs, rerank, higher}
use grace_mem.Ranking.{Row, selected, topk_cutoff, reason, row_of, ids_at, rows_from, select}

module _ {S : Type 0} (geb : S → S → Bool) (score_all : List Text → List S) where
  -- Every index of the ranking is below `n`.
  abbrev Below : ℕ → List (ℕ × S) → Type 0
  Below n ps = All (λ p. p.0 < n) ps

  enumerate-Below :
      (i n : ℕ) (scores : List S) → i + length scores ≤ n → Below n (enumerate i scores)
  unfolding enumerate
  enumerate-Below i n [] h = tt
  enumerate-Below i n (s ∷ scores) h =
      (ground (arith, h), enumerate-Below (i + 1) n scores (ground (arith, h)))

  length-enumerate : (i : ℕ) (scores : List S) → length (enumerate i scores) ≡ length scores
  unfolding enumerate
  length-enumerate i [] = refl
  length-enumerate i (s ∷ scores) = ground (arith, length-enumerate (i + 1) scores)

  module _ (one_each : (ts : List Text) → length (score_all ts) ≡ length ts) where
    rank_pairs-Below : (ts : List Text) → Below (length ts) (rank_pairs geb score_all ts none)
    unfolding rank_pairs rerank
    rank_pairs-Below [] = tt
    rank_pairs-Below (t ∷ ts) =
        All-sort_by (higher geb score_all) (λ p. p.0 < length (t ∷ ts))
          (enumerate 0 (score_all (t ∷ ts)))
          (enumerate-Below 0 (length (t ∷ ts)) (score_all (t ∷ ts))
            (ground (arith, one_each (t ∷ ts))))

    length-rank_pairs : (ts : List Text) → length (rank_pairs geb score_all ts none) ≡ length ts
    unfolding rank_pairs rerank
    length-rank_pairs [] = refl
    length-rank_pairs (t ∷ ts) = ground (
      arith,
      length-sort_by (higher geb score_all) (enumerate 0 (score_all (t ∷ ts))),
      length-enumerate 0 (score_all (t ∷ ts)),
      one_each (t ∷ ts),
    )

  get_elem?-below :
      (ids : List Text) (i : ℕ)
      → i < length ids
      → (id : Text) × (get_elem? ids i ≡ some id) × (contains ids id ≡ true)
  unfolding contains
  get_elem?-below [] i h = absurd (ground (arith, h))
  get_elem?-below (x ∷ ids) zero h = (x, refl, contains-cons_self x ids)
  get_elem?-below (x ∷ ids) (suc i) h =
      let (id, hit, inside) = get_elem?-below ids i (ground (arith, h)) in
      (id, hit, contains-cons_of x id ids inside)

  ids_at-total :
      (ids : List Text) (ps : List (ℕ × S))
      → Below (length ids) ps
      → (top : List Text) × (ids_at geb score_all ids ps ≡ some top)
        × (length top ≡ length ps)
        × All (λ i. contains ids i ≡ true) top
  unfolding ids_at
  ids_at-total ids [] h = ([], refl, refl, tt)
  ids_at-total ids ((i, s) ∷ ps) h =
      let (id, hit, inside) = get_elem?-below ids i h.0 in
      let (top, run, len, rest) = ids_at-total ids ps h.1 in
      (id ∷ top, rw (hit, run) refl, ground (arith, len), (inside, rest))

  -- A row says why its candidate was left out, or that it was not.
  abbrev pub IsAccounted : S → List Text → Row S → Type 0
  IsAccounted threshold chosen row =
      (row.is_selected ≡ contains chosen row.item_id)
      × ((row.drop_reason ≡ selected) ↔ (contains chosen row.item_id ≡ true))
      × ((row.drop_reason ≡ topk_cutoff)
          ↔ ((contains chosen row.item_id ≡ false) × (geb row.score threshold ≡ true)))

  reason-selected : (b c : Bool) → (reason b c ≡ selected) ↔ (b ≡ true)
  unfolding reason
  reason-selected true c = ground arith
  reason-selected false true = ground arith
  reason-selected false false = ground arith

  reason-topk_cutoff : (b c : Bool) → (reason b c ≡ topk_cutoff) ↔ ((b ≡ false) × (c ≡ true))
  unfolding reason
  reason-topk_cutoff true c = ground arith
  reason-topk_cutoff false true = ground arith
  reason-topk_cutoff false false = ground arith

  rows_from-total :
      (label : Text → Text) (threshold : S) (ids top : List Text) (rank : ℕ) (ps : List (ℕ × S))
      → Below (length ids) ps
      → (rows : List (Row S)) × (rows_from geb score_all label threshold ids top rank ps
          ≡ some rows)
        × (length rows ≡ length ps)
        × All (IsAccounted threshold (dedup top)) rows
  unfolding rows_from row_of
  rows_from-total label threshold ids top rank [] h = ([], refl, refl, tt)
  rows_from-total label threshold ids top rank ((i, s) ∷ ps) h =
      let (id, hit, inside) = get_elem?-below ids i h.0 in
      let (rows, run, len, rest) = rows_from-total label threshold ids top (rank + 1) ps h.1 in
      (
        row_of geb score_all label threshold top rank id s ∷ rows,
        rw (hit, run) refl,
        ground (arith, len),
        (
          (
            sym (contains-dedup top id),
            rw (contains-dedup top id) (reason-selected (contains top id) (geb s threshold)),
            rw (contains-dedup top id) (reason-topk_cutoff (contains top id) (geb s threshold)),
          ),
          rest,
        ),
      )

  -- The selection of one kind of candidate gives a result: it names candidates, each once, at most
  -- `top_k`; it has one row for each candidate; and each row's reason agrees with the selection.
  abbrev pub IsSelection : S → ℕ → List (Text × Text) → Option (List Text × List (Row S)) → Type 0
  IsSelection threshold top_k cands o =
      (chosen : List Text) × (rows : List (Row S)) × (o ≡ some (chosen, rows))
      × Distinct chosen
      × (length chosen ≤ top_k)
      × All (λ i. contains (map (λ c. c.0) cands) i ≡ true) chosen
      × (length rows ≡ length cands)
      × All (IsAccounted threshold chosen) rows

  length-dedup_into : (out xs : List Text) → length (dedup_into out xs) ≤ length out + length xs
  unfolding dedup_into
  length-dedup_into out [] = ground arith
  length-dedup_into out (x ∷ xs) = ground (
    arith,
    length-dedup_into (if contains out x then out else out ++ (x ∷ [])) xs,
    length-append out (x ∷ []),
  )

  -- With one score for each text, the selection gives a result: it names candidates, each once, at
  -- most `top_k` of them; it has one row for each candidate; and the reason in a row agrees with what
  -- is selected.
  pub select-IsSelection :
      (one_each : (ts : List Text) → length (score_all ts) ≡ length ts) (label : Text → Text)
      (threshold : S) (top_k : ℕ) (cands : List (Text × Text))
      → IsSelection threshold top_k cands (select geb score_all label threshold top_k cands)
  unfolding select
  select-IsSelection one_each label threshold top_k cands =
      let (top, found, len, inside) = ids_at-total ids best best_below in
      let (rows, filed, rows_len, accounted) =
        rows_from-total label threshold ids top 1 ranked ranked_below in
      (
        dedup top,
        rows,
        rw (found, filed) refl,
        Distinct-dedup top,
        ground (arith, length-dedup_into [] top, len, length-take-le top_k passing),
        All-dedup (λ i. contains ids i ≡ true) top inside,
        ground (
          arith,
          rows_len,
          length-rank_pairs one_each texts,
          length-map (λ (c : Text × Text). c.1) cands,
        ),
        accounted,
      )
    where
      ids : List Text
      ids = map (λ c. c.0) cands

      texts : List Text
      texts = map (λ c. c.1) cands

      ranked : List (ℕ × S)
      ranked = rank_pairs geb score_all texts none

      passing : List (ℕ × S)
      passing = filter (λ r. geb r.1 threshold) ranked

      best : List (ℕ × S)
      best = take top_k passing

      ranked_below : Below (length ids) ranked
      ranked_below =
          rw
            (
              length-map (λ (c : Text × Text). c.0) cands,
              ← length-map (λ (c : Text × Text). c.1) cands,
            )
            (rank_pairs-Below one_each texts)

      best_below : Below (length ids) best
      best_below =
          All-take (λ p. p.0 < length ids) top_k passing
            (All-filter (λ p. p.0 < length ids) (λ r. geb r.1 threshold) ranked
              (λ p m _. All-In (λ p. p.0 < length ids) ranked ranked_below p m))
