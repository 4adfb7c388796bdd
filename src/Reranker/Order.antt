-- ===== src/Reranker/Order.antt =====
-- The ranking: every text once, with its own score, best first.
use grace_mem.Common.{
  ℕ, suc, ◌+◌, ◌≤◌, ◌≡◌, refl, subst, ap, Bool, true, false, none, some, List, [], ◌∷◌, map, arith,
  length, get_elem?, All, nat_eq, Text, Distinct, contains, length-sort_by, All-sort_by,
  Distinct-sort_by, sort_by-IsSorted, IsSorted,
}
use grace_mem.Reranker.{enumerate, higher, rerank, rank_pairs}

module _ {S : Type 0} where
  length-enumerate : (i : ℕ) (scores : List S) → length (enumerate i scores) ≡ length scores
  unfolding enumerate
  length-enumerate i [] = refl
  length-enumerate i (s ∷ scores) = ground (arith, length-enumerate (i + 1) scores)

  fresh-index :
      (k i : ℕ) (scores : List S)
      → suc k ≤ i
      → contains (map (λ p. p.0) (enumerate i scores)) k ≡ false
  unfolding enumerate contains
  fresh-index k i [] h = refl
  fresh-index k i (s ∷ scores) h =
      ground (arith, fresh-index k (i + 1) scores (ground (arith, h)), h)

  enumerate-Distinct : (i : ℕ) (scores : List S) → Distinct (map (λ p. p.0) (enumerate i scores))
  unfolding enumerate
  enumerate-Distinct i [] = tt
  enumerate-Distinct i (s ∷ scores) =
      (fresh-index i (i + 1) scores (ground arith), enumerate-Distinct (i + 1) scores)

  -- The score that stands at the index.
  abbrev IsScoreAt : List S → ℕ × S → Type 0
  IsScoreAt all p = get_elem? all p.0 ≡ some p.1

  enumerate-IsScoreAt :
      (all : List S) (i : ℕ) (scores : List S)
      → ((k : ℕ) → get_elem? all (i + k) ≡ get_elem? scores k)
      → All (IsScoreAt all) (enumerate i scores)
  unfolding enumerate
  enumerate-IsScoreAt all i [] h = tt
  enumerate-IsScoreAt all i (s ∷ scores) h =
      (here (omega arith), enumerate-IsScoreAt all (i + 1) scores (λ k. later k (omega arith)))
    where
      here : i + 0 ≡ i → get_elem? all i ≡ some s
      here q = subst (λ j. get_elem? all j ≡ some s) q (h 0)

      later : (k : ℕ) → i + suc k ≡ (i + 1) + k → get_elem? all ((i + 1) + k) ≡ get_elem? scores k
      later k q = subst (λ j. get_elem? all j ≡ get_elem? scores k) q (h (suc k))

module _ {S : Type 0} (geb : S → S → Bool) (score_all : List Text → List S) where
  -- One pair for each text, no index twice, each with the score at its index, best first.
  pub record IsRanking (texts : List Text) (ranked : List (ℕ × S)) : Type 0 where
    pub one_for_each : length ranked ≡ length texts
    pub once : Distinct (map (λ p. p.0) ranked)
    pub scored : All (IsScoreAt (score_all texts)) ranked
    pub best_first : IsSorted (higher geb score_all) ranked

  -- For texts of which there is one at least, and without a threshold: if any two scores compare,
  -- `>=` is transitive, and there is one score for each text, the ranking holds every text's index
  -- once, with its score, best first.
  pub rank_pairs-IsRanking :
      (total : (a b : S) → geb a b ≡ false → geb b a ≡ true)
      (trans : (a b c : S) → geb a b ≡ true → geb b c ≡ true → geb a c ≡ true)
      (one_each : (ts : List Text) → length (score_all ts) ≡ length ts) (text : Text)
      (texts : List Text)
      → IsRanking (text ∷ texts) (rank_pairs geb score_all (text ∷ texts) none)
  unfolding rank_pairs rerank higher
  rank_pairs-IsRanking total trans one_each text texts = record {
    one_for_each = ground (
      arith,
      length-sort_by (higher geb score_all) (enumerate 0 scores),
      length-enumerate 0 scores,
      one_each (text ∷ texts),
    );
    once =
        Distinct-sort_by (higher geb score_all) (λ p. p.0) (enumerate 0 scores)
          (enumerate-Distinct 0 scores);
    scored =
        All-sort_by (higher geb score_all) (IsScoreAt scores) (enumerate 0 scores)
          (enumerate-IsScoreAt scores 0 scores (λ k. ap (get_elem? scores) (omega arith)));
    best_first =
        sort_by-IsSorted (higher geb score_all) (λ a b h. total a.1 b.1 h)
          (λ a b c p q. trans a.1 b.1 c.1 p q) (enumerate 0 scores);
  }
    where
      scores : List S
      scores = score_all (text ∷ texts)
