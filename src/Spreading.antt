-- ===== src/Spreading.antt =====
-- grace_mem/retrieval/candidates/graph_expansion.py: spreading activation from the seed entities.
-- `W` stands for the float weights and activations; `neighbors_of` for the graph store's answer for a
-- frontier; `compare_by_id` for the cosine of the query and a relationship, where the outer `none`
-- is an exception and the inner one a relationship that is not found. Log lines are left out.
use grace_mem.Common.{
  ℕ, zero, suc, ◌+◌, Bool, true, false, not, Option, none, some, List, [], ◌∷◌, ◌++◌, map,
  if◌then◌else◌, filter, length, Text, text_eq, is_empty, contains, dedup, Dict, lookup, put, foldl,
  sort_by, ◌>>=◌,
}
pub mod Nodes
pub mod Spread

pub record Neighbor : Type 0 where
  pub neighbor_id : Text
  pub rel_id : Option Text

-- The arithmetic on weights that the code uses, and the threshold. `rescale` is (w - c) / (1 - c) for
-- a `rescale_c` other than 1, where the source divides by zero.
pub record Weights (W : Type 0) : Type 0 where
  pub zero_w : W
  pub one_w : W
  pub add : W → W → W
  pub mul : W → W → W
  pub smaller : W → W → W
  pub larger : W → W → W
  pub gtb : W → W → Bool
  pub rescale : W → W
  pub tau_a : W

module _ {W : Type 0} (w : Weights W) where
  -- The arcs that are kept, the nodes seen, the next frontier.
  pub record Reach : Type 0 where
    pub adj_dict : Dict Text (List (Text × W))
    pub all_nodes : List Text
    pub frontier : List Text

  abbrev pub arcs_of : Dict Text (List (Text × W)) → Text → List (Text × W)
  arcs_of adj e = elim (lookup e adj) [ none ↦ [] | some arcs ↦ arcs ]

  -- `_raw_edge_weight`
  unfoldable pub raw_edge_weight : (Text → Option (Option W)) → Option Text → W
  raw_edge_weight compare_by_id none = w.zero_w
  raw_edge_weight compare_by_id (some r) =
      if is_empty r
      then w.zero_w
      else (elim (compare_by_id r) [ some (some score) ↦ w.larger w.zero_w score | _ ↦ w.zero_w ])

  module _ (raw_weight : Option Text → W)
      (neighbors_of : List Text → Dict Text (List Neighbor)) where
    -- The neighbours of one node: the arcs it gets, the nodes seen, the next frontier.
    unfoldable pub scan :
        List (Text × W)
        → List Text
        → List Text
        → List Neighbor
        → List (Text × W) × List Text × List Text
    scan arcs all_nodes next [] = (arcs, all_nodes, next)
    scan arcs all_nodes next (nb ∷ nbs) =
        let w_prime = w.rescale (raw_weight nb.rel_id) in
        if is_empty nb.neighbor_id
        then scan arcs all_nodes next nbs
        else (if not (w.gtb w_prime w.zero_w)
            then scan arcs all_nodes next nbs
            else (if contains all_nodes nb.neighbor_id
                then scan (arcs ++ ((nb.neighbor_id, w_prime) ∷ [])) all_nodes next nbs
                else scan (arcs ++ ((nb.neighbor_id, w_prime) ∷ []))
                    (all_nodes ++ (nb.neighbor_id ∷ [])) (next ++ (nb.neighbor_id ∷ [])) nbs))

    -- `for eid, node_data in subgraph.items()`; the frontier of the record is the next one.
    unfoldable pub scan_nodes : Reach → Dict Text (List Neighbor) → Reach
    unfolding scan
    scan_nodes r [] = r
    scan_nodes r ((eid, nbs) ∷ d) =
        let (arcs, all_nodes, next) = scan [] r.all_nodes r.frontier nbs in
        scan_nodes
          (record {
            adj_dict = put eid (arcs_of r.adj_dict eid ++ arcs) r.adj_dict;
            all_nodes = all_nodes;
            frontier = next;
          })
          d

    -- `for hop in range(max_hops)`
    unfoldable pub hops : ℕ → Reach → Reach
    unfolding scan_nodes
    hops zero r = r
    hops (suc n) r = elim r.frontier [
      | [] ↦ r
      | e ∷ es ↦ hops n (scan_nodes (record r { frontier = [] }) (neighbors_of (e ∷ es)))
    ]

    unfoldable pub reach : ℕ → List Text → Reach
    unfolding hops
    reach max_hops seeds =
        hops max_hops (record { adj_dict = []; all_nodes = dedup seeds; frontier = seeds })

  -- The arcs of one node; `none` is a KeyError. The new tail of the queue comes with the activations.
  unfoldable pub propagate :
      Text
      → List Text
      → Dict Text W
      → List Text
      → List (Text × W)
      → Option (Dict Text W × List Text)
  propagate node visited activation queue [] = some (activation, queue)
  propagate node visited activation queue ((target, weight) ∷ arcs) = do
    of_target ← lookup target activation
    of_node ← lookup node activation
    propagate node visited
        (put target (w.smaller w.one_w (w.add of_target (w.mul weight of_node))) activation)
        (if contains visited target then queue else queue ++ (target ∷ [])) arcs

  -- `while queue`, in `room` rounds at most.
  unfoldable pub spread :
      ℕ → Dict Text (List (Text × W)) → Dict Text W → List Text → List Text → Option (Dict Text W)
  unfolding propagate
  spread room adj activation visited [] = some activation
  spread zero adj activation visited (node ∷ queue) = none
  spread (suc room) adj activation visited (node ∷ queue) = elim (contains visited node) [
    | true ↦ spread room adj activation visited queue
    | false ↦ do
      (activation', queue') ← propagate node (node ∷ visited) activation queue (arcs_of adj node)
      spread room adj activation' (node ∷ visited) queue'
  ]

  -- `{e: 0.0 for e in all_nodes}`, then 1.0 for the seeds.
  unfoldable pub initial : List Text → List Text → Dict Text W
  initial all_nodes seeds =
      foldl (λ d e. put e w.one_w d) (map (λ e. (e, w.zero_w)) all_nodes) seeds

  abbrev pub count_arcs : Dict Text (List (Text × W)) → ℕ
  count_arcs [] = 0
  count_arcs ((_, arcs) ∷ adj) = length arcs + count_arcs adj

  unfoldable pub by_activation : Text × W → Text × W → Bool
  by_activation a b = not (w.gtb b.1 a.1)

  unfoldable pub activated : Dict Text W → Dict Text W
  unfolding by_activation
  activated activation = sort_by by_activation (filter (λ ev. w.gtb ev.1 w.tau_a) activation)

  unfoldable pub run :
      (Text → Option (Option W))
      → (List Text → Dict Text (List Neighbor))
      → ℕ
      → List Text
      → Option (Dict Text W)
  unfolding raw_edge_weight reach spread initial activated
  run compare_by_id neighbors_of max_hops seeds =
      let r = reach (raw_edge_weight compare_by_id) neighbors_of max_hops seeds in
      do
        activation ←
            spread (length seeds + count_arcs r.adj_dict) r.adj_dict (initial r.all_nodes seeds) []
              seeds
        some (activated activation)
