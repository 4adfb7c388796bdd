-- ===== src/Spreading/Spread.antt =====
-- The spreading of activation: it ends, it never asks for the activation of an unknown node.
use grace_mem.Common.{
  ℕ, zero, suc, ◌+◌, ◌≤◌, ◌≡◌, refl, ap, inl, inr, Bool, true, false, Option, some, List, [], ◌∷◌,
  ◌++◌, map, arith, if◌then◌else◌, length, length-append, filter, foldl, All, All-append,
  All-filter, All-sort_by, Text, text_eq, ◌==◌, contains, All_of_contains, Dict, lookup, put, keys,
  contains-keys-put, Bool-cases,
}
use grace_mem.Spreading.{
  raw_edge_weight, Neighbor, Weights, Reach, arcs_of, reach, propagate, spread, initial, count_arcs,
  by_activation, activated, run,
}
use grace_mem.Spreading.Nodes.{
  Grows, Into, Into-Grows, AllInto, AllInto-Grows, Into-arcs_of, reach-IsReach, IsReach,
}

lookup-of-contains :
    {W : Type 0} (k : Text) (d : Dict Text W)
    → contains (keys d) k ≡ true
    → (v : W) × (lookup k d ≡ some v)
unfolding lookup contains
lookup-of-contains k [] h = absurd (cc h)
lookup-of-contains k ((j, v) ∷ d) h = elim (Bool-cases (j == k)) [
  | inl same ↦ (v, rw same refl)
  | inr other ↦
      let (u, hit) =
        lookup-of-contains k d
          (ground (arith, h, other, text_eq.beq_iff j k, text_eq.beq_iff k j)) in
      (u, rw (other, hit) refl)
]

module _ {W : Type 0} (w : Weights W) where
  -- The arcs of the nodes that are not visited yet.
  abbrev left : List Text → Dict Text (List (Text × W)) → ℕ
  left visited [] = 0
  left visited ((k, arcs) ∷ adj) =
      (if contains visited k then 0 else length arcs) + left visited adj

  left-fewer :
      (visited : List Text) (x : Text) (adj : Dict Text (List (Text × W)))
      → left (x ∷ visited) adj ≤ left visited adj
  unfolding contains
  left-fewer visited x [] = ground arith
  left-fewer visited x ((k, arcs) ∷ adj) = ground (arith, left-fewer visited x adj)

  left-visit :
      (visited : List Text) (x : Text) (adj : Dict Text (List (Text × W)))
      → contains visited x ≡ false
      → left (x ∷ visited) adj + length (arcs_of w adj x) ≤ left visited adj
  unfolding contains lookup
  left-visit visited x [] h = ground arith
  left-visit visited x ((k, arcs) ∷ adj) h = elim (Bool-cases (k == x)) [
    | inl same ↦
        let q = (text_eq.beq_iff k x).0 same in
        rw (same, arcs_of)
          (ground (arith, left-fewer visited x adj, same, h, ap (contains visited) q))
    | inr other ↦ rw (other, arcs_of) (ground (arith, left-visit visited x adj h, other))
  ]

  left_of_none : (adj : Dict Text (List (Text × W))) → left [] adj ≡ count_arcs w adj
  unfolding contains
  left_of_none [] = refl
  left_of_none ((k, arcs) ∷ adj) = ground (arith, left_of_none adj)

  -- The arcs of a node give activations for the same nodes and more, and a queue that is longer by as
  -- many nodes as there are arcs at most.
  abbrev Propagated :
      Dict Text W → List Text → List (Text × W) → Option (Dict Text W × List Text) → Type 0
  Propagated d queue arcs o =
      (d' : Dict Text W) × (queue' : List Text) × (o ≡ some (d', queue'))
      × Grows (keys d) (keys d')
      × All (λ e. contains (keys d') e ≡ true) queue'
      × (length queue' ≤ length queue + length arcs)

  all_known :
      (d d' : Dict Text W) (queue : List Text)
      → Grows (keys d) (keys d')
      → All (λ e. contains (keys d) e ≡ true) queue
      → All (λ e. contains (keys d') e ≡ true) queue
  all_known d d' [] g h = tt
  all_known d d' (e ∷ queue) g h = (g e h.0, all_known d d' queue g h.1)

  known_longer :
      (d e : Dict Text W) (target : Text) (queue : List Text) (b : Bool)
      → Grows (keys d) (keys e)
      → contains (keys e) target ≡ true
      → All (λ x. contains (keys d) x ≡ true) queue
      → All (λ x. contains (keys e) x ≡ true) (if b then queue else queue ++ (target ∷ []))
  known_longer d e target queue true g t q = all_known d e queue g q
  known_longer d e target queue false g t q =
      All-append (λ x. contains (keys e) x ≡ true) queue (target ∷ []) (all_known d e queue g q)
        (t, tt)

  propagate-Propagated :
      (node : Text) (visited : List Text) (d : Dict Text W) (queue : List Text)
      (arcs : List (Text × W))
      → contains (keys d) node ≡ true
      → Into w (keys d) arcs
      → All (λ e. contains (keys d) e ≡ true) queue
      → Propagated d queue arcs (propagate w node visited d queue arcs)
  unfolding propagate
  propagate-Propagated node visited d queue [] n h q = (d, queue, refl, λ a c. c, q, ground arith)
  propagate-Propagated node visited d queue ((target, weight) ∷ arcs) n h q =
      let (of_target, hit) = lookup-of-contains target d h.0 in
      let (of_node, here) = lookup-of-contains node d n in
      let e : Dict Text W =
        put target (w.smaller w.one_w (w.add of_target (w.mul weight of_node))) d in
      let more : List Text = if contains visited target then queue else queue ++ (target ∷ []) in
      let grow : Grows (keys d) (keys e) = λ a c. ground (
        arith,
        contains-keys-put target a (w.smaller w.one_w (w.add of_target (w.mul weight of_node))) d,
        c,
      ) in
      let here_too : contains (keys e) target ≡ true = ground (
        arith,
        contains-keys-put target target (w.smaller w.one_w (w.add of_target (w.mul weight of_node)))
            d,
        h.0,
      ) in
      let (d', queue', ran, grows, known, short) =
        propagate-Propagated node visited e more arcs (grow node n)
          (Into-Grows w (keys d) (keys e) grow arcs h.1)
          (known_longer d e target queue (contains visited target) grow here_too q) in
      (
        d',
        queue',
        rw (hit, here) ran,
        λ a c. grows a (grow a c),
        known,
        ground (arith, short, length-append queue (target ∷ [])),
      )

  -- The rounds suffice, whatever they compute.
  spread-total :
      (room : ℕ) (adj : Dict Text (List (Text × W))) (d : Dict Text W) (visited queue : List Text)
      → AllInto w (keys d) adj
      → All (λ e. contains (keys d) e ≡ true) queue
      → length queue + left visited adj ≤ room
      → (d' : Dict Text W) × (spread w room adj d visited queue ≡ some d')
  unfolding spread
  spread-total room adj d visited [] h q p = (d, refl)
  spread-total zero adj d visited (node ∷ queue) h q p = absurd (ground (arith, p))
  spread-total (suc room) adj d visited (node ∷ queue) h q p =
      elim (Bool-cases (contains visited node)) [
        | inl old ↦
            let (d', ran) = spread-total room adj d visited queue h q.1 (ground (arith, p)) in
            (d', rw (old, spread) ran)
        | inr new ↦
            let (d1, queue1, first, grows, known, short) =
              propagate-Propagated node (node ∷ visited) d queue (arcs_of w adj node) q.0
                (Into-arcs_of w (keys d) node adj h) q.1 in
            let (d', ran) =
              spread-total room adj d1 (node ∷ visited) queue1
                (AllInto-Grows w (keys d) (keys d1) grows adj h) known
                (ground (arith, p, short, left-visit visited node adj new)) in
            (d', rw (new, spread, first) ran)
      ]

  keys-zeros : (nodes : List Text) → keys (map (λ e. (e, w.zero_w)) nodes) ≡ nodes
  keys-zeros [] = refl
  keys-zeros (e ∷ nodes) = ap (◌∷◌ e) (keys-zeros nodes)

  ones-Grows :
      (seeds : List Text) (d : Dict Text W)
      → Grows (keys d) (keys (foldl (λ d e. put e w.one_w d) d seeds))
  ones-Grows [] d a c = c
  ones-Grows (s ∷ seeds) d a c =
      ones-Grows seeds (put s w.one_w d) a (ground (arith, contains-keys-put s a w.one_w d, c))

  initial-Grows : (nodes seeds : List Text) → Grows nodes (keys (initial w nodes seeds))
  unfolding initial
  initial-Grows nodes seeds a c =
      ones-Grows seeds (map (λ e. (e, w.zero_w)) nodes) a (rw (keys-zeros nodes) c)

  All_of_Grows :
      (xs ys : List Text)
      → Grows xs ys
      → (zs : List Text) → Grows zs xs
      → All (λ e. contains ys e ≡ true) zs
  All_of_Grows xs ys g zs f = All_of_contains (λ e. contains ys e ≡ true) zs (λ a c. g a (f a c))

  -- From any seeds, over any graph and any weights, the rounds end within the seeds and the arcs, no
  -- activation is asked for that is not there, and every entity of the result is above the threshold.
  pub run-total :
      (compare_by_id : Text → Option (Option W))
      (neighbors_of : List Text → Dict Text (List Neighbor)) (max_hops : ℕ) (seeds : List Text)
      → (result : Dict Text W) × (run w compare_by_id neighbors_of max_hops seeds ≡ some result)
        × All (λ e. w.gtb e.1 w.tau_a ≡ true) result
  unfolding run activated
  run-total compare_by_id neighbors_of max_hops seeds =
      let (d, ran) =
        spread-total (length seeds + count_arcs w r.adj_dict) r.adj_dict start [] seeds
          (AllInto-Grows w r.all_nodes (keys start) grows r.adj_dict reached.0)
          (All_of_Grows r.all_nodes (keys start) grows seeds reached.1)
          (ground (arith, left_of_none r.adj_dict)) in
      (
        activated w d,
        rw ran refl,
        All-sort_by (by_activation w) (λ e. w.gtb e.1 w.tau_a ≡ true)
            (filter (λ e. w.gtb e.1 w.tau_a) d)
            (All-filter (λ e. w.gtb e.1 w.tau_a ≡ true) (λ e. w.gtb e.1 w.tau_a) d (λ a m c. c)),
      )
    where
      r : Reach w
      r = reach w (raw_edge_weight w compare_by_id) neighbors_of max_hops seeds

      reached : IsReach w (raw_edge_weight w compare_by_id) neighbors_of seeds r
      reached = reach-IsReach w (raw_edge_weight w compare_by_id) neighbors_of max_hops seeds

      start : Dict Text W
      start = initial w r.all_nodes seeds

      grows : Grows r.all_nodes (keys start)
      grows = initial-Grows r.all_nodes seeds
