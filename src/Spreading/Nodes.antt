-- ===== src/Spreading/Nodes.antt =====
-- The expansion of the frontier: every arc that is kept leads to a node that was seen.
use grace_mem.Common.{
  ℕ, zero, suc, ◌≡◌, refl, ◌⊎◌, inl, inr, true, not, Option, List, [], ◌∷◌, ◌++◌, arith, All,
  All-append, Text, text_eq, ◌==◌, is_empty, contains, contains-append, contains-cons_self,
  contains-dedup, dedup, Dict, lookup, put, Bool-cases,
}
use grace_mem.Spreading.{Neighbor, Weights, Reach, arcs_of, scan, scan_nodes, hops, reach}

List-cases : (xs : List Text) → (xs ≡ []) ⊎ ((e : Text) × (es : List Text) × (xs ≡ e ∷ es))
List-cases [] = inl refl
List-cases (e ∷ es) = inr (e, es, refl)

abbrev pub Grows : List Text → List Text → Type 0
Grows xs ys = (a : Text) → contains xs a ≡ true → contains ys a ≡ true

module _ {W : Type 0} (w : Weights W) where
  -- Every arc leads to one of the nodes.
  abbrev pub Into : List Text → List (Text × W) → Type 0
  Into nodes arcs = All (λ a. contains nodes a.0 ≡ true) arcs

  abbrev pub AllInto : List Text → Dict Text (List (Text × W)) → Type 0
  AllInto nodes adj = All (λ e. Into nodes e.1) adj

  pub Into-Grows :
      (xs ys : List Text) → Grows xs ys → (arcs : List (Text × W)) → Into xs arcs → Into ys arcs
  Into-Grows xs ys g [] h = tt
  Into-Grows xs ys g (a ∷ arcs) h = (g a.0 h.0, Into-Grows xs ys g arcs h.1)

  pub AllInto-Grows :
      (xs ys : List Text)
      → Grows xs ys
      → (adj : Dict Text (List (Text × W))) → AllInto xs adj
      → AllInto ys adj
  AllInto-Grows xs ys g [] h = tt
  AllInto-Grows xs ys g (e ∷ adj) h = (Into-Grows xs ys g e.1 h.0, AllInto-Grows xs ys g adj h.1)

  AllInto-put :
      (nodes : List Text) (k : Text) (arcs : List (Text × W)) (adj : Dict Text (List (Text × W)))
      → Into nodes arcs
      → AllInto nodes adj
      → AllInto nodes (put k arcs adj)
  unfolding put
  AllInto-put nodes k arcs [] p h = (p, tt)
  AllInto-put nodes k arcs ((j, v) ∷ adj) p h = elim (Bool-cases (j == k)) [
    | inl same ↦ rw same (p, h.1)
    | inr other ↦ rw other (h.0, AllInto-put nodes k arcs adj p h.1)
  ]

  pub Into-arcs_of :
      (nodes : List Text) (k : Text) (adj : Dict Text (List (Text × W)))
      → AllInto nodes adj
      → Into nodes (arcs_of w adj k)
  unfolding lookup
  Into-arcs_of nodes k [] h = tt
  Into-arcs_of nodes k ((j, v) ∷ adj) h = elim (Bool-cases (j == k)) [
    | inl same ↦ rw (same, arcs_of) h.0
    | inr other ↦ rw (other, arcs_of) (Into-arcs_of nodes k adj h.1)
  ]

  Grows-snoc : (nodes : List Text) (x : Text) → Grows nodes (nodes ++ (x ∷ []))
  Grows-snoc nodes x a h = ground (arith, contains-append nodes (x ∷ []) a, h)

  module _ (raw_weight : Option Text → W)
      (neighbors_of : List Text → Dict Text (List Neighbor)) where
    abbrev ScanOk : List Text → List (Text × W) × List Text × List Text → Type 0
    ScanOk nodes (arcs, nodes', next) = Into nodes' arcs × Grows nodes nodes'

    scan-ScanOk :
        (arcs : List (Text × W)) (nodes next : List Text) (nbs : List Neighbor)
        → Into nodes arcs
        → ScanOk nodes (scan w raw_weight neighbors_of arcs nodes next nbs)
    unfolding scan
    scan-ScanOk arcs nodes next [] h = (h, λ a c. c)
    scan-ScanOk arcs nodes next (nb ∷ nbs) h = elim (Bool-cases (is_empty nb.neighbor_id)) [
      | inl blank ↦ rw blank (scan-ScanOk arcs nodes next nbs h)
      | inr named ↦ elim (Bool-cases (not (w.gtb (w.rescale (raw_weight nb.rel_id)) w.zero_w))) [
        | inl weak ↦ rw (named, weak) (scan-ScanOk arcs nodes next nbs h)
        | inr strong ↦ elim (Bool-cases (contains nodes nb.neighbor_id)) [
          | inl seen ↦
              rw (named, strong, seen)
                (scan-ScanOk (arcs ++ (arc ∷ [])) nodes next nbs
                  (All-append (λ a. contains nodes a.0 ≡ true) arcs (arc ∷ []) h (seen, tt)))
          | inr fresh ↦
              let (into, grows) =
                scan-ScanOk (arcs ++ (arc ∷ [])) more (next ++ (nb.neighbor_id ∷ [])) nbs (
                  All-append (λ a. contains more a.0 ≡ true) arcs (arc ∷ [])
                    (Into-Grows nodes more (Grows-snoc nodes nb.neighbor_id) arcs h) (last, tt)) in
              rw (named, strong, fresh) (into, λ a c. grows a (Grows-snoc nodes nb.neighbor_id a c))
        ]
      ]
    ]
      where
        arc : Text × W
        arc = (nb.neighbor_id, w.rescale (raw_weight nb.rel_id))

        more : List Text
        more = nodes ++ (nb.neighbor_id ∷ [])

        last : contains more nb.neighbor_id ≡ true
        last = ground (
          arith,
          contains-append nodes (nb.neighbor_id ∷ []) nb.neighbor_id,
          contains-cons_self nb.neighbor_id [],
        )

    -- The arcs lead to nodes that were seen, and none of the nodes given is lost.
    abbrev pub IsReach : List Text → Reach w → Type 0
    IsReach nodes r = AllInto r.all_nodes r.adj_dict × Grows nodes r.all_nodes

    scan_nodes-IsReach :
        (nodes : List Text) (r : Reach w) (d : Dict Text (List Neighbor))
        → IsReach nodes r
        → IsReach nodes (scan_nodes w raw_weight neighbors_of r d)
    unfolding scan_nodes
    scan_nodes-IsReach nodes r [] h = h
    scan_nodes-IsReach nodes r ((eid, nbs) ∷ d) h =
        let (into, grows) = scan-ScanOk [] r.all_nodes r.frontier nbs tt in
        scan_nodes-IsReach nodes
          (record {
            adj_dict = put eid (arcs_of w r.adj_dict eid ++ found.0) r.adj_dict;
            all_nodes = found.1;
            frontier = found.2;
          })
          d
          (
            AllInto-put found.1 eid (arcs_of w r.adj_dict eid ++ found.0) r.adj_dict
                (All-append (λ a. contains found.1 a.0 ≡ true) (arcs_of w r.adj_dict eid) found.0
                  (Into-Grows r.all_nodes found.1 grows (arcs_of w r.adj_dict eid)
                    (Into-arcs_of r.all_nodes eid r.adj_dict h.0))
                  into)
                (AllInto-Grows r.all_nodes found.1 grows r.adj_dict h.0),
            λ a c. grows a (h.1 a c),
          )
      where
        found : List (Text × W) × List Text × List Text
        found = scan w raw_weight neighbors_of [] r.all_nodes r.frontier nbs

    hops-IsReach :
        (nodes : List Text) (n : ℕ) (r : Reach w)
        → IsReach nodes r
        → IsReach nodes (hops w raw_weight neighbors_of n r)
    unfolding hops
    hops-IsReach nodes zero r h = h
    hops-IsReach nodes (suc n) r h = elim (List-cases r.frontier) [
      | inl over ↦ rw (over, hops) h
      | inr (e, es, more) ↦
          rw (more, hops)
            (hops-IsReach nodes n
              (scan_nodes w raw_weight neighbors_of (record r { frontier = [] })
                (neighbors_of (e ∷ es)))
              (scan_nodes-IsReach nodes (record r { frontier = [] }) (neighbors_of (e ∷ es)) h))
    ]

    -- What the expansion reaches has every seed and the end of every arc among its nodes.
    pub reach-IsReach :
        (max_hops : ℕ) (seeds : List Text)
        → IsReach seeds (reach w raw_weight neighbors_of max_hops seeds)
    unfolding reach
    reach-IsReach max_hops seeds =
        hops-IsReach seeds max_hops
          (record { adj_dict = []; all_nodes = dedup seeds; frontier = seeds })
          (tt, λ a c. ground (arith, contains-dedup seeds a, c))
