-- ===== src/Ranking.antt =====
-- grace_mem/retrieval/ranking/filter.py and `build_id_to_meta_maps` of grace_mem/services/cache/cache.py.
-- The scores come from a reranker: `score_all` for a list of texts. The code writes the selection
-- twice, for entities and for relationships; it is one definition here. Log lines are left out.
use grace_mem.Common.{
  ℕ, zero, suc, ◌+◌, Bool, true, false, not, ◌&&◌, ◌||◌, Option, none, some, List, [], ◌∷◌, ◌++◌,
  map, if◌then◌else◌, take, filter, is_nil, get_elem?, Text, text_eq, codes, strip, is_empty,
  contains, dedup, Dict, lookup, put, values, keys, foldl, ◌>>=◌,
}
use grace_mem.Reranker.{rank_pairs}
pub mod Chosen

pub record EntityMeta : Type 0 where
  pub id : Text
  pub name : Text
  pub kind : Text
  pub description : Text

pub record RelationMeta : Type 0 where
  pub id : Text
  pub source_entity : Text
  pub target_entity : Text
  pub description : Text
  pub keywords : Text

-- The records of the cache by id; one without an id is skipped, and the last one of an id stays.
unfoldable pub by_id : {M : Type 0} → (M → Text) → List M → Dict Text M
by_id id ms = foldl (λ d m. if is_empty (id m) then d else put (id m) m d) [] ms

unfoldable pub build_id_to_meta_maps :
    Dict Text EntityMeta → Dict Text RelationMeta → Dict Text EntityMeta × Dict Text RelationMeta
unfolding by_id
build_id_to_meta_maps entities relationships =
    (by_id (λ m. m.id) (values entities), by_id (λ m. m.id) (values relationships))

-- A neighbour of a node of the local subgraph; its relationship may be missing.
pub record Neighbor : Type 0 where
  pub neighbor_id : Text
  pub rel_id : Option Text

pub record Edge : Type 0 where
  pub source_id : Text
  pub target_id : Text
  pub rel_id : Text

unfoldable pub neighbors : Dict Text (List Neighbor) → List Neighbor
neighbors [] = []
neighbors ((_, nbs) ∷ d) = nbs ++ neighbors d

unfoldable pub rel_ids : List Neighbor → List Text
rel_ids [] = []
rel_ids (nb ∷ nbs) = elim nb.rel_id [ none ↦ rel_ids nbs | some r ↦ r ∷ rel_ids nbs ]

-- The union of two sets, and their intersection.
unfoldable pub union : List Text → List Text → List Text
union xs ys = dedup (xs ++ ys)

unfoldable pub intersection : List Text → List Text → List Text
intersection xs ys = filter (contains ys) (dedup xs)

unfoldable pub compute_subgraph_intersection :
    Dict Text (List Neighbor) → List Edge → Bool → List Text × List Text
unfolding neighbors rel_ids union intersection
compute_subgraph_intersection nodes edges use_union =
    let nbs = neighbors nodes in
    let local_entities = union (keys nodes) (map (λ nb. nb.neighbor_id) nbs) in
    let local_rels = rel_ids nbs in
    let global_entities = union (map (λ e. e.source_id) edges) (map (λ e. e.target_id) edges) in
    let global_rels = map (λ e. e.rel_id) edges in
    if use_union || is_nil edges
    then (union local_entities global_entities, union local_rels global_rels)
    else (intersection local_entities global_entities, intersection local_rels global_rels)

unfoldable pub entity_text : EntityMeta → Text
entity_text m =
    let name = strip m.name in
    let kind = strip m.kind in
    let description = strip m.description in
    if is_empty name
    then strip (kind ++ codes " " ++ description)
    else strip (name ++ codes " [type=" ++ kind ++ codes "] " ++ description)

unfoldable pub relation_name : RelationMeta → Text
relation_name m = m.source_entity ++ codes " -> " ++ m.target_entity

unfoldable pub relation_text : RelationMeta → Text
unfolding relation_name
relation_text m =
    relation_name m
    ++ codes " | "
    ++ m.description
    ++ codes " (keywords: "
    ++ m.keywords
    ++ codes ")"

-- The ids that have a record, each with the text that is scored.
unfoldable pub candidates : {M : Type 0} → (M → Text) → Dict Text M → List Text → List (Text × Text)
candidates text metas [] = []
candidates text metas (i ∷ ids) = elim (lookup i metas) [
  | none ↦ candidates text metas ids
  | some m ↦ (i, text m) ∷ candidates text metas ids
]

pub data DropReason : Type 0 where
  selected : DropReason
  topk_cutoff : DropReason
  below_threshold : DropReason

-- A row of the score file, its score before the rounding; what is the same for each row of a run
-- is left out.
pub record Row (S : Type 0) : Type 0 where
  pub item_id : Text
  pub name : Text
  pub score : S
  pub rank : ℕ
  pub above_threshold : Bool
  pub is_selected : Bool
  pub drop_reason : DropReason

unfoldable pub reason : Bool → Bool → DropReason
reason true above = selected
reason false true = topk_cutoff
reason false false = below_threshold

module _ {S : Type 0} (geb : S → S → Bool) (score_all : List Text → List S) where
  -- `ids[idx]` for each pair; `none` is an IndexError.
  unfoldable pub ids_at : List Text → List (ℕ × S) → Option (List Text)
  ids_at ids [] = some []
  ids_at ids ((i, s) ∷ ps) = do id ← get_elem? ids i; rest ← ids_at ids ps; some (id ∷ rest)

  unfoldable pub row_of : (Text → Text) → S → List Text → ℕ → Text → S → Row S
  unfolding reason
  row_of label threshold top rank id s = record {
    item_id = id;
    name = label id;
    score = s;
    rank = rank;
    above_threshold = geb s threshold;
    is_selected = contains top id;
    drop_reason = reason (contains top id) (geb s threshold);
  }

  unfoldable pub rows_from :
      (Text → Text) → S → List Text → List Text → ℕ → List (ℕ × S) → Option (List (Row S))
  unfolding row_of
  rows_from label threshold ids top rank [] = some []
  rows_from label threshold ids top rank ((i, s) ∷ ps) = do
    id ← get_elem? ids i
    rest ← rows_from label threshold ids top (rank + 1) ps
    some (row_of label threshold top rank id s ∷ rest)

  -- One half of `rerank_filter`: the ids that are selected, in the order of their ranks, and the rows.
  unfoldable pub select :
      (Text → Text) → S → ℕ → List (Text × Text) → Option (List Text × List (Row S))
  unfolding ids_at rows_from
  select label threshold top_k cands =
      let ids = map (λ c. c.0) cands in
      let all_results = rank_pairs geb score_all (map (λ c. c.1) cands) none in
      let passing = filter (λ r. geb r.1 threshold) all_results in
      do
        top ← ids_at ids (take top_k passing)
        rows ← rows_from label threshold ids top 1 all_results
        some (dedup top, rows)

  -- `meta.get("name", eid)`
  unfoldable pub entity_label : Dict Text EntityMeta → Text → Text
  entity_label metas i = elim (lookup i metas) [ none ↦ i | some m ↦ m.name ]

  unfoldable pub relation_label : Dict Text RelationMeta → Text → Text
  unfolding relation_name
  relation_label metas i = elim (lookup i metas) [ none ↦ codes " -> " | some m ↦ relation_name m ]

  unfoldable pub rerank_filter :
      Dict Text EntityMeta
      → Dict Text RelationMeta
      → List Text
      → List Text
      → ℕ
      → ℕ
      → S
      → Option ((List Text × List Text) × List (Row S))
  unfolding candidates entity_text relation_text select entity_label relation_label
  rerank_filter entities relationships entity_ids relationship_ids entity_top_k relationship_top_k
        threshold =
      do
        (es, e_rows) ←
            select (entity_label entities) threshold entity_top_k
              (candidates entity_text entities entity_ids)
        (rs, r_rows) ←
            select (relation_label relationships) threshold relationship_top_k
              (candidates relation_text relationships relationship_ids)
        some ((es, rs), e_rows ++ r_rows)
