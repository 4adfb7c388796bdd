-- ===== src/SparseIndex.antt =====
-- grace_mem/services/sparse_index/bm25.py: `EntitiesBM25`. The third-party index is `okapi`, fitted
-- to a list of documents (that its constructor may raise, as on a corpus without words, is left out), and `scores_of`, its scores for a query; `M` stands for the metadata.
-- `Saved` is what the pickle file holds.
use grace_mem.Common.{Option, none, some, List, [], ◌∷◌, ◌++◌, Text, ℕ, length}
pub mod Lockstep

abbrev pub Tokens : Type 0
Tokens = List Text

pub record Saved (M : Type 0) : Type 0 where
  pub docs_name : List Tokens
  pub docs_desc : List Tokens
  pub metas : List M

pub record Index (M B : Type 0) : Type 0 where
  pub docs_name : List Tokens
  pub docs_desc : List Tokens
  pub bm25_name : Option B
  pub bm25_desc : Option B
  pub metas : List M

-- `EntitiesBM25()`
abbrev pub fresh : {M B : Type 0} → Index M B
fresh = record { docs_name = []; docs_desc = []; bm25_name = none; bm25_desc = none; metas = [] }

abbrev pub size : {M B : Type 0} → Index M B → ℕ
size i = length i.metas

unfoldable pub save : {M B : Type 0} → Index M B → Saved M
save i = record { docs_name = i.docs_name; docs_desc = i.docs_desc; metas = i.metas }

module _ {B : Type 0} (okapi : List Tokens → B) where
  -- `BM25Okapi(docs) if docs else BM25Okapi([[]])`
  unfoldable pub fit : List Tokens → B
  fit [] = okapi ([] ∷ [])
  fit (d ∷ docs) = okapi (d ∷ docs)

module _ {M B : Type 0} (okapi : List Tokens → B) where
  unfoldable pub build : Index M B → Index M B
  unfolding fit
  build i = record i {
    bm25_name = some (fit okapi i.docs_name);
    bm25_desc = some (fit okapi i.docs_desc);
  }

  unfoldable pub add : Index M B → Tokens → Tokens → M → Index M B
  unfolding build
  add i tokens_name tokens_desc meta = build (record i {
    docs_name = i.docs_name ++ (tokens_name ∷ []);
    docs_desc = i.docs_desc ++ (tokens_desc ∷ []);
    metas = i.metas ++ (meta ∷ []);
  })

  -- Both indexes, built first where one of them is missing.
  unfoldable pub built : Index M B → Option B → Option B → (B × B) × Index M B
  unfolding build
  built i (some n) (some d) = ((n, d), i)
  built i none d = ((fit okapi i.docs_name, fit okapi i.docs_desc), build i)
  built i (some n) none = ((fit okapi i.docs_name, fit okapi i.docs_desc), build i)

  unfoldable pub load : Saved M → Index M B
  unfolding build
  load s = build (record {
    docs_name = s.docs_name;
    docs_desc = s.docs_desc;
    bm25_name = none;
    bm25_desc = none;
    metas = s.metas;
  })

module _ {M B S : Type 0} (okapi : List Tokens → B) (scores_of : B → Tokens → List S) where
  -- The scores, and the index that is left.
  unfoldable pub get_scores : Index M B → Tokens → (List S × List S) × Index M B
  unfolding built
  get_scores i q =
      let ((n, d), j) = built okapi i i.bm25_name i.bm25_desc in ((scores_of n q, scores_of d q), j)

  -- An index that additions make out of the new one, with queries and reloads between them.
  pub data Reached : Index M B → Type 0 where
    new : Reached fresh
    added : {i : Index M B} → Reached i → (n d : Tokens) (m : M) → Reached (add okapi i n d m)
    queried : {i : Index M B} → Reached i → (q : Tokens) → Reached (get_scores i q).1
    reloaded : {i : Index M B} → Reached i → Reached (load okapi (save i))
