-- ===== src/Relations.antt =====
-- grace_mem/ingestion/managers/relationship_manager.py: the upsert of extracted relationships, and
-- `canonical_rel_id` of grace_mem/data_model/relationships.py. `slugify` stands for `_slugify`, a
-- regular expression. A meta in `input2resolved` is not empty; one whose id is not a str has id `none`.
-- The writes to the vector store and the graph follow the loop and take its result.
use grace_mem.Common.{
  ℕ, ◌+◌, ◌≡◌, ◌↔◌, refl, arith, Bool, true, false, not, ◌&&◌, ◌||◌, Option, none, some, List, [],
  ◌∷◌, ◌++◌, map, if◌then◌else◌, Eq, nat_eq, Text, text_eq, list_beq, list_beq_iff, ◌==◌, codes,
  contains, strip, is_empty, has_substring, String, dedup, filter, Dict, lookup, put, keys,
}
use grace_mem.Provenance.{Ident, word, RawEvent, ProvEvent, Prov, absent, events, merge_prov}
pub mod Twice

pub record EntityMeta : Type 0 where
  pub id : Option Text
  pub name : Option Text
  pub kind : Option Text

pub record Relationship : Type 0 where
  pub source_entity : Text
  pub target_entity : Text
  pub relationship_description : Text
  pub relationship_keywords : Text

pub record RelationMeta : Type 0 where
  pub id : Text
  pub source_entity : Option Text
  pub target_entity : Option Text
  pub description : Text
  pub keywords : Text
  pub source_id : Text
  pub target_id : Text
  pub source_type : Option Text
  pub target_type : Option Text
  pub prov : Prov

-- RelKeyST and RelKeySTD.
abbrev pub Pair : Type 0
Pair = Text × Text

abbrev pub Statement : Type 0
Statement = Text × Text × Text

unfoldable pub pair_beq : Pair → Pair → Bool
pair_beq (a, b) (x, y) = list_beq a x && list_beq b y

pub pair_beq_iff : (a b : Pair) → (pair_beq a b ≡ true) ↔ (a ≡ b)
unfolding pair_beq
pair_beq_iff (a, b) (x, y) = (
  λ h. ground (arith, list_beq_iff a x, list_beq_iff b y),
  λ h. ground (arith, list_beq_iff a x, list_beq_iff b y),
)

instance abbrev pub pair_eq : Eq Pair
pair_eq = record { beq = pair_beq; beq_iff = pair_beq_iff }

unfoldable pub statement_beq : Statement → Statement → Bool
statement_beq (a, b, c) (x, y, z) = list_beq a x && (list_beq b y && list_beq c z)

pub statement_beq_iff : (a b : Statement) → (statement_beq a b ≡ true) ↔ (a ≡ b)
unfolding statement_beq
statement_beq_iff (a, b, c) (x, y, z) = (
  λ h. ground (arith, list_beq_iff a x, list_beq_iff b y, list_beq_iff c z),
  λ h. ground (arith, list_beq_iff a x, list_beq_iff b y, list_beq_iff c z),
)

instance abbrev pub statement_eq : Eq Statement
statement_eq = record { beq = statement_beq; beq_iff = statement_beq_iff }

-- `input2resolved`, by (name, type).
abbrev pub Resolved : Type 0
Resolved = Dict (Text × Text) EntityMeta

scan_name : Text → Resolved → Option EntityMeta
scan_name name [] = none
scan_name name (((in_name, _), meta) ∷ d) = if in_name == name then some meta else scan_name name d

-- `_resolve_via_input2resolved`: the first entity with the name, whatever its type.
unfoldable pub resolve_via_input2resolved : Text → Resolved → Option EntityMeta
unfolding scan_name
resolve_via_input2resolved name d = if is_empty name then none else scan_name name d

-- `_check_mappings`
unfoldable pub check_mappings : List Relationship → Resolved → List Text
check_mappings rels d = dedup (
    filter (λ s. not (contains (map (λ e. strip e.0.0) d) s))
      (map (λ r. strip r.source_entity) rels ++ map (λ r. strip r.target_entity) rels))

-- The endpoints of an edge that is not skipped.
pub record Ends : Type 0 where
  pub src_meta : EntityMeta
  pub tgt_meta : EntityMeta
  pub sid : Text
  pub tid : Text

unfoldable pub with_ids : EntityMeta → EntityMeta → Option Text → Option Text → Option Ends
with_ids s t (some sid) (some tid) =
    some (record { src_meta = s; tgt_meta = t; sid = sid; tid = tid })
with_ids s t (some sid) none = none
with_ids s t none tid = none

unfoldable pub ends_of : Resolved → Relationship → Option Ends
unfolding resolve_via_input2resolved with_ids
ends_of d r = elim (resolve_via_input2resolved r.source_entity d) [
  | none ↦ none
  | some s ↦ elim (resolve_via_input2resolved r.target_entity d) [
    | none ↦ none
    | some t ↦ with_ids s t s.id t.id
  ]
]

abbrev pub statement_of : Ends → Relationship → Statement
statement_of e r = (e.sid, e.tid, r.relationship_description)

-- `f"{old}{glue}{new}"` where the new text is neither empty nor in the old one already.
unfoldable pub merge_text : String → Text → Text → Text
merge_text glue old new =
    if is_empty new || has_substring old new
    then old
    else (if is_empty old then new else old ++ (codes glue ++ new))

-- The merged events as a blob.
unfoldable pub as_raw : ProvEvent → RawEvent
as_raw e = record {
  ts = some e.ts;
  summary_id = e.summary_id;
  session_id = elim e.session_id [ none ↦ none | some s ↦ some (word s) ];
  session_id_spaced = none;
  sess_id = none;
  message_id = elim e.message_id [ none ↦ none | some m ↦ some (word m) ];
  msg_id = none;
  dialogue_datetime = e.dialogue_datetime;
}

-- The two caches, and what one upsert gathers.
pub record Work : Type 0 where
  pub processed : Dict Pair RelationMeta
  pub processed_full : Dict Statement RelationMeta
  pub metas : List RelationMeta
  pub skipped : ℕ

module _ (slugify : Text → Text) where
  unfoldable pub canonical_rel_id : Text → Text → Text
  canonical_rel_id sid tid = slugify (sid ++ (codes "::" ++ tid))

  -- The record that is written: merged into the one of the pair, if there is one.
  unfoldable pub meta_of : Prov → Ends → Relationship → Option RelationMeta → RelationMeta
  unfolding canonical_rel_id merge_text as_raw
  meta_of provenance e r existing = record {
    id = canonical_rel_id e.sid e.tid;
    source_entity = e.src_meta.name;
    target_entity = e.tgt_meta.name;
    description = elim existing [
      | none ↦ r.relationship_description
      | some old ↦ merge_text "; " old.description r.relationship_description
    ];
    keywords = elim existing [
      | none ↦ r.relationship_keywords
      | some old ↦ merge_text ", " old.keywords r.relationship_keywords
    ];
    source_id = e.sid;
    target_id = e.tid;
    source_type = e.src_meta.kind;
    target_type = e.tgt_meta.kind;
    prov = events (
        map as_raw (merge_prov (elim existing [ none ↦ absent | some old ↦ old.prov ]) provenance));
  }

  -- A statement that is new to the caches.
  unfoldable pub write : Prov → Ends → Relationship → Work → Work
  unfolding meta_of
  write provenance e r w =
      let meta = meta_of provenance e r (lookup (e.sid, e.tid) w.processed) in
      record w {
        processed = put (e.sid, e.tid) meta w.processed;
        processed_full = put (statement_of e r) meta w.processed_full;
        metas = w.metas ++ (meta ∷ []);
      }

  -- One round of the loop.
  unfoldable pub upsert_one : Resolved → Prov → Work → Relationship → Work
  unfolding ends_of write
  upsert_one d provenance w r = elim (ends_of d r) [
    | none ↦ record w { skipped = w.skipped + 1 }
    | some e ↦
        if contains (keys w.processed_full) (statement_of e r) then w else write provenance e r w
  ]

  unfoldable pub upsert_loop : Resolved → Prov → Work → List Relationship → Work
  unfolding upsert_one
  upsert_loop d provenance w [] = w
  upsert_loop d provenance w (r ∷ rels) =
      upsert_loop d provenance (upsert_one d provenance w r) rels

  -- `upsert_from_extraction` on the caches, up to the writes to the stores.
  unfoldable pub upsert_from_extraction : Resolved → Prov → Work → List Relationship → Work
  unfolding upsert_loop
  upsert_from_extraction d provenance w rels =
      upsert_loop d provenance (record w { metas = []; skipped = 0 }) rels
