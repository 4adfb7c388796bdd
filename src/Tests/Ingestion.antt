-- ===== src/Tests/Ingestion.antt =====
-- Runs of the relationship manager, grace_mem/ingestion/managers, and of the sparse index.
use grace_mem.Common.{none, some, List, [], ◌∷◌, Text, codes, ℕ, length, map}
use grace_mem.Provenance.{Prov, absent, flat}
use grace_mem.Relations.{Relationship, Resolved, Work, upsert_from_extraction}
use grace_mem.Relations.Twice.{IsSame, upsert_from_extraction-twice}
use grace_mem.SparseIndex.{Index, Tokens, fresh, add}

abbrev slugify : Text → Text
slugify s = s

abbrev resolved : Resolved
resolved =
    (
      (codes "Mel", codes "person"),
      record { id = some (codes "m"); name = some (codes "Mel"); kind = some (codes "person") },
    )
    ∷ (
      (codes "Art", codes "topic"),
      record { id = some (codes "a"); name = some (codes "Art"); kind = some (codes "topic") },
    )
    ∷ []

abbrev rels : List Relationship
rels =
    record {
      source_entity = codes "Mel";
      target_entity = codes "Art";
      relationship_description = codes "likes";
      relationship_keywords = codes "hobby";
    }
    ∷ []

abbrev empty : Work
empty = record { processed = []; processed_full = []; metas = []; skipped = 0 }

abbrev later : Prov
later = flat (codes "s:2" ∷ []) none none none

upsert_from_extraction-twice_example :
    IsSame slugify resolved
      (upsert_from_extraction slugify resolved later
        (upsert_from_extraction slugify resolved absent empty rels)
        rels)
      (record (upsert_from_extraction slugify resolved absent empty rels) { metas = [] })
upsert_from_extraction-twice_example =
    upsert_from_extraction-twice slugify resolved absent later empty rels

-- An index that keeps its documents and counts tokens.
abbrev okapi : List Tokens → List Tokens
okapi docs = docs

abbrev lengths : List Tokens → Tokens → List ℕ
lengths docs q = map length docs

abbrev one_entity : Index ℕ (List Tokens)
one_entity = add okapi fresh (codes "mel" ∷ []) (codes "a" ∷ codes "painter" ∷ []) 7
