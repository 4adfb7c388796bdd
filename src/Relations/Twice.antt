-- ===== src/Relations/Twice.antt =====
-- The same extraction result again: what it leaves in the caches.
use grace_mem.Common.{
  ◌+◌, ◌≡◌, refl, ◌∙◌, ◌⊎◌, inl, inr, true, false, ◌||◌, none, some, List, [], ◌∷◌, arith, All,
  Text, ◌==◌, contains, contains-keys-put, beq_refl, Dict, keys, lookup, Bool-cases, Option-cases,
}
use grace_mem.Provenance.{Prov}
use grace_mem.Relations.{
  Relationship, RelationMeta, Resolved, Ends, Work, Statement, statement_eq, pair_eq, ends_of,
  statement_of, write, meta_of, upsert_one, upsert_loop, upsert_from_extraction,
}

module _ (slugify : Text → Text) (d : Resolved) where
  -- The edge is skipped, or its statement is in the cache.
  abbrev IsDone : Dict Statement RelationMeta → Relationship → Type 0
  IsDone full r =
      (ends_of d r ≡ none)
      ⊎ ((e : Ends) × (ends_of d r ≡ some e) × (contains (keys full) (statement_of e r) ≡ true))

  upsert_one_skip :
      (provenance : Prov) (w : Work) (r : Relationship)
      → ends_of d r ≡ none
      → upsert_one slugify d provenance w r ≡ record w { skipped = w.skipped + 1 }
  unfolding upsert_one
  upsert_one_skip provenance w r skip = rw (skip, upsert_one) refl

  upsert_one_old :
      (provenance : Prov) (w : Work) (r : Relationship) (e : Ends)
      → ends_of d r ≡ some e
      → contains (keys w.processed_full) (statement_of e r) ≡ true
      → upsert_one slugify d provenance w r ≡ w
  unfolding upsert_one
  upsert_one_old provenance w r e found old = rw (found, upsert_one, old) refl

  upsert_one_new :
      (provenance : Prov) (w : Work) (r : Relationship) (e : Ends)
      → ends_of d r ≡ some e
      → contains (keys w.processed_full) (statement_of e r) ≡ false
      → upsert_one slugify d provenance w r ≡ write slugify provenance e r w
  unfolding upsert_one
  upsert_one_new provenance w r e found new = rw (found, upsert_one, new) refl

  contains-keys-write :
      (provenance : Prov) (e : Ends) (r : Relationship) (w : Work) (s : Statement)
      → contains (keys (write slugify provenance e r w).processed_full) s
        ≡ (contains (keys w.processed_full) s || (s == statement_of e r))
  unfolding write
  contains-keys-write provenance e r w s =
      contains-keys-put (statement_of e r) s
        (meta_of slugify provenance e r (lookup (e.sid, e.tid) w.processed)) w.processed_full

  upsert_one-keeps :
      (provenance : Prov) (w : Work) (r q : Relationship)
      → IsDone w.processed_full q
      → IsDone (upsert_one slugify d provenance w r).processed_full q
  upsert_one-keeps provenance w r q (inl lost) = inl lost
  upsert_one-keeps provenance w r q (inr (f, hit, known)) = elim (Option-cases (ends_of d r)) [
    | inl skip ↦ rw (upsert_one_skip provenance w r skip) (inr (f, hit, known))
    | inr (e, found) ↦ elim (Bool-cases (contains (keys w.processed_full) (statement_of e r))) [
      | inl old ↦ rw (upsert_one_old provenance w r e found old) (inr (f, hit, known))
      | inr new ↦
          rw (upsert_one_new provenance w r e found new)
            (inr (f, hit, rw (contains-keys-write provenance e r w (statement_of f q), known) refl))
    ]
  ]

  upsert_one-IsDone :
      (provenance : Prov) (w : Work) (r : Relationship)
      → IsDone (upsert_one slugify d provenance w r).processed_full r
  upsert_one-IsDone provenance w r = elim (Option-cases (ends_of d r)) [
    | inl skip ↦ inl skip
    | inr (e, found) ↦ elim (Bool-cases (contains (keys w.processed_full) (statement_of e r))) [
      | inl old ↦ rw (upsert_one_old provenance w r e found old) (inr (e, found, old))
      | inr new ↦ rw (upsert_one_new provenance w r e found new) (
          inr (
            e,
            found,
            ground (
              arith,
              contains-keys-write provenance e r w (statement_of e r),
              beq_refl (statement_of e r),
            ),
          ))
    ]
  ]

  upsert_loop-keeps :
      (provenance : Prov) (w : Work) (rels : List Relationship) (q : Relationship)
      → IsDone w.processed_full q
      → IsDone (upsert_loop slugify d provenance w rels).processed_full q
  unfolding upsert_loop
  upsert_loop-keeps provenance w [] q h = h
  upsert_loop-keeps provenance w (r ∷ rels) q h =
      upsert_loop-keeps provenance (upsert_one slugify d provenance w r) rels q
        (upsert_one-keeps provenance w r q h)

  upsert_loop-IsDone :
      (provenance : Prov) (w : Work) (rels : List Relationship)
      → All (IsDone (upsert_loop slugify d provenance w rels).processed_full) rels
  unfolding upsert_loop
  upsert_loop-IsDone provenance w [] = tt
  upsert_loop-IsDone provenance w (r ∷ rels) = (
    upsert_loop-keeps provenance (upsert_one slugify d provenance w r) rels r
        (upsert_one-IsDone provenance w r),
    upsert_loop-IsDone provenance (upsert_one slugify d provenance w r) rels,
  )

  -- The caches and the result of one upsert are those of the other.
  abbrev pub IsSame : Work → Work → Type 0
  IsSame v w =
      (v.processed ≡ w.processed) × (v.processed_full ≡ w.processed_full) × (v.metas ≡ w.metas)

  upsert_one-IsSame :
      (provenance : Prov) (w : Work) (r : Relationship)
      → IsDone w.processed_full r
      → IsSame (upsert_one slugify d provenance w r) w
  unfolding upsert_one
  upsert_one-IsSame provenance w r (inl skip) =
      rw (upsert_one_skip provenance w r skip) (refl, refl, refl)
  upsert_one-IsSame provenance w r (inr (e, found, known)) =
      rw (upsert_one_old provenance w r e found known) (refl, refl, refl)

  all-IsDone :
      (v w : Dict Statement RelationMeta) (rels : List Relationship)
      → v ≡ w
      → All (IsDone w) rels
      → All (IsDone v) rels
  all-IsDone v w rels q h = rw q h

  upsert_loop-IsSame :
      (provenance : Prov) (w : Work) (rels : List Relationship)
      → All (IsDone w.processed_full) rels
      → IsSame (upsert_loop slugify d provenance w rels) w
  unfolding upsert_loop
  upsert_loop-IsSame provenance w [] h = (refl, refl, refl)
  upsert_loop-IsSame provenance w (r ∷ rels) h =
      let (p, full, metas) = upsert_one-IsSame provenance w r h.0 in
      let (p', full', metas') =
        upsert_loop-IsSame provenance (upsert_one slugify d provenance w r) rels (
          all-IsDone (upsert_one slugify d provenance w r).processed_full w.processed_full rels full
            h.1) in
      (p' ∙ p, full' ∙ full, metas' ∙ metas)

  -- Upserting the same relationships a second time, from whatever origin, writes no record and
  -- leaves both caches as the first time left them: it adds no provenance either.
  pub upsert_from_extraction-twice :
      (first second : Prov) (w : Work) (rels : List Relationship)
      → IsSame
          (upsert_from_extraction slugify d second
            (upsert_from_extraction slugify d first w rels)
            rels)
          (record (upsert_from_extraction slugify d first w rels) { metas = [] })
  unfolding upsert_from_extraction
  upsert_from_extraction-twice first second w rels =
      upsert_loop-IsSame second (record done { metas = []; skipped = 0 }) rels
        (upsert_loop-IsDone first (record w { metas = []; skipped = 0 }) rels)
    where
      done : Work
      done = upsert_loop slugify d first (record w { metas = []; skipped = 0 }) rels
