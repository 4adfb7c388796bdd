-- ===== src/SparseIndex/Lockstep.antt =====
-- The lists of the sparse index stay aligned.
use grace_mem.Common.{
  ◌≡◌, refl, arith, Option, none, some, List, [], ◌∷◌, ◌++◌, length, length-append, inl, inr, ◌⊎◌,
}
use grace_mem.SparseIndex.{
  Tokens, Index, fit, build, add, built, get_scores, save, load, Reached, new, added, queried,
  reloaded,
}

module _ {M B S : Type 0} (okapi : List Tokens → B) (scores_of : B → Tokens → List S) where
  -- The three lists are of one length, and an index that is there is fitted to its documents.
  pub record IsAligned (i : Index M B) : Type 0 where
    pub names : length i.docs_name ≡ length i.metas
    pub descs : length i.docs_desc ≡ length i.metas
    pub fitted_name : (i.bm25_name ≡ none) ⊎ (i.bm25_name ≡ some (fit okapi i.docs_name))
    pub fitted_desc : (i.bm25_desc ≡ none) ⊎ (i.bm25_desc ≡ some (fit okapi i.docs_desc))

  build-IsAligned :
      (i : Index M B)
      → length i.docs_name ≡ length i.metas
      → length i.docs_desc ≡ length i.metas
      → IsAligned (build okapi i)
  unfolding build
  build-IsAligned i names descs = record {
    names = names;
    descs = descs;
    fitted_name = inr refl;
    fitted_desc = inr refl;
  }

  add-IsAligned :
      (i : Index M B) (n d : Tokens) (m : M) → IsAligned i → IsAligned (add okapi i n d m)
  unfolding add
  add-IsAligned i n d m h =
      build-IsAligned
        (record i {
          docs_name = i.docs_name ++ (n ∷ []);
          docs_desc = i.docs_desc ++ (d ∷ []);
          metas = i.metas ++ (m ∷ []);
        })
        (ground
          (arith, length-append i.docs_name (n ∷ []), length-append i.metas (m ∷ []), h.names))
        (ground
          (arith, length-append i.docs_desc (d ∷ []), length-append i.metas (m ∷ []), h.descs))

  built-IsAligned : (i : Index M B) (n d : Option B) → IsAligned i → IsAligned (built okapi i n d).1
  unfolding built
  built-IsAligned i (some n) (some d) h = h
  built-IsAligned i none d h = build-IsAligned i h.names h.descs
  built-IsAligned i (some n) none h = build-IsAligned i h.names h.descs

  pub Reached-IsAligned : (i : Index M B) → Reached okapi scores_of i → IsAligned i
  unfolding get_scores load save
  Reached-IsAligned _ new = record {
    names = refl;
    descs = refl;
    fitted_name = inl refl;
    fitted_desc = inl refl;
  }
  Reached-IsAligned _ (added {i} r n d m) = add-IsAligned i n d m (Reached-IsAligned i r)
  Reached-IsAligned _ (queried {i} r q) =
      built-IsAligned i i.bm25_name i.bm25_desc (Reached-IsAligned i r)
  Reached-IsAligned _ (reloaded {i} r) =
      let h = Reached-IsAligned i r in
      build-IsAligned
        (record {
          docs_name = i.docs_name;
          docs_desc = i.docs_desc;
          bm25_name = none;
          bm25_desc = none;
          metas = i.metas;
        })
        h.names h.descs
