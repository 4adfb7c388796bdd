-- ===== src/Corpus/Resolve.antt =====
-- What `resolve` returns: turns of the corpus, whichever reading of the sid applies.
use grace_mem.Common.{
  ℕ, zero, suc, ◌≡◌, refl, subst, some-injective, colon, inl, inr, Option, none, some, List, [],
  ◌∷◌, ◌++◌, ◌||◌, All, All-append, All_of_In, In, In-of-filter, nat_eq, Text, text_eq, ◌==◌,
  lookup, Bool-cases, Option-cases, codes, starts_with, strip, partition_colon, is_empty,
}
use grace_mem.Corpus.{
  Turn, build, to_list, pair_turns, chunk_turns, follow, fuzzy, resolve_step, resolve, index_sids,
}
use grace_mem.Corpus.Index.{lookup-index_sids_sound}

module _ (turns : List Turn) where
  abbrev IsOurs : List Turn → Type 0
  IsOurs ts = All (λ t. In t turns) ts

  -- A reading of sids that returns turns of the corpus only.
  abbrev IsSound : (Text → Option (List Turn)) → Type 0
  IsSound f = (sid : Text) (ts : List Turn) → f sid ≡ some ts → IsOurs ts

  to_list-lookup :
      (sid : Text) (o : Option Turn) → lookup sid (index_sids turns) ≡ o → IsOurs (to_list o)
  to_list-lookup sid none h = tt
  to_list-lookup sid (some t) h = ((lookup-index_sids_sound sid turns t h).0, tt)

  pair_turns-IsOurs : (sid : Text) → IsOurs (pair_turns (build turns) sid)
  unfolding pair_turns build
  pair_turns-IsOurs sid =
      All-append (λ t. In t turns) _ _ (to_list-lookup (sid ++ codes ":u") _ refl)
        (to_list-lookup (sid ++ codes ":a") _ refl)

  chunk_turns-IsOurs : (sid : Text) → IsOurs (chunk_turns (build turns) sid)
  unfolding chunk_turns build
  chunk_turns-IsOurs sid =
      All_of_In (λ t. In t turns) _
        (λ a m. In-of-filter (λ t. starts_with t.sid (sid ++ codes "t")) a turns m)

  IsOurs-some : (xs ts : List Turn) → IsOurs xs → some xs ≡ some ts → IsOurs ts
  IsOurs-some xs ts h e = subst IsOurs (some-injective _ _ e) h

  follow-IsOurs :
      (again : Text → Option (List Turn))
      → IsSound again
      → (sid rest : Text) (ms : List Text) (ts : List Turn) → follow again sid rest ms ≡ some ts
      → IsOurs ts
  unfolding follow
  follow-IsOurs again s sid rest [] ts h = IsOurs-some [] ts tt h
  follow-IsOurs again s sid rest (m ∷ []) ts h = elim (Bool-cases ((m ++ (colon ∷ rest)) == sid)) [
    | inl same ↦ IsOurs-some [] ts tt (rw same at h)
    | inr other ↦ s (m ++ (colon ∷ rest)) ts (rw other at h)
  ]
  follow-IsOurs again s sid rest (m ∷ n ∷ ms) ts h = IsOurs-some [] ts tt h

  fuzzy-IsOurs :
      (again : Text → Option (List Turn)) → IsSound again → IsSound (fuzzy again (build turns))
  unfolding fuzzy
  fuzzy-IsOurs again s sid ts h =
      let sess = (partition_colon sid).0 in
      let rest = (partition_colon sid).1 in
      elim (Bool-cases (is_empty sess || is_empty rest)) [
        | inl blank ↦ IsOurs-some [] ts tt (rw blank at h)
        | inr full ↦ follow-IsOurs again s sid rest _ ts (rw full at h)
      ]

  chunk_step :
      (again : Text → Option (List Turn))
      → IsSound again
      → (sid : Text) (chunk ts : List Turn) → IsOurs chunk
      → elim chunk [ t ∷ us ↦ some (t ∷ us) | [] ↦ fuzzy again (build turns) sid ] ≡ some ts
      → IsOurs ts
  chunk_step again s sid [] ts o h = fuzzy-IsOurs again s sid ts h
  chunk_step again s sid (t ∷ us) ts o h = IsOurs-some (t ∷ us) ts o h

  pair_step :
      (again : Text → Option (List Turn))
      → IsSound again
      → (sid : Text) (pair ts : List Turn) → IsOurs pair
      → elim pair [
        | t ∷ us ↦ some (t ∷ us)
        | [] ↦ elim (chunk_turns (build turns) sid) [
          | t ∷ us ↦ some (t ∷ us)
          | [] ↦ fuzzy again (build turns) sid
        ]
      ]
        ≡ some ts
      → IsOurs ts
  pair_step again s sid [] ts o h =
      chunk_step again s sid (chunk_turns (build turns) sid) ts (chunk_turns-IsOurs sid) h
  pair_step again s sid (t ∷ us) ts o h = IsOurs-some (t ∷ us) ts o h

  resolve_step-IsOurs :
      (again : Text → Option (List Turn))
      → IsSound again
      → IsSound (resolve_step again (build turns))
  unfolding resolve_step build
  resolve_step-IsOurs again s sid ts h = elim (Option-cases (lookup sid (index_sids turns))) [
    | inl miss ↦
        pair_step again s sid (pair_turns (build turns) sid) ts (pair_turns-IsOurs sid)
          (rw (miss, resolve_step) at h)
    | inr (t, hit) ↦
        IsOurs-some (t ∷ []) ts ((lookup-index_sids_sound sid turns t hit).0, tt)
          (rw (hit, resolve_step) at h)
  ]

  resolve-IsSound : (limit : ℕ) → IsSound (resolve limit (build turns))
  unfolding resolve
  resolve-IsSound zero sid ts h = absurd (cc h)
  resolve-IsSound (suc limit) sid ts h =
      resolve_step-IsOurs (resolve limit (build turns)) (resolve-IsSound limit) (strip sid) ts h

  -- If `resolve` returns, every turn that it gives is a turn of the corpus, also after the fuzzy fallback.
  pub resolve-In :
      (limit : ℕ) (sid : Text) (ts : List Turn)
      → resolve limit (build turns) sid ≡ some ts
      → All (λ t. In t turns) ts
  resolve-In limit sid ts h = resolve-IsSound limit sid ts h
