-- ===== src/Finalize/Net.antt =====
-- The safety net of `EvidenceFinalizer.finalize`: which contexts can come out of it.
use grace_mem.Common.{
  ℕ, ◌≡◌, sym, some-injective, Bool, Option, none, some, List, [], ◌∷◌, if◌then◌else◌, is_nil, Text,
  text_eq, inl, inr, ◌⊎◌,
}
use grace_mem.Corpus.{Corpus}
use grace_mem.Context.{rebuild_context, append_fetched_evidence}
use grace_mem.Finalize.{
  Mode, filter_only, filter_fetch, fetch_only, Config, Trace, no_addition, Selection, Exec, refined,
  render, finalize, set_fallback,
}

-- From a trace without a fallback the action returns `context` or leaves the trace without one.
pub record Nets (context : Text) (m : Exec Text) : Type 0 where
  pub at :
      (t : Trace) (out : Text)
      → t.fallback ≡ none
      → (m t).0 ≡ some out
      → ((m t).1.fallback ≡ none) ⊎ (out ≡ context)

module _ (limit : ℕ) (config : Config) (verdict : Text → Option Bool)
    (judge : List Text → Option Text) (context : Text) where
  refined-Nets :
      (o : Option (Text × List Text)) → Nets context (refined limit config verdict judge o)
  unfolding refined
  refined-Nets none = record { at = λ t out e h. absurd (cc h) }
  refined-Nets (some r) = record { at = λ t out e h. inl e }

  render-Nets :
      (c : Corpus) (final seed_norm kept added : List Text)
      → Nets context (render limit config verdict judge context c final seed_norm kept added)
  unfolding render set_fallback
  render-Nets c final seed_norm [] added = record {
    at = λ t out e h. inr (sym (some-injective _ _ h));
  }
  render-Nets c final seed_norm (k ∷ kept) added = by_mode config.mode added
    where
      by_mode :
          (m : Mode) (added : List Text)
          → Nets context (elim m [
            | fetch_only ↦
                if is_nil added
                then (λ t. (some context, record t { fallback = some no_addition }))
                else refined limit config verdict judge
                    (append_fetched_evidence limit context c added seed_norm)
            | _ ↦ refined limit config verdict judge (
                rebuild_context limit context c final config.include_pair
                  config.answer_include_graph)
          ])
      by_mode fetch_only [] = record { at = λ t out e h. inr (sym (some-injective _ _ h)) }
      by_mode fetch_only (a ∷ added) = refined-Nets _
      by_mode filter_only added = refined-Nets _
      by_mode filter_fetch added = refined-Nets _

  -- Where the finalizer records a fallback, it hands back the original context.
  pub finalize-Nets :
      (c : Corpus) (category : Option Text) (sel : Selection)
      → Nets context (finalize limit config verdict judge c category context sel)
  unfolding finalize
  finalize-Nets c category sel = record { at = λ t out e h. (render-Nets c _ _ _ _).at _ out e h }
