-- ===== src/Finalize.antt =====
-- grace_mem/agent_filter/evidence/finalization.py and adjudication.py: the retention policy, from
-- the agent's FINAL to the context that the answering model sees.
pub mod Net
pub mod Recover
pub mod Select
use grace_mem.Common.{
  ℕ, Bool, true, false, not, ◌||◌, Option, none, some, List, [], ◌∷◌, ◌++◌, map, if◌then◌else◌,
  is_nil, leb, length, take, filter, Text, text_eq, contains,
}
use grace_mem.Effects
use grace_mem.Effects.{◌>>=◌, ◌>>◌, return, attempt, modify}
use grace_mem.Corpus.{Corpus, normalize_sids}
use grace_mem.Adjudicate.{adjudicate_candidates}
use grace_mem.Context.{rebuild_context, append_fetched_evidence}

-- `config.mode`; any other text than the three names acts as `filter_fetch`.
pub data Mode : Type 0 where
  filter_only filter_fetch fetch_only : Mode

-- The fields of `AgentFilterConfig` that the finalizer and the harness read. The two limits are not
-- negative: a negative one, which `int(...)` of `from_params` lets through, is left out.
pub record Config : Type 0 where
  pub mode : Mode
  pub max_calls : ℕ
  pub max_sids : ℕ
  pub adjudicate : Bool
  pub adjudicate_categories : Option (List Text)
  pub include_pair : Bool
  pub answer_include_graph : Bool

pub data Fallback : Type 0 where
  no_seed no_final empty_final zero_keep no_addition exception : Fallback

pub data Standing : Type 0 where
  seed_verified seed_only verified_only unverified : Standing

-- What the finalizer writes into the trace.
pub record Trace : Type 0 where
  pub fallback : Option Fallback
  pub verified_sids : List Text
  pub vector_candidate_sids : List Text
  pub evidence_provenance : List (Text × Standing)
  pub final_before_cap : List Text
  pub final_sids : List Text
  pub kept : List Text
  pub added : List Text
  pub dropped : List Text
  pub context_sids : List Text

abbrev pub Exec : Type 0 → Type 0
Exec A = Effects.Exec Trace A

pub record Selection : Type 0 where
  pub final : List Text
  pub seed_norm : List Text
  pub fallback : Option Fallback

-- `AgentFilterConfig.applies_to`
unfoldable pub applies_to : Option (List Text) → Option Text → Bool
applies_to none category = true
applies_to (some categories) none = false
applies_to (some categories) (some category) = contains categories category

-- The mode policy.
unfoldable pub by_mode : Mode → List Text → List Text → List Text
by_mode filter_only seed final = filter (λ s. contains seed s) final
by_mode filter_fetch seed final = final
by_mode fetch_only seed final = seed ++ filter (λ s. not (contains seed s)) final

unfoldable pub standing : List Text → List Text → Text → Standing
standing seed verified s =
    if contains seed s
    then if contains verified s then seed_verified else seed_only
    else if contains verified s
    then verified_only
    else unverified

unfoldable pub set_fallback : Fallback → Exec (Unit {0})
set_fallback f = modify (λ t. record t { fallback = some f })

module _ (limit : ℕ) (config : Config) where
  -- `final_raw and corpus.normalize_sids(final_raw)`, the normalized sids or none of them.
  unfoldable pub resolved : Corpus → List Text → Option (List Text)
  resolved c [] = some []
  resolved c (s ∷ raw) = normalize_sids limit c (s ∷ raw)

  -- No sid of the FINAL is in the corpus.
  unfoldable pub unanswered : Corpus → List Text → List Text → Exec Selection
  unfolding set_fallback
  unanswered c verified seed_norm = do
    set_fallback no_final
    vs ← attempt (normalize_sids limit c verified)
    modify (λ t. record t { verified_sids = vs })
    return (record { final = []; seed_norm = seed_norm; fallback = some no_final })

  -- The cap, and the fallback of a choice that is empty.
  unfoldable pub cap : List Text → List Text → Exec Selection
  unfolding set_fallback
  cap seed_norm chosen =
      let capped = take config.max_sids chosen in
      if is_nil capped
      then (do
        set_fallback empty_final
        return (record { final = []; seed_norm = seed_norm; fallback = some empty_final }))
      else return (record { final = capped; seed_norm = seed_norm; fallback = none })

  -- The mode policy, the provenance record and the cap.
  unfoldable pub choose : Corpus → List Text → List Text → List Text → List Text → Exec Selection
  unfolding by_mode standing cap
  choose c final_raw verified vector_candidates seed_norm = do
    final ← attempt (normalize_sids limit c final_raw)
    vs ← attempt (normalize_sids limit c verified)
    modify (λ t. record t { verified_sids = vs })
    vc ← attempt (normalize_sids limit c vector_candidates)
    modify (λ t. record t {
      vector_candidate_sids = vc;
      evidence_provenance =
          map (λ s. (s, standing seed_norm verified s)) (by_mode config.mode seed_norm final);
      final_before_cap = by_mode config.mode seed_norm final;
    })
    cap seed_norm (by_mode config.mode seed_norm final)

  -- `EvidenceFinalizer.select`
  unfoldable pub select : Corpus → List Text → List Text → List Text → List Text → Exec Selection
  unfolding resolved unanswered choose
  select c final_raw seed verified vector_candidates = do
    seed_norm ← attempt (normalize_sids limit c seed)
    known ← attempt (resolved c final_raw)
    if is_nil known
        then unanswered c verified seed_norm
        else choose c final_raw verified vector_candidates seed_norm

  module _ (verdict : Text → Option Bool) (judge : List Text → Option Text) where
    -- What the auditor adds, or nothing when its call raised.
    unfoldable pub recovered : List Text → Option (List Text) → List Text
    recovered final none = final
    recovered final (some kept) =
        take config.max_sids (final ++ filter (λ s. not (contains final s)) kept)

    -- `EvidenceFinalizer._adjudicate`; the diagnostics under `trace["adjudication"]` are left out.
    unfoldable pub adjudicate : Corpus → Option Text → Selection → List Text
    unfolding recovered applies_to
    adjudicate c category selection =
        let pending = filter (λ s. not (contains selection.final s)) selection.seed_norm in
        if not config.adjudicate || leb config.max_sids (length selection.final)
        then selection.final
        else if not (applies_to config.adjudicate_categories category)
        then selection.final
        else if is_nil pending
        then selection.final
        else recovered selection.final (adjudicate_candidates verdict judge limit c pending)

    -- The refined context, its sids into the trace.
    unfoldable pub refined : Option (Text × List Text) → Exec Text
    refined o = do
      (context, sids) ← attempt o
      modify (λ t. record t { context_sids = sids })
      return context

    -- The end of `finalize`, with the trace's kept and added.
    unfoldable pub render :
        Text → Corpus → List Text → List Text → List Text → List Text → Exec Text
    unfolding refined set_fallback
    render context c final seed_norm kept added =
        if is_nil kept
        then (do
          set_fallback zero_keep
          modify (λ t. record t { context_sids = seed_norm })
          return context)
        else elim config.mode [
          | fetch_only ↦
              if is_nil added
              then (do set_fallback no_addition; return context)
              else refined (append_fetched_evidence limit context c added seed_norm)
          | _ ↦ refined (
              rebuild_context limit context c final config.include_pair config.answer_include_graph)
        ]

    -- `EvidenceFinalizer.finalize`
    unfoldable pub finalize : Corpus → Option Text → Text → Selection → Exec Text
    unfolding adjudicate render
    finalize c category context selection =
        let final = adjudicate c category selection in
        let kept = filter (λ s. contains selection.seed_norm s) final in
        let added = filter (λ s. not (contains selection.seed_norm s)) final in
        (do
          modify (λ t. record t {
            final_sids = final;
            kept = kept;
            added = added;
            dropped = filter (λ s. not (contains final s)) selection.seed_norm;
          })
          render context c final selection.seed_norm kept added)
