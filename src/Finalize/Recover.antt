-- ===== src/Finalize/Recover.antt =====
-- `EvidenceFinalizer._adjudicate` only adds: the agent's choice stays, in front.
use grace_mem.Common.{
  ℕ, ◌-◌, ◌≤◌, ◌≡◌, refl, sym, Bool, true, false, not, ◌||◌, Option, none, some, List, [], ◌∷◌,
  ◌++◌, append-nil, arith, if◌then◌else◌, length, length-take-le, take, take-append, filter, is_nil,
  leb, All, All-Subseq, Distinct, Distinct-Subseq, Subseq-take, Subseq-filter, Subseq-trans,
  contains, contains-filter, contains-Subseq, All_of_contains, Text, text_eq,
}
use grace_mem.Corpus.{Corpus}
use grace_mem.Adjudicate.{adjudicate_candidates}
use grace_mem.Adjudicate.Fair.{adjudicate_candidates-kept}
use grace_mem.Finalize.{Config, Selection, recovered, adjudicate, applies_to}

-- `result` is the selection with `extra` behind it: seeds that the agent had dropped, none twice.
pub record Recovers (config : Config) (sel : Selection) (result : List Text) : Type 0 where
  pub extra : List Text
  pub extends : result ≡ sel.final ++ extra
  pub from_seeds : All (λ s. contains sel.seed_norm s ≡ true) extra
  pub new : All (λ s. contains sel.final s ≡ false) extra
  pub once : Distinct extra
  pub capped : length result ≤ config.max_sids

module _ (limit : ℕ) (config : Config) (sel : Selection)
    (within : length sel.final ≤ config.max_sids) where
  nothing_added : Recovers config sel sel.final
  nothing_added = record {
    extra = [];
    extends = sym (append-nil sel.final);
    from_seeds = tt;
    new = tt;
    once = tt;
    capped = within;
  }

  abbrev fresh : List Text → List Text
  fresh kept = filter (λ s. not (contains sel.final s)) kept

  fresh-new : (kept : List Text) → All (λ s. contains sel.final s ≡ false) (fresh kept)
  fresh-new kept =
      All_of_contains _ (fresh kept)
        (λ a c. ground (arith, contains-filter (λ s. not (contains sel.final s)) kept a, c))

  recovered-Recovers :
      (verdict : Text → Option Bool) (judge : List Text → Option Text) (kept : List Text)
      → All (λ s. contains sel.seed_norm s ≡ true) kept
      → Distinct kept
      → Recovers config sel (recovered limit config verdict judge sel.final (some kept))
  unfolding recovered
  recovered-Recovers verdict judge kept seeds d =
      let room = config.max_sids - length sel.final in
      let short =
        Subseq-trans (Subseq-filter (λ s. not (contains sel.final s)) kept)
          (Subseq-take room (fresh kept)) in
      record {
        extra = take room (fresh kept);
        extends = take-append config.max_sids sel.final (fresh kept) within;
        from_seeds = All-Subseq _ short seeds;
        new = All-Subseq _ (Subseq-take room (fresh kept)) (fresh-new kept);
        once = Distinct-Subseq short d;
        capped = length-take-le config.max_sids (sel.final ++ fresh kept);
      }

  pending_seeds :
      (kept : List Text)
      → All (λ s. contains (filter (λ s. not (contains sel.final s)) sel.seed_norm) s ≡ true) kept
      → All (λ s. contains sel.seed_norm s ≡ true) kept
  pending_seeds [] h = tt
  pending_seeds (k ∷ kept) h = (
    contains-Subseq (Subseq-filter (λ s. not (contains sel.final s)) sel.seed_norm) k h.0,
    pending_seeds kept h.1,
  )

  module _ (verdict : Text → Option Bool) (judge : List Text → Option Text) (c : Corpus) where
    audited :
        (o : Option (List Text))
        → adjudicate_candidates verdict judge limit c
            (filter (λ s. not (contains sel.final s)) sel.seed_norm)
          ≡ o
        → Recovers config sel (recovered limit config verdict judge sel.final o)
    audited none h = unfold recovered in nothing_added
    audited (some kept) h =
        let r =
          adjudicate_candidates-kept verdict
            (filter (λ s. not (contains sel.final s)) sel.seed_norm) judge limit c kept h in
        recovered-Recovers verdict judge kept (pending_seeds kept r.0) r.1

    if-Recovers :
        (b : Bool) (result : List Text)
        → Recovers config sel result
        → Recovers config sel (if b then sel.final else result)
    if-Recovers true result r = nothing_added
    if-Recovers false result r = r

    -- For an agent's choice within the cap: whether the auditor is off, raises, or answers anything at all, the final list is the agent's
    -- capped choice with dropped seeds behind it, none twice, and within the cap.
    pub adjudicate-Recovers :
        (category : Option Text)
        → Recovers config sel (adjudicate limit config verdict judge c category sel)
    unfolding adjudicate
    adjudicate-Recovers category =
        let pending = filter (λ s. not (contains sel.final s)) sel.seed_norm in
        if-Recovers (not config.adjudicate || leb config.max_sids (length sel.final)) _ (
          if-Recovers (not (applies_to config.adjudicate_categories category)) _
            (if-Recovers (is_nil pending) _ (audited _ refl)))
