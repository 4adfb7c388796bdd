-- ===== src/Finalize/Select.antt =====
-- What `EvidenceFinalizer.select` lets through.
use grace_mem.Common.{
  ℕ, ◌≤◌, ◌≡◌, sym, ap, ◌∙◌, subst, some-injective, Bool, true, false, not, Option, none, some,
  List, [], arith, if◌then◌else◌, is_nil, filter, contains, contains-filter, Text, text_eq,
  Bool-cases, inl, inr, length, take, length-take-le, Distinct, Distinct-append, Distinct-Subseq,
  Subseq-filter, Subseq-take,
}
use grace_mem.Effects.{attempt, attempt-eq-some, modify, ◌>>=◌, ◌>>◌, return}
use grace_mem.Corpus.{Turn, Corpus, build, normalize_sids}
use grace_mem.Corpus.Normalize.{normalize_sids-Distinct}
use grace_mem.Finalize.{
  Mode, filter_only, filter_fetch, fetch_only, Config, Trace, no_final, Selection, Exec, resolved,
  by_mode, unanswered, cap, choose, select, set_fallback,
}

by_mode-Distinct :
    (mode : Mode) (seed final : List Text)
    → Distinct seed
    → Distinct final
    → Distinct (by_mode mode seed final)
unfolding by_mode
by_mode-Distinct filter_only seed final ds df =
    Distinct-Subseq (Subseq-filter (λ s. contains seed s) final) df
by_mode-Distinct filter_fetch seed final ds df = df
by_mode-Distinct fetch_only seed final ds df =
    Distinct-append seed (filter (λ s. not (contains seed s)) final) ds
      (Distinct-Subseq (Subseq-filter (λ s. not (contains seed s)) final) df)
      (λ a c. ground (arith, contains-filter (λ s. not (contains seed s)) final a, c))

-- A selection without a fallback: the capped choice of the mode policy over the normalized seeds
-- and the normalized FINAL.
pub record Selects (limit : ℕ) (config : Config) (c : Corpus) (final_raw seed : List Text)
    (sel : Selection) : Type 0 where
  pub final : List Text
  pub seeds : normalize_sids limit c seed ≡ some sel.seed_norm
  pub finals : normalize_sids limit c final_raw ≡ some final
  pub chosen : sel.final ≡ take config.max_sids (by_mode config.mode sel.seed_norm final)
  pub some_left : is_nil sel.final ≡ false
  pub capped : length sel.final ≤ config.max_sids
  pub once : Distinct sel.final

module _ (limit : ℕ) (config : Config) where
  cap-eq-some :
      (seed_norm chosen : List Text) (t : Trace) (sel : Selection)
      → (cap limit config seed_norm chosen t).0 ≡ some sel
      → sel.fallback ≡ none
      → (sel.final ≡ take config.max_sids chosen)
        × (is_nil sel.final ≡ false)
        × (sel.seed_norm ≡ seed_norm)
  unfolding cap set_fallback
  cap-eq-some seed_norm chosen t sel h ok =
      elim (Bool-cases (is_nil (take config.max_sids chosen))) [
        | inl e ↦
            absurd (cc (ap (λ (s : Selection). s.fallback) (some-injective _ _ (rw e at h)), ok))
        | inr e ↦
            let q = some-injective _ _ (rw e at h) in
            (
              ap (λ (s : Selection). s.final) (sym q),
              subst (λ (s : Selection). is_nil s.final ≡ false) q e,
              ap (λ (s : Selection). s.seed_norm) (sym q),
            )
      ]

  choose-eq-some :
      (c : Corpus) (final_raw verified vector_candidates seed_norm : List Text) (t : Trace)
      (sel : Selection)
      → (choose limit config c final_raw verified vector_candidates seed_norm t).0 ≡ some sel
      → sel.fallback ≡ none
      → (final : List Text) × (normalize_sids limit c final_raw ≡ some final)
        × (sel.final ≡ take config.max_sids (by_mode config.mode seed_norm final))
        × (is_nil sel.final ≡ false)
        × (sel.seed_norm ≡ seed_norm)
  unfolding choose
  choose-eq-some c final_raw verified vector_candidates seed_norm t sel h ok =
      let (final, e, h1) = attempt-eq-some (normalize_sids limit c final_raw) _ t h in
      let (vs, e1, h2) = attempt-eq-some (normalize_sids limit c verified) _ t h1 in
      let (vc, e2, h3) =
        attempt-eq-some (normalize_sids limit c vector_candidates) _
          (record t { verified_sids = vs }) h2 in
      let (p, q, r) = cap-eq-some seed_norm (by_mode config.mode seed_norm final) _ sel h3 ok in
      (final, e, p, q, r)

  unanswered_fallback :
      (c : Corpus) (verified seed_norm : List Text) (t : Trace) (sel : Selection)
      → (unanswered limit config c verified seed_norm t).0 ≡ some sel
      → sel.fallback ≡ some no_final
  unfolding unanswered set_fallback
  unanswered_fallback c verified seed_norm t sel h =
      let (vs, e, q) =
        attempt-eq-some (normalize_sids limit c verified) _ (record t { fallback = some no_final })
          h in
      ap (λ (s : Selection). s.fallback) (sym (some-injective _ _ q))

  -- When `select` returns without a fallback, its sids are the mode's choice, cut to the cap: never
  -- none, never more than the cap, none twice.
  pub select-Selects :
      (turns : List Turn) (final_raw seed verified vector_candidates : List Text) (t : Trace)
      (sel : Selection)
      → (select limit config (build turns) final_raw seed verified vector_candidates t).0 ≡ some sel
      → sel.fallback ≡ none
      → Selects limit config (build turns) final_raw seed sel
  unfolding select
  select-Selects turns final_raw seed verified vector_candidates t sel h ok =
      let (seed_norm, e, h1) = attempt-eq-some (normalize_sids limit (build turns) seed) _ t h in
      let (known, e1, h2) =
        attempt-eq-some (resolved limit config (build turns) final_raw) _ t h1 in
      branch seed_norm e (is_nil known) h2
    where
      branch :
          (seed_norm : List Text)
          → normalize_sids limit (build turns) seed ≡ some seed_norm
          → (b : Bool)
          → ((if b
                then unanswered limit config (build turns) verified seed_norm
                else choose limit config
                    (build turns)
                    final_raw
                    verified
                    vector_candidates
                    seed_norm)
              t).0
            ≡ some sel
          → Selects limit config (build turns) final_raw seed sel
      branch seed_norm e true g =
          absurd (cc (unanswered_fallback (build turns) verified seed_norm t sel g, ok))
      branch seed_norm e false g =
          let (final, e', p, q, r) =
            choose-eq-some (build turns) final_raw verified vector_candidates seed_norm t sel g
              ok in
          record {
            final = final;
            seeds = subst (λ x. normalize_sids limit (build turns) seed ≡ some x) (sym r) e;
            finals = e';
            chosen = rw r p;
            some_left = q;
            capped = rw p (length-take-le config.max_sids (by_mode config.mode seed_norm final));
            once = rw p (
                Distinct-Subseq (Subseq-take config.max_sids (by_mode config.mode seed_norm final))
                  (by_mode-Distinct config.mode seed_norm final
                    (normalize_sids-Distinct turns limit seed seed_norm e)
                    (normalize_sids-Distinct turns limit final_raw final e')));
          }

-- From a trace without a fallback, `m` returns a selection with the fallback that it leaves there.
pub record Agrees (m : Exec Selection) : Type 0 where
  pub at :
      (t : Trace) (sel : Selection)
      → t.fallback ≡ none
      → (m t).0 ≡ some sel
      → (m t).1.fallback ≡ sel.fallback

Agrees-attempt :
    {A : Type 0} (o : Option A) (f : A → Exec Selection)
    → ((a : A) → Agrees (f a))
    → Agrees (attempt o >>= f)
Agrees-attempt none f h = record { at = λ t sel e g. absurd (cc g) }
Agrees-attempt (some a) f h = h a

Agrees-if : (b : Bool) (m n : Exec Selection) → Agrees m → Agrees n → Agrees (if b then m else n)
Agrees-if true m n hm hn = hm
Agrees-if false m n hm hn = hn

module _ (limit : ℕ) (config : Config) where
  cap-Agrees : (seed_norm chosen : List Text) → Agrees (cap limit config seed_norm chosen)
  unfolding cap set_fallback
  cap-Agrees seed_norm chosen =
      Agrees-if (is_nil (take config.max_sids chosen)) _ _
        (record { at = λ t sel e h. ap (λ (s : Selection). s.fallback) (some-injective _ _ h) })
        (record { at = λ t sel e h. e ∙ ap (λ (s : Selection). s.fallback) (some-injective _ _ h) })

  unanswered-Agrees :
      (c : Corpus) (verified seed_norm : List Text)
      → Agrees (unanswered limit config c verified seed_norm)
  unfolding unanswered set_fallback
  unanswered-Agrees c verified seed_norm = after (normalize_sids limit c verified)
    where
      after :
          (o : Option (List Text))
          → Agrees (λ t.
            (attempt o >>= λ vs.
            modify (λ t. record t { verified_sids = vs })
            >> return (record { final = []; seed_norm = seed_norm; fallback = some no_final }))
              (record t { fallback = some no_final }))
      after none = record { at = λ t sel e h. absurd (cc h) }
      after (some vs) = record {
        at = λ t sel e h. ap (λ (s : Selection). s.fallback) (some-injective _ _ h);
      }

  choose-Agrees :
      (c : Corpus) (final_raw verified vector_candidates seed_norm : List Text)
      → Agrees (choose limit config c final_raw verified vector_candidates seed_norm)
  unfolding choose
  choose-Agrees c final_raw verified vector_candidates seed_norm =
      Agrees-attempt (normalize_sids limit c final_raw) _ (λ final.
        Agrees-attempt (normalize_sids limit c verified) _ (λ vs. record {
          at = λ t sel e h.
              (Agrees-attempt (normalize_sids limit c vector_candidates) _ (λ vc. record {
                at = λ t sel e h.
                    (cap-Agrees seed_norm (by_mode config.mode seed_norm final)).at _ sel e h;
              })).at
                (record t { verified_sids = vs }) sel e h;
        }))

  -- The fallback of a selection and that of the trace are one.
  pub select-Agrees :
      (c : Corpus) (final_raw seed verified vector_candidates : List Text)
      → Agrees (select limit config c final_raw seed verified vector_candidates)
  unfolding select
  select-Agrees c final_raw seed verified vector_candidates =
      Agrees-attempt (normalize_sids limit c seed) _ (λ seed_norm.
        Agrees-attempt (resolved limit config c final_raw) _ (λ known.
          Agrees-if (is_nil known) _ _ (unanswered-Agrees c verified seed_norm)
            (choose-Agrees c final_raw verified vector_candidates seed_norm)))
