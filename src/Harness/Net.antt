-- ===== src/Harness/Net.antt =====
-- The safety net of `refine_context`: what it returns whenever it records a fallback.
use grace_mem.Common.{
  ◌≡◌, refl, sym, some-injective, Bool, true, false, ◌&&◌, Option, none, some, List, if◌then◌else◌,
  is_nil, Text, inl, inr, ◌⊎◌, Option-cases, arith,
}
use grace_mem.Effects.{◌>>=◌, return, attempt, modify, continue}
use grace_mem.Corpus.{Corpus, normalize_sids}
use grace_mem.Context.{seed_sids_from_context}
use grace_mem.Finalize
use grace_mem.Finalize.{
  Config, Trace, no_seed, no_final, exception, Selection, select, finalize, resolved, set_fallback,
}
use grace_mem.Finalize.Net
use grace_mem.Finalize.Select.{select-Agrees}
use grace_mem.Session
use grace_mem.Session.{Session, run, force_final}
use grace_mem.Harness.{
  Run, Exec, on_session, on_trace, start, or_empty, is_filter, World, without_a_final, deliver,
  conclude, pursue, attempt_refine, handle, refine_context,
}

-- From a trace without a fallback the action returns `context` or leaves the trace without one.
record Nets (context : Text) (m : Exec Text) : Type 0 where
  at :
      (r : Run) (out : Text)
      → r.trace.fallback ≡ none
      → (m r).0 ≡ some out
      → ((m r).1.trace.fallback ≡ none) ⊎ (out ≡ context)

module _ {context : Text} where
  Nets-return : Nets context (return context)
  Nets-return = record { at = λ r out e h. inr (sym (some-injective _ _ h)) }

  Nets-attempt :
      {A : Type 0} (o : Option A) (f : A → Exec Text)
      → ((a : A) → Nets context (f a))
      → Nets context (attempt o >>= f)
  Nets-attempt none f h = record { at = λ r out e g. absurd (cc g) }
  Nets-attempt (some a) f h = h a

  Nets-continue :
      {A : Type 0} (o : Option A) (f : A → Exec Text)
      → ((a : A) → Nets context (f a))
      → Nets context (continue o f)
  Nets-continue none f h = record { at = λ r out e g. absurd (cc g) }
  Nets-continue (some a) f h = h a

  -- The session leaves the finalizer's part of the trace alone.
  Nets-session :
      {A : Type 0} (m : Session.Exec A) (f : A → Exec Text)
      → ((a : A) → Nets context (f a))
      → Nets context (on_session m >>= f)
  unfolding on_session
  Nets-session m f h = record {
    at = λ r out e g.
        let (o, s) = m r.session in (Nets-continue o f h).at (record r { session = s }) out e g;
  }

  Nets-if :
      (b : Bool) (m n : Exec Text)
      → Nets context m
      → Nets context n
      → Nets context (if b then m else n)
  Nets-if true m n hm hn = hm
  Nets-if false m n hm hn = hn

  -- The forced closure, or the sids that the search gave.
  Nets-close :
      (b : Bool) (m : Session.Exec (List Text)) (sids : List Text) (f : List Text → Exec Text)
      → ((a : List Text) → Nets context (f a))
      → Nets context ((if b then on_session m else return sids) >>= f)
  Nets-close true m sids f h = Nets-session m f h
  Nets-close false m sids f h = h sids

  module _ (w : World) (config : Config) (category : Option Text) where
    without_a_final-Nets : (c : Corpus) → Nets context (without_a_final w config context category c)
    unfolding without_a_final on_trace on_session set_fallback
    without_a_final-Nets c = record {
      at = λ r out e h. elim (Option-cases (normalize_sids w.limit c r.session.verified_sids)) [
        | inl raised ↦ absurd (ground (arith, raised, h))
        | inr (vs, ok) ↦ inr (ground (arith, ok, h))
      ];
    }

    finalize_step :
        (c : Corpus) (sel : Selection)
        → Nets context (on_trace (finalize w.limit config w.verdict w.judge c category context sel))
    unfolding on_trace
    finalize_step c sel = record {
      at = λ r out e h.
          (Net.finalize-Nets w.limit config w.verdict w.judge context c category sel).at r.trace out
            e h;
    }

    -- The action that `deliver` picks by the selection's fallback.
    deliver_cases :
        (c : Corpus) (sel : Selection) (o : Option Finalize.Fallback) (r : Run) (out : Text)
        → r.trace.fallback ≡ o
        → ((elim o as (λ _. Exec Text) [
          | some f ↦ return context
          | none ↦ on_trace (finalize w.limit config w.verdict w.judge c category context sel)
        ])
            r).0
          ≡ some out
        → (((elim o as (λ _. Exec Text) [
          | some f ↦ return context
          | none ↦ on_trace (finalize w.limit config w.verdict w.judge c category context sel)
        ])
              r).1.trace.fallback
            ≡ none)
          ⊎ (out ≡ context)
    deliver_cases c sel none r out e h = (finalize_step c sel).at r out e h
    deliver_cases c sel (some f) r out e h = inr (sym (some-injective _ _ h))

    deliver_step :
        (c : Corpus) (sel : Selection) (r : Run) (out : Text)
        → r.trace.fallback ≡ sel.fallback
        → (deliver w config context category c sel r).0 ≡ some out
        → ((deliver w config context category c sel r).1.trace.fallback ≡ none) ⊎ (out ≡ context)
    unfolding deliver
    deliver_step c sel r out e h = deliver_cases c sel sel.fallback r out e h

    continue_step :
        (c : Corpus) (o : Option Selection) (r : Run) (out : Text)
        → ((sel : Selection) → o ≡ some sel → r.trace.fallback ≡ sel.fallback)
        → (continue o (deliver w config context category c) r).0 ≡ some out
        → ((continue o (deliver w config context category c) r).1.trace.fallback ≡ none)
          ⊎ (out ≡ context)
    continue_step c none r out e h = absurd (cc h)
    continue_step c (some sel) r out e h = deliver_step c sel r out (e sel refl) h

    conclude-Nets :
        (c : Corpus) (seed final_raw : List Text)
        → Nets context (conclude w config context category c seed final_raw)
    unfolding conclude on_trace
    conclude-Nets c seed final_raw = record {
      at = λ r out e h.
          let vs = r.session.verified_sids in
          let vc = r.session.vector_candidate_sids in
          let m = select w.limit config c final_raw seed vs vc in
          continue_step c (m r.trace).0 (record r { trace = (m r.trace).1 }) out
            (λ sel. (select-Agrees w.limit config c final_raw seed vs vc).at r.trace sel e) h;
    }

    pursue-Nets :
        (c : Corpus) (seed : List Text) → Nets context (pursue w config context category c seed)
    unfolding pursue
    pursue-Nets c seed = Nets-session _ _ (λ found.
        Nets-attempt (resolved w.limit config c (or_empty found)) _ (λ known.
          Nets-close (is_nil known) _ (or_empty found) _ (λ final_raw.
            Nets-attempt (resolved w.limit config c final_raw) _ (λ closed.
              Nets-if (is_nil closed) _ _ (without_a_final-Nets c)
                (conclude-Nets c seed final_raw)))))

    attempt_refine-Nets :
        (corpus : Option Corpus) → Nets context (attempt_refine w config context category corpus)
    unfolding attempt_refine on_trace set_fallback
    attempt_refine-Nets corpus = Nets-attempt corpus _ (λ c.
        let seed = seed_sids_from_context context in
        Nets-if (is_nil seed && is_filter config.mode) _ _
          (record { at = λ r out e h. inr (sym (some-injective _ _ h)) })
          (Nets-attempt (w.opening c seed) _ (λ messages.
            Nets-session (modify (λ s. record s { messages = messages })) _
              (λ _. pursue-Nets c seed))))

handle-Nets :
    (context : Text) (m : Exec Text)
    → Nets context m
    → ((handle context (m start)).1.trace.fallback ≡ none)
      ⊎ ((handle context (m start)).0 ≡ context)
unfolding handle
handle-Nets context m n = elim (Option-cases (m start).0) [
  | inl raised ↦ inr (ground (arith, raised))
  | inr (out, ok) ↦ elim (n.at start out refl ok) [
    | inl clean ↦ inl (ground (arith, ok, clean))
    | inr same ↦ inr (ground (arith, ok, same))
  ]
]

-- Whatever the model, its tools and the auditor do or raise, the refinement records no fallback or
-- hands the original context back.
pub refine_context-net :
    (w : World) (config : Option Config) (context : Text) (category : Option Text)
    (corpus : Option Corpus)
    → ((refine_context w config context category corpus).1.trace.fallback ≡ none)
      ⊎ ((refine_context w config context category corpus).0 ≡ context)
unfolding refine_context handle
refine_context-net w none context category corpus = inr refl
refine_context-net w (some config) context category corpus =
    handle-Nets context (attempt_refine w config context category corpus)
      (attempt_refine-Nets w config category corpus)
