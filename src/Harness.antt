-- ===== src/Harness.antt =====
-- grace_mem/agent_filter/harness.py: `refine_context`, the sequence of preparation, search, closure
-- and finalization, under the handler that hands the original context back.
pub mod Net
use grace_mem.Common.{
  ℕ, ◌≡◌, Bool, true, false, not, ◌&&◌, ◌||◌, Option, none, some, List, [], ◌∷◌, if◌then◌else◌,
  is_nil, Text,
}
use grace_mem.Effects
use grace_mem.Effects.{◌>>=◌, ◌>>◌, return, attempt, modify}
use grace_mem.Corpus.{Corpus, normalize_sids}
use grace_mem.Context.{seed_sids_from_context}
use grace_mem.Finalize
use grace_mem.Finalize.{
  Mode, filter_only, Config, Trace, Fallback, no_seed, no_final, exception, Selection, select,
  finalize, resolved,
}
use grace_mem.Protocol.{Command, ParsedResponse}
use grace_mem.Session
use grace_mem.Session.{Message, Session, ToolResult, run, force_final}

-- The conversation, whose `commands` are `trace["commands"]`, and the rest of the trace.
pub record Run : Type 0 where
  pub session : Session
  pub trace : Trace

abbrev pub Exec : Type 0 → Type 0
Exec A = Effects.Exec Run A

unfoldable pub on_session : {A : Type 0} → Session.Exec A → Exec A
on_session m r = let (o, s) = m r.session in (o, record r { session = s })

unfoldable pub on_trace : {A : Type 0} → Finalize.Exec A → Exec A
on_trace m r = let (o, t) = m r.trace in (o, record r { trace = t })

abbrev pub start : Run
start = record {
  session = record {
    messages = [];
    commands = [];
    verified_sids = [];
    vector_candidate_sids = [];
    calls = 0;
  };
  trace = record {
    fallback = none;
    verified_sids = [];
    vector_candidate_sids = [];
    evidence_provenance = [];
    final_before_cap = [];
    final_sids = [];
    kept = [];
    added = [];
    dropped = [];
    context_sids = [];
  };
}

abbrev pub or_empty : Option (List Text) → List Text
or_empty none = []
or_empty (some sids) = sids

unfoldable pub is_filter : Mode → Bool
is_filter filter_only = true
is_filter _ = false

-- What the refinement meets outside the module: the model and the parsed form of its replies, the
-- tools of a question, the auditor, the digits of the regular expressions, the opening prompt and
-- the room for nested calls.
pub record World : Type 1 where
  pub R : Type 0
  pub chat : ℕ → List Message → ℕ → Option R
  pub parse : R → ParsedResponse
  pub tools : Corpus → List Text → Command → Option ToolResult
  pub is_digit : ℕ → Bool
  pub verdict : Text → Option Bool
  pub judge : List Text → Option Text
  pub opening : Corpus → List Text → Option (List Message)
  pub limit : ℕ

module _ (w : World) (config : Config) (context : Text) (category : Option Text) where
  -- `_without_a_final`
  unfoldable pub without_a_final : Corpus → Exec Text
  without_a_final c = do
    on_trace (Finalize.set_fallback no_final)
    verified ← on_session (λ s. (some s.verified_sids, s))
    vs ← attempt (normalize_sids w.limit c verified)
    on_trace (modify (λ t. record t { verified_sids = vs }))
    return context

  -- The selection's fallback hands the context back; without one the finalizer renders.
  unfoldable pub deliver : Corpus → Selection → Exec Text
  deliver c sel = elim sel.fallback [
    | some f ↦ return context
    | none ↦ on_trace (finalize w.limit config w.verdict w.judge c category context sel)
  ]

  -- The finalizer over what the session gathered.
  unfoldable pub conclude : Corpus → List Text → List Text → Exec Text
  unfolding deliver
  conclude c seed final_raw r =
      (do
        sel ← on_trace (
            select w.limit config c final_raw seed r.session.verified_sids
              r.session.vector_candidate_sids)
        deliver c sel)
        r

  -- The search, one forced closure where it gave no usable sids, and the conclusion.
  unfoldable pub pursue : Corpus → List Text → Exec Text
  unfolding without_a_final conclude on_session on_trace
  pursue c seed = do
    found ← on_session (run w.chat w.parse (w.tools c seed) w.is_digit config.max_calls)
    known ← attempt (resolved w.limit config c (or_empty found))
    final_raw ←
        (if is_nil known
          then on_session (force_final w.chat w.parse (w.tools c seed) w.is_digit seed 0)
          else return (or_empty found))
    closed ← attempt (resolved w.limit config c final_raw)
    if is_nil closed then without_a_final c else conclude c seed final_raw

  -- The body of the `try`, after the configuration is read: `corpus` is the loaded corpus.
  unfoldable pub attempt_refine : Option Corpus → Exec Text
  unfolding pursue seed_sids_from_context is_filter
  attempt_refine corpus = do
    c ← attempt corpus
    let seed = seed_sids_from_context context
    if is_nil seed && is_filter config.mode
        then (do on_trace (Finalize.set_fallback no_seed); return context)
        else (do
          messages ← attempt (w.opening c seed)
          on_session (modify (λ s. record s { messages = messages }))
          pursue c seed)

-- The handler: an exception leaves the trace as it was, marked, and the context untouched.
unfoldable pub handle : Text → Option Text × Run → Text × Run
handle context (none, r) =
    (context, record r { trace = record r.trace { fallback = some exception } })
handle context (some out, r) = (out, r)

-- `refine_context`; `config` is none if reading the parameters raised.
unfoldable pub refine_context :
    World → Option Config → Text → Option Text → Option Corpus → Text × Run
unfolding handle attempt_refine
refine_context w none context category corpus = handle context (none, start)
refine_context w (some config) context category corpus =
    handle context (attempt_refine w config context category corpus start)
