-- ===== src/Tests/Agent.antt =====
-- Runs of the agent filter, grace_mem/agent_filter, on a corpus of two turns.
use grace_mem.Common.{
  ℕ, zero, suc, ◌≤◌, ◌≡◌, refl, ◌⊎◌, Bool, true, false, Option, none, some, List, [], ◌∷◌, arith,
  All, In, Distinct, Text, text_eq, contains, codes, starts_with, is_empty, strip, lstrip, rstrip,
  close_with, has_char, has_substring, is_space, some-injective, subst, lookup, put, list_beq,
  dedup_into,
}
use grace_mem.Corpus.{Turn, build, resolve, normalize_sids}
use grace_mem.Corpus.Halts.{IsPlain, SessionsArePlain, resolve-Halts}
use grace_mem.Corpus.Normalize.{SidsAreClean, normalize_sids_idem, normalize_sids-Distinct}
use grace_mem.Corpus.Resolve.{resolve-In}
use grace_mem.Corpus.Spin.{lone, echoes, resolve_spins}
use grace_mem.Protocol.{Command, final, grep, ParsedResponse}
use grace_mem.Protocol.Sids.{sid_at, is_sid_char, extract_final_sids}
use grace_mem.Context.{display_entry}
use grace_mem.Session.{Message, ToolResult, run}
use grace_mem.Session.Budget.{run-Costs}
use grace_mem.Session.Evidence.{Gathered, Reports, run-Gathered}
use grace_mem.Session.Outcome.{IsClosed, run-IsClosed, IsSilent, run_silent}
use grace_mem.Adjudicate.{adjudicate_candidates}
use grace_mem.Adjudicate.Fair.{adjudicate_candidates-kept}
use grace_mem.Finalize.{Config, filter_fetch, Selection, select, adjudicate}
use grace_mem.Finalize.Recover.{Recovers, adjudicate-Recovers}
use grace_mem.Finalize.Select.{Selects, select-Selects}
use grace_mem.Harness.{World, start, refine_context}
use grace_mem.Harness.Net.{refine_context-net}

abbrev first_turn : Turn
first_turn = record {
  sid = codes "a:1:u";
  session_id = codes "a";
  turn_index = 0;
  pos = 0;
  role = codes "user";
  date = [];
  text = codes "hello";
}

abbrev second_turn : Turn
second_turn = record first_turn {
  sid = codes "a:1:a";
  turn_index = 1;
  pos = 1;
  role = codes "assistant";
}

abbrev turns : List Turn
turns = first_turn ∷ second_turn ∷ []

abbrev config : Config
config = record {
  mode = filter_fetch;
  max_calls = 4;
  max_sids = 2;
  adjudicate = true;
  adjudicate_categories = none;
  include_pair = true;
  answer_include_graph = true;
}

abbrev closing : ParsedResponse
closing = record {
  raw_reply = codes "FINAL [sid=a:1:u]";
  reply = codes "FINAL [sid=a:1:u]";
  command = some (record { kind = final; arg = codes "[sid=a:1:u]" });
  source = none;
}

abbrev searching : ParsedResponse
searching = record closing { command = some (record { kind = grep; arg = codes "hello" }) }

abbrev mute : ParsedResponse
mute = record closing { command = none }

-- A model that searches once and closes, one that never gives a command, and a tool.
abbrev chat : ℕ → List Message → ℕ → Option ParsedResponse
chat zero ms k = some searching
chat (suc n) ms k = some closing

abbrev silent : ℕ → List Message → ℕ → Option ParsedResponse
silent n ms k = some mute

abbrev id : ParsedResponse → ParsedResponse
id p = p

abbrev execute : Command → Option ToolResult
execute cmd =
    some (record { text = codes "hit"; verified = codes "a:1:u" ∷ []; vector_candidates = [] })

abbrev is_digit : ℕ → Bool
is_digit n = false

abbrev verdict : Text → Option Bool
verdict line = some true

abbrev judge : List Text → Option Text
judge lines = some (codes "a:1:a KEEP")

abbrev world : World
world = record {
  R = ParsedResponse;
  chat = chat;
  parse = id;
  tools = λ c seed cmd. execute cmd;
  is_digit = is_digit;
  verdict = verdict;
  judge = judge;
  opening = λ c seed. some [];
  limit = 3;
}

abbrev context : Text
context = codes "### Evidence Summary [sid=a:1:u]"

refine_context-net_example :
    ((refine_context world (some config) context none (some (build turns))).1.trace.fallback ≡ none)
    ⊎ ((refine_context world (some config) context none (some (build turns))).0 ≡ context)
refine_context-net_example =
    refine_context-net world (some config) context none (some (build turns))

closing_run : (run chat id execute is_digit 4 start.session).0 ≡ some (some (codes "a:1:u" ∷ []))
unfolding run extract_final_sids sid_at starts_with is_empty is_sid_char is_space
closing_run = refl

run-IsClosed_example :
    IsClosed chat id execute is_digit
      (codes "a:1:u" ∷ [])
      (run chat id execute is_digit 4 start.session).1
run-IsClosed_example =
    run-IsClosed chat id execute is_digit 4 start.session (codes "a:1:u" ∷ []) closing_run

mute_silent : IsSilent silent id execute is_digit
mute_silent n ms k = (mute, refl, refl)

run_silent_example :
    ((run silent id execute is_digit 5 start.session).0 ≡ some none)
    × ((run silent id execute is_digit 5 start.session).1.calls ≡ 3)
run_silent_example = run_silent silent id execute is_digit mute_silent 5 start.session

run-Costs_example : (run chat id execute is_digit 4 start.session).1.calls ≤ 4
run-Costs_example = run-Costs chat id execute is_digit 4 start.session

abbrev IsFirst : Text → Type 0
IsFirst s = s ≡ codes "a:1:u"

tool_reports : Reports chat id execute is_digit IsFirst
tool_reports cmd r e =
    subst (λ r. All IsFirst r.verified × All IsFirst r.vector_candidates) (some-injective _ _ e)
      ((refl, tt), tt)

start_Gathered : Gathered IsFirst start.session
start_Gathered = record { verified = tt; vector_candidates = tt; verified_once = tt }

run-Gathered_example : Gathered IsFirst (run chat id execute is_digit 4 start.session).1
run-Gathered_example =
    run-Gathered chat id execute is_digit IsFirst 4 start.session tool_reports start_Gathered

turns_plain : SessionsArePlain 1 turns
unfolding lstrip is_space has_char
turns_plain = (plain, (plain, tt))
  where
    plain : IsPlain 1 (codes "a")
    plain = record { short = omega arith; no_colon = refl; opens = refl }

resolve-Halts_example : (ts : List Turn) × (resolve 2 (build turns) (codes "a:9") ≡ some ts)
resolve-Halts_example = resolve-Halts 1 turns turns_plain 2 (codes "a:9") (omega arith)

turns_clean : SidsAreClean turns
unfolding strip lstrip rstrip close_with is_space
turns_clean = (refl, (refl, tt))

normalized :
    normalize_sids 2 (build turns) (codes "a:1" ∷ []) ≡ some (codes "a:1:u" ∷ codes "a:1:a" ∷ [])
unfolding normalize_sids build strip lstrip rstrip close_with is_space resolve lookup put list_beq
    dedup_into contains
normalized = refl

normalize_sids_idem_example :
    normalize_sids 1 (build turns) (codes "a:1:u" ∷ codes "a:1:a" ∷ [])
    ≡ some (codes "a:1:u" ∷ codes "a:1:a" ∷ [])
normalize_sids_idem_example =
    normalize_sids_idem turns 2 0 (codes "a:1" ∷ []) (codes "a:1:u" ∷ codes "a:1:a" ∷ [])
      turns_clean normalized

normalize_sids-Distinct_example : Distinct (codes "a:1:u" ∷ codes "a:1:a" ∷ [])
normalize_sids-Distinct_example =
    normalize_sids-Distinct turns 2 (codes "a:1" ∷ []) (codes "a:1:u" ∷ codes "a:1:a" ∷ [])
      normalized

resolved_pair : resolve 2 (build turns) (codes "a:1") ≡ some turns
unfolding resolve build strip lstrip rstrip close_with is_space lookup put list_beq
resolved_pair = refl

resolve-In_example : All (λ t. In t turns) turns
resolve-In_example = resolve-In turns 2 (codes "a:1") turns resolved_pair

resolve_spins_example : resolve 5 (build lone) (echoes 2) ≡ none
resolve_spins_example = resolve_spins 5 2

audited :
    adjudicate_candidates verdict judge 3 (build turns) (codes "a:1:a" ∷ [])
    ≡ some (codes "a:1:a" ∷ [])
unfolding adjudicate_candidates build display_entry strip lstrip rstrip close_with is_space
    has_substring starts_with resolve lookup put list_beq contains
audited = refl

adjudicate_candidates-kept_example :
    All (λ s. contains (codes "a:1:a" ∷ []) s ≡ true) (codes "a:1:a" ∷ [])
    × Distinct (codes "a:1:a" ∷ [])
adjudicate_candidates-kept_example =
    adjudicate_candidates-kept verdict (codes "a:1:a" ∷ []) judge 3 (build turns)
      (codes "a:1:a" ∷ []) audited

abbrev selection : Selection
selection = record {
  final = codes "a:1:u" ∷ [];
  seed_norm = codes "a:1:u" ∷ codes "a:1:a" ∷ [];
  fallback = none;
}

adjudicate-Recovers_example :
    Recovers config selection (adjudicate 3 config verdict judge (build turns) none selection)
adjudicate-Recovers_example =
    adjudicate-Recovers 3 config selection (omega arith) verdict judge (build turns) none

selected :
    (select 3 config (build turns) (codes "a:1:u" ∷ []) (codes "a:1" ∷ []) [] [] start.trace).0
    ≡ some selection
unfolding select build strip lstrip rstrip close_with is_space normalize_sids resolve lookup put
    list_beq dedup_into contains
selected = refl

select-Selects_example :
    Selects 3 config (build turns) (codes "a:1:u" ∷ []) (codes "a:1" ∷ []) selection
select-Selects_example =
    select-Selects 3 config turns (codes "a:1:u" ∷ []) (codes "a:1" ∷ []) [] [] start.trace
      selection selected refl
