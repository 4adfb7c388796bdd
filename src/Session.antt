-- ===== src/Session.antt =====
-- grace_mem/agent_filter/runtime/session.py: `AgentSession`. The model is `chat`, which sees how
-- many calls were made before, the conversation and the token limit, and may raise (`none`); the
-- tools are `execute`, which may raise too. A method acts on the session and on the trace's command
-- list, and what it wrote before an exception stays written.
pub mod Budget
pub mod Evidence
pub mod Keeps
pub mod Outcome
use grace_mem.Common.{
  ℕ, zero, suc, ◌+◌, ◌≡◌, Bool, true, false, Option, none, some, List, [], ◌∷◌, ◌++◌, if◌then◌else◌,
  leb, take, dedup_into, is_empty, String, ◌&&◌, Eq, text_eq, Text, ◌==◌, contains, codes, join,
}
use grace_mem.Effects
use grace_mem.Effects.{◌>>=◌, ◌>>◌, return}
use grace_mem.Protocol.{Kind, grep, read, vector, final, Command, ParsedResponse}
use grace_mem.Protocol.Sids.{extract_final_sids}

pub data Role : Type 0 where
  system user assistant : Role

pub record Message : Type 0 where
  pub role : Role
  pub content : Text

-- One entry of `trace["commands"]`: its "cmd" and "arg".
pub data Event : Type 0 where
  parse_fail repeat_break final_reply final_forced : Event
  tool : Kind → Event

pub record Entry : Type 0 where
  pub cmd : Event
  pub arg : Text

pub record ToolResult : Type 0 where
  pub text : Text
  pub verified : List Text
  pub vector_candidates : List Text

pub record Session : Type 0 where
  pub messages : List Message
  pub commands : List Entry
  pub verified_sids : List Text
  pub vector_candidate_sids : List Text
  -- How many times the model was called.
  pub calls : ℕ

-- A method of the session.
abbrev pub Exec : Type 0 → Type 0
Exec A = Effects.Exec Session A

-- A literal that no proof looks into.
unfoldable pub fixed : String → Text
fixed s = codes s

abbrev pub parse_fail_hint : String
parse_fail_hint =
    "Your reply did not contain a runnable command. Do NOT explain or describe what you want to do — output ONLY one command line, nothing else. It must be exactly one of:\nGREP <regex>\nREAD <sid> [k]\nVECTOR <query>\nFINAL <sid> [sid ...]\nFor example, to search for a hamster's name, reply exactly:\nGREP hamster"

abbrev pub repeat_hint : String
repeat_hint =
    "You already ran that exact command. Try DIFFERENT keywords, or reply FINAL <sid> ... with your current best selection."

abbrev pub closing_reminder : String
closing_reminder =
    "\n\n(When you have identified the evidence, reply with one line: FINAL <sid> <sid> ... — copy sids exactly. A PARTIAL set is acceptable: FINAL the turns you have confirmed so far — a separate audit step recovers anything you miss. Do not keep searching for completeness.)"

-- `_SALVAGE_MESSAGES[attempt].format(seeds=" ".join(seed))`
unfoldable pub salvage_message : ℕ → List Text → Text
salvage_message zero seed =
    fixed
      "STOP searching. Reply NOW with only one line listing the selected evidence sids, copied EXACTLY from this list (or ones you found via GREP):\n"
    ++ (join (codes " ") seed ++ fixed "\nFINAL <sid> <sid> ...")
salvage_message (suc attempt) seed =
    fixed
      "Output ONLY the single line below, filled in with sids from this list — no other text, no tool calls:\n"
    ++ (join (codes " ") seed ++ fixed "\nFINAL <sid> <sid> ...")

abbrev pub max_parse_failures : ℕ
max_parse_failures = 3

unfoldable pub kind_name : Kind → Text
kind_name grep = codes "GREP"
kind_name read = codes "READ"
kind_name vector = codes "VECTOR"
kind_name final = codes "FINAL"

unfoldable pub kind_beq : Kind → Kind → Bool
kind_beq grep grep = true
kind_beq read read = true
kind_beq vector vector = true
kind_beq final final = true
kind_beq _ _ = false

-- `cmd == prev_cmd`
unfoldable pub repeats : Command → Option Command → Bool
unfolding kind_beq
repeats cmd none = false
repeats cmd (some prev) = kind_beq cmd.kind prev.kind && (cmd.arg == prev.arg)

-- What the history keeps of a reply: f"{kind} {arg}", or nothing.
unfoldable pub compact : Option Command → Text
unfolding kind_name
compact none = []
compact (some cmd) = kind_name cmd.kind ++ (codes " " ++ cmd.arg)

-- `AgentSession.tell`
unfoldable pub tell : Text → Exec (Unit {0})
tell text s =
    (some tt, record s { messages = s.messages ++ (record { role = user; content = text } ∷ []) })

-- `AgentSession._record`, and the entry that the repeat breaker appends.
unfoldable pub note : Event → Text → Exec (Unit {0})
note cmd arg s =
    (some tt, record s { commands = s.commands ++ (record { cmd = cmd; arg = arg } ∷ []) })

-- `self.verified_sids.update(...)`; the sets stand in the order in which their elements came.
unfoldable pub collect : ToolResult → Exec (Unit {0})
collect r s = (
  some tt,
  record s {
    verified_sids = dedup_into s.verified_sids r.verified;
    vector_candidate_sids = dedup_into s.vector_candidate_sids r.vector_candidates;
  },
)

-- What is left of the loop, as a function of its local variables.
abbrev pub Rest : Type 0
Rest = ℕ → ℕ → Option Command → Exec (Option (List Text))

module _ {R : Type 0} (chat : ℕ → List Message → ℕ → Option R) (parse : R → ParsedResponse)
    (execute : Command → Option ToolResult) (is_digit : ℕ → Bool) where
  -- `AgentSession._ask`
  unfoldable pub ask : ℕ → Exec ParsedResponse
  ask max_tokens s = elim (chat s.calls s.messages max_tokens) [
    | none ↦ (none, record s { calls = s.calls + 1 })
    | some resp ↦
        let parsed = parse resp in
        (
          some parsed,
          record s {
            messages =
                s.messages ++ (record { role = assistant; content = compact parsed.command } ∷ []);
            calls = s.calls + 1;
          },
        )
  ]

  -- The tail of one round: run the tool, keep its sids, report its text.
  unfoldable pub run_tool : Command → Exec (Unit {0})
  unfolding collect note tell
  run_tool cmd s = elim (execute cmd) [
    | none ↦ (none, s)
    | some result ↦
        (do
          collect result
          note (tool cmd.kind) (take 300 cmd.arg)
          tell (result.text ++ fixed closing_reminder))
          s
  ]

  -- A reply without a command: the third in a row ends the search. `again` is the rest of the loop.
  unfoldable pub failed : Rest → ℕ → ℕ → Option Command → ParsedResponse → Exec (Option (List Text))
  unfolding note tell
  failed again parse_failures repeat_count prev parsed = do
    note parse_fail (take 200 parsed.raw_reply)
    if leb max_parse_failures (parse_failures + 1)
        then return none
        else (do tell (fixed parse_fail_hint); again (parse_failures + 1) repeat_count prev)

  -- The command of the last round again: the second time in a row ends the search.
  unfoldable pub repeated : Rest → ℕ → Option Command → Command → Exec (Option (List Text))
  unfolding note tell
  repeated again repeat_count prev cmd =
      if leb 2 (repeat_count + 1)
      then (do note repeat_break (take 200 (compact (some cmd))); return none)
      else (do tell (fixed repeat_hint); again 0 (repeat_count + 1) prev)

  unfoldable pub searched : Rest → Command → Exec (Option (List Text))
  unfolding run_tool
  searched again cmd = do run_tool cmd; again 0 0 (some cmd)

  unfoldable pub obey :
      Rest → ℕ → Option Command → ParsedResponse → Command → Exec (Option (List Text))
  unfolding repeated searched repeats note
  obey again repeat_count prev parsed cmd =
      if kind_beq cmd.kind final
      then (do
        note final_reply (take 500 cmd.arg)
        return (some (extract_final_sids is_digit cmd.arg parsed.reply)))
      else if repeats cmd prev
      then repeated again repeat_count prev cmd
      else searched again cmd

  -- One round after the model's reply.
  unfoldable pub respond :
      Rest → ℕ → ℕ → Option Command → ParsedResponse → Exec (Option (List Text))
  unfolding failed obey
  respond again parse_failures repeat_count prev parsed = elim parsed.command [
    | none ↦ failed again parse_failures repeat_count prev parsed
    | some cmd ↦ obey again repeat_count prev parsed cmd
  ]

  -- The loop of `AgentSession.run`: the calls left, and its three local variables.
  unfoldable pub run_loop : ℕ → Rest
  unfolding ask respond
  run_loop zero parse_failures repeat_count prev = return none
  run_loop (suc budget) parse_failures repeat_count prev = do
    parsed ← ask 1024
    respond (run_loop budget) parse_failures repeat_count prev parsed

  unfoldable pub run : ℕ → Exec (Option (List Text))
  unfolding run_loop
  run budget = run_loop budget 0 0 none

  unfoldable pub forced_arg : Option Command → Text
  forced_arg none = []
  forced_arg (some cmd) = if kind_beq cmd.kind final then cmd.arg else []

  -- `AgentSession.force_final`
  unfoldable pub force_final : List Text → ℕ → Exec (List Text)
  unfolding ask tell note salvage_message forced_arg
  force_final seed attempt = do
    tell (salvage_message attempt seed)
    parsed ← ask 512
    let arg = forced_arg parsed.command
    note final_forced (take 500 (if is_empty arg then parsed.reply else arg))
    return (extract_final_sids is_digit arg parsed.reply)
