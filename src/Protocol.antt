-- ===== src/Protocol.antt =====
-- grace_mem/agent_filter/runtime/protocol.py: what one model reply carries, in whatever channel it
-- came, and the sids of a FINAL. The grammar of one command (`parse_command` and
-- `parse_narrated_command`, regular expressions over the reply) is a parameter here.
pub mod Sids
use grace_mem.Common.{
  Option, none, some, List, [], ◌∷◌, ◌++◌, eqb, if◌then◌else◌, map, nat_eq, Text, text_eq, contains,
  codes, strip, is_empty, has_char,
}

pub data Kind : Type 0 where
  grep read vector final : Kind

pub record Command : Type 0 where
  pub kind : Kind
  pub arg : Text

pub data Source : Type 0 where
  content tool_calls reasoning reasoning_narrated : Source

pub record ParsedResponse : Type 0 where
  pub raw_reply : Text
  pub reply : Text
  pub command : Option Command
  pub source : Option Source

-- `function.arguments` of a native tool call: a text, or an object that `json.dumps` prints.
pub record ToolCall : Type 0 where
  pub name : Option Text
  pub arguments : Text

-- The fields of `resp.choices[0].message` that are read; `none` is a field that is not a text.
pub record Reply : Type 0 where
  pub content : Option Text
  pub tool_calls : List ToolCall
  pub reasoning_content : Option Text
  pub reasoning : Option Text

-- A response without choices is `none`.
abbrev pub Response : Type 0
Response = Option Reply

-- A text that is there and not blank, stripped.
unfoldable pub visible : Option Text → List Text
visible none = []
visible (some s) = let t = strip s in if is_empty t then [] else t ∷ []

-- `a or b` of two texts that may be missing.
unfoldable pub or_text : Option Text → Option Text → Option Text
or_text none b = b
or_text (some s) b = if is_empty s then b else some s

-- `name.split(".")[-1]`
unfoldable pub after_last_dot : Text → Text
after_last_dot [] = []
after_last_dot (c ∷ s) =
    if has_char b'.' s then after_last_dot s else if eqb c b'.' then s else c ∷ s

abbrev pub command_names : List Text
command_names = codes "GREP" ∷ codes "READ" ∷ codes "VECTOR" ∷ codes "FINAL" ∷ []

-- `upper` is `str.upper`.
module _ (upper : Text → Text) where
  unfoldable pub tool_call_text : ToolCall → List Text
  tool_call_text call = elim call.name [
    | none ↦ []
    | some n ↦
        if is_empty n
        then []
        else let name = upper (after_last_dot n) in
          if contains command_names name
          then (codes "to=" ++ (name ++ (codes " <|message|>" ++ call.arguments))) ∷ []
          else []
  ]

  unfoldable pub call_texts : List ToolCall → List Text
  call_texts [] = []
  call_texts (call ∷ calls) = tool_call_text call ++ call_texts calls

  -- `response_command_candidates`
  unfoldable pub response_command_candidates : Response → List (Source × Text)
  unfolding visible or_text after_last_dot tool_call_text call_texts
  response_command_candidates none = []
  response_command_candidates (some m) =
      map (λ s. (content, s)) (visible m.content)
      ++ (map (λ s. (tool_calls, s)) (call_texts m.tool_calls)
          ++ map (λ s. (reasoning, s)) (visible (or_text m.reasoning_content m.reasoning)))

  module _ (parse_command parse_narrated_command : Text → Option Command) where
    -- The first loop of `parse_response`: the first candidate that parses.
    unfoldable pub first_parsed : List (Source × Text) → Option (Source × Text × Command)
    first_parsed [] = none
    first_parsed ((src, text) ∷ rest) = elim (parse_command text) [
      | some cmd ↦ some (src, text, cmd)
      | none ↦ first_parsed rest
    ]

    -- The second loop: the first reasoning candidate that describes a command.
    unfoldable pub first_narrated : List (Source × Text) → Option (Source × Text × Command)
    first_narrated [] = none
    first_narrated ((reasoning, text) ∷ rest) = elim (parse_narrated_command text) [
      | some cmd ↦ some (reasoning_narrated, text, cmd)
      | none ↦ first_narrated rest
    ]
    first_narrated (_ ∷ rest) = first_narrated rest

    unfoldable pub raw_reply_of : List (Source × Text) → Text
    raw_reply_of [] = []
    raw_reply_of ((_, text) ∷ _) = text

    -- What the two loops found, or the reply without a command.
    unfoldable pub as_parsed : Text → Option (Source × Text × Command) → ParsedResponse
    as_parsed raw none = record { raw_reply = raw; reply = raw; command = none; source = none }
    as_parsed raw (some (src, text, cmd)) = record {
      raw_reply = raw;
      reply = text;
      command = some cmd;
      source = some src;
    }

    unfoldable pub parse_response : Response → ParsedResponse
    unfolding response_command_candidates first_parsed first_narrated raw_reply_of as_parsed
    parse_response resp =
        let candidates = response_command_candidates resp in
        as_parsed (raw_reply_of candidates) (elim (first_parsed candidates) [
          | some found ↦ some found
          | none ↦ first_narrated candidates
        ])
