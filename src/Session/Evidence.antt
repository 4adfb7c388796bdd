-- ===== src/Session/Evidence.antt =====
-- What the session gathers: the sids that its tools reported, and the conversation that it keeps.
use grace_mem.Common.{
  ℕ, ◌≡◌, Bool, Option, some, List, arith, Text, All, Distinct, dedup_into, Distinct-dedup_into,
  contains, contains-dedup_into, contains-All, All_of_contains, text_eq, inl, inr, Bool-cases,
  Option-cases,
}
use grace_mem.Protocol.{Command, ParsedResponse}
use grace_mem.Session.{Message, Entry, ToolResult, Session, ask, run_tool, run, tell, note}
use grace_mem.Session.Keeps.{Keeps, run-Keeps}

All-dedup_into :
    (P : Text → Type 0) (out xs : List Text) → All P out → All P xs → All P (dedup_into out xs)
All-dedup_into P out xs ho hx = All_of_contains P (dedup_into out xs) (λ a c.
    elim (Bool-cases (contains out a)) [
      | inl old ↦ contains-All P out a ho old
      | inr new ↦ contains-All P xs a hx (ground (arith, contains-dedup_into out xs a))
    ])

-- The sids of a session: each once, and all of them with `P`.
pub record Gathered (P : Text → Type 0) (s : Session) : Type 0 where
  pub verified : All P s.verified_sids
  pub vector_candidates : All P s.vector_candidate_sids
  pub verified_once : Distinct s.verified_sids

-- Another conversation or trace changes nothing of it.
again :
    {P : Text → Type 0} (s : Session)
    → Gathered P s
    → {messages : List Message} {commands : List Entry} {calls : ℕ}
    → Gathered P (record s { messages = messages; commands = commands; calls = calls })
again s g = record {
  verified = g.verified;
  vector_candidates = g.vector_candidates;
  verified_once = g.verified_once;
}

module _ {R : Type 0} (chat : ℕ → List Message → ℕ → Option R) (parse : R → ParsedResponse)
    (execute : Command → Option ToolResult) (is_digit : ℕ → Bool) where
  -- What the tools report has `P`.
  abbrev pub Reports : (Text → Type 0) → Type 0
  Reports P =
      (cmd : Command) (r : ToolResult)
      → execute cmd ≡ some r
      → All P r.verified × All P r.vector_candidates

  ask-Gathered :
      (P : Text → Type 0) (k : ℕ) → Keeps (Gathered P) (ask chat parse execute is_digit k)
  unfolding ask
  ask-Gathered P k = record {
    at = λ s g. elim (Option-cases (chat s.calls s.messages k)) [
      | inl raised ↦ rw (raised, ask) (again s g)
      | inr (resp, said) ↦ rw (said, ask) (again s g)
    ];
  }

  run_tool-Gathered :
      (P : Text → Type 0)
      → Reports P
      → (cmd : Command) → Keeps (Gathered P) (run_tool chat parse execute is_digit cmd)
  unfolding run_tool
  run_tool-Gathered P h cmd = record {
    at = λ s g. elim (Option-cases (execute cmd)) [
      | inl raised ↦ rw (raised, run_tool) g
      | inr (r, ran) ↦
          rw (ran, run_tool)
            (record {
              verified = All-dedup_into P s.verified_sids r.verified g.verified (h cmd r ran).0;
              vector_candidates =
                  All-dedup_into P s.vector_candidate_sids r.vector_candidates g.vector_candidates
                    (h cmd r ran).1;
              verified_once = Distinct-dedup_into s.verified_sids r.verified g.verified_once;
            })
    ];
  }

  -- From a session whose sids have `P` and whose verified sids stand once each: if every sid that
  -- the tools report has `P`, so has every sid that `run` leaves in the session, also when the model
  -- or a tool raises, and no verified sid stands there twice.
  pub run-Gathered :
      (P : Text → Type 0) (budget : ℕ) (s : Session)
      → Reports P
      → Gathered P s
      → Gathered P (run chat parse execute is_digit budget s).1
  run-Gathered P budget s h =
      (run-Keeps chat parse execute is_digit (ask-Gathered P)
          (λ text. unfold tell in record { at = λ s g. again s g })
          (λ cmd arg. unfold note in record { at = λ s g. again s g }) (run_tool-Gathered P h)
          budget).at
        s
