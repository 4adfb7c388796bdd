-- ===== src/Session/Outcome.antt =====
-- How `AgentSession.run` ends: with sids only by a FINAL, and without them after three replies in a
-- row that carry no command.
use grace_mem.Common.{
  ℕ, zero, suc, ◌+◌, ◌-◌, ◌<◌, ◌≡◌, refl, sym, some-injective, Bool, true, false, Option, none,
  some, List, [], ◌∷◌, ◌++◌, arith, Text, take, min, Option-cases, if◌then◌else◌, inl, inr,
  Bool-cases, leb,
}
use grace_mem.Protocol.{Kind, grep, read, vector, final, Command, ParsedResponse}
use grace_mem.Protocol.Sids.{extract_final_sids}
use grace_mem.Effects.{◌>>=◌, continue, return}
use grace_mem.Session.{
  Message, user, assistant, Entry, parse_fail, final_reply, ToolResult, Session, Exec, Rest, ask,
  run, run_loop, note, compact, fixed, failed, obey, repeated, searched, respond,
  max_parse_failures, parse_fail_hint, kind_beq,
}

kind_beq-eq : (k : Kind) → kind_beq k final ≡ true → k ≡ final
unfolding kind_beq
kind_beq-eq grep h = cc h
kind_beq-eq read h = cc h
kind_beq-eq vector h = cc h
kind_beq-eq final h = refl

-- The session after the model's reply `o` was put into the conversation.
abbrev heard : Session → Option Command → Session
heard s o = record s {
  messages = s.messages ++ (record { role = assistant; content = compact o } ∷ []);
  calls = s.calls + 1;
}

module _ {R : Type 0} (chat : ℕ → List Message → ℕ → Option R) (parse : R → ParsedResponse)
    (execute : Command → Option ToolResult) (is_digit : ℕ → Bool) where
  -- The last call of the model, the `n`-th from 0, was answered with the FINAL command `cmd`; the
  -- trace closes with that command, and the sids are what its argument and that same reply name.
  pub record IsClosed (sids : List Text) (s : Session) : Type 0 where
    pub before : List Entry
    pub n : ℕ
    pub asked : List Message
    pub response : R
    pub cmd : Command
    pub last_call : s.calls ≡ n + 1
    pub said : chat n asked 1024 ≡ some response
    pub commanded : (parse response).command ≡ some cmd
    pub is_final : cmd.kind ≡ final
    pub heard_last :
        s.messages ≡ asked ++ (record { role = assistant; content = compact (some cmd) } ∷ [])
    pub closes : s.commands ≡ before ++ (record { cmd = final_reply; arg = take 500 cmd.arg } ∷ [])
    pub names : sids ≡ extract_final_sids is_digit cmd.arg (parse response).reply

  -- From `s` on: when `m` returns sids, a FINAL was the last thing that it did.
  abbrev ClosesAt : Exec (Option (List Text)) → Session → Type 0
  ClosesAt m s = (sids : List Text) → (m s).0 ≡ some (some sids) → IsClosed sids (m s).1

  -- The same from every session on.
  record Closes (m : Exec (Option (List Text))) : Type 0 where
    at : (s : Session) → ClosesAt m s

  Closes-none : Closes (return none)
  Closes-none = record { at = λ s sids h. absurd (cc h) }

  Closes-continue :
      {A : Type 0} (o : Option A) (f : A → Exec (Option (List Text)))
      → ((a : A) → Closes (f a))
      → Closes (continue o f)
  Closes-continue none f h = record { at = λ s sids e. absurd (cc e) }
  Closes-continue (some a) f h = h a

  Closes-bind :
      {A : Type 0} (m : Exec A) (f : A → Exec (Option (List Text)))
      → ((a : A) → Closes (f a))
      → Closes (m >>= f)
  Closes-bind m f h = record { at = λ s. let (o, s') = m s in (Closes-continue o f h).at s' }

  Closes-if :
      (b : Bool) (m n : Exec (Option (List Text)))
      → Closes m
      → Closes n
      → Closes (if b then m else n)
  Closes-if true m n hm hn = hm
  Closes-if false m n hm hn = hn

  ClosesAt-if :
      (b : Bool) (m n : Exec (Option (List Text))) (s : Session)
      → (b ≡ true → ClosesAt m s)
      → Closes n
      → ClosesAt (if b then m else n) s
  ClosesAt-if true m n s hm hn = hm refl
  ClosesAt-if false m n s hm hn = hn.at s

  ruleset closes_rules = (Closes-none, Closes-bind, Closes-if)

  failed-Closes :
      (again : Rest)
      → ((pf rc : ℕ) (prev : Option Command) → Closes (again pf rc prev))
      → (pf rc : ℕ) (prev : Option Command) (parsed : ParsedResponse)
      → Closes (failed chat parse execute is_digit again pf rc prev parsed)
  unfolding failed
  failed-Closes again h pf rc prev parsed = search closes_rules

  -- Only the FINAL branch returns sids, and it reads them off the reply to the call just made.
  obey-ClosesAt :
      (again : Rest)
      → ((pf rc : ℕ) (prev : Option Command) → Closes (again pf rc prev))
      → (rc : ℕ) (prev : Option Command) (r : R) (cmd : Command) (s : Session)
      → chat s.calls s.messages 1024 ≡ some r
      → (parse r).command ≡ some cmd
      → ClosesAt (obey chat parse execute is_digit again rc prev (parse r) cmd) (heard s (some cmd))
  unfolding obey repeated searched note
  obey-ClosesAt again h rc prev r cmd s said commanded =
      ClosesAt-if (kind_beq cmd.kind final) _ _ (heard s (some cmd))
        (λ is_final sids e. record {
          before = s.commands;
          n = s.calls;
          asked = s.messages;
          response = r;
          cmd = cmd;
          last_call = refl;
          said = said;
          commanded = commanded;
          is_final = kind_beq-eq cmd.kind is_final;
          heard_last = refl;
          closes = refl;
          names = sym (some-injective _ _ (some-injective _ _ e));
        })
        (search closes_rules)

  respond-ClosesAt :
      (again : Rest)
      → ((pf rc : ℕ) (prev : Option Command) → Closes (again pf rc prev))
      → (pf rc : ℕ) (prev : Option Command) (r : R) (s : Session)
      → chat s.calls s.messages 1024 ≡ some r
      → ClosesAt
          (respond chat parse execute is_digit again pf rc prev (parse r))
          (heard s (parse r).command)
  unfolding respond
  respond-ClosesAt again h pf rc prev r s said = elim (Option-cases (parse r).command) [
    | inl mute ↦ rw mute ((failed-Closes again h pf rc prev (parse r)).at (heard s none))
    | inr (cmd, commanded) ↦ rw commanded (obey-ClosesAt again h rc prev r cmd s said commanded)
  ]

  run_loop-Closes :
      (budget pf rc : ℕ) (prev : Option Command)
      → Closes (run_loop chat parse execute is_digit budget pf rc prev)
  unfolding run_loop ask
  run_loop-Closes zero pf rc prev = Closes-none
  run_loop-Closes (suc budget) pf rc prev = record {
    at = λ s. elim (Option-cases (chat s.calls s.messages 1024)) [
      | inl raised ↦ rw (raised, ask) (λ sids e. absurd (cc e))
      | inr (r, said) ↦
          rw (said, ask)
            (respond-ClosesAt (run_loop chat parse execute is_digit budget) (run_loop-Closes budget)
              pf rc prev r s said)
    ];
  }

  -- When `run` returns sids, the last of its calls of the model was answered with a FINAL command,
  -- the trace's last entry is that FINAL with the first 500 characters of its argument, the
  -- conversation's last message is that command, and the sids are those that its whole argument and
  -- the reply of that call name.
  pub run-IsClosed :
      (budget : ℕ) (s : Session) (sids : List Text)
      → (run chat parse execute is_digit budget s).0 ≡ some (some sids)
      → IsClosed sids (run chat parse execute is_digit budget s).1
  unfolding run
  run-IsClosed budget = (run_loop-Closes budget 0 0 none).at

  -- The model answers, and never with a command.
  abbrev pub IsSilent : Type 0
  IsSilent =
      (n : ℕ) (ms : List Message) (k : ℕ)
      → (r : R) × (chat n ms k ≡ some r) × ((parse r).command ≡ none)

  abbrev GivesUp : ℕ → Session → Option (Option (List Text)) × Session → Type 0
  GivesUp n s r = (r.0 ≡ some none) × (r.1.calls ≡ s.calls + n)

  silent_loop :
      IsSilent
      → (budget pf rc : ℕ) (prev : Option Command) (s : Session) → pf < 3
      → GivesUp (min budget (3 - pf)) s (run_loop chat parse execute is_digit budget pf rc prev s)
  unfolding run_loop respond failed compact
  silent_loop quiet zero pf rc prev s h = (refl, omega arith)
  silent_loop quiet (suc budget) pf rc prev s h =
      let (r, said, mute) = quiet s.calls s.messages 1024 in
      let s' = record s {
        messages =
            (s.messages ++ (record { role = assistant; content = [] } ∷ []))
            ++ (record { role = user; content = fixed parse_fail_hint } ∷ []);
        commands =
            s.commands ++ (record { cmd = parse_fail; arg = take 200 (parse r).raw_reply } ∷ []);
        calls = s.calls + 1;
      } in
      elim (Bool-cases (leb max_parse_failures (pf + 1))) [
        | inl last ↦ ground (arith, said, mute, last)
        | inr more ↦
            let rest = silent_loop quiet budget (pf + 1) rc prev s' (ground (arith, more)) in
            ground (arith, said, mute, more, rest.0, rest.1)
      ]

  -- A model that answers and never issues a command is called three times, or as often as the
  -- budget allows, and `run` returns without sids.
  pub run_silent :
      IsSilent
      → (budget : ℕ) (s : Session)
      → ((run chat parse execute is_digit budget s).0 ≡ some none)
        × ((run chat parse execute is_digit budget s).1.calls ≡ s.calls + min budget 3)
  unfolding run
  run_silent quiet budget s = let r = silent_loop quiet budget 0 0 none s (omega arith) in r
