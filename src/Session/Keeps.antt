-- ===== src/Session/Keeps.antt =====
-- Invariants of a session: what each of its four effects keeps, the whole loop keeps.
use grace_mem.Common.{
  ℕ, zero, suc, Bool, true, false, Option, none, some, List, Text, if◌then◌else◌,
}
use grace_mem.Protocol.{Command, ParsedResponse}
use grace_mem.Effects.{return, ◌>>=◌, continue}
use grace_mem.Session.{
  Message, Event, ToolResult, Session, Exec, Rest, failed, obey, repeated, searched, respond, ask,
  run_tool, run_loop, run, force_final, tell, note,
}

-- `m` keeps `P`, whether it returns or raises.
pub record Keeps {A : Type 0} (P : Session → Type 0) (m : Exec A) : Type 0 where
  pub at : (s : Session) → P s → P (m s).1

module _ {P : Session → Type 0} where
  pub Keeps-return : {A : Type 0} (a : A) → Keeps P (return a)
  Keeps-return a = record { at = λ s p. p }

  Keeps-continue :
      {A B : Type 0} (o : Option A) (f : A → Exec B)
      → ((a : A) → Keeps P (f a))
      → Keeps P (continue o f)
  Keeps-continue none f h = record { at = λ s p. p }
  Keeps-continue (some a) f h = h a

  pub Keeps-bind :
      {A B : Type 0} (m : Exec A) (f : A → Exec B)
      → Keeps P m
      → ((a : A) → Keeps P (f a))
      → Keeps P (m >>= f)
  Keeps-bind m f hm hf = record {
    at = λ s p. let (o, s') = m s in (Keeps-continue o f hf).at s' (hm.at s p);
  }

  pub Keeps-if :
      {A : Type 0} (b : Bool) (m n : Exec A) → Keeps P m → Keeps P n → Keeps P (if b then m else n)
  Keeps-if true m n hm hn = hm
  Keeps-if false m n hm hn = hn

ruleset keeps_rules = (Keeps-return, Keeps-bind, Keeps-if)

-- What the three effects other than `collect` and the call of the model keep.
module _ {R : Type 0} (chat : ℕ → List Message → ℕ → Option R) (parse : R → ParsedResponse)
    (execute : Command → Option ToolResult) (is_digit : ℕ → Bool) {P : Session → Type 0}
    (ask_keeps : (k : ℕ) → Keeps P (ask chat parse execute is_digit k))
    (tell_keeps : (text : Text) → Keeps P (tell text))
    (note_keeps : (cmd : Event) (arg : Text) → Keeps P (note cmd arg))
    (tool_keeps : (cmd : Command) → Keeps P (run_tool chat parse execute is_digit cmd)) where
  respond-Keeps :
      (again : Rest)
      → ((pf rc : ℕ) (prev : Option Command) → Keeps P (again pf rc prev))
      → (pf rc : ℕ) (prev : Option Command) (parsed : ParsedResponse) (o : Option Command)
      → Keeps P (elim o [
        | none ↦ failed chat parse execute is_digit again pf rc prev parsed
        | some cmd ↦ obey chat parse execute is_digit again rc prev parsed cmd
      ])
  unfolding failed obey repeated searched
  respond-Keeps again h pf rc prev parsed none = search keeps_rules
  respond-Keeps again h pf rc prev parsed (some cmd) = search keeps_rules

  run_loop-Keeps :
      (budget pf rc : ℕ) (prev : Option Command)
      → Keeps P (run_loop chat parse execute is_digit budget pf rc prev)
  unfolding run_loop respond
  run_loop-Keeps zero pf rc prev = Keeps-return none
  run_loop-Keeps (suc budget) pf rc prev =
      Keeps-bind (ask chat parse execute is_digit 1024) _ (ask_keeps 1024) (λ parsed.
        respond-Keeps (run_loop chat parse execute is_digit budget) (run_loop-Keeps budget) pf rc
          prev parsed parsed.command)

  pub run-Keeps : (budget : ℕ) → Keeps P (run chat parse execute is_digit budget)
  unfolding run
  run-Keeps budget = run_loop-Keeps budget 0 0 none

  pub force_final-Keeps :
      (seed : List Text) (attempt : ℕ)
      → Keeps P (force_final chat parse execute is_digit seed attempt)
  unfolding force_final
  force_final-Keeps seed attempt = search keeps_rules
