-- ===== src/Session/Budget.antt =====
-- How often `AgentSession.run` calls the model.
use grace_mem.Common.{ℕ, zero, suc, ◌+◌, ◌≤◌, Bool, Option, none, some, List, arith}
use grace_mem.Protocol.{Command, ParsedResponse}
use grace_mem.Effects.{◌>>=◌, continue}
use grace_mem.Session.{
  Message, ToolResult, Session, Exec, Rest, respond, ask, run_tool, run_loop, run,
}

-- At most `n` calls of the model.
abbrev Costs : {A : Type 0} → ℕ → Exec A → Type 0
Costs n m = (s : Session) → (m s).1.calls ≤ s.calls + n

continue-Costs :
    {A B : Type 0} (n : ℕ) (o : Option A) (f : A → Exec B)
    → ((a : A) → Costs n (f a))
    → Costs n (continue o f)
continue-Costs n none f h s = omega arith
continue-Costs n (some a) f h s = h a s

bind-Costs :
    {A B : Type 0} (n : ℕ) (m : Exec A) (f : A → Exec B)
    → Costs 1 m
    → ((a : A) → Costs n (f a))
    → Costs (suc n) (m >>= f)
bind-Costs n m f hm hf s =
    let (o, s') = m s in
    let last : (continue o f s').1.calls ≤ s'.calls + n = continue-Costs n o f hf s' in
    omega (arith, hm s)

module _ {R : Type 0} (chat : ℕ → List Message → ℕ → Option R) (parse : R → ParsedResponse)
    (execute : Command → Option ToolResult) (is_digit : ℕ → Bool) where
  ask-Costs : (k : ℕ) → Costs 1 (ask chat parse execute is_digit k)
  unfolding ask
  ask-Costs k s = ground arith

  run_tool-Costs : (cmd : Command) → Costs 0 (run_tool chat parse execute is_digit cmd)
  unfolding run_tool
  run_tool-Costs cmd s = ground arith

  respond-Costs :
      (budget : ℕ) (again : Rest)
      → ((pf rc : ℕ) (prev : Option Command) → Costs budget (again pf rc prev))
      → (pf rc : ℕ) (prev : Option Command) (parsed : ParsedResponse)
      → Costs budget (respond chat parse execute is_digit again pf rc prev parsed)
  unfolding respond
  respond-Costs budget again h pf rc prev parsed s = grind (arith, h)

  run_loop-Costs :
      (budget pf rc : ℕ) (prev : Option Command)
      → Costs budget (run_loop chat parse execute is_digit budget pf rc prev)
  unfolding run_loop
  run_loop-Costs zero pf rc prev = λ s. omega arith
  run_loop-Costs (suc budget) pf rc prev =
      bind-Costs budget (ask chat parse execute is_digit 1024) _ (ask-Costs 1024) (
        respond-Costs budget (run_loop chat parse execute is_digit budget) (run_loop-Costs budget)
          pf rc prev)

  -- However the model replies, `run` calls it at most `budget` times.
  pub run-Costs :
      (budget : ℕ) (s : Session)
      → (run chat parse execute is_digit budget s).1.calls ≤ s.calls + budget
  unfolding run
  run-Costs budget = run_loop-Costs budget 0 0 none
