-- ===== src/Temporal/Types/Closed.antt =====
-- The results of grace_mem/temporal/resolver.py that hold together, and that `_make_result` and
-- `_validate_point_or_range` build them.
use grace_mem.Common.{
  ℕ, ◌≤◌, ◌≡◌, ◌≢◌, refl, inl, inr, true, false, Option, none, some, arith, ltb, Bool-cases, subst,
  some-injective, ◌>>=◌, >>=-eq-some,
}
use grace_mem.Temporal.Calendar.{Date, ordinal, Stamp, instant, IsDate, IsStamp}
use grace_mem.Temporal.Types.{
  Category, Status, resolved, partially_resolved, ambiguous, unresolved, invalid, Granularity, Code,
  valid, Resolved, start_of, end_of, combine_time, if_resolved, refuse, bounded, validate,
}

-- A result without bounds that does not pass for resolved, or a resolved one with two stamps in order.
pub data IsClosed (r : Resolved) : Type 0 where
  nothing : r.ok ≡ false → r.status ≢ resolved → r.start ≡ none → r.end ≡ none → IsClosed r
  span :
      (s e : Stamp)
      → r.ok ≡ true
      → r.status ≡ resolved
      → r.start ≡ some s
      → r.end ≡ some e
      → IsStamp s
      → IsStamp e
      → instant s ≤ instant e
      → IsClosed r

-- A closed result, or a resolved one with one bound.
pub data IsSound (r : Resolved) : Type 0 where
  closed : IsClosed r → IsSound r
  until :
      (e : Stamp)
      → r.ok ≡ true
      → r.status ≡ resolved
      → r.start ≡ none
      → r.end ≡ some e
      → IsStamp e
      → IsSound r
  since :
      (s : Stamp)
      → r.ok ≡ true
      → r.status ≡ resolved
      → r.start ≡ some s
      → r.end ≡ none
      → IsStamp s
      → IsSound r

pub refuse-IsClosed :
    (category : Category) (status : Status) (g : Option Granularity) (code : Code)
    → status ≢ resolved
    → IsClosed (refuse category status g code)
unfolding refuse
refuse-IsClosed category status g code h = nothing refl h refl refl

pub bounded-IsClosed :
    (category : Category) (g : Option Granularity) (s e : Stamp) (code : Code)
    → IsStamp s
    → IsStamp e
    → instant s ≤ instant e
    → IsClosed (bounded category resolved g (some s) (some e) true code)
unfolding bounded
bounded-IsClosed category g s e code vs ve h = span s e refl refl refl refl vs ve h

-- The check of the order finds nothing wrong with bounds in order.
pub validate-eq :
    (category : Category) (g : Option Granularity) (s e : Stamp)
    → instant s ≤ instant e
    → validate category g (some s) (some e)
      ≡ bounded category resolved g (some s) (some e) true valid
unfolding validate
validate-eq category g s e h = elim (Bool-cases (ltb (instant e) (instant s))) [
  | inl less ↦ absurd (ground (arith, less, h))
  | inr more ↦ rw more refl
]

pub validate-IsClosed :
    (category : Category) (g : Option Granularity) (s e : Stamp)
    → IsStamp s
    → IsStamp e
    → instant s ≤ instant e
    → IsClosed (validate category g (some s) (some e))
validate-IsClosed category g s e vs ve h =
    rw (validate-eq category g s e h) (bounded-IsClosed category g s e valid vs ve h)

pub start_of-IsStamp : (t : Date) → IsDate t → IsStamp (start_of t)
unfolding start_of
start_of-IsStamp t v = record { on = v; within = omega arith }

pub end_of-IsStamp : (t : Date) → IsDate t → IsStamp (end_of t)
unfolding end_of
end_of-IsStamp t v = record { on = v; within = omega arith }

-- Whole days in order are stamps in order.
pub days-IsClosed :
    (category : Category) (g : Option Granularity) (a b : Date)
    → IsDate a
    → IsDate b
    → ordinal a ≤ ordinal b
    → IsClosed (validate category g (some (start_of a)) (some (end_of b)))
days-IsClosed category g a b va vb h =
    validate-IsClosed category g (start_of a) (end_of b) (start_of-IsStamp a va)
      (end_of-IsStamp b vb) (unfold start_of end_of in omega (arith, h))

pub point-IsClosed :
    (category : Category) (g : Option Granularity) (s : Stamp)
    → IsStamp s
    → IsClosed (validate category g (some s) (some s))
point-IsClosed category g s v = validate-IsClosed category g s s v v (omega arith)

pub combine_time-IsStamp :
    (t : Date) (hour minute : ℕ)
    → IsDate t
    → hour ≤ 23
    → minute ≤ 59
    → IsStamp (combine_time t hour minute)
unfolding combine_time
combine_time-IsStamp t hour minute v h m = record { on = v; within = omega (arith, h, m) }

-- Whatever `o` gives is closed.
abbrev pub Closed : Option Resolved → Type 0
Closed o = (r : Resolved) → o ≡ some r → IsClosed r

pub some-Closed : (r : Resolved) → IsClosed r → Closed (some r)
some-Closed r v s h = subst IsClosed (some-injective _ _ h) v

pub bind-Closed {ℓ} :
    {A : Type ℓ} (m : Option A) (f : A → Option Resolved)
    → ((a : A) → m ≡ some a → Closed (f a))
    → Closed (m >>= f)
bind-Closed m f h r e = let (a, found, rest) = >>=-eq-some m f e in h a found r rest

pub refuse-Closed :
    (category : Category) (status : Status) (g : Option Granularity) (code : Code)
    → status ≢ resolved
    → Closed (some (refuse category status g code))
refuse-Closed category status g code h =
    some-Closed (refuse category status g code) (refuse-IsClosed category status g code h)

pub not_resolved : (unresolved ≢ resolved) × (invalid ≢ resolved)
not_resolved = (λ e. cc, λ e. cc)

-- What holds of both branches holds of a test for RESOLVED.
pub resolved_both {ℓ κ} :
    {A : Type ℓ} (P : A → Type κ) (s : Status) (x y : A)
    → (s ≡ resolved → P x)
    → (s ≢ resolved → P y)
    → P (if_resolved s x y)
resolved_both P resolved x y p q = p refl
resolved_both P partially_resolved x y p q = q (λ e. cc)
resolved_both P ambiguous x y p q = q (λ e. cc)
resolved_both P unresolved x y p q = q (λ e. cc)
resolved_both P invalid x y p q = q (λ e. cc)
