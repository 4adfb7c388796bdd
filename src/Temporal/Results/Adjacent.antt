-- ===== src/Temporal/Results/Adjacent.antt =====
-- What "before" and "after" leave beside an anchor.
use grace_mem.Common.{
  ℕ, ◌≤◌, ◌<◌, ◌≡◌, ◌↔◌, refl, Option, none, some, some-injective, arith, >>=-eq-some, codes,
  list_beq, text_eq, Text, subst, sym, ◌∙◌,
}
use grace_mem.Temporal.Calendar.{Stamp, instant, plus_micros, minus_micros}
use grace_mem.Temporal.Calendar.Ordinal.{}
use grace_mem.Temporal.Calendar.Shift.{plus_micros_sound, minus_micros_sound}
use grace_mem.Temporal.Types.{resolved, Resolved}
use grace_mem.Temporal.Results.{boundary_result, beside, beside_anchor}

-- An instant that a result's bounds admit, where a missing bound admits all.
abbrev pub Above : Option Stamp → ℕ → Type 0
Above none t = Unit
Above (some s) t = instant s ≤ t

abbrev pub Below : Option Stamp → ℕ → Type 0
Below none t = Unit
Below (some e) t = t ≤ instant e

abbrev pub Admits : Resolved → ℕ → Type 0
Admits r t = Above r.start t × Below r.end t

before-Admits :
    (s e : Stamp) (r : Resolved) (t : ℕ)
    → beside (codes "before") s e ≡ some r
    → Admits r t ↔ (t < instant s)
unfolding beside list_beq
before-Admits s e r t h =
    let (u, found, same) = >>=-eq-some (minus_micros s 1) _ h in
    let off = (minus_micros_sound s 1 u found).1 in
    subst (λ r. Admits r t ↔ (t < instant s)) (some-injective _ _ same)
      (unfold boundary_result in (λ x. omega (arith, x.1, off), λ x. (tt, omega (arith, x, off))))

after-Admits :
    (s e : Stamp) (r : Resolved) (t : ℕ)
    → beside (codes "after") s e ≡ some r
    → Admits r t ↔ (instant e < t)
unfolding beside list_beq
after-Admits s e r t h =
    let (u, found, same) = >>=-eq-some (plus_micros e 1) _ h in
    let off = (plus_micros_sound e 1 u found).1 in
    subst (λ r. Admits r t ↔ (instant e < t)) (some-injective _ _ same)
      (unfold boundary_result in (λ x. omega (arith, x.0, off), λ x. (omega (arith, x, off), tt)))

since-Admits :
    (s e : Stamp) (r : Resolved) (t : ℕ)
    → beside (codes "since") s e ≡ some r
    → Admits r t ↔ (instant s ≤ t)
unfolding beside list_beq
since-Admits s e r t h =
    subst (λ r. Admits r t ↔ (instant s ≤ t)) (some-injective _ _ h)
      (unfold boundary_result in (λ x. x.0, λ x. (x, tt)))

anchor_eq :
    (operator : Text) (anchor : Resolved) (s e : Stamp)
    → anchor.status ≡ resolved
    → anchor.start ≡ some s
    → anchor.end ≡ some e
    → beside_anchor operator anchor ≡ beside operator s e
unfolding beside_anchor
anchor_eq operator anchor s e same begun done = rw (same, begun, done) refl

-- For an anchor that is resolved from the stamp `s` to the stamp `e`, and an instant in microseconds:
-- the result of "before" admits exactly the instants before `s`, that of "after" exactly those after
-- `e`, and that of "since" exactly those from `s` on.
pub beside_anchor-Admits :
    (anchor : Resolved) (s e : Stamp) (t : ℕ) (before after since : Resolved)
    → anchor.status ≡ resolved
    → anchor.start ≡ some s
    → anchor.end ≡ some e
    → beside_anchor (codes "before") anchor ≡ some before
    → beside_anchor (codes "after") anchor ≡ some after
    → beside_anchor (codes "since") anchor ≡ some since
    → (Admits before t ↔ (t < instant s))
      × (Admits after t ↔ (instant e < t))
      × (Admits since t ↔ (instant s ≤ t))
beside_anchor-Admits anchor s e t before after since same begun done b a n =
    let eq = λ (o : Text). sym (anchor_eq o anchor s e same begun done) in
    (
      before-Admits s e before t (eq (codes "before") ∙ b),
      after-Admits s e after t (eq (codes "after") ∙ a),
      since-Admits s e since t (eq (codes "since") ∙ n),
    )
