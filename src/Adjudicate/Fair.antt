-- ===== src/Adjudicate/Fair.antt =====
-- What the loop over the auditor's lines records: seeds that were pending, each judged once.
use grace_mem.Common.{
  ℕ, ◌≡◌, refl, ap, Bool, true, false, not, ◌||◌, Option, some, some-injective, List, [], ◌∷◌, ◌++◌,
  arith, >>=-eq-some, All, All-append, Distinct, Distinct-append, contains, contains-append,
  contains-cons_self, contains-cons_of, contains-All, subst, Text, text_eq, ◌==◌, Bool-cases,
  Option-cases, inl, inr, has_substring,
}
use grace_mem.Corpus.{Corpus}
use grace_mem.Adjudicate.{
  Verdicts, named_in, record_verdict, judge_line, judge_lines, candidate_lines, no_verdicts,
  adjudicate_candidates, split_lines,
}

-- `kept` and `judged` are pending seeds; `judged` covers `kept`, and `kept` has none twice.
pub record IsFair (pending : List Text) (v : Verdicts) : Type 0 where
  pub kept_pending : All (λ s. contains pending s ≡ true) v.kept
  pub kept_judged : All (λ s. contains v.judged s ≡ true) v.kept
  pub kept_once : Distinct v.kept

named_in-eq-some :
    (pending judged : List Text) (line s : Text)
    → named_in pending judged line ≡ some s
    → (contains pending s ≡ true) × (contains judged s ≡ false)
unfolding named_in
named_in-eq-some [] judged line s h = absurd (cc h)
named_in-eq-some (p ∷ pending) judged line s h =
    elim (Bool-cases (contains judged p || not (has_substring line p))) [
      | inl passed ↦
          let r = named_in-eq-some pending judged line s (rw passed at h) in
          (contains-cons_of p s pending r.0, r.1)
      | inr named ↦
          let e : p ≡ s = some-injective _ _ (rw named at h) in
          (
            subst (λ x. contains (p ∷ pending) x ≡ true) e (contains-cons_self p pending),
            subst (λ x. contains judged x ≡ false) e (ground (arith, named)),
          )
    ]

weaken :
    (xs ys kept : List Text)
    → All (λ s. contains xs s ≡ true) kept
    → All (λ s. contains (xs ++ ys) s ≡ true) kept
weaken xs ys [] h = tt
weaken xs ys (k ∷ kept) h = (rw (contains-append xs ys k, h.0), weaken xs ys kept h.1)

unseen :
    (judged kept : List Text) (s : Text)
    → All (λ k. contains judged k ≡ true) kept
    → contains judged s ≡ false
    → (a : Text) → contains kept a ≡ true
    → contains (s ∷ []) a ≡ false
unfolding contains
unseen judged kept s covers fresh a c = elim (Bool-cases (a == s)) [
  | inl same ↦
      let e = (text_eq.beq_iff a s).0 same in
      absurd (
        cc (
          contains-All (λ k. contains judged k ≡ true) kept a covers c,
          ap (contains judged) e,
          fresh,
        ))
  | inr other ↦ rw other
]

record_verdict-IsFair :
    (pending : List Text) (v : Verdicts) (s : Text) (keep : Bool)
    → IsFair pending v
    → contains pending s ≡ true
    → contains v.judged s ≡ false
    → IsFair pending (record_verdict v s keep)
unfolding record_verdict
record_verdict-IsFair pending v s true f p n = record {
  kept_pending = All-append _ v.kept (s ∷ []) f.kept_pending (p, tt);
  kept_judged =
      All-append _ v.kept (s ∷ []) (weaken v.judged (s ∷ []) v.kept f.kept_judged)
        (rw (contains-append v.judged (s ∷ []) s, n) (contains-cons_self s []), tt);
  kept_once =
      Distinct-append v.kept (s ∷ []) f.kept_once (unfold contains in refl, tt)
        (unseen v.judged v.kept s f.kept_judged n);
}
record_verdict-IsFair pending v s false f p n = record {
  kept_pending = f.kept_pending;
  kept_judged = weaken v.judged (s ∷ []) v.kept f.kept_judged;
  kept_once = f.kept_once;
}

module _ (verdict : Text → Option Bool) (pending : List Text) where
  judge_line-IsFair :
      (v : Verdicts) (line : Text)
      → IsFair pending v
      → IsFair pending (judge_line verdict pending v line)
  unfolding judge_line
  judge_line-IsFair v line f = elim (Option-cases (verdict line)) [
    | inl mute ↦ rw (mute, judge_line) f
    | inr (keep, said) ↦ elim (Option-cases (named_in pending v.judged line)) [
      | inl nobody ↦ rw (said, nobody, judge_line) f
      | inr (s, named) ↦
          let r = named_in-eq-some pending v.judged line s named in
          rw (said, named, judge_line) (record_verdict-IsFair pending v s keep f r.0 r.1)
    ]
  ]

  judge_lines-IsFair :
      (lines : List Text) (v : Verdicts)
      → IsFair pending v
      → IsFair pending (judge_lines verdict pending v lines)
  unfolding judge_lines
  judge_lines-IsFair [] v f = f
  judge_lines-IsFair (line ∷ lines) v f =
      judge_lines-IsFair lines (judge_line verdict pending v line) (judge_line-IsFair v line f)

  -- If the audit returns, whatever the auditor answered, what it keeps are pending seeds, none twice.
  pub adjudicate_candidates-kept :
      (judge : List Text → Option Text) (limit : ℕ) (c : Corpus) (kept : List Text)
      → adjudicate_candidates verdict judge limit c pending ≡ some kept
      → All (λ s. contains pending s ≡ true) kept × Distinct kept
  unfolding adjudicate_candidates
  adjudicate_candidates-kept judge limit c kept h =
      let (lines, e, h') = >>=-eq-some (candidate_lines verdict limit c pending) _ h in
      let (reply, e', h'') = >>=-eq-some (judge lines) _ h' in
      let f =
        judge_lines-IsFair (split_lines reply) no_verdicts
          (record { kept_pending = tt; kept_judged = tt; kept_once = tt }) in
      let q = some-injective _ _ h'' in
      (subst (All (λ s. contains pending s ≡ true)) q f.kept_pending, subst Distinct q f.kept_once)
