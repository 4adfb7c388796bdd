-- ===== src/Corpus/Halts.antt =====
-- The fuzzy fallback of `resolve` calls `resolve` again. Over sessions whose ids hold no colon and
-- open with no space each call has a longer session part, so the nesting is bounded by the longest
-- session id; an id that holds a colon can make it endless.
use grace_mem.Common.{
  ℕ, zero, suc, ◌+◌, ◌≤◌, ◌<◌, ◌≡◌, ◌≢◌, refl, ap, ◌∙◌, inl, inr, true, false, not, ◌&&◌, ◌||◌,
  Option, none, some, List, [], ◌∷◌, ◌++◌, arith, length, All, All-filter, All-map, All-In,
  All-dedup, nat_eq, Text, text_eq, ◌==◌, colon, codes, has_char, strip, lstrip, ends_with,
  length-ends_with, ends_with_le, is_empty, partition_colon, partition_colon_no_colon,
  strip-append_colon, Bool-cases, lookup,
}
use grace_mem.Corpus.{
  Turn, build, pair_turns, chunk_turns, session_matches, follow, fuzzy, resolve_step, resolve,
}

-- A session id that the fallback can be followed through: at most `top` long.
pub record IsPlain (top : ℕ) (s : Text) : Type 0 where
  pub short : length s ≤ top
  pub no_colon : has_char colon s ≡ false
  pub opens : lstrip s ≡ s

abbrev pub SessionsArePlain : ℕ → List Turn → Type 0
SessionsArePlain top turns = All (λ t. IsPlain top t.session_id) turns

abbrev Halts : Option (List Turn) → Type 0
Halts o = (ts : List Turn) × (o ≡ some ts)

abbrev session_part : Text → Text
session_part sid = (partition_colon (strip sid)).0

suffix_longer :
    (m sess : Text)
    → (not (m == sess) && (ends_with m (codes "_" ++ sess) || ends_with m sess)) ≡ true
    → length sess < length m
suffix_longer m sess h = elim (Bool-cases (m == sess)) [
  | inl same ↦ absurd (cc (ap not same, h))
  | inr other ↦
      let apart : m ≢ sess = λ e. absurd (cc (other, (text_eq.beq_iff m sess).1 e)) in
      elim (Bool-cases (ends_with m sess)) [
        | inl short ↦ length-ends_with m sess short apart
        | inr long ↦ ends_with_le m (codes "_" ++ sess) (ground (arith, h, other, long))
      ]
]

module _ (top : ℕ) (turns : List Turn) (plain : SessionsArePlain top turns) where
  matches_longer :
      (sess : Text)
      → All (λ m. IsPlain top m × (length sess < length m)) (session_matches (build turns) sess)
  unfolding session_matches build
  matches_longer sess = All-dedup _ _ (
      All-map (λ (t : Turn). t.session_id) _ _
        (All-filter _ _ turns
          (λ t m h. (All-In _ turns plain t m, suffix_longer t.session_id sess h))))

  session_part-match : (m rest : Text) → IsPlain top m → session_part (m ++ (colon ∷ rest)) ≡ m
  session_part-match m rest p =
      let (r, e) = strip-append_colon m rest p.opens in
      ap (λ s. (partition_colon s).0) e ∙ ap (λ q. q.0) (partition_colon_no_colon m r p.no_colon)

  follow-Halts :
      (again : Text → Option (List Turn)) (sid rest sess : Text) (ms : List Text)
      → ((m : Text) → IsPlain top m → length sess < length m → Halts (again (m ++ (colon ∷ rest))))
      → All (λ m. IsPlain top m × (length sess < length m)) ms
      → Halts (follow again sid rest ms)
  unfolding follow
  follow-Halts again sid rest sess [] h a = ([], refl)
  follow-Halts again sid rest sess (m ∷ []) h a = elim (Bool-cases ((m ++ (colon ∷ rest)) == sid)) [
    | inl same ↦ ([], rw same)
    | inr other ↦ let (ts, e) = h m a.0.0 a.0.1 in (ts, rw other e)
  ]
  follow-Halts again sid rest sess (m ∷ n ∷ ms) h a = ([], refl)

  fuzzy-Halts :
      (again : Text → Option (List Turn)) (sid : Text)
      → ((m rest : Text)
          → IsPlain top m
          → length (partition_colon sid).0 < length m
          → Halts (again (m ++ (colon ∷ rest))))
      → Halts (fuzzy again (build turns) sid)
  unfolding fuzzy
  fuzzy-Halts again sid h =
      let sess = (partition_colon sid).0 in
      let rest = (partition_colon sid).1 in
      elim (Bool-cases (is_empty sess || is_empty rest)) [
        | inl blank ↦ ([], rw blank)
        | inr full ↦
            let (ts, e) =
              follow-Halts again sid rest sess (session_matches (build turns) sess) (λ m. h m rest)
                (matches_longer sess) in
            (ts, rw full e)
      ]

  resolve_step-Halts :
      (again : Text → Option (List Turn)) (sid : Text)
      → Halts (fuzzy again (build turns) sid)
      → Halts (resolve_step again (build turns) sid)
  unfolding resolve_step
  resolve_step-Halts again sid h =
      direct (lookup sid (build turns).by_sid) (pair_turns (build turns) sid)
        (chunk_turns (build turns) sid)
    where
      direct :
          (hit : Option Turn) (pair chunk : List Turn)
          → Halts (elim hit [
            | some t ↦ some (t ∷ [])
            | none ↦ elim pair [
              | t ∷ ts ↦ some (t ∷ ts)
              | [] ↦ elim chunk [ t ∷ ts ↦ some (t ∷ ts) | [] ↦ fuzzy again (build turns) sid ]
            ]
          ])
      direct (some t) pair chunk = (t ∷ [], refl)
      direct none (t ∷ ts) chunk = (t ∷ ts, refl)
      direct none [] (t ∷ ts) = (t ∷ ts, refl)
      direct none [] [] = h

  resolve-Halts_within :
      (limit : ℕ) (sid : Text)
      → 0 < limit
      → top < length (session_part sid) + limit
      → Halts (resolve limit (build turns) sid)
  unfolding resolve
  resolve-Halts_within zero sid pos h = absurd (omega arith)
  resolve-Halts_within (suc limit) sid pos h =
      resolve_step-Halts (resolve limit (build turns)) (strip sid) (
        fuzzy-Halts (resolve limit (build turns)) (strip sid) (λ m rest p longer.
          resolve-Halts_within limit (m ++ (colon ∷ rest)) (room m p longer)
            (next m rest p longer)))
    where
      room : (m : Text) → IsPlain top m → length (session_part sid) < length m → 0 < limit
      room m p longer = omega (arith, p.short)

      next :
          (m rest : Text)
          → IsPlain top m
          → length (session_part sid) < length m
          → top < length (session_part (m ++ (colon ∷ rest))) + limit
      next m rest p longer = rw (session_part-match m rest p) (omega (arith, p.short))

  -- With session ids that hold no colon, begin with no space and are at most `top` long, and with
  -- room for more than `top` nested calls, `resolve` returns, whatever the sid.
  pub resolve-Halts :
      (limit : ℕ) (sid : Text) → top < limit → Halts (resolve limit (build turns) sid)
  resolve-Halts limit sid h = resolve-Halts_within limit sid (omega arith) (omega arith)
