-- ===== src/Evidence/Cut/Quota.antt =====
-- What the quota of rank_and_cut leaves of each source.
use grace_mem.Common.{
  ℕ, zero, suc, ◌+◌, ◌-◌, ◌≤◌, ◌<◌, ◌≡◌, min, refl, ap, inl, inr, Bool, true, false, some, List, [],
  ◌∷◌, ◌++◌, arith, if◌then◌else◌, ltb, Bool-cases, Text, text_eq, ◌==◌, Dict, lookup, put,
  lookup-put, length, length-append, length-take, take, sort_by, insert_by, length-sort_by,
}
use grace_mem.Evidence.Cut.{Candidate, held, no_lower, share, with_quota, rank_and_cut}

held_none : (s : Text) → held s [] ≡ 0
unfolding held lookup
held_none s = refl

held-put :
    (s j : Text) (n : ℕ) (counts : Dict Text ℕ)
    → held j (put s n counts) ≡ (if s == j then n else held j counts)
unfolding held
held-put s j n counts = elim (Bool-cases (s == j)) [
  | inl same ↦ rw (held, lookup-put s j n counts, same) refl
  | inr other ↦ rw (held, lookup-put s j n counts, other) refl
]

below : (a b : ℕ) → ltb a b ≡ true → a < b
below a b h = ground (arith, h)

not_below : (a b : ℕ) → ltb a b ≡ false → b ≤ a
not_below a b h = ground (arith, h)

module _ {F E : Type 0} (source : E → Text) where
  -- The number of candidates of a source.
  unfoldable pub count : Text → List (Candidate F E) → ℕ
  count s [] = 0
  count s (e ∷ es) = (if source e.event == s then 1 else 0) + count s es

  count-append :
      (s : Text) (es fs : List (Candidate F E)) → count s (es ++ fs) ≡ count s es + count s fs
  unfolding count
  count-append s [] fs = omega arith
  count-append s (e ∷ es) fs = omega (arith, count-append s es fs)

  count-take-le : (s : Text) (n : ℕ) (es : List (Candidate F E)) → count s (take n es) ≤ count s es
  unfolding count
  count-take-le s zero es = omega arith
  count-take-le s (suc n) [] = omega arith
  count-take-le s (suc n) (e ∷ es) = omega (arith, count-take-le s n es)

  count-insert_by :
      (s : Text) (le : Candidate F E → Candidate F E → Bool) (e : Candidate F E)
      (es : List (Candidate F E))
      → count s (insert_by le e es) ≡ count s (e ∷ es)
  unfolding count insert_by
  count-insert_by s le e [] = refl
  count-insert_by s le e (f ∷ fs) = elim (Bool-cases (le e f)) [
    | inl low ↦ rw low refl
    | inr high ↦ rw high (omega (arith, count-insert_by s le e fs))
  ]

  count-sort_by :
      (s : Text) (le : Candidate F E → Candidate F E → Bool) (es : List (Candidate F E))
      → count s (sort_by le es) ≡ count s es
  unfolding count sort_by
  count-sort_by s le [] = refl
  count-sort_by s le (e ∷ es) =
      omega (arith, count-insert_by s le e (sort_by le es), count-sort_by s le es)

  share-step :
      (quota : ℕ) (counts : Dict Text ℕ) (e : Candidate F E) (es : List (Candidate F E))
      → share source quota counts (e ∷ es) ≡ (
          if ltb (held (source e.event) counts) quota
          then (
            e
                ∷ (share source quota
                    (put (source e.event) (held (source e.event) counts + 1) counts)
                    es).0,
            (share source quota
                (put (source e.event) (held (source e.event) counts + 1) counts)
                es).1,
          )
          else ((share source quota counts es).0, e ∷ (share source quota counts es).1))
  unfolding share
  share-step quota counts e es = elim (Bool-cases (ltb (held (source e.event) counts) quota)) [
    | inl fits ↦ rw fits refl
    | inr full ↦ rw full refl
  ]

  -- The loop keeps every candidate, on one side or on the other.
  length-share :
      (quota : ℕ) (counts : Dict Text ℕ) (es : List (Candidate F E))
      → length (share source quota counts es).0 + length (share source quota counts es).1
        ≡ length es
  unfolding share
  length-share quota counts [] = refl
  length-share quota counts (e ∷ es) =
      elim (Bool-cases (ltb (held (source e.event) counts) quota)) [
        | inl fits ↦
            rw (share-step quota counts e es, fits)
              (omega (
                arith,
                length-share quota (put (source e.event) (held (source e.event) counts + 1) counts)
                    es,
              ))
        | inr full ↦
            rw (share-step quota counts e es, full) (omega (arith, length-share quota counts es))
      ]

  count-share :
      (s : Text) (quota : ℕ) (counts : Dict Text ℕ) (es : List (Candidate F E))
      → count s (share source quota counts es).0 + count s (share source quota counts es).1
        ≡ count s es
  unfolding share count
  count-share s quota counts [] = refl
  count-share s quota counts (e ∷ es) =
      elim (Bool-cases (ltb (held (source e.event) counts) quota)) [
        | inl fits ↦
            rw (share-step quota counts e es, fits, count)
              (omega (
                arith,
                count-share s quota (put (source e.event) (held (source e.event) counts + 1) counts)
                    es,
              ))
        | inr full ↦
            rw (share-step quota counts e es, full, count)
              (omega (arith, count-share s quota counts es))
      ]

  -- The guaranteed candidates of a source are as many as the quota leaves room for.
  count-guaranteed :
      (s : Text) (quota : ℕ) (counts : Dict Text ℕ) (es : List (Candidate F E))
      → count s (share source quota counts es).0 ≡ min (quota - held s counts) (count s es)
  unfolding share count
  count-guaranteed s quota counts [] = omega arith
  count-guaranteed s quota counts (e ∷ es) =
      elim (Bool-cases (ltb (held (source e.event) counts) quota)) [
        | inl fits ↦
            let n = held (source e.event) counts in
            let ih = count-guaranteed s quota (put (source e.event) (n + 1) counts) es in
            let at = held-put (source e.event) s (n + 1) counts in
            rw (share-step quota counts e es, fits, count)
              (elim (Bool-cases (source e.event == s)) [
                | inl same ↦ rw same (
                    omega (
                      arith,
                      ih,
                      rw same at at,
                      below n quota fits,
                      ap (λ t. held t counts) ((text_eq.beq_iff (source e.event) s).0 same),
                    ))
                | inr other ↦ rw other (omega (arith, ih, rw other at at))
              ])
        | inr full ↦
            let ih = count-guaranteed s quota counts es in
            rw (share-step quota counts e es, full, count)
              (elim (Bool-cases (source e.event == s)) [
                | inl same ↦ rw same (
                    omega (
                      arith,
                      ih,
                      not_below (held (source e.event) counts) quota full,
                      ap (λ t. held t counts) ((text_eq.beq_iff (source e.event) s).0 same),
                    ))
                | inr other ↦ rw other (omega (arith, ih))
              ])
      ]

  with_quota_counts :
      (quota topk : ℕ) (s : Text) (es : List (Candidate F E))
      → (min quota (count s es) ≤ count s (with_quota source quota topk es))
        × (count s (with_quota source quota topk es) ≤ count s es)
        × (min topk (length es) ≤ length (with_quota source quota topk es))
        × (length (with_quota source quota topk es) ≤ length es)
  unfolding with_quota
  with_quota_counts quota topk s es =
      let g = (share source quota [] es).0 in
      let r = (share source quota [] es).1 in
      let cut = take (topk - length g) r in
      let own = count-guaranteed s quota [] es in
      let at = held_none s in
      let all = count-share s quota [] es in
      let whole = length-share quota [] es in
      (
        omega (arith, own, at, count-append s g cut),
        omega (arith, all, count-append s g cut, count-take-le s (topk - length g) r),
        omega (arith, whole, length-append g cut, length-take (topk - length g) r),
        omega (arith, whole, length-append g cut, length-take (topk - length g) r),
      )

  -- With a quota for each source and a top-K: each source keeps as many candidates as it has, up to the
  -- quota, and none that it did not have; the result is no shorter than the top-K, unless there are
  -- fewer candidates, and no longer than the input.
  pub rank_and_cut-quota :
      (lt : F → F → Bool) (quota topk : ℕ) (s : Text) (events : List (Candidate F E))
      → 0 < quota
      → (min quota (count s events) ≤ count s (rank_and_cut source lt (some topk) quota events))
        × (count s (rank_and_cut source lt (some topk) quota events) ≤ count s events)
        × (min topk (length events) ≤ length (rank_and_cut source lt (some topk) quota events))
        × (length (rank_and_cut source lt (some topk) quota events) ≤ length events)
  unfolding rank_and_cut
  rank_and_cut-quota lt quota topk s events h =
      let on : ltb 0 quota ≡ true = ground (arith, h) in
      let c = with_quota_counts quota topk s (sort_by (no_lower lt) events) in
      let same = count-sort_by s (no_lower lt) events in
      let long = length-sort_by (no_lower lt) events in
      rw (on) (
        omega (arith, c.0, same),
        omega (arith, c.1, same),
        omega (arith, c.2, long),
        omega (arith, c.3, long),
      )
