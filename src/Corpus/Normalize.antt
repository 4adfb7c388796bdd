-- ===== src/Corpus/Normalize.antt =====
-- What `normalize_sids` returns: sids of the corpus, none twice, and fixed by a second call.
use grace_mem.Common.{
  ℕ, suc, ◌≡◌, refl, ap₂, subst, some-injective, some, List, [], ◌∷◌, map, All, All-append, All-In,
  In, nat_eq, Text, text_eq, lookup, strip, Distinct, Distinct-dedup, dedup-Distinct, All-dedup,
  >>=-eq-some,
}
use grace_mem.Corpus.{Turn, build, index_sids, resolve_step, resolve, resolve_all, normalize_sids}
use grace_mem.Corpus.Index.{lookup-index_sids_sound, lookup-index_sids_total}
use grace_mem.Corpus.Resolve.{resolve-In}

abbrev sids : List Turn → List Text
sids ts = map (λ t. t.sid) ts

resolve_all-In :
    (limit : ℕ) (turns : List Turn) (raw : List Text) (ts : List Turn)
    → resolve_all limit (build turns) raw ≡ some ts
    → All (λ t. In t turns) ts
unfolding resolve_all
resolve_all-In limit turns [] ts h = subst (All (λ t. In t turns)) (some-injective _ _ h) tt
resolve_all-In limit turns (s ∷ raw) ts h =
    let (us, hu, h') = >>=-eq-some (resolve limit (build turns) s) _ h in
    let (vs, hv, e) = >>=-eq-some (resolve_all limit (build turns) raw) _ h' in
    subst (All (λ t. In t turns)) (some-injective _ _ e) (
      All-append (λ t. In t turns) us vs (resolve-In turns limit s us hu)
        (resolve_all-In limit turns raw vs hv))

All-sids :
    (turns ts : List Turn) (P : Text → Type 0)
    → ((t : Turn) → In t turns → P t.sid)
    → All (λ t. In t turns) ts
    → All P (sids ts)
All-sids turns [] P h m = tt
All-sids turns (t ∷ ts) P h m = (h t m.0, All-sids turns ts P h m.1)

module _ (turns : List Turn) (limit : ℕ) (raw out : List Text)
    (h : normalize_sids limit (build turns) raw ≡ some out) where
  -- No sid stands twice in what `normalize_sids` returns.
  pub normalize_sids-Distinct : Distinct out
  unfolding normalize_sids
  normalize_sids-Distinct =
      let (ts, e, d) = >>=-eq-some (resolve_all limit (build turns) raw) _ h in
      subst Distinct (some-injective _ _ d) (Distinct-dedup (sids ts))

  -- What holds of the sids of the corpus holds of every sid in the result.
  pub normalize_sids-All : (P : Text → Type 0) → ((t : Turn) → In t turns → P t.sid) → All P out
  unfolding normalize_sids
  normalize_sids-All P hP =
      let (ts, e, d) = >>=-eq-some (resolve_all limit (build turns) raw) _ h in
      subst (All P) (some-injective _ _ d)
        (All-dedup P (sids ts) (All-sids turns ts P hP (resolve_all-In limit turns raw ts e)))

-- A sid of the corpus that `strip` leaves alone.
abbrev IsKnown : List Turn → Text → Type 0
IsKnown turns s = (strip s ≡ s) × ((t : Turn) × (lookup s (index_sids turns) ≡ some t))

resolve_known :
    (limit : ℕ) (turns : List Turn) (s : Text) (t : Turn)
    → strip s ≡ s
    → lookup s (index_sids turns) ≡ some t
    → resolve (suc limit) (build turns) s ≡ some (t ∷ [])
unfolding resolve resolve_step build
resolve_known limit turns s t clean hit = rw (clean, hit, resolve_step)

resolve_all_known :
    (limit : ℕ) (turns : List Turn) (out : List Text)
    → All (IsKnown turns) out
    → (ts : List Turn) × (resolve_all (suc limit) (build turns) out ≡ some ts) × (sids ts ≡ out)
unfolding resolve_all
resolve_all_known limit turns [] h = ([], refl, refl)
resolve_all_known limit turns (s ∷ out) h =
    let (t, hit) = h.0.1 in
    let (ts, e, q) = resolve_all_known limit turns out h.1 in
    (
      t ∷ ts,
      rw (resolve_known limit turns s t h.0.0 hit, e),
      ap₂ ◌∷◌ (lookup-index_sids_sound s turns t hit).1 q,
    )

-- The sids of a corpus as its loader makes them: closed by the role, so `strip` changes nothing.
abbrev pub SidsAreClean : List Turn → Type 0
SidsAreClean turns = All (λ t. strip t.sid ≡ t.sid) turns

-- If no sid of the corpus has spaces around it, what `normalize_sids` returns goes through a second
-- normalization unchanged.
pub normalize_sids_idem :
    (turns : List Turn) (limit room : ℕ) (raw out : List Text)
    → SidsAreClean turns
    → normalize_sids limit (build turns) raw ≡ some out
    → normalize_sids (suc room) (build turns) out ≡ some out
unfolding normalize_sids
normalize_sids_idem turns limit room raw out clean h =
    let known = normalize_sids-All turns limit raw out h (IsKnown turns) (λ t m.
      (All-In (λ t. strip t.sid ≡ t.sid) turns clean t m, lookup-index_sids_total t turns m)) in
    let (ts, e, q) = resolve_all_known room turns out known in
    rw (e, q, dedup-Distinct out (normalize_sids-Distinct turns limit raw out h))
