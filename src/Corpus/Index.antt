-- ===== src/Corpus/Index.antt =====
-- The dictionary from a sid to its turn, against the list that it indexes.
use grace_mem.Common.{
  ◌≡◌, refl, sym, ap, ◌∙◌, inl, inr, Option, none, some, List, [], ◌∷◌, arith, if◌then◌else◌, foldl,
  In, nat_eq, Text, text_eq, ◌==◌, lookup, put, lookup-put, Dict, Option-cases,
}
use grace_mem.Corpus.{Turn, index_sids}

-- The last turn that carries the sid.
unfoldable find_last : Text → List Turn → Option Turn
find_last s [] = none
find_last s (t ∷ ts) = elim (find_last s ts) [
  | some u ↦ some u
  | none ↦ if t.sid == s then some t else none
]

abbrev or_else : Option Turn → Option Turn → Option Turn
or_else none o = o
or_else (some t) o = some t

lookup-fold :
    (s : Text) (d : Dict Text Turn) (turns : List Turn)
    → lookup s (foldl (λ d t. put t.sid t d) d turns) ≡ or_else (find_last s turns) (lookup s d)
unfolding find_last
lookup-fold s d [] = refl
lookup-fold s d (t ∷ ts) = lookup-fold s (put t.sid t d) ts ∙ step
  where
    step :
        or_else (find_last s ts) (lookup s (put t.sid t d))
        ≡ or_else (find_last s (t ∷ ts)) (lookup s d)
    step = ground (arith, lookup-put t.sid s t d)

-- The index gives the last turn with the sid.
lookup-index_sids : (s : Text) (turns : List Turn) → lookup s (index_sids turns) ≡ find_last s turns
unfolding index_sids lookup
lookup-index_sids s turns = ground (arith, lookup-fold s [] turns)

find_last_found :
    (s : Text) (turns : List Turn) (t : Turn)
    → find_last s turns ≡ some t
    → In t turns × (t.sid ≡ s)
unfolding find_last
find_last_found s [] t h = absurd (cc h)
find_last_found s (u ∷ ts) t h = elim (Option-cases (find_last s ts)) [
  | inl miss ↦ ground (arith, text_eq.beq_iff u.sid s)
  | inr (v, hit) ↦ let r = find_last_found s ts t (ground (arith, h, hit)) in (inr r.0, r.1)
]

-- What the index gives is a turn of the list that carries the sid.
pub lookup-index_sids_sound :
    (s : Text) (turns : List Turn) (t : Turn)
    → lookup s (index_sids turns) ≡ some t
    → In t turns × (t.sid ≡ s)
lookup-index_sids_sound s turns t h =
    find_last_found s turns t (sym (lookup-index_sids s turns) ∙ h)

find_last_total :
    (t : Turn) (turns : List Turn) → In t turns → (u : Turn) × (find_last t.sid turns ≡ some u)
unfolding find_last
find_last_total t [] m = elim m [ ]
find_last_total t (x ∷ ts) (inr m) =
    let (u, hit) = find_last_total t ts m in (u, ground (arith, hit))
find_last_total t (x ∷ ts) (inl e) = elim (Option-cases (find_last t.sid ts)) [
  | inl miss ↦ (x, ground (arith, miss, ap (λ (r : Turn). r.sid) e, text_eq.beq_iff x.sid t.sid))
  | inr (v, hit) ↦ (v, ground (arith, hit))
]

-- Every turn's sid is in the index.
pub lookup-index_sids_total :
    (t : Turn) (turns : List Turn)
    → In t turns
    → (u : Turn) × (lookup t.sid (index_sids turns) ≡ some u)
lookup-index_sids_total t turns m =
    let (u, hit) = find_last_total t turns m in (u, lookup-index_sids t.sid turns ∙ hit)
