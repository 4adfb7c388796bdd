-- ===== src/Provenance/Merge.antt =====
-- The merge of two provenance blobs: which origins it holds, which event stands for each, the order.
use grace_mem.Common.{
  ◌↔◌, ap, subst, ◌≡◌, refl, sym, ◌∙◌, inl, inr, false, Option, none, some, List, [], ◌∷◌, map,
  arith, if◌then◌else◌, All, foldl, In, ◌==◌, contains, Distinct, Distinct-put, lookup, put,
  lookup-put, Dict, keys, values, Bool-cases,
}
use grace_mem.Provenance.{
  ProvEvent, Prov, prov_to_events, Origin, origin, origin_eq, merged_by_origin, merge_prov,
}
use grace_mem.Provenance.Sorted.{Distinct-sort_events, In-sort_events, sort_events-In}

abbrev put_event : Dict Origin ProvEvent → ProvEvent → Dict Origin ProvEvent
put_event d e = put (origin e) e d

-- The last event with the origin.
unfoldable pub last_event : Origin → List ProvEvent → Option ProvEvent
last_event o [] = none
last_event o (e ∷ es) = elim (last_event o es) [
  | some f ↦ some f
  | none ↦ if origin e == o then some e else none
]

-- `a`, or else `b`.
abbrev pub first_of : Option ProvEvent → Option ProvEvent → Option ProvEvent
first_of none b = b
first_of (some a) b = some a

lookup-fold :
    (o : Origin) (d : Dict Origin ProvEvent) (es : List ProvEvent)
    → lookup o (foldl put_event d es) ≡ first_of (last_event o es) (lookup o d)
unfolding last_event
lookup-fold o d [] = refl
lookup-fold o d (e ∷ es) = lookup-fold o (put_event d e) es ∙ step
  where
    step :
        first_of (last_event o es) (lookup o (put_event d e))
        ≡ first_of (last_event o (e ∷ es)) (lookup o d)
    step = ground (arith, lookup-put (origin e) o e d)

Distinct-fold :
    (d : Dict Origin ProvEvent) (es : List ProvEvent)
    → Distinct (keys d)
    → Distinct (keys (foldl put_event d es))
Distinct-fold d [] h = h
Distinct-fold d (e ∷ es) h = Distinct-fold (put_event d e) es (Distinct-put (origin e) e d h)

-- Every event is filed under its own origin.
abbrev IsFiled : Dict Origin ProvEvent → Type 0
IsFiled d = All (λ kv. origin kv.1 ≡ kv.0) d

IsFiled-put : (e : ProvEvent) (d : Dict Origin ProvEvent) → IsFiled d → IsFiled (put_event d e)
unfolding put
IsFiled-put e [] h = (refl, tt)
IsFiled-put e ((j, w) ∷ d) h = elim (Bool-cases (j == origin e)) [
  | inl same ↦ rw same (sym ((origin_eq.beq_iff j (origin e)).0 same), h.1)
  | inr other ↦ rw other (h.0, IsFiled-put e d h.1)
]

IsFiled-fold :
    (d : Dict Origin ProvEvent) (es : List ProvEvent) → IsFiled d → IsFiled (foldl put_event d es)
IsFiled-fold d [] h = h
IsFiled-fold d (e ∷ es) h = IsFiled-fold (put_event d e) es (IsFiled-put e d h)

map-origin-values : (d : Dict Origin ProvEvent) → IsFiled d → map origin (values d) ≡ keys d
map-origin-values [] h = refl
map-origin-values ((j, w) ∷ d) h = rw (h.0, map-origin-values d h.1)

lookup-In :
    (o : Origin) (d : Dict Origin ProvEvent) (e : ProvEvent) → lookup o d ≡ some e → In e (values d)
unfolding lookup
lookup-In o [] e h = absurd (cc h)
lookup-In o ((j, w) ∷ d) e h = elim (Bool-cases (j == o)) [
  | inl same ↦ inl (ground (arith, h, same))
  | inr other ↦ inr (lookup-In o d e (ground (arith, h, other)))
]

lookup-eq-none :
    (o : Origin) (d : Dict Origin ProvEvent) → contains (keys d) o ≡ false → lookup o d ≡ none
unfolding lookup contains
lookup-eq-none o [] h = refl
lookup-eq-none o ((j, w) ∷ d) h =
    ground (arith, lookup-eq-none o d, origin_eq.beq_iff o j, origin_eq.beq_iff j o)

-- A filed event is found under its origin.
lookup_of_In :
    (e : ProvEvent) (d : Dict Origin ProvEvent)
    → IsFiled d
    → Distinct (keys d)
    → In e (values d)
    → lookup (origin e) d ≡ some e
unfolding lookup
lookup_of_In e [] f u m = absurd m
lookup_of_In e ((j, w) ∷ d) f u (inl q) =
    let same : j ≡ origin e = sym f.0 ∙ ap origin (sym q) in
    rw ((origin_eq.beq_iff j (origin e)).1 same, q)
lookup_of_In e ((j, w) ∷ d) f u (inr m) = elim (Bool-cases (j == origin e)) [
  | inl same ↦
      let fresh =
        subst (λ o. contains (keys d) o ≡ false) ((origin_eq.beq_iff j (origin e)).0 same) u.0 in
      absurd (cc (lookup_of_In e d f.1 u.1 m, lookup-eq-none (origin e) d fresh))
  | inr other ↦ rw other (lookup_of_In e d f.1 u.1 m)
]

-- The events of both blobs, each under its origin, the old blob's first.
abbrev both : Prov → Prov → Dict Origin ProvEvent
both old new = foldl put_event (foldl put_event [] (prov_to_events old)) (prov_to_events new)

both-IsFiled : (old new : Prov) → IsFiled (both old new)
both-IsFiled old new =
    IsFiled-fold (foldl put_event [] (prov_to_events old)) (prov_to_events new)
      (IsFiled-fold [] (prov_to_events old) tt)

Distinct-both : (old new : Prov) → Distinct (keys (both old new))
Distinct-both old new =
    Distinct-fold (foldl put_event [] (prov_to_events old)) (prov_to_events new)
      (Distinct-fold [] (prov_to_events old) tt)

lookup-both :
    (old new : Prov) (o : Origin)
    → lookup o (both old new)
      ≡ first_of (last_event o (prov_to_events new)) (last_event o (prov_to_events old))
unfolding lookup
lookup-both old new o = ground (
  arith,
  lookup-fold o (foldl put_event [] (prov_to_events old)) (prov_to_events new),
  lookup-fold o [] (prov_to_events old),
)

-- No origin stands twice in a merge.
pub merge_prov-Distinct : (old new : Prov) → Distinct (map origin (merge_prov old new))
unfolding merge_prov merged_by_origin
merge_prov-Distinct old new =
    Distinct-sort_events (values (both old new))
      (rw (map-origin-values (both old new) (both-IsFiled old new)) (Distinct-both old new))

-- An event stands in the merge exactly when it is the last one of the new blob with its origin, or
-- the last one of the old blob with its origin and the new one has none: what a later event
-- overrides is not there.
pub merge_prov-In :
    (old new : Prov) (e : ProvEvent)
    → In e (merge_prov old new) ↔ (
        first_of
          (last_event (origin e) (prov_to_events new))
          (last_event (origin e) (prov_to_events old))
        ≡ some e)
unfolding merge_prov merged_by_origin
merge_prov-In old new e = (
  λ m.
      sym (lookup-both old new (origin e))
      ∙ lookup_of_In e (both old new) (both-IsFiled old new) (Distinct-both old new)
          (sort_events-In e (values (both old new)) m),
  λ h.
      In-sort_events e (values (both old new))
        (lookup-In (origin e) (both old new) e (lookup-both old new (origin e) ∙ h)),
)
