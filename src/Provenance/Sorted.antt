-- ===== src/Provenance/Sorted.antt =====
-- Sorting the events by time stamp keeps them: the same events, and no origin twice.
use grace_mem.Common.{
  ◌≡◌, refl, ◌∙◌, inl, inr, false, ◌||◌, List, [], ◌∷◌, map, arith, leb, In, ◌==◌, contains,
  Distinct, Bool-cases,
}
use grace_mem.Provenance.{ProvEvent, Origin, origin, origin_eq, insert_event, sort_events}

contains-insert_event :
    (o : Origin) (e : ProvEvent) (fs : List ProvEvent)
    → contains (map origin (insert_event e fs)) o ≡ (o == origin e || contains (map origin fs) o)
unfolding insert_event contains
contains-insert_event o e [] = refl
contains-insert_event o e (f ∷ fs) = ground (arith, contains-insert_event o e fs)

contains-sort_events :
    (o : Origin) (es : List ProvEvent)
    → contains (map origin (sort_events es)) o ≡ contains (map origin es) o
unfolding sort_events contains
contains-sort_events o [] = refl
contains-sort_events o (e ∷ es) =
    ground (arith, contains-insert_event o e (sort_events es), contains-sort_events o es)

Distinct-insert_event :
    (e : ProvEvent) (fs : List ProvEvent)
    → contains (map origin fs) (origin e) ≡ false
    → Distinct (map origin fs)
    → Distinct (map origin (insert_event e fs))
unfolding insert_event contains
Distinct-insert_event e [] n d = (refl, tt)
Distinct-insert_event e (f ∷ fs) n d = elim (Bool-cases (leb e.ts f.ts)) [
  | inl low ↦ rw low (n, d)
  | inr high ↦ rw high (
    ground (
      arith,
      contains-insert_event (origin f) e fs,
      origin_eq.beq_iff (origin e) (origin f),
      origin_eq.beq_iff (origin f) (origin e),
      n,
      d.0,
    ),
    Distinct-insert_event e fs (ground (arith, n)) d.1,
  )
]

pub Distinct-sort_events :
    (es : List ProvEvent) → Distinct (map origin es) → Distinct (map origin (sort_events es))
unfolding sort_events
Distinct-sort_events [] d = tt
Distinct-sort_events (e ∷ es) d =
    Distinct-insert_event e (sort_events es) (contains-sort_events (origin e) es ∙ d.0)
      (Distinct-sort_events es d.1)

In-insert_event-head : (e : ProvEvent) (fs : List ProvEvent) → In e (insert_event e fs)
unfolding insert_event
In-insert_event-head e [] = inl refl
In-insert_event-head e (f ∷ fs) = elim (Bool-cases (leb e.ts f.ts)) [
  | inl low ↦ rw low (inl refl)
  | inr high ↦ rw high (inr (In-insert_event-head e fs))
]

In-insert_event-tail : (x e : ProvEvent) (fs : List ProvEvent) → In x fs → In x (insert_event e fs)
unfolding insert_event
In-insert_event-tail x e [] m = elim m [ ]
In-insert_event-tail x e (f ∷ fs) m = elim (Bool-cases (leb e.ts f.ts)) [
  | inl low ↦ rw low (inr m)
  | inr high ↦ rw high (elim m [ inl q ↦ inl q | inr r ↦ inr (In-insert_event-tail x e fs r) ])
]

pub In-sort_events : (x : ProvEvent) (es : List ProvEvent) → In x es → In x (sort_events es)
unfolding sort_events
In-sort_events x [] m = elim m [ ]
In-sort_events x (e ∷ es) (inl q) = rw q (In-insert_event-head e (sort_events es))
In-sort_events x (e ∷ es) (inr m) =
    In-insert_event-tail x e (sort_events es) (In-sort_events x es m)

insert_event-In : (x e : ProvEvent) (fs : List ProvEvent) → In x (insert_event e fs) → In x (e ∷ fs)
unfolding insert_event
insert_event-In x e [] m = m
insert_event-In x e (f ∷ fs) m = elim (Bool-cases (leb e.ts f.ts)) [
  | inl low ↦ rw low at m
  | inr high ↦
      let m : In x (f ∷ insert_event e fs) = rw (high, insert_event) at m in
      elim m [
        | inl q ↦ inr (inl q)
        | inr r ↦ elim (insert_event-In x e fs r) [ inl q ↦ inl q | inr r ↦ inr (inr r) ]
      ]
]

pub sort_events-In : (x : ProvEvent) (es : List ProvEvent) → In x (sort_events es) → In x es
unfolding sort_events
sort_events-In x [] m = m
sort_events-In x (e ∷ es) m = elim (insert_event-In x e (sort_events es) m) [
  | inl q ↦ inl q
  | inr r ↦ inr (sort_events-In x es r)
]
