-- ===== src/Temporal/Augment/Substituted.antt =====
-- `augment_temporal_text` puts its tags in place of the classifier's matches, all at once, and gives one
-- hint for each text.
use grace_mem.Common.{
  ℕ, ◌≡◌, ◌∙◌, refl, sym, ap, inl, inr, false, some, some-injective, List, [], ◌∷◌, ◌++◌, arith,
  >>=-eq-some, Text, text_eq, map, sort_by, contains, contains-append, Distinct, Bool-cases,
  option_both, subst,
}
use grace_mem.Temporal.Calendar.{Stamp}
use grace_mem.Temporal.Types.{Context, Patterns}
use grace_mem.Temporal.Classifier.{classify_temporal_matches}
use grace_mem.Temporal.Normalizer.{Texts, Constraint, starts_later, parse_temporal_expressions}
use grace_mem.Temporal.Normalizer.Splice.{substituted, foldl-substituted}
use grace_mem.Temporal.Normalizer.Rewrite.{SpansInside, parsed-InPlace}
use grace_mem.Temporal.Augment.{
  Hint, resolved_span, hint_of, tag_of, Hints, add_hint, augment_hints, augment_temporal_text,
}

Distinct-snoc :
    (k : Text) (ks : List Text) → contains ks k ≡ false → Distinct ks → Distinct (ks ++ (k ∷ []))
unfolding contains
Distinct-snoc k [] n d = (refl, tt)
Distinct-snoc k (j ∷ js) n d = (
  ground (arith, contains-append js (k ∷ []) j, text_eq.beq_iff j k, text_eq.beq_iff k j, n, d.0),
  Distinct-snoc k js (ground (arith, n)) d.1,
)

-- The texts seen are those of the hints, each once.
abbrev Fresh : (Text → Text) → Hints → Type 0
Fresh lower out = (out.0 ≡ map (λ h. lower h.original) out.1) × Distinct out.0

originals-snoc :
    (lower : Text → Text) (hs : List Hint) (h : Hint)
    → map (λ g. lower g.original) (hs ++ (h ∷ []))
      ≡ map (λ g. lower g.original) hs ++ (lower h.original ∷ [])
originals-snoc lower [] h = refl
originals-snoc lower (g ∷ gs) h = ap (λ t. lower g.original ∷ t) (originals-snoc lower gs h)

module _ (w : Texts) (minute_stamp : Stamp → Text) where
  add_hint-Fresh :
      (lower : Text → Text) (c : Constraint) (t : Text) (out : Hints)
      → Fresh lower out
      → Fresh lower (add_hint w minute_stamp lower c t out)
  unfolding add_hint hint_of
  add_hint-Fresh lower c t (seen, hints) f =
      elim (Bool-cases (contains seen (lower c.match.text))) [
        | inl old ↦ rw old f
        | inr new ↦ rw new (
          ap (λ ks. ks ++ (lower c.match.text ∷ [])) f.0
              ∙ sym (originals-snoc lower hints (hint_of w minute_stamp c t)),
          Distinct-snoc (lower c.match.text) seen new f.1,
        )
      ]

  augment_hints-Fresh :
      (lower : Text → Text) (cs : List Constraint) (out : Hints)
      → Fresh lower out
      → Fresh lower (augment_hints w minute_stamp lower cs out)
  unfolding augment_hints
  augment_hints-Fresh lower [] out f = f
  augment_hints-Fresh lower (c ∷ cs) out f = augment_hints-Fresh lower cs _ (
      option_both (Fresh lower) (tag_of w minute_stamp c) _ _ f (λ _ _.
        option_both (Fresh lower) (resolved_span w minute_stamp c) _ _ f
          (λ t _. add_hint-Fresh lower c t out f)))

  -- For regular expressions that find non-empty spans inside the text: an augmentation that gives a
  -- result comes from constraints that have the classifier's matches in the order of the text; its text
  -- is the source with each span that has a tag replaced by the tag, all at once; and no two hints have
  -- the same text in lower case.
  pub augment_temporal_text-substituted :
      (p : Patterns) (room : ℕ) (text : Text) (c : Context) (tagged : Text) (hints : List Hint)
      (rest : List Constraint)
      → SpansInside p
      → augment_temporal_text w minute_stamp p room text c ≡ some (tagged, hints, rest)
      → (cs : List Constraint) × (parse_temporal_expressions p room text c ≡ some cs)
        × (map (λ d. d.match) cs ≡ classify_temporal_matches p text)
        × (tagged ≡ substituted (tag_of w minute_stamp) text 0 cs)
        × Distinct (map (λ h. p.lower h.original) hints)
  unfolding augment_temporal_text
  augment_temporal_text-substituted p room text c tagged hints rest inside h =
      let (cs, parsed, same) = >>=-eq-some (parse_temporal_expressions p room text c) _ h in
      let triple = some-injective _ _ same in
      let (matches, placed) = parsed-InPlace p room text c cs inside parsed in
      let (seen, once) =
        augment_hints-Fresh p.lower (sort_by starts_later cs) ([], []) (refl, tt) in
      (
        cs,
        parsed,
        matches,
        ap (λ (v : Text × List Hint × List Constraint). v.0) (sym triple)
            ∙ foldl-substituted (tag_of w minute_stamp) text 0 cs placed,
        subst
            (λ (v : Text × List Hint × List Constraint).
              Distinct (map (λ h. p.lower h.original) v.1))
            triple (subst Distinct seen once),
      )
