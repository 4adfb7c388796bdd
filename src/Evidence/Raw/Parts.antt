-- ===== src/Evidence/Raw/Parts.antt =====
-- The three lookups of RawContextLookup agree.
use grace_mem.Common.{
  ℕ, ◌≡◌, ◌∙◌, refl, ap, sym, inl, inr, Bool, true, false, ◌&&◌, Option, none, some, some-injective,
  List, [], ◌∷◌, ◌++◌, if◌then◌else◌, if_both, ltb, Bool-cases, Option-cases, Text, text_eq, ◌==◌,
  strip, is_empty, lookup, All, subst, codes,
}
use grace_mem.Evidence.Raw.{
  CsvRow, Turn, Index, row_at, user_before, stripped, is_assistant, both_turns, pair_text,
  content_or_empty, found, get, get_user_text, get_assistant_text, load,
}
use grace_mem.Evidence.Raw.Clean.{IsClean, AllClean, load-AllClean}

-- The text of a pair from its two sides, where a missing side of the assistant is empty.
abbrev pub joined : Option Text → Option Text → Option Text
joined none assistant = assistant
joined (some user) none = some (codes "User: " ++ (user ++ (10 ∷ codes "Assistant: ")))
joined (some user) (some assistant) =
    some (codes "User: " ++ (user ++ (10 ∷ (codes "Assistant: " ++ assistant))))

stripped_empty : (s : Text) → is_empty (strip s) ≡ true → stripped s ≡ none
unfolding stripped
stripped_empty s h = rw h refl

stripped_full : (s : Text) → is_empty (strip s) ≡ false → stripped s ≡ some (strip s)
unfolding stripped
stripped_full s h = rw h refl

pair_empty :
    (user assistant : Text) → is_empty user ≡ true → pair_text user assistant ≡ stripped assistant
unfolding pair_text
pair_empty user assistant h = rw h refl

pair_full :
    (user assistant : Text)
    → is_empty user ≡ false
    → pair_text user assistant ≡ some (both_turns user assistant)
unfolding pair_text
pair_full user assistant h = rw h refl

nil_of : (s : Text) → is_empty s ≡ true → s ≡ []
unfolding is_empty
nil_of [] h = refl
nil_of (c ∷ s) h = cc

joined_full :
    (user assistant : Text)
    → joined (some (strip user)) (stripped assistant) ≡ some (both_turns user assistant)
joined_full user assistant = elim (Bool-cases (is_empty (strip assistant))) [
  | inl empty ↦
      ap (joined (some (strip user))) (stripped_empty assistant empty)
      ∙ ap (λ t. some (codes "User: " ++ (strip user ++ (10 ∷ (codes "Assistant: " ++ t)))))
          (sym (nil_of (strip assistant) empty))
  | inr full ↦ ap (joined (some (strip user))) (stripped_full assistant full)
]

pair_joined :
    (user assistant : Text)
    → strip user ≡ user
    → pair_text user assistant ≡ joined (stripped user) (stripped assistant)
pair_joined user assistant h = elim (Bool-cases (is_empty user)) [
  | inl empty ↦
      pair_empty user assistant empty
      ∙ ap (λ o. joined o (stripped assistant)) (sym (stripped_empty user (ap is_empty h ∙ empty)))
  | inr full ↦
      pair_full user assistant full
      ∙ (sym (joined_full user assistant)
          ∙ ap (λ o. joined o (stripped assistant))
              (sym (stripped_full user (ap is_empty h ∙ full))))
]

user_before-IsClean :
    (i : ℕ) (turns : List Turn) (t : Turn)
    → All IsClean turns
    → user_before i turns ≡ some t
    → IsClean t
unfolding user_before
user_before-IsClean i [] t c h = cc
user_before-IsClean i (u ∷ us) t c h = elim (Option-cases (user_before i us)) [
  | inr (v, e) ↦
      let same : some v ≡ some t = rw (e, user_before) at h in
      user_before-IsClean i us t c.1 (e ∙ same)
  | inl e ↦
      if_both (λ o. o ≡ some t → IsClean t) (ltb u.turn_index i && u.role == codes "user") (some u)
        none (λ k. subst IsClean (some-injective _ _ k) c.0) (λ k. cc) (rw (e, user_before) at h)
]

lookup-AllClean :
    (sid : Text) (index : Index) (turns : List Turn)
    → AllClean index
    → lookup sid index ≡ some turns
    → All IsClean turns
unfolding lookup
lookup-AllClean sid [] turns c h = cc
lookup-AllClean sid ((k, own) ∷ rest) turns c h =
    if_both (λ o. o ≡ some turns → All IsClean turns) (k == sid) (some own) (lookup sid rest)
      (λ e. subst (All IsClean) (some-injective _ _ e) c.0)
      (λ e. lookup-AllClean sid rest turns c.1 e) h

found-AllClean :
    (index : Index) (sid : Text) (i : ℕ) (turns : List Turn) (row : Turn)
    → AllClean index
    → found index sid i ≡ some (turns, row)
    → All IsClean turns
unfolding found
found-AllClean index sid i turns row c h = elim (Option-cases (lookup sid index)) [
  | inl e ↦
      (let k : ◌≡◌ {A = Option (List Turn × Turn)} none (some (turns, row)) = rw (e, found) at h in
        cc)
  | inr (own, e) ↦ elim (Option-cases (row_at i own)) [
    | inl m ↦
        (let k : ◌≡◌ {A = Option (List Turn × Turn)} none (some (turns, row)) =
            rw (e, m, found) at h in
          cc)
    | inr (r, m) ↦
        let k : some (own, r) ≡ some (turns, row) = rw (e, m, found) at h in
        lookup-AllClean sid index turns c
          (e ∙ ap (λ (v : List Turn × Turn). some v.0) (some-injective _ _ k))
  ]
]

joined_user :
    (o : Option Turn) (assistant : Text)
    → ((t : Turn) → o ≡ some t → IsClean t)
    → pair_text (content_or_empty o) assistant
      ≡ joined (elim o [ none ↦ none | some t ↦ stripped t.content ]) (stripped assistant)
unfolding pair_text is_empty strip
joined_user none assistant h = refl
joined_user (some t) assistant h = pair_joined t.content assistant (h t refl)

-- Whether the row that is found is the assistant's.
unfoldable pub assistant_at : Index → Text → ℕ → Bool
assistant_at index sid i = elim (found index sid i) [
  | none ↦ false
  | some (turns, row) ↦ is_assistant row
]

-- On the index that `_load` builds from any rows: at an assistant's turn `get` is the pair of what
-- `get_user_text` and `get_assistant_text` give, and what the assistant's side gives alone where no
-- user's text comes before; elsewhere `get` is what `get_user_text` gives.
pub get-parts :
    (lower : Text → Text) (rows : List CsvRow) (sid : Text) (i : ℕ)
    → get (load lower rows) sid i ≡ (
        if assistant_at (load lower rows) sid i
        then joined
            (get_user_text (load lower rows) sid i)
            (get_assistant_text (load lower rows) sid i)
        else get_user_text (load lower rows) sid i)
unfolding get get_user_text get_assistant_text assistant_at
get-parts lower rows sid i =
    let index = load lower rows in
    elim (Option-cases (found index sid i)) [
      | inl h ↦ rw (h, get, get_user_text, assistant_at) refl
      | inr ((turns, row), h) ↦ elim (Bool-cases (is_assistant row)) [
        | inl a ↦
            rw (h, get, get_user_text, get_assistant_text, assistant_at, a)
              (joined_user (user_before i turns) row.content (λ t e.
                user_before-IsClean i turns t
                  (found-AllClean index sid i turns row (load-AllClean lower rows) h) e))
        | inr a ↦ rw (h, get, get_user_text, assistant_at, a) refl
      ]
    ]
