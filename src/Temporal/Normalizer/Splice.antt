-- ===== src/Temporal/Normalizer/Splice.antt =====
-- The replacements from right to left leave the other spans in place.
use grace_mem.Common.{
  Option, ℕ, zero, suc, ◌-◌, ◌≤◌, ◌<◌, ◌≡◌, ◌∙◌, refl, sym, ap, inl, inr, false, none, some, List,
  [], ◌∷◌, ◌++◌, append_assoc, arith, leb, Option-cases, Text, take, drop, length, All, foldl,
  foldl-append, sort_by, insert_by, All-sort_by,
}
use grace_mem.Temporal.Types.{}
use grace_mem.Temporal.Calendar.{}
use grace_mem.Temporal.Classifier.{}
use grace_mem.Temporal.Classifier.Pairs.{}
use grace_mem.Temporal.Classifier.Chosen.{}
use grace_mem.Temporal.Resolver.{}
use grace_mem.Temporal.Normalizer.{Constraint, splice, starts_later, replace_one}

module _ {A : Type 0} where
  take-take-append :
      (m n : ℕ) (xs ys : List A) → m ≤ n → n ≤ length xs → take m (take n xs ++ ys) ≡ take m xs
  take-take-append zero n xs ys h k = refl
  take-take-append (suc m) zero xs ys h k = absurd (omega (arith, h))
  take-take-append (suc m) (suc n) [] ys h k = absurd (omega (arith, k))
  take-take-append (suc m) (suc n) (x ∷ xs) ys h k =
      ap (λ t. x ∷ t) (take-take-append m n xs ys (omega (arith, h)) (omega (arith, k)))

  drop-take-append : (n : ℕ) (xs ys : List A) → n ≤ length xs → drop n (take n xs ++ ys) ≡ ys
  drop-take-append zero xs ys k = refl
  drop-take-append (suc n) [] ys k = absurd (omega (arith, k))
  drop-take-append (suc n) (x ∷ xs) ys k = drop-take-append n xs ys (omega (arith, k))

  take-append_drop : (n : ℕ) (xs : List A) → take n xs ++ drop n xs ≡ xs
  take-append_drop zero xs = refl
  take-append_drop (suc n) [] = refl
  take-append_drop (suc n) (x ∷ xs) = ap (λ t. x ∷ t) (take-append_drop n xs)

  -- A beginning of a list is a shorter one and what follows.
  take-split : (m n : ℕ) (xs : List A) → m ≤ n → take n xs ≡ take m xs ++ take (n - m) (drop m xs)
  take-split zero n xs h = let e : n - 0 ≡ n = omega arith in rw e refl
  take-split (suc m) zero xs h = absurd (omega (arith, h))
  take-split (suc m) (suc n) [] h = take_nil (suc n - suc m)
    where
      take_nil : (k : ℕ) → ◌≡◌ {A = List A} [] (take k [])
      take_nil zero = refl
      take_nil (suc k) = refl
  take-split (suc m) (suc n) (x ∷ xs) h =
      let e : suc n - suc m ≡ n - m = omega arith in
      rw e (ap (λ t. x ∷ t) (take-split m n xs (omega (arith, h))))

-- The text from `a` to `b`.
abbrev pub between : Text → ℕ → ℕ → Text
between text a b = take (b - a) (drop a text)

-- The spans stand in the text, one after the other, from `pos` on.
abbrev pub InPlace : Text → ℕ → List Constraint → Type 0
InPlace text pos [] = pos ≤ length text
InPlace text pos (c ∷ cs) =
    (pos ≤ c.match.first) × (c.match.first < c.match.after) × InPlace text c.match.after cs

in_text : (text : Text) (pos : ℕ) (cs : List Constraint) → InPlace text pos cs → pos ≤ length text
in_text text pos [] h = h
in_text text pos (c ∷ cs) h = omega (arith, h.0, h.1, in_text text c.match.after cs h.2)

all_from :
    (text : Text) (pos k : ℕ) (cs : List Constraint)
    → InPlace text pos cs
    → k ≤ pos
    → All (λ c. k ≤ c.match.first) cs
all_from text pos k [] h le = tt
all_from text pos k (c ∷ cs) h le =
    (omega (arith, h.0, le), all_from text c.match.after k cs h.2 (omega (arith, h.0, h.1, le)))

insert_last :
    (c : Constraint) (cs : List Constraint)
    → All (λ d. c.match.first < d.match.first) cs
    → insert_by starts_later c cs ≡ cs ++ (c ∷ [])
unfolding insert_by starts_later
insert_last c [] h = refl
insert_last c (d ∷ ds) h =
    let no : leb d.match.first c.match.first ≡ false = ground (arith, h.0) in
    rw no (ap (λ t. d ∷ t) (insert_last c ds h.1))

All-insert :
    (P : Constraint → Type 0) (cs : List Constraint) → All P cs → All P (sort_by starts_later cs)
All-insert P cs h = All-sort_by starts_later P cs h

-- The reverse sort of constraints in place puts the first one last.
sort_last :
    (text : Text) (pos : ℕ) (c : Constraint) (cs : List Constraint)
    → InPlace text pos (c ∷ cs)
    → sort_by starts_later (c ∷ cs) ≡ sort_by starts_later cs ++ (c ∷ [])
unfolding sort_by
sort_last text pos c cs h = insert_last c (sort_by starts_later cs) (
    All-insert (λ d. c.match.first < d.match.first) cs
      (all_from text c.match.after (suc c.match.first) cs h.2 (omega (arith, h.1))))

module _ (replace : Constraint → Option Text) (source : Text) where
  -- The text from `pos` on, with each span that has a replacement replaced, all at once.
  unfoldable pub substituted : ℕ → List Constraint → Text
  substituted pos [] = drop pos source
  substituted pos (c ∷ cs) =
      between source pos c.match.first
      ++ ((elim (replace c) [
        | none ↦ between source c.match.first c.match.after
        | some replacement ↦ replacement
      ])
          ++ substituted c.match.after cs)

  step_kept :
      (pos a b : ℕ) (rest : Text)
      → pos ≤ a
      → a ≤ b
      → take b source ++ rest
        ≡ take pos source ++ (between source pos a ++ (between source a b ++ rest))
  step_kept pos a b rest h k =
      ap (λ t. t ++ rest)
        (take-split a b source k ∙ ap (λ t. t ++ between source a b) (take-split pos a source h))
      ∙ (append_assoc (take pos source ++ between source pos a) (between source a b) rest
          ∙ append_assoc (take pos source) (between source pos a) (between source a b ++ rest))

  replaced :
      (pos : ℕ) (c : Constraint) (rest : Text)
      → pos ≤ c.match.first
      → c.match.first < c.match.after
      → c.match.after ≤ length source
      → replace_one replace (take c.match.after source ++ rest) c
        ≡ take pos source
          ++ (between source pos c.match.first
              ++ ((elim (replace c) [
                | none ↦ between source c.match.first c.match.after
                | some replacement ↦ replacement
              ])
                  ++ rest))
  unfolding replace_one splice
  replaced pos c rest h k fits = elim (Option-cases (replace c)) [
    | inl e ↦
        rw (e, replace_one) (step_kept pos c.match.first c.match.after rest h (omega (arith, k)))
    | inr (r, e) ↦
        rw (e, replace_one, splice)
          (ap (λ t. t ++ (r ++ drop c.match.after (take c.match.after source ++ rest)))
              (take-take-append c.match.first c.match.after source rest (omega (arith, k)) fits
                ∙ take-split pos c.match.first source h)
            ∙ (ap (λ t. (take pos source ++ between source pos c.match.first) ++ (r ++ t))
                  (drop-take-append c.match.after source rest fits)
                ∙ append_assoc (take pos source) (between source pos c.match.first) (r ++ rest)))
  ]

  pub foldl-substituted :
      (pos : ℕ) (cs : List Constraint)
      → InPlace source pos cs
      → foldl (replace_one replace) source (sort_by starts_later cs)
        ≡ take pos source ++ substituted pos cs
  unfolding substituted sort_by
  foldl-substituted pos [] h = sym (take-append_drop pos source)
  foldl-substituted pos (c ∷ cs) h =
      ap (foldl (replace_one replace) source) (sort_last source pos c cs h)
      ∙ (foldl-append (replace_one replace) source (sort_by starts_later cs) (c ∷ [])
          ∙ (ap (λ t. replace_one replace t c) (foldl-substituted c.match.after cs h.2)
              ∙ replaced pos c (substituted c.match.after cs) h.0 h.1
                  (in_text source c.match.after cs h.2)))
