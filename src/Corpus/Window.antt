-- ===== src/Corpus/Window.antt =====
-- The turns that `read_window` shows, in a corpus whose turns are counted as `load_corpus` counts them.
use grace_mem.Common.{
  ℕ, zero, suc, ◌+◌, ◌-◌, ◌≤◌, ◌≡◌, refl, sym, ◌∙◌, ap, inl, inr, false, Option, none, some, List,
  [], ◌∷◌, ◌++◌, arith, min, length, length-append, length-drop, take, drop, take-append, filter,
  foldl, In, Text, text_eq, ◌==◌, Dict, lookup, lookup-put, lookup-put_self, Bool-cases,
  Option-cases, append_assoc, ap₂, append-nil, if◌then◌else◌, beq_refl, subst,
}
use grace_mem.Corpus.{Turn, build, append_session, index_sessions, window_of}

-- The turns of one session, in the order of the corpus.
unfoldable pub session_of : Text → List Turn → List Turn
session_of s turns = filter (λ t. t.session_id == s) turns

-- Each turn's `pos` is the number of the turns of its session before it, those of `seen` included.
abbrev pub IsCounted : List Turn → List Turn → Type 0
IsCounted seen [] = Unit
IsCounted seen (t ∷ ts) =
    (t.pos ≡ length (session_of t.session_id seen)) × IsCounted (seen ++ (t ∷ [])) ts

pub session_of-append :
    (s : Text) (xs ys : List Turn) → session_of s (xs ++ ys) ≡ session_of s xs ++ session_of s ys
unfolding session_of
session_of-append s [] ys = refl
session_of-append s (x ∷ xs) ys = elim (Bool-cases (x.session_id == s)) [
  | inl same ↦ rw same (ap (◌∷◌ x) (session_of-append s xs ys))
  | inr other ↦ rw other (session_of-append s xs ys)
]

session_of-own :
    (t : Turn) (ts : List Turn) → session_of t.session_id (t ∷ ts) ≡ t ∷ session_of t.session_id ts
unfolding session_of
session_of-own t ts = rw (beq_refl t.session_id) refl

-- A list of turns after what was there; an empty list leaves no entry.
abbrev joined : Option (List Turn) → List Turn → Option (List Turn)
joined none [] = none
joined none (t ∷ ts) = some (t ∷ ts)
joined (some us) ts = some (us ++ ts)

joined-nil : (o : Option (List Turn)) → joined o [] ≡ o
joined-nil none = refl
joined-nil (some us) = ap some (append-nil us)

lookup-append_session-own :
    (d : Dict Text (List Turn)) (t : Turn)
    → lookup t.session_id (append_session d t)
      ≡ joined (lookup t.session_id d) (session_of t.session_id (t ∷ []))
unfolding append_session session_of
lookup-append_session-own d t = elim (Option-cases (lookup t.session_id d)) [
  | inl miss ↦
      rw (miss, beq_refl t.session_id, append_session) (lookup-put_self t.session_id (t ∷ []) d)
  | inr (ts, hit) ↦
      rw (hit, beq_refl t.session_id, append_session)
        (lookup-put_self t.session_id (ts ++ (t ∷ [])) d)
]

lookup-append_session-other :
    (s : Text) (d : Dict Text (List Turn)) (t : Turn)
    → (t.session_id == s) ≡ false
    → lookup s (append_session d t) ≡ lookup s d
unfolding append_session
lookup-append_session-other s d t other = elim (Option-cases (lookup t.session_id d)) [
  | inl miss ↦
      rw (miss, append_session)
        (lookup-put t.session_id s (t ∷ []) d
          ∙ ap (λ b. if b then some (t ∷ []) else lookup s d) other)
  | inr (ts, hit) ↦
      rw (hit, append_session)
        (lookup-put t.session_id s (ts ++ (t ∷ [])) d
          ∙ ap (λ b. if b then some (ts ++ (t ∷ [])) else lookup s d) other)
]

lookup-append_session :
    (s : Text) (d : Dict Text (List Turn)) (t : Turn)
    → lookup s (append_session d t) ≡ joined (lookup s d) (session_of s (t ∷ []))
unfolding session_of
lookup-append_session s d t = elim (Bool-cases (t.session_id == s)) [
  | inl same ↦
      subst (λ x. lookup x (append_session d t) ≡ joined (lookup x d) (session_of x (t ∷ [])))
        ((text_eq.beq_iff t.session_id s).0 same) (lookup-append_session-own d t)
  | inr other ↦ lookup-append_session-other s d t other ∙ rw other (sym (joined-nil (lookup s d)))
]

joined-append :
    (o : Option (List Turn)) (xs ys : List Turn) → joined (joined o xs) ys ≡ joined o (xs ++ ys)
joined-append none [] ys = refl
joined-append none (x ∷ xs) ys = refl
joined-append (some us) xs ys = ap some (append_assoc us xs ys)

lookup-index_sessions :
    (s : Text) (d : Dict Text (List Turn)) (turns : List Turn)
    → lookup s (foldl append_session d turns) ≡ joined (lookup s d) (session_of s turns)
lookup-index_sessions s d [] = unfold session_of in sym (joined-nil (lookup s d))
lookup-index_sessions s d (t ∷ ts) =
    lookup-index_sessions s (append_session d t) ts
    ∙ (ap (λ o. joined o (session_of s ts)) (lookup-append_session s d t)
        ∙ (joined-append (lookup s d) (session_of s (t ∷ [])) (session_of s ts)
            ∙ ap (joined (lookup s d)) (sym (session_of-append s (t ∷ []) ts))))

-- A counted turn stands at its position in its session.
stands :
    (seen turns : List Turn) (t : Turn)
    → IsCounted seen turns
    → In t turns
    → (before after : List Turn) × (session_of t.session_id (seen ++ turns) ≡ before ++ (t ∷ after))
      × (length before ≡ t.pos)
stands seen [] t c m = absurd m
stands seen (u ∷ ts) t c (inl q) = (
  session_of t.session_id seen,
  session_of t.session_id ts,
  session_of-append t.session_id seen (u ∷ ts)
      ∙ ap (λ x. session_of t.session_id seen ++ x)
          (ap (λ v. session_of t.session_id (v ∷ ts)) (sym q) ∙ session_of-own t ts),
  sym (subst (λ v. v.pos ≡ length (session_of v.session_id seen)) (sym q) c.0),
)
stands seen (u ∷ ts) t c (inr m) =
    let (before, after, cut, at) = stands (seen ++ (u ∷ [])) ts t c.1 m in
    (before, after, ap (session_of t.session_id) (sym (append_assoc seen (u ∷ []) ts)) ∙ cut, at)

drop-append : (n : ℕ) (xs ys : List Turn) → n ≤ length xs → drop n (xs ++ ys) ≡ drop n xs ++ ys
drop-append zero xs ys h = refl
drop-append (suc n) [] ys h = absurd (omega (arith, h))
drop-append (suc n) (x ∷ xs) ys h = drop-append n xs ys (omega (arith, h))

take-min : (n : ℕ) (xs : List Turn) → take (min (length xs) n) xs ≡ take n xs
take-min zero xs =
    let none_left : min (length xs) zero ≡ zero = omega arith in ap (λ m. take m xs) none_left
take-min (suc n) [] =
    let nothing : List Turn = [] in
    let none_left : min (length nothing) (suc n) ≡ zero = omega arith in
    ap (λ m. take m nothing) none_left
take-min (suc n) (x ∷ xs) =
    let size : min (length (x ∷ xs)) (suc n) ≡ suc (min (length xs) n) = omega arith in
    ap (λ m. take m (x ∷ xs)) size ∙ ap (◌∷◌ x) (take-min n xs)

joined-some :
    (before : List Turn) (t : Turn) (after : List Turn)
    → joined none (before ++ (t ∷ after)) ≡ some (before ++ (t ∷ after))
joined-some [] t after = refl
joined-some (b ∷ before) t after = refl

-- The slice of a session about the turn behind `before`.
around :
    (k : ℕ) (t : Turn) (before after : List Turn)
    → length before ≡ t.pos
    → take
        (min (length (before ++ (t ∷ after))) (t.pos + k + 1) - (t.pos - k))
        (drop (t.pos - k) (before ++ (t ∷ after)))
      ≡ drop (length before - k) before ++ (t ∷ take k after)
around k t before after at =
    ap₂ take size (
      drop-append (t.pos - k) before (t ∷ after) (omega (arith, at))
      ∙ ap (λ n. drop n before ++ (t ∷ after)) (omega (arith, at)))
    ∙ (take-append (length head + suc (min (length after) k)) head (t ∷ after) (omega arith)
        ∙ ap (λ x. head ++ x) (ap (λ n. take n (t ∷ after)) room ∙ ap (◌∷◌ t) (take-min k after)))
  where
    head : List Turn
    head = drop (length before - k) before

    room : length head + suc (min (length after) k) - length head ≡ suc (min (length after) k)
    room = omega arith

    size :
        min (length (before ++ (t ∷ after))) (t.pos + k + 1) - (t.pos - k)
        ≡ length head + suc (min (length after) k)
    size =
        omega (arith, at, length-append before (t ∷ after), length-drop (length before - k) before)

-- In a counted corpus the window of READ about a turn is the last `k` turns of its session before it,
-- the turn itself and the first `k` turns of its session after it.
pub window_of-surrounds :
    (turns : List Turn) (k : ℕ) (t : Turn)
    → IsCounted [] turns
    → In t turns
    → (before after : List Turn) × (session_of t.session_id turns ≡ before ++ (t ∷ after))
      × (length before ≡ t.pos)
      × (window_of (build turns) k t ≡ some (drop (length before - k) before ++ (t ∷ take k after)))
unfolding window_of build index_sessions lookup
window_of-surrounds turns k t c m =
    let (before, after, cut, at) = stands [] turns t c m in
    let found : lookup t.session_id (index_sessions turns) ≡ some (before ++ (t ∷ after)) =
      lookup-index_sessions t.session_id [] turns
      ∙ (ap (joined none) cut ∙ joined-some before t after) in
    (before, after, cut, at, (rw (found, window_of) (ap some (around k t before after at))))
