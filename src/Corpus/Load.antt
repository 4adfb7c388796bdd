-- ===== src/Corpus/Load.antt =====
-- `load_corpus` of grace_mem/agent_filter/retrieval/corpus.py on the rows that pandas reads. A row has
-- what `str` and `int` give for its cells; `lower` stands for `str.lower`.
use grace_mem.Common.{
  ℕ, ◌+◌, ◌≡◌, refl, ◌∙◌, ap, inl, inr, Option, none, some, List, [], ◌∷◌, ◌++◌, arith, length,
  length-append, Text, text_eq, ◌==◌, Dict, lookup, put, lookup-put, Bool-cases, if◌then◌else◌,
  codes, strip, is_empty, colon, subst, Option-cases, In, ◌-◌, take, drop,
}
use grace_mem.Provenance.{digits}
use grace_mem.Corpus.{Turn, Corpus, build, window_of}
use grace_mem.Corpus.Window.{session_of, IsCounted, session_of-append, window_of-surrounds}

-- `content` is `none` where pandas has NaN; a negative turn index is left out.
pub record Row : Type 0 where
  pub content : Option Text
  pub session_id : Text
  pub turn_index : ℕ
  pub role : Text
  pub dialogue_datetime : Text

-- The content of a row that is kept.
unfoldable pub filled : Option Text → Option Text
filled none = none
filled (some content) = if is_empty (strip content) then none else some content

-- `pos_counter.get(session, 0)`
unfoldable pub count_of : Option ℕ → ℕ
count_of none = 0
count_of (some n) = n

module _ (lower : Text → Text) where
  unfoldable pub turn_of : Text → ℕ → Row → Turn
  unfolding digits
  turn_of content pos r =
      let session = strip r.session_id in
      let role = lower (strip r.role) in
      let is_user = role == codes "user" in
      let pair = if is_user then r.turn_index + 1 else r.turn_index in
      let suffix = if is_user then codes "u" else codes "a" in
      record {
        sid = session ++ (colon ∷ (digits pair pair ++ (colon ∷ suffix)));
        session_id = session;
        turn_index = r.turn_index;
        pos = pos;
        role = role;
        date = r.dialogue_datetime;
        text = content;
      }

  -- The loop over the rows, with `pos_counter`.
  unfoldable pub load_rows : Dict Text ℕ → List Row → List Turn
  unfolding filled count_of turn_of
  load_rows pos_counter [] = []
  load_rows pos_counter (r ∷ rows) = elim (filled r.content) [
    | none ↦ load_rows pos_counter rows
    | some content ↦
        let session = strip r.session_id in
        let pos = count_of (lookup session pos_counter) in
        turn_of content pos r ∷ load_rows (put session (pos + 1) pos_counter) rows
  ]

  unfoldable pub load_corpus : List Row → Corpus
  unfolding load_rows
  load_corpus rows = build (load_rows [] rows)

  -- The counter has, for each session, the number of its turns so far.
  abbrev IsTally : Dict Text ℕ → List Turn → Type 0
  IsTally pos_counter seen =
      (s : Text) → count_of (lookup s pos_counter) ≡ length (session_of s seen)

  IsTally-put :
      (pos_counter : Dict Text ℕ) (seen : List Turn) (t : Turn)
      → t.pos ≡ count_of (lookup t.session_id pos_counter)
      → IsTally pos_counter seen
      → IsTally (put t.session_id (t.pos + 1) pos_counter) (seen ++ (t ∷ []))
  unfolding count_of
  IsTally-put pos_counter seen t at h s = elim (Bool-cases (t.session_id == s)) [
    | inl same ↦
        let seen_here =
          subst (λ x. t.pos ≡ count_of (lookup x pos_counter))
            ((text_eq.beq_iff t.session_id s).0 same) at in
        let one : length (session_of s (t ∷ [])) ≡ 1 = unfold session_of in rw same refl in
        ap count_of (written ∙ ap (λ b. if b then some (t.pos + 1) else lookup s pos_counter) same)
        ∙ omega (arith, seen_here, h s, grown, one)
    | inr other ↦
        let nothing : length (session_of s (t ∷ [])) ≡ 0 = unfold session_of in rw other refl in
        ap count_of (written ∙ ap (λ b. if b then some (t.pos + 1) else lookup s pos_counter) other)
        ∙ omega (arith, h s, grown, nothing)
  ]
    where
      written :
          lookup s (put t.session_id (t.pos + 1) pos_counter)
          ≡ (if t.session_id == s then some (t.pos + 1) else lookup s pos_counter)
      written = lookup-put t.session_id s (t.pos + 1) pos_counter

      grown :
          length (session_of s (seen ++ (t ∷ [])))
          ≡ length (session_of s seen) + length (session_of s (t ∷ []))
      grown =
          ap length (session_of-append s seen (t ∷ []))
          ∙ length-append (session_of s seen) (session_of s (t ∷ []))

  load_rows-IsCounted :
      (pos_counter : Dict Text ℕ) (seen : List Turn) (rows : List Row)
      → IsTally pos_counter seen
      → IsCounted seen (load_rows pos_counter rows)
  unfolding load_rows turn_of
  load_rows-IsCounted pos_counter seen [] h = tt
  load_rows-IsCounted pos_counter seen (r ∷ rows) h = elim (Option-cases (filled r.content)) [
    | inl skipped ↦ rw (skipped, load_rows) (load_rows-IsCounted pos_counter seen rows h)
    | inr (content, kept) ↦
        let pos = count_of (lookup (strip r.session_id) pos_counter) in
        let t = turn_of content pos r in
        rw (kept, load_rows)
          (
            h (strip r.session_id),
            load_rows-IsCounted (put (strip r.session_id) (pos + 1) pos_counter) (seen ++ (t ∷ []))
                rows (IsTally-put pos_counter seen t refl h),
          )
  ]

  -- The window of READ about a turn that `load_corpus` made: the turn's session is found, the turn
  -- stands in it at its `pos`, and the window is the last `k` turns of the session before the turn, the
  -- turn itself and the first `k` turns of the session after it.
  pub load_corpus-surrounds :
      (rows : List Row) (k : ℕ) (t : Turn)
      → In t (load_corpus rows).turns
      → (before after : List Turn) × (session_of t.session_id (load_corpus rows).turns
          ≡ before ++ (t ∷ after))
        × (length before ≡ t.pos)
        × (window_of (load_corpus rows) k t
            ≡ some (drop (length before - k) before ++ (t ∷ take k after)))
  unfolding load_corpus build session_of count_of lookup
  load_corpus-surrounds rows k t =
      window_of-surrounds (load_rows [] rows) k t (load_rows-IsCounted [] [] rows (λ s. refl))
