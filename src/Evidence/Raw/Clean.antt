-- ===== src/Evidence/Raw/Clean.antt =====
-- What `_load` keeps: turns with stripped contents, under sessions with a name, in the order of their
-- indices.
use grace_mem.Common.{
  ℕ, ◌≡◌, ◌∙◌, refl, ap, inl, inr, ◌||◌, List, [], ◌∷◌, if_both, option_both, Bool-cases, Text,
  text_eq, ◌==◌, strip, lstrip, rstrip, close_with, is_space, is_empty, lookup, put, All,
  All-append, All-sort_by,
}
use grace_mem.Evidence.Raw.{
  CsvRow, Turn, Index, turns_of, earlier, sort_turns, add_row, add_rows, load,
}

rstrip_cons : (c : ℕ) (s : Text) → rstrip (c ∷ s) ≡ close_with c (rstrip s)
unfolding rstrip
rstrip_cons c s = refl

close_twice : (c : ℕ) (s : Text) → rstrip s ≡ s → rstrip (close_with c s) ≡ close_with c s
unfolding close_with rstrip
close_twice c [] h = elim (Bool-cases (is_space c)) [
  | inl space ↦ rw space refl
  | inr ink ↦ rw (ink, rstrip, close_with) (rw ink refl)
]
close_twice c (d ∷ s) h = ap (close_with c) h

rstrip_twice : (s : Text) → rstrip (rstrip s) ≡ rstrip s
unfolding rstrip
rstrip_twice [] = refl
rstrip_twice (c ∷ s) = close_twice c (rstrip s) (rstrip_twice s)

tail_of : (c : ℕ) (s t : Text) → close_with c t ≡ c ∷ s → t ≡ s
unfolding close_with
tail_of c s [] h = elim (Bool-cases (is_space c)) [
  | inl space ↦ (let e : [] ≡ c ∷ s = rw space at h in cc)
  | inr ink ↦ (let e : c ∷ [] ≡ c ∷ s = rw ink at h in cc)
]
tail_of c s (d ∷ r) h = cc

-- The tail of a text that ends with no space ends with none.
tail_rstrip : (c : ℕ) (s : Text) → rstrip (c ∷ s) ≡ c ∷ s → rstrip s ≡ s
unfolding rstrip
tail_rstrip c s h = tail_of c s (rstrip s) h

rstrip-lstrip : (s : Text) → rstrip s ≡ s → rstrip (lstrip s) ≡ lstrip s
unfolding lstrip
rstrip-lstrip [] h = h
rstrip-lstrip (c ∷ s) h = elim (Bool-cases (is_space c)) [
  | inl space ↦ rw space (rstrip-lstrip s (tail_rstrip c s h))
  | inr ink ↦ rw ink h
]

lstrip_twice : (s : Text) → lstrip (lstrip s) ≡ lstrip s
unfolding lstrip
lstrip_twice [] = refl
lstrip_twice (c ∷ s) = elim (Bool-cases (is_space c)) [
  | inl space ↦ rw space (lstrip_twice s)
  | inr ink ↦ rw (ink, lstrip) (rw ink refl)
]

-- Stripping a second time changes nothing.
pub strip_twice : (s : Text) → strip (strip s) ≡ strip s
unfolding strip
strip_twice s = ap lstrip (rstrip-lstrip (rstrip s) (rstrip_twice s)) ∙ lstrip_twice (rstrip s)

abbrev pub IsClean : Turn → Type 0
IsClean t = strip t.content ≡ t.content

-- The turns of one session, as `_load` leaves them.
abbrev pub AllClean : Index → Type 0
AllClean index = All (λ kv. All IsClean kv.1) index

turns_of-All : (sid : Text) (index : Index) → AllClean index → All IsClean (turns_of sid index)
unfolding turns_of lookup
turns_of-All sid [] h = tt
turns_of-All sid ((k, turns) ∷ rest) h = elim (Bool-cases (k == sid)) [
  | inl same ↦ rw (turns_of, lookup, same) h.0
  | inr other ↦ rw (turns_of, lookup, other) (turns_of-All sid rest h.1)
]

put-AllClean :
    (sid : Text) (turns : List Turn) (index : Index)
    → All IsClean turns
    → AllClean index
    → AllClean (put sid turns index)
unfolding put
put-AllClean sid turns [] c h = (c, tt)
put-AllClean sid turns ((k, old) ∷ rest) c h =
    if_both AllClean (k == sid) _ _ (c, h.1) (h.0, put-AllClean sid turns rest c h.1)

sort_turns-AllClean : (index : Index) → AllClean index → AllClean (sort_turns index)
unfolding sort_turns
sort_turns-AllClean [] h = tt
sort_turns-AllClean ((k, turns) ∷ rest) h =
    (All-sort_by earlier IsClean turns h.0, sort_turns-AllClean rest h.1)

module _ (lower : Text → Text) where
  add_row-AllClean :
      (r : CsvRow) (index : Index) → AllClean index → AllClean (add_row lower r index)
  unfolding add_row
  add_row-AllClean r index h = option_both AllClean r.turn_index _ _ h (λ i _.
      if_both AllClean (is_empty (strip r.session_id) || is_empty (lower (strip r.role))) _ _ h (
        put-AllClean (strip r.session_id) _ index
          (All-append IsClean (turns_of (strip r.session_id) index) _
            (turns_of-All (strip r.session_id) index h) (strip_twice r.content, tt))
          h))

  add_rows-AllClean :
      (rows : List CsvRow) (index : Index) → AllClean index → AllClean (add_rows lower rows index)
  unfolding add_rows
  add_rows-AllClean [] index h = h
  add_rows-AllClean (r ∷ rs) index h =
      add_rows-AllClean rs (add_row lower r index) (add_row-AllClean r index h)

  pub load-AllClean : (rows : List CsvRow) → AllClean (load lower rows)
  unfolding load
  load-AllClean rows = sort_turns-AllClean (add_rows lower rows []) (add_rows-AllClean rows [] tt)
