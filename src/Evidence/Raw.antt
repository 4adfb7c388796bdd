-- ===== src/Evidence/Raw.antt =====
-- grace_mem/retrieval/evidence/source.py: RawContextLookup. The CSV files are read in one list of rows,
-- where the file system and the csv module, and the rows lost to a file that fails, are left out;
-- `lower` stands for `str.lower`, and a turn index that `int` refuses is none. Negative turn indices and
-- the lock are left out.
use grace_mem.Common.{
  ℕ, ◌+◌, ◌≤◌, Bool, true, false, not, ◌&&◌, ◌||◌, Option, none, some, List, [], ◌∷◌, ◌++◌,
  if◌then◌else◌, ltb, leb, eqb, Text, text_eq, ◌==◌, codes, strip, is_empty, Dict, lookup, put,
  sort_by, map,
}
pub mod Clean
pub mod Parts

-- A row of a file, where a missing cell is the empty text and a missing turn index is some 0.
pub record CsvRow : Type 0 where
  pub session_id : Text
  pub role : Text
  pub content : Text
  pub turn_index : Option ℕ

pub record Turn : Type 0 where
  pub turn_index : ℕ
  pub role : Text
  pub content : Text

abbrev pub Index : Type 0
Index = Dict Text (List Turn)

-- `index[sid]`, an empty list where it was missing.
unfoldable pub turns_of : Text → Index → List Turn
turns_of sid index = elim (lookup sid index) [ none ↦ [] | some turns ↦ turns ]

unfoldable pub earlier : Turn → Turn → Bool
earlier a b = leb a.turn_index b.turn_index

unfoldable pub sort_turns : Index → Index
unfolding earlier
sort_turns [] = []
sort_turns ((sid, turns) ∷ rest) = (sid, sort_by earlier turns) ∷ sort_turns rest

-- `{r["turn_index"]: r for r in turns}.get(i)`: the last of equal indices stays.
unfoldable pub row_at : ℕ → List Turn → Option Turn
row_at i [] = none
row_at i (t ∷ ts) = elim (row_at i ts) [
  | some last ↦ some last
  | none ↦ if eqb t.turn_index i then some t else none
]

-- The last user turn before `i`, the first one of the reversed list.
unfoldable pub user_before : ℕ → List Turn → Option Turn
user_before i [] = none
user_before i (t ∷ ts) = elim (user_before i ts) [
  | some last ↦ some last
  | none ↦ if ltb t.turn_index i && t.role == codes "user" then some t else none
]

-- `text.strip() or None`
unfoldable pub stripped : Text → Option Text
stripped s = if is_empty (strip s) then none else some (strip s)

abbrev pub is_assistant : Turn → Bool
is_assistant t = t.role == codes "assistant"

abbrev pub both_turns : Text → Text → Text
both_turns user assistant =
    codes "User: " ++ (strip user ++ (10 ∷ (codes "Assistant: " ++ strip assistant)))

-- The branch of `get` for an assistant's turn.
unfoldable pub pair_text : Text → Text → Option Text
unfolding stripped
pair_text user assistant =
    if is_empty user then stripped assistant else some (both_turns user assistant)

abbrev pub content_or_empty : Option Turn → Text
content_or_empty o = elim o [ none ↦ [] | some t ↦ t.content ]

-- `turns = self._index.get(sid)`, where an empty list is no turns either, and the row at `i`.
unfoldable pub found : Index → Text → ℕ → Option (List Turn × Turn)
unfolding row_at
found index sid i = elim (lookup sid index) [
  | none ↦ none
  | some turns ↦ elim (row_at i turns) [ none ↦ none | some row ↦ some (turns, row) ]
]

unfoldable pub get : Index → Text → ℕ → Option Text
unfolding found pair_text stripped user_before
get index sid i = elim (found index sid i) [
  | none ↦ none
  | some (turns, row) ↦
      if is_assistant row
      then pair_text (content_or_empty (user_before i turns)) row.content
      else stripped row.content
]

unfoldable pub get_user_text : Index → Text → ℕ → Option Text
unfolding found stripped user_before
get_user_text index sid i = elim (found index sid i) [
  | none ↦ none
  | some (turns, row) ↦
      if is_assistant row
      then elim (user_before i turns) [ none ↦ none | some t ↦ stripped t.content ]
      else stripped row.content
]

unfoldable pub get_assistant_text : Index → Text → ℕ → Option Text
unfolding found stripped
get_assistant_text index sid i = elim (found index sid i) [
  | none ↦ none
  | some (turns, row) ↦ if is_assistant row then stripped row.content else none
]

module _ (lower : Text → Text) where
  -- The body of the loop over the rows.
  unfoldable pub add_row : CsvRow → Index → Index
  unfolding turns_of
  add_row r index =
      let sid = strip r.session_id in
      let role = lower (strip r.role) in
      elim r.turn_index [
        | none ↦ index
        | some i ↦
            if is_empty sid || is_empty role
            then index
            else put sid
                (turns_of sid index
                  ++ (record { turn_index = i; role = role; content = strip r.content } ∷ []))
                index
      ]

  unfoldable pub add_rows : List CsvRow → Index → Index
  unfolding add_row
  add_rows [] index = index
  add_rows (r ∷ rs) index = add_rows rs (add_row r index)

  -- `_load`
  unfoldable pub load : List CsvRow → Index
  unfolding add_rows sort_turns
  load rows = sort_turns (add_rows rows [])
