-- ===== src/Corpus.antt =====
-- grace_mem/agent_filter/retrieval/corpus.py: the turns of one question, the indexes over them, the
-- resolution of a sid and the windows that READ shows.
pub mod Halts
pub mod Index
pub mod Load
pub mod Normalize
pub mod Resolve
pub mod Spin
pub mod Window
use grace_mem.Common.{
  ℕ, zero, suc, ◌+◌, ◌-◌, ◌≡◌, Bool, true, false, not, ◌&&◌, ◌||◌, Option, none, some, List, [],
  ◌∷◌, ◌++◌, min, max, ltb, eqb, if◌then◌else◌, ◌>>=◌, length, take, drop, filter, any, all, foldl,
  Eq, nat_eq, Text, text_eq, ◌==◌, contains, dedup, Dict, lookup, put, values, keys, codes, colon,
  strip, starts_with, ends_with, partition_colon, is_empty, map,
}

pub record Turn : Type 0 where
  pub sid : Text
  pub session_id : Text
  pub turn_index : ℕ
  pub pos : ℕ
  pub role : Text
  pub date : Text
  pub text : Text

pub record Corpus : Type 0 where
  pub turns : List Turn
  pub by_sid : Dict Text Turn
  pub sessions : Dict Text (List Turn)

-- `{t.sid: t for t in turns}`: of two turns with one sid the later stays.
unfoldable pub index_sids : List Turn → Dict Text Turn
index_sids turns = foldl (λ d t. put t.sid t d) [] turns

-- `self._sessions.setdefault(t.session_id, []).append(t)`
unfoldable pub append_session : Dict Text (List Turn) → Turn → Dict Text (List Turn)
append_session d t = elim (lookup t.session_id d) [
  | none ↦ put t.session_id (t ∷ []) d
  | some ts ↦ put t.session_id (ts ++ (t ∷ [])) d
]

unfoldable pub index_sessions : List Turn → Dict Text (List Turn)
unfolding append_session
index_sessions turns = foldl append_session [] turns

-- `Corpus.__init__`
unfoldable pub build : List Turn → Corpus
unfolding index_sids index_sessions
build turns = record { turns = turns; by_sid = index_sids turns; sessions = index_sessions turns }

abbrev pub to_list {ℓ} : {A : Type ℓ} → Option A → List A
to_list none = []
to_list (some a) = a ∷ []

-- `[t for suf in (":u", ":a") if (t := self.by_sid.get(sid + suf))]`
unfoldable pub pair_turns : Corpus → Text → List Turn
pair_turns c sid =
    to_list (lookup (sid ++ codes ":u") c.by_sid) ++ to_list (lookup (sid ++ codes ":a") c.by_sid)

-- `[t for t in self.turns if t.sid.startswith(sid + "t")]`
unfoldable pub chunk_turns : Corpus → Text → List Turn
chunk_turns c sid = filter (λ t. starts_with t.sid (sid ++ codes "t")) c.turns

-- The sessions that the fuzzy fallback accepts for the session part `sess` of a sid, as a set.
unfoldable pub session_matches : Corpus → Text → List Text
session_matches c sess = dedup (
    map (λ t. t.session_id)
      (filter
        (λ t.
          not (t.session_id == sess)
          && (ends_with t.session_id (codes "_" ++ sess) || ends_with t.session_id sess))
        c.turns))

-- The recursion of the fallback, `again`, is made on a unique match that differs from the sid.
unfoldable pub follow : (Text → Option (List Turn)) → Text → Text → List Text → Option (List Turn)
follow again sid rest (m ∷ []) =
    if (m ++ (colon ∷ rest)) == sid then some [] else again (m ++ (colon ∷ rest))
follow again sid rest _ = some []

unfoldable pub fuzzy : (Text → Option (List Turn)) → Corpus → Text → Option (List Turn)
unfolding follow session_matches
fuzzy again c sid =
    let (sess, rest) = partition_colon sid in
    if is_empty sess || is_empty rest
    then some []
    else follow again sid rest (session_matches c sess)

-- The body of `resolve` over a stripped sid: the three direct readings, then the fallback.
unfoldable pub resolve_step : (Text → Option (List Turn)) → Corpus → Text → Option (List Turn)
unfolding pair_turns chunk_turns fuzzy
resolve_step again c sid = elim (lookup sid c.by_sid) [
  | some t ↦ some (t ∷ [])
  | none ↦ elim (pair_turns c sid) [
    | t ∷ ts ↦ some (t ∷ ts)
    | [] ↦ elim (chunk_turns c sid) [ t ∷ ts ↦ some (t ∷ ts) | [] ↦ fuzzy again c sid ]
  ]
]

-- `Corpus.resolve`. The first argument is how many nested calls Python's stack has room for; `none`
-- is the RecursionError of a call without room.
unfoldable pub resolve : ℕ → Corpus → Text → Option (List Turn)
unfolding resolve_step
resolve zero c sid = none
resolve (suc limit) c sid = resolve_step (resolve limit c) c (strip sid)

-- The loop of `Corpus.normalize_sids`; a RecursionError of `resolve` goes through.
unfoldable pub resolve_all : ℕ → Corpus → List Text → Option (List Turn)
resolve_all limit c [] = some []
resolve_all limit c (s ∷ sids) = do
  ts ← resolve limit c s
  rest ← resolve_all limit c sids
  some (ts ++ rest)

unfoldable pub normalize_sids : ℕ → Corpus → List Text → Option (List Text)
unfolding resolve_all
normalize_sids limit c sids = do ts ← resolve_all limit c sids; some (dedup (map (λ t. t.sid) ts))

-- The turns that `read_window` renders: those within `k` of the target in its session's list.
-- `none` is the missing key of `self._sessions[t0.session_id]`.
unfoldable pub window_of : Corpus → ℕ → Turn → Option (List Turn)
window_of c k t0 = elim (lookup t0.session_id c.sessions) [
  | none ↦ none
  | some sess ↦
      let lo = t0.pos - k in
      let hi = min (length sess) (t0.pos + k + 1) in some (take (hi - lo) (drop lo sess))
]
