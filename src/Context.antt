-- ===== src/Context.antt =====
-- grace_mem/agent_filter/evidence/context.py and `Corpus.display_entry`: the seed sids inside an
-- answer context, and the contexts that go back out. `limit` is the room for nested calls of
-- `resolve`; `none` is an exception.
use grace_mem.Common.{
  ℕ, ◌-◌, ◌*◌, Bool, true, false, not, ◌&&◌, ◌||◌, Option, none, some, List, [], ◌∷◌, ◌++◌, map,
  if◌then◌else◌, ◌>>=◌, ltb, eqb, length, take, filter, Text, text_eq, ◌==◌, codes, dedup, strip,
  is_space, is_empty, starts_with, ends_with, join,
}
use grace_mem.Protocol.Sids.{find_sids, sid_tag, sid_tags}
use grace_mem.Corpus.{Turn, Corpus, resolve}

abbrev pub evidence_header : Text
evidence_header = codes "### Evidence Summary"

-- `context.find(header)`, as the text before the first occurrence and the text from it on.
unfoldable pub split_before : Text → Text → Option (Text × Text)
split_before header [] = none
split_before header (c ∷ s) = elim (starts_with (c ∷ s) header) [
  | true ↦ some ([], c ∷ s)
  | false ↦ elim (split_before header s) [
    | none ↦ none
    | some (before, from) ↦ some (c ∷ before, from)
  ]
]

unfoldable pub seed_sids_from_context : Text → List Text
unfolding split_before find_sids
seed_sids_from_context context = elim (split_before evidence_header context) [
  | none ↦ []
  | some (_, from) ↦ dedup (filter (λ s. not (is_empty s)) (map strip (find_sids 0 from)))
]

-- `s.split()`
unfoldable pub split_words : Text → List Text
split_words [] = [] ∷ []
split_words (c ∷ s) = elim (split_words s) [
  | [] ↦ []
  | w ∷ ws ↦ if is_space c then [] ∷ w ∷ ws else (c ∷ w) ∷ ws
]

-- `" ".join(text.split())`
unfoldable pub squeeze : Text → Text
unfolding split_words
squeeze s = join (codes " ") (filter (λ w. not (is_empty w)) (split_words s))

-- `text[:max_chars] + "…"` of a text that is too long.
unfoldable pub cut : ℕ → Text → Text
cut max_chars s = if ltb max_chars (length s) then take max_chars s ++ codes "…" else s

unfoldable pub display_turn : Turn → Text
unfolding squeeze
display_turn t =
    (if t.role == codes "user" then codes "User" else codes "Assistant")
    ++ (codes " : " ++ squeeze t.text)

-- `Corpus.display_entry`
unfoldable pub display_entry : ℕ → Corpus → Text → ℕ → Option (Option Text)
unfolding display_turn cut
display_entry limit c sid max_chars = do
  targets ← resolve limit c sid
  elim targets [
    | [] ↦ some none
    | t ∷ ts ↦ some (some (cut max_chars (join (codes " \n ") (map display_turn (t ∷ ts)))))
  ]

-- `s.rsplit(":", 1)[0]` of a sid that ends in a role.
unfoldable pub pair_base : Bool → Text → Text
pair_base include_pair s =
    if include_pair && (ends_with s (codes ":u") || ends_with s (codes ":a"))
    then take (length s - 2) s
    else s

-- `s.rstrip("\n")`
unfoldable pub rstrip_newlines : Text → Text
rstrip_newlines [] = []
rstrip_newlines (c ∷ s) = elim (rstrip_newlines s) [
  | [] ↦ if eqb c b'\n' then [] else c ∷ []
  | d ∷ r ↦ c ∷ d ∷ r
]

unfoldable pub dated : Text → Text
dated date = if is_empty date then [] else codes "[" ++ (date ++ codes "]")

unfoldable pub entry_text : Option Text → Text
entry_text none = codes "None"
entry_text (some s) = s

-- The loop of `rebuild_context`: the lines and the sids of the entries that resolve.
unfoldable pub rebuild_entries : ℕ → Corpus → List Text → Option (List Text × List Text)
unfolding display_entry dated entry_text
rebuild_entries limit c [] = some ([], [])
rebuild_entries limit c (key ∷ keys) = do
  turns ← resolve limit c key
  rest ← rebuild_entries limit c keys
  elim turns [
    | [] ↦ some rest
    | t ∷ ts ↦ do
      entry ← display_entry limit c key (4000 * length (t ∷ ts))
      let sids = map (λ (u : Turn). u.sid) (t ∷ ts)
      some (
        (codes "  • "
              ++ (dated t.date
                  ++ (sid_tags sids ++ (codes "[score=--] " ++ (entry_text entry ++ codes " ")))))
            ∷ rest.0,
        sids ++ rest.1,
      )
  ]

unfoldable pub head_lines : Bool → Text → List Text
unfolding split_before rstrip_newlines
head_lines include_prefix context =
    let before : Text = elim (split_before evidence_header context) [
      | none ↦ context
      | some (before, _) ↦ before
    ] in
    let head = if include_prefix then rstrip_newlines before else [] in
    if is_empty head then evidence_header ∷ [] else head ∷ evidence_header ∷ []

-- `rebuild_context`
unfoldable pub rebuild_context :
    ℕ → Text → Corpus → List Text → Bool → Bool → Option (Text × List Text)
unfolding rebuild_entries head_lines pair_base
rebuild_context limit context c final_sids include_pair include_prefix = do
  (lines, sids) ← rebuild_entries limit c (dedup (map (pair_base include_pair) final_sids))
  some (join (codes "\n") (head_lines include_prefix context ++ lines), sids)

-- The loop of `append_fetched_evidence`; a sid that resolves to nothing is an IndexError.
unfoldable pub fetched_lines : ℕ → Corpus → List Text → Option (List Text)
unfolding display_entry dated entry_text
fetched_lines limit c [] = some []
fetched_lines limit c (sid ∷ sids) = do
  turns ← resolve limit c sid
  elim turns [
    | [] ↦ none
    | t ∷ ts ↦ do
      entry ← display_entry limit c sid 4000
      rest ← fetched_lines limit c sids
      some (
          (codes "  • "
            ++ (dated t.date
                ++ (sid_tag sid ++ (codes "[score=--] " ++ (entry_text entry ++ codes " ")))))
          ∷ rest)
  ]

-- `append_fetched_evidence`
unfoldable pub append_fetched_evidence :
    ℕ → Text → Corpus → List Text → List Text → Option (Text × List Text)
unfolding fetched_lines rstrip_newlines
append_fetched_evidence limit context c added seed_sids = do
  lines ← fetched_lines limit c added
  some (
    rstrip_newlines context
        ++ join (codes "\n") ([] ∷ codes "### Additional Evidence (agent-retrieved)" ∷ lines),
    seed_sids ++ added,
  )
