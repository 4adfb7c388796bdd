-- ===== src/Narrowing.antt =====
-- grace_mem/retrieval/evidence/narrowing.py: the lines of the evidence block that share words with the question.
-- `lower` stands for `str.lower` on a text; `keep_top_n` and `min_overlap` are not negative.
use grace_mem.Common.{
  ℕ, zero, suc, ◌+◌, ◌≤◌, Bool, true, false, not, ◌&&◌, ◌||◌, List, [], ◌∷◌, ◌++◌, map,
  if◌then◌else◌, leb, eqb, length, take, filter, is_nil, Text, text_eq, codes, contains, dedup,
  lstrip, strip, is_space, is_empty, has_substring, join, sort_by,
}
pub mod Best
pub mod Kept

unfoldable pub stopwords : List Text
stopwords = map codes (
    "the" ∷ "a" ∷ "an" ∷ "of" ∷ "to" ∷ "in" ∷ "on" ∷ "at" ∷ "for" ∷ "and" ∷ "or" ∷ "is" ∷ "was"
    ∷ "were" ∷ "are" ∷ "be" ∷ "did" ∷ "do" ∷ "does" ∷ "what" ∷ "when" ∷ "where" ∷ "who" ∷ "why"
    ∷ "how" ∷ "which" ∷ "that" ∷ "this" ∷ "with" ∷ "as" ∷ "by" ∷ "it" ∷ "she" ∷ "he" ∷ "they"
    ∷ "her" ∷ "his" ∷ "their" ∷ "you" ∷ "we" ∷ "about" ∷ "from" ∷ "has" ∷ "have" ∷ "had" ∷ "not"
    ∷ "would" ∷ "could" ∷ "will" ∷ "been" ∷ "than" ∷ "into" ∷ "out" ∷ "up" ∷ "down" ∷ "over"
    ∷ "after" ∷ "before" ∷ [])

-- `[a-z0-9']`
unfoldable pub is_term_char : ℕ → Bool
is_term_char c = (leb 97 c && leb c 122) || (leb 48 c && leb c 57) || eqb c 39

-- The texts between the characters that the test refuses.
unfoldable pub runs : (ℕ → Bool) → Text → List Text
runs p [] = [] ∷ []
runs p (c ∷ s) = elim (runs p s) [ [] ↦ [] | w ∷ ws ↦ if p c then (c ∷ w) ∷ ws else [] ∷ w ∷ ws ]

-- `#{1,6}\s` at the start of a line whose leading spaces are gone, after `n` signs.
unfoldable pub hashes_then_space : ℕ → Text → Bool
hashes_then_space n [] = false
hashes_then_space n (c ∷ s) =
    if eqb c 35 then hashes_then_space (n + 1) s else leb 1 n && leb n 6 && is_space c

unfoldable pub is_header : Text → Bool
unfolding hashes_then_space
is_header line = hashes_then_space 0 (lstrip line)

pub record Scored : Type 0 where
  pub overlap : ℕ
  pub idx : ℕ
  pub snippet : Text

-- `evidence_block.split("\n")` without the blank lines.
unfoldable pub filled_lines : Text → List Text
unfolding runs
filled_lines block = filter (λ l. not (is_empty (strip l))) (runs (λ c. not (eqb c 10)) block)

unfoldable pub headers : Text → List Text
unfolding filled_lines is_header
headers block = filter is_header (filled_lines block)

unfoldable pub snippets : Text → List Text
unfolding filled_lines is_header
snippets block = filter (λ l. not (is_header l)) (filled_lines block)

-- `sort(key=overlap, reverse=True)` and `sort(key=orig_index)`.
unfoldable pub by_overlap : Scored → Scored → Bool
by_overlap a b = leb b.overlap a.overlap

unfoldable pub by_index : Scored → Scored → Bool
by_index a b = leb a.idx b.idx

-- The floor on the overlap, given up where nothing reaches it.
unfoldable pub above_floor : ℕ → List Scored → List Scored
above_floor min_overlap scored =
    let kept = filter (λ s. leb min_overlap s.overlap) scored in
    if is_nil kept then scored else kept

unfoldable pub chosen : ℕ → ℕ → List Scored → List Scored
unfolding above_floor by_overlap by_index
chosen keep_top_n min_overlap scored =
    sort_by by_index (take keep_top_n (sort_by by_overlap (above_floor min_overlap scored)))

module _ (lower : Text → Text) where
  unfoldable pub content_terms : Text → List Text
  unfolding runs is_term_char stopwords
  content_terms s =
      filter (λ t. leb 3 (length t) && not (contains stopwords t)) (runs is_term_char (lower s))

  -- `qterms`, the set of the question's and the names' terms.
  unfoldable pub query_terms : Text → List Text → List Text
  unfolding content_terms
  query_terms question [] = dedup (content_terms question)
  query_terms question (name ∷ names) = dedup (query_terms question names ++ content_terms name)

  unfoldable pub score_from : List Text → ℕ → List Text → List Scored
  score_from terms i [] = []
  score_from terms i (snip ∷ snips) =
      record {
        overlap = length (filter (λ t. has_substring (lower snip) t) terms);
        idx = i;
        snippet = snip;
      }
      ∷ score_from terms (i + 1) snips

  unfoldable pub narrow : Bool → ℕ → ℕ → Text → List Text → Text → Text
  unfolding headers snippets query_terms score_from chosen
  narrow enabled keep_top_n min_overlap question names block =
      let snips = snippets block in
      if is_empty block || not enabled
      then block
      else (if leb (length snips) keep_top_n && eqb min_overlap 0
          then block
          else join (codes "\n") (
              headers block
              ++ map (λ s. s.snippet)
                  (chosen keep_top_n min_overlap
                    (score_from (query_terms question names) 0 snips))))
