-- ===== src/Adjudicate.antt =====
-- grace_mem/agent_filter/evidence/adjudication.py: the second opinion on the seeds that FINAL
-- discarded. The model is `judge`, which is shown the candidate lines; `verdict` finds the first
-- KEEP (`true`) or DROP of a line.
pub mod Fair
use grace_mem.Common.{
  ℕ, Bool, true, false, not, ◌&&◌, ◌||◌, Option, none, some, List, [], ◌∷◌, ◌++◌, if◌then◌else◌,
  ◌>>=◌, leb, eqb, Text, text_eq, contains, codes, is_empty, has_substring, filter,
}
use grace_mem.Corpus.{Corpus, resolve}
use grace_mem.Context.{display_entry, entry_text}
use grace_mem.Protocol.Sids.{sid_tag}

-- The boundaries of `str.splitlines`. "\r\n" gives an empty line more than Python, which carries no
-- verdict.
unfoldable pub is_line_end : ℕ → Bool
is_line_end c =
    (leb 10 c && leb c 13) || (leb 28 c && leb c 30) || eqb c 133 || eqb c 8232 || eqb c 8233

unfoldable pub split_lines : Text → List Text
unfolding is_line_end
split_lines [] = [] ∷ []
split_lines (c ∷ s) = elim (split_lines s) [
  | [] ↦ []
  | w ∷ ws ↦ if is_line_end c then [] ∷ w ∷ ws else (c ∷ w) ∷ ws
]

-- The first pending sid that is not judged yet and stands in the line.
unfoldable pub named_in : List Text → List Text → Text → Option Text
named_in [] judged line = none
named_in (s ∷ pending) judged line =
    if contains judged s || not (has_substring line s) then named_in pending judged line else some s

pub record Verdicts : Type 0 where
  pub kept : List Text
  pub dropped : List Text
  pub judged : List Text

unfoldable pub record_verdict : Verdicts → Text → Bool → Verdicts
record_verdict v s true = record v { kept = v.kept ++ (s ∷ []); judged = v.judged ++ (s ∷ []) }
record_verdict v s false = record v {
  dropped = v.dropped ++ (s ∷ []);
  judged = v.judged ++ (s ∷ []);
}

abbrev pub no_verdicts : Verdicts
no_verdicts = record { kept = []; dropped = []; judged = [] }

module _ (verdict : Text → Option Bool) where
  -- One line of the reply.
  unfoldable pub judge_line : List Text → Verdicts → Text → Verdicts
  unfolding named_in record_verdict
  judge_line pending v line = elim (verdict line) [
    | none ↦ v
    | some keep ↦ elim (named_in pending v.judged line) [
      | none ↦ v
      | some s ↦ record_verdict v s keep
    ]
  ]

  unfoldable pub judge_lines : List Text → Verdicts → List Text → Verdicts
  unfolding judge_line
  judge_lines pending v [] = v
  judge_lines pending v (line ∷ lines) = judge_lines pending (judge_line pending v line) lines

  -- The candidate lines of the prompt: a seed that does not resolve is left out.
  unfoldable pub candidate_lines : ℕ → Corpus → List Text → Option (List Text)
  candidate_lines limit c [] = some []
  candidate_lines limit c (s ∷ pending) = do
    turns ← resolve limit c s
    rest ← candidate_lines limit c pending
    elim turns [
      | [] ↦ some rest
      | t ∷ ts ↦ do
        entry ← display_entry limit c s 700
        some (
            (sid_tag s
              ++ (codes " "
                  ++ ((if is_empty t.date then [] else codes "[" ++ (t.date ++ codes "] "))
                      ++ entry_text entry)))
            ∷ rest)
    ]

  -- `adjudicate_candidates`: the sids to keep.
  unfoldable pub adjudicate_candidates :
      (List Text → Option Text) → ℕ → Corpus → List Text → Option (List Text)
  unfolding judge_lines candidate_lines split_lines
  adjudicate_candidates judge limit c pending = do
    lines ← candidate_lines limit c pending
    reply ← judge lines
    some (judge_lines pending no_verdicts (split_lines reply)).kept

-- `verdicts["unjudged"]`
unfoldable pub unjudged : List Text → Verdicts → List Text
unjudged pending v = filter (λ s. not (contains v.judged s)) pending
