-- ===== src/Protocol/Sids.antt =====
-- The wire format of a sid, `\[sid=([^\]\s]+)\]` of grace_mem/agent_filter/evidence/context.py, and
-- `extract_final_sids` of grace_mem/agent_filter/runtime/protocol.py.
use grace_mem.Common.{
  ℕ, zero, suc, ◌+◌, ◌≡◌, ◌≢◌, refl, sym, ap, ◌∙◌, Bool, true, false, not, ◌&&◌, ◌||◌, Option, none,
  some, List, [], ◌∷◌, ◌++◌, append_assoc, eqb, arith, if◌then◌else◌, length, length-append, filter,
  drop, map, All, Text, codes, colon, is_space, is_empty, starts_with, has_char,
}

-- `[^\]\s]`
unfoldable pub is_sid_char : ℕ → Bool
is_sid_char c = not (eqb c b']') && not (is_space c)

-- The run of sid characters that opens a text, and what follows it.
unfoldable pub sid_run : Text → Text × Text
sid_run [] = ([], [])
sid_run (c ∷ s) =
    let (run, rest) = sid_run s in if is_sid_char c then (c ∷ run, rest) else ([], c ∷ s)

abbrev pub sid_open : Text
sid_open = codes "[sid="

-- A match of SID_RE that begins here: its group 1.
unfoldable pub sid_at : Text → Option Text
unfolding sid_run
sid_at s =
    let (run, rest) = sid_run (drop 5 s) in
    if starts_with s sid_open && (not (is_empty run) && starts_with rest (b']' ∷ []))
    then some run
    else none

-- `SID_RE.findall`; the number counts the characters that the last match still covers.
unfoldable pub find_sids : ℕ → Text → List Text
find_sids k [] = []
find_sids (suc k) (c ∷ s) = find_sids k s
find_sids zero (c ∷ s) = elim (sid_at (c ∷ s)) [
  | none ↦ find_sids zero s
  | some sid ↦ sid ∷ find_sids (length sid + 5) s
]

-- `SID_RE.sub("", s)`
unfoldable pub remove_sids : ℕ → Text → Text
remove_sids k [] = []
remove_sids (suc k) (c ∷ s) = remove_sids k s
remove_sids zero (c ∷ s) = elim (sid_at (c ∷ s)) [
  | none ↦ c ∷ remove_sids zero s
  | some sid ↦ remove_sids (length sid + 5) s
]

-- `re.split(r"[,\s]+", s)`. A run of separators gives empty pieces here, which both callers drop.
unfoldable pub split_fields : Text → List Text
split_fields [] = [] ∷ []
split_fields (c ∷ s) = elim (split_fields s) [
  | [] ↦ []
  | w ∷ ws ↦ if eqb c b',' || is_space c then [] ∷ w ∷ ws else (c ∷ w) ∷ ws
]

unfoldable pub lstrip_by : (ℕ → Bool) → Text → Text
lstrip_by p [] = []
lstrip_by p (c ∷ s) = let rest = lstrip_by p s in if p c then rest else c ∷ s

unfoldable pub rstrip_by : (ℕ → Bool) → Text → Text
rstrip_by p [] = []
rstrip_by p (c ∷ s) = elim (rstrip_by p s) [ [] ↦ if p c then [] else c ∷ [] | d ∷ r ↦ c ∷ d ∷ r ]

-- The characters of "*•-,.".
unfoldable pub is_bullet : ℕ → Bool
is_bullet c = eqb c b'*' || eqb c 8226 || eqb c b'-' || eqb c b',' || eqb c b'.'

-- `is_digit` is the class `\d` of the regular expressions.
module _ (is_digit : ℕ → Bool) where
  -- `re.search(r":\d+", s)`
  unfoldable pub has_colon_digit : Text → Bool
  has_colon_digit [] = false
  has_colon_digit (c ∷ []) = false
  has_colon_digit (c ∷ d ∷ s) = (eqb c colon && is_digit d) || has_colon_digit (d ∷ s)

  unfoldable pub extract_final_sids : Text → Text → List Text
  unfolding find_sids remove_sids split_fields has_colon_digit rstrip_by lstrip_by is_bullet
  extract_final_sids arg full_reply =
      let sids =
        find_sids 0 arg
        ++ filter (λ s. not (is_empty s) && has_char colon s) (split_fields (remove_sids 0 arg)) in
      elim sids [
        | s ∷ rest ↦ s ∷ rest
        | [] ↦
            if is_empty full_reply
            then []
            else find_sids 0 full_reply
              ++ map (λ s. lstrip_by is_bullet (rstrip_by is_bullet s))
                  (filter (λ s. has_char colon s && has_colon_digit s)
                    (split_fields (remove_sids 0 full_reply)))
      ]

-- A text that the wire format can carry.
abbrev pub IsSid : Text → Type 0
IsSid s = (s ≢ []) × All (λ c. is_sid_char c ≡ true) s

-- How a sid is written into a context.
unfoldable pub sid_tag : Text → Text
sid_tag s = sid_open ++ (s ++ (b']' ∷ []))

unfoldable pub sid_tags : List Text → Text
unfolding sid_tag
sid_tags [] = []
sid_tags (s ∷ sids) = sid_tag s ++ sid_tags sids

sid_run-close :
    (s rest : Text)
    → All (λ c. is_sid_char c ≡ true) s
    → sid_run (s ++ (b']' ∷ rest)) ≡ (s, b']' ∷ rest)
unfolding sid_run is_sid_char
sid_run-close [] rest h = refl
sid_run-close (c ∷ s) rest h = rw (sid_run-close s rest h.1, h.0)

sid_at-tag : (s rest : Text) → IsSid s → sid_at (sid_open ++ (s ++ (b']' ∷ rest))) ≡ some s
unfolding sid_at starts_with is_empty
sid_at-tag [] rest h = absurd (h.0 refl)
sid_at-tag (c ∷ s) rest h = rw (sid_run-close (c ∷ s) rest h.1)

find_sids-covered :
    (covered rest : Text) (k : ℕ)
    → k ≡ length covered
    → find_sids k (covered ++ rest) ≡ find_sids 0 rest
unfolding find_sids
find_sids-covered [] rest k e = rw e
find_sids-covered (c ∷ xs) rest zero e = absurd (omega arith)
find_sids-covered (c ∷ xs) rest (suc k) e = find_sids-covered xs rest k (omega arith)

close_assoc : (s rest : Text) → (s ++ (b']' ∷ [])) ++ rest ≡ s ++ (b']' ∷ rest)
close_assoc s rest = append_assoc s (b']' ∷ []) rest

tail_covered :
    (s rest : Text)
    → find_sids (length s + 5) (codes "sid=" ++ (s ++ (b']' ∷ rest))) ≡ find_sids 0 rest
tail_covered s rest =
    ap (λ x. find_sids (length s + 5) (codes "sid=" ++ x)) (sym (close_assoc s rest))
    ∙ find_sids-covered (codes "sid=" ++ (s ++ (b']' ∷ []))) rest (length s + 5)
        (omega (arith, length-append s (b']' ∷ [])))

find_sids-open :
    (s rest : Text)
    → IsSid s
    → find_sids 0 (sid_open ++ (s ++ (b']' ∷ rest))) ≡ s ∷ find_sids 0 rest
unfolding find_sids
find_sids-open s rest h = rw (sid_at-tag s rest h, find_sids) (ap (◌∷◌ s) (tail_covered s rest))

find_sids-tag : (s rest : Text) → IsSid s → find_sids 0 (sid_tag s ++ rest) ≡ s ∷ find_sids 0 rest
unfolding sid_tag
find_sids-tag s rest h =
    ap (λ x. find_sids 0 (sid_open ++ x)) (close_assoc s rest) ∙ find_sids-open s rest h

-- What is written as tags is read back, in order.
pub find_sids-sid_tags : (sids : List Text) → All IsSid sids → find_sids 0 (sid_tags sids) ≡ sids
unfolding sid_tags
find_sids-sid_tags [] h = unfold find_sids in refl
find_sids-sid_tags (s ∷ sids) h =
    find_sids-tag s (sid_tags sids) h.0 ∙ ap (◌∷◌ s) (find_sids-sid_tags sids h.1)
