-- ===== src/Corpus/Spin.antt =====
-- A session id that ends in a colon and itself: the fallback of `resolve` then never ends.
use grace_mem.Common.{
  ℕ, zero, suc, ◌≡◌, refl, ap, ◌∙◌, close_with, false, Option, none, some, List, [], ◌∷◌, ◌++◌,
  if◌then◌else◌, Text, text_eq, ◌==◌, codes, colon, strip, lookup, list_beq, starts_with, ends_with,
  rstrip, partition_colon, contains, dedup_into, put, is_space, is_empty,
}
use grace_mem.Corpus.{
  Turn, build, pair_turns, chunk_turns, session_matches, follow, fuzzy, resolve_step, resolve,
}

-- One turn of the session "a:a".
abbrev pub lone : List Turn
lone =
    record {
      sid = codes "a:a:1:u";
      session_id = codes "a:a";
      turn_index = 0;
      pos = 0;
      role = codes "user";
      date = [];
      text = codes "hello";
    }
    ∷ []

-- The sids "a:9", "a:a:9", "a:a:a:9", and so on.
unfoldable pub echoes : ℕ → Text
echoes zero = codes "a:9"
echoes (suc n) = codes "a:" ++ echoes n

program : Unit {0}
unfolding build pair_turns chunk_turns session_matches follow fuzzy resolve_step resolve echoes
    strip rstrip is_space lookup put list_beq starts_with ends_with partition_colon contains
    dedup_into is_empty
program = tt

no_direct : (n : ℕ) → lookup (echoes n) (build lone).by_sid ≡ none
unfolding program
no_direct zero = refl
no_direct (suc zero) = refl
no_direct (suc (suc zero)) = refl
no_direct (suc (suc (suc n))) = refl

no_pair : (n : ℕ) → pair_turns (build lone) (echoes n) ≡ []
unfolding program
no_pair zero = refl
no_pair (suc zero) = refl
no_pair (suc (suc zero)) = refl
no_pair (suc (suc (suc n))) = refl

no_chunk : (n : ℕ) → chunk_turns (build lone) (echoes n) ≡ []
unfolding program
no_chunk zero = refl
no_chunk (suc zero) = refl
no_chunk (suc (suc zero)) = refl
no_chunk (suc (suc (suc n))) = refl

echo_differs : (n : ℕ) → (echoes (suc n) == echoes n) ≡ false
unfolding program
echo_differs zero = refl
echo_differs (suc n) = echo_differs n

echo_rstrip : (n : ℕ) → rstrip (echoes n) ≡ echoes n
unfolding program
echo_rstrip zero = refl
echo_rstrip (suc zero) = refl
echo_rstrip (suc (suc n)) = ap (λ x. close_with b'a' (close_with colon x)) (echo_rstrip (suc n))

echo_fuzzy :
    (again : Text → Option (List Turn)) (n : ℕ)
    → fuzzy again (build lone) (echoes n) ≡ again (echoes (suc n))
unfolding program
echo_fuzzy again zero = refl
echo_fuzzy again (suc zero) = refl
echo_fuzzy again (suc (suc n)) =
    ap (λ b. if b then some [] else again (echoes (suc (suc (suc n))))) (echo_differs (suc (suc n)))

echo_strip : (n : ℕ) → strip (echoes n) ≡ echoes n
unfolding program
echo_strip zero = refl
echo_strip (suc n) = rw (echo_rstrip (suc n))

echo_step :
    (again : Text → Option (List Turn)) (n : ℕ)
    → resolve_step again (build lone) (echoes n) ≡ again (echoes (suc n))
unfolding resolve_step
echo_step again n = rw (no_direct n, no_pair n, no_chunk n, resolve_step) (echo_fuzzy again n)

-- Over a corpus whose one turn belongs to a session named a:a, `resolve` of each of the sids a:9,
-- a:a:9, a:a:a:9 and so on runs out of the room that the stack has, however much it is: the guard on a
-- unique match that differs from the sid does not end the recursion.
pub resolve_spins : (limit n : ℕ) → resolve limit (build lone) (echoes n) ≡ none
unfolding resolve
resolve_spins zero n = refl
resolve_spins (suc limit) n =
    rw (echo_strip n) (echo_step (resolve limit (build lone)) n ∙ resolve_spins limit (suc n))
