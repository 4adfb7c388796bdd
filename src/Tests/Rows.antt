-- ===== src/Tests/Rows.antt =====
-- Runs of `load_corpus` and of the windows that READ shows, grace_mem/agent_filter/retrieval/corpus.py.
use grace_mem.Common.{
  ℕ, ◌-◌, ◌++◌, ◌≡◌, refl, inl, inr, Option, none, some, List, [], ◌∷◌, In, Text, codes, length,
  take, drop, strip, lstrip, rstrip, close_with, is_space, is_empty, lookup, put, list_beq,
}
use grace_mem.Corpus.{Turn, build, window_of}
use grace_mem.Corpus.Load.{Row, load_corpus, load_corpus-surrounds}
use grace_mem.Corpus.Window.{session_of}

abbrev keep_case : Text → Text
keep_case s = s

abbrev row : Text → Option Text → ℕ → Text → Row
row session content turn_index role = record {
  content = content;
  session_id = session;
  turn_index = turn_index;
  role = role;
  dialogue_datetime = [];
}

-- Two sessions between each other, and a row without content.
abbrev rows : List Row
rows =
    row (codes " a") (some (codes "hello")) 0 (codes "user")
    ∷ row (codes "b") (some (codes "bonjour")) 0 (codes "user")
    ∷ row (codes "a") none 1 (codes "assistant")
    ∷ row (codes "a") (some (codes "how are you?")) 2 (codes "user ")
    ∷ row (codes "a") (some (codes "fine")) 3 (codes "assistant")
    ∷ []

abbrev question : Turn
question = record {
  sid = codes "a:3:u";
  session_id = codes "a";
  turn_index = 2;
  pos = 1;
  role = codes "user";
  date = [];
  text = codes "how are you?";
}

question_loaded : In question (load_corpus keep_case rows).turns
unfolding load_corpus build strip lstrip rstrip close_with is_space lookup put list_beq is_empty
question_loaded = inr (inr (inl refl))

load_corpus-surrounds_example :
    (before after : List Turn) × (session_of (codes "a") (load_corpus keep_case rows).turns
      ≡ before ++ (question ∷ after))
    × (length before ≡ 1)
    × (window_of (load_corpus keep_case rows) 2 question
        ≡ some (drop (length before - 2) before ++ (question ∷ take 2 after)))
load_corpus-surrounds_example = load_corpus-surrounds keep_case rows 2 question question_loaded
