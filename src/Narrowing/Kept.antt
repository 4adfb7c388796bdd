-- ===== src/Narrowing/Kept.antt =====
-- The text that narrowing gives.
use grace_mem.Common.{ℕ, ◌≤◌, ◌≡◌, List, ◌++◌, length, Subseq, Text, codes, join}
use grace_mem.Narrowing.{headers, snippets}

-- The header lines, then at most `n` of the block's snippets, in the block's order.
abbrev pub IsNarrowed : ℕ → Text → Text → Type 0
IsNarrowed n block out =
    (kept : List Text) × Subseq kept (snippets block)
    × (length kept ≤ n)
    × (out ≡ join (codes "\n") (headers block ++ kept))
