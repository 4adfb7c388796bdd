-- ===== src/Common/Chars.antt =====
-- Python's string methods over lists of code points.
use Prim.Native.Nat.{ℕ, ◌≤◌, ◌<◌}
use Prim.Native.Char.{code}
use Prim.Native.String.{String}
use mathlib.Core.Path.{◌≡◌, refl, ap}
use mathlib.Core.Logic.{◌≢◌, inl, inr}
use mathlib.Core.Bool.{Bool, true, false, ◌&&◌, ◌||◌}
use mathlib.Core.List.{List, [], ◌∷◌, ◌++◌}
use native.Mathlib.Omega.{arith}
use grace_mem.Common.Tests.{if◌then◌else◌, eqb, leb, Bool-cases}
use grace_mem.Common.Lists.{length}
use grace_mem.Common.Keys.{Text, nat_eq, list_beq, list_beq_iff}

-- A literal.
abbrev pub codes : String → Text
codes String.[] = []
codes (String.◌∷◌ c s) = code c ∷ codes s

abbrev pub colon : ℕ
colon = b':'

-- `str.isspace` of one character.
unfoldable pub is_space : ℕ → Bool
is_space c =
    (leb 9 c && leb c 13)
    || (leb 28 c && leb c 32)
    || eqb c 133
    || eqb c 160
    || eqb c 5760
    || (leb 8192 c && leb c 8202)
    || eqb c 8232
    || eqb c 8233
    || eqb c 8239
    || eqb c 8287
    || eqb c 12288

unfoldable pub lstrip : Text → Text
lstrip [] = []
lstrip (c ∷ s) = let rest = lstrip s in if is_space c then rest else c ∷ s

unfoldable pub close_with : ℕ → Text → Text
close_with c [] = if is_space c then [] else c ∷ []
close_with c (d ∷ r) = c ∷ d ∷ r

unfoldable pub rstrip : Text → Text
unfolding close_with
rstrip [] = []
rstrip (c ∷ s) = close_with c (rstrip s)

-- `s.strip()`
unfoldable pub strip : Text → Text
unfolding lstrip rstrip
strip s = lstrip (rstrip s)

-- `s.startswith(p)`
unfoldable pub starts_with : Text → Text → Bool
starts_with s [] = true
starts_with [] (d ∷ p) = false
starts_with (c ∷ s) (d ∷ p) = eqb c d && starts_with s p

-- `s.endswith(p)`
unfoldable pub ends_with : Text → Text → Bool
ends_with [] p = list_beq [] p
ends_with (c ∷ s) p = list_beq (c ∷ s) p || ends_with s p

-- `p in s`
unfoldable pub has_substring : Text → Text → Bool
has_substring [] p = starts_with [] p
has_substring (c ∷ s) p = starts_with (c ∷ s) p || has_substring s p

-- `s.partition(":")` without its middle part, which the source does not read.
unfoldable pub partition_colon : Text → Text × Text
partition_colon [] = ([], [])
partition_colon (c ∷ s) =
    let (head, rest) = partition_colon s in if eqb c colon then ([], s) else (c ∷ head, rest)

unfoldable pub has_char : ℕ → Text → Bool
has_char k [] = false
has_char k (c ∷ s) = eqb c k || has_char k s

unfoldable pub is_empty : Text → Bool
is_empty [] = true
is_empty (c ∷ s) = false

-- `sep.join(parts)`
unfoldable pub join : Text → List Text → Text
join sep [] = []
join sep (s ∷ []) = s
join sep (s ∷ t ∷ rest) = s ++ (sep ++ join sep (t ∷ rest))

pub partition_colon_no_colon :
    (s rest : Text) → has_char colon s ≡ false → partition_colon (s ++ (colon ∷ rest)) ≡ (s, rest)
unfolding partition_colon has_char
partition_colon_no_colon [] rest h = refl
partition_colon_no_colon (c ∷ s) rest h =
    ground (arith, partition_colon_no_colon s rest (ground arith))

pub ends_with_le : (s p : Text) → ends_with s p ≡ true → length p ≤ length s
unfolding ends_with
ends_with_le [] p h = rw (← (list_beq_iff [] p).0 h) (omega arith)
ends_with_le (c ∷ s) p h = elim (Bool-cases (list_beq (c ∷ s) p)) [
  | inl same ↦ rw (← (list_beq_iff (c ∷ s) p).0 same) (omega arith)
  | inr other ↦ omega (arith, ends_with_le s p (rw other at h))
]

-- A proper suffix is shorter.
pub length-ends_with : (s p : Text) → ends_with s p ≡ true → s ≢ p → length p < length s
unfolding ends_with
length-ends_with [] p h n = absurd (n ((list_beq_iff [] p).0 h))
length-ends_with (c ∷ s) p h n = elim (Bool-cases (list_beq (c ∷ s) p)) [
  | inl same ↦ absurd (n ((list_beq_iff (c ∷ s) p).0 same))
  | inr other ↦ omega (arith, ends_with_le s p (rw other at h))
]

pub ends_with_refl : (s : Text) → ends_with s s ≡ true
unfolding ends_with
ends_with_refl [] = (list_beq_iff [] []).1 refl
ends_with_refl (c ∷ s) = rw ((list_beq_iff (c ∷ s) (c ∷ s)).1 refl)

close_with_cons : (c : ℕ) (m r : Text) → close_with c (m ++ (colon ∷ r)) ≡ (c ∷ m) ++ (colon ∷ r)
unfolding close_with
close_with_cons c [] r = refl
close_with_cons c (d ∷ m) r = refl

close_with-colon : (r : Text) → (q : Text) × (close_with colon r ≡ colon ∷ q)
unfolding close_with is_space
close_with-colon [] = ([], refl)
close_with-colon (d ∷ r) = (d ∷ r, refl)

rstrip-append_colon :
    (m rest : Text) → (r : Text) × (rstrip (m ++ (colon ∷ rest)) ≡ m ++ (colon ∷ r))
unfolding rstrip
rstrip-append_colon [] rest = close_with-colon (rstrip rest)
rstrip-append_colon (c ∷ m) rest =
    let (r, e) = rstrip-append_colon m rest in (r, rw e (close_with_cons c m r))

length-lstrip-le : (s : Text) → length (lstrip s) ≤ length s
unfolding lstrip
length-lstrip-le [] = omega arith
length-lstrip-le (c ∷ s) = ground (arith, length-lstrip-le s)

lstrip-append_colon :
    (m rest : Text) → lstrip m ≡ m → lstrip (m ++ (colon ∷ rest)) ≡ m ++ (colon ∷ rest)
unfolding lstrip
lstrip-append_colon [] rest h = unfold is_space in refl
lstrip-append_colon (c ∷ m) rest h = elim (Bool-cases (is_space c)) [
  | inl space ↦ absurd (omega (arith, length-lstrip-le m, ap length (rw space at h)))
  | inr ink ↦ rw ink
]

-- A text that opens with no space and is followed by a colon keeps that much under `strip`.
pub strip-append_colon :
    (m rest : Text) → lstrip m ≡ m → (r : Text) × (strip (m ++ (colon ∷ rest)) ≡ m ++ (colon ∷ r))
unfolding strip
strip-append_colon m rest h =
    let (r, e) = rstrip-append_colon m rest in (r, rw e (lstrip-append_colon m r h))
