-- ===== src/Prelude/Bytes.antt =====
-- Character buffers of C: a list of bytes, with the string up to its first zero.
use Prim.Native.Nat.{ℕ, zero, suc, ◌+◌, ◌/◌, ◌%◌, ◌≤◌}
use mathlib.Core.Path.{◌≡◌, refl, ap}
use mathlib.Core.Bool.{Bool}
use mathlib.Core.List.{List, [], ◌∷◌, ◌++◌}
use native.Mathlib.Omega.{arith}
use opensamp.Prelude.Tests.{ltb, ◌==◌, if◌then◌else◌}
use opensamp.Prelude.Lists.{length, take, drop, length-append, length-take, length-drop}

-- The string that a buffer holds.
unfoldable pub c_str : List ℕ → List ℕ
c_str [] = []
c_str (c ∷ cs) = if c == 0 then [] else c ∷ c_str cs

-- memset(buffer, 0, n).
unfoldable pub zero_first : ℕ → List ℕ → List ℕ
zero_first zero cs = cs
zero_first (suc n) [] = []
zero_first (suc n) (c ∷ cs) = 0 ∷ zero_first n cs

-- strcpy(buffer, s) with the room that the buffer has: what does not fit is not kept.
unfoldable pub strcpy : List ℕ → List ℕ → List ℕ
strcpy buffer s = take (length buffer) ((s ++ 0 ∷ []) ++ drop (length s + 1) buffer)

-- Whether that strcpy stays inside the buffer.
abbrev pub fits : List ℕ → List ℕ → Bool
fits buffer s = ltb (length s) (length buffer)

-- strncpy(buffer, s, n): the string is cut at n, and padded with zeros up to n.
unfoldable pub strncpy : List ℕ → List ℕ → ℕ → List ℕ
strncpy [] s n = []
strncpy (b ∷ bs) s zero = b ∷ bs
strncpy (b ∷ bs) [] (suc n) = 0 ∷ strncpy bs [] n
strncpy (b ∷ bs) (c ∷ cs) (suc n) = c ∷ strncpy bs cs n

pub length-zero_first : (n : ℕ) (cs : List ℕ) → length (zero_first n cs) ≡ length cs
unfolding zero_first
length-zero_first zero cs = refl
length-zero_first (suc n) [] = refl
length-zero_first (suc n) (c ∷ cs) = ap suc (length-zero_first n cs)

pub length-strcpy : (b s : List ℕ) → length (strcpy b s) ≡ length b
unfolding strcpy
length-strcpy b s = omega (
  arith,
  length-take (length b) ((s ++ 0 ∷ []) ++ drop (length s + 1) b),
  length-append (s ++ 0 ∷ []) (drop (length s + 1) b),
  length-append s (0 ∷ []),
  length-drop (length s + 1) b,
)

pub length-strncpy : (b s : List ℕ) (n : ℕ) → length (strncpy b s n) ≡ length b
unfolding strncpy
length-strncpy [] s n = refl
length-strncpy (b ∷ bs) s zero = refl
length-strncpy (b ∷ bs) [] (suc n) = ap suc (length-strncpy bs [] n)
length-strncpy (b ∷ bs) (c ∷ cs) (suc n) = ap suc (length-strncpy bs cs n)

-- memcpy into a buffer, from an index on: what does not fit is not kept.
unfoldable pub overwrite : ℕ → List ℕ → List ℕ → List ℕ
overwrite i bs [] = []
overwrite zero [] (x ∷ xs) = x ∷ xs
overwrite zero (b ∷ bs) (x ∷ xs) = b ∷ overwrite zero bs xs
overwrite (suc i) bs (x ∷ xs) = x ∷ overwrite i bs xs

-- The four bytes of a word, the lowest first.
abbrev pub word_bytes : ℕ → List ℕ
word_bytes v = v % 256 ∷ v / 256 % 256 ∷ v / 65536 % 256 ∷ v / 16777216 % 256 ∷ []

pub length-overwrite : (i : ℕ) (bs xs : List ℕ) → length (overwrite i bs xs) ≡ length xs
unfolding overwrite
length-overwrite i bs [] = refl
length-overwrite zero [] (x ∷ xs) = refl
length-overwrite zero (b ∷ bs) (x ∷ xs) = ap suc (length-overwrite zero bs xs)
length-overwrite (suc i) bs (x ∷ xs) = ap suc (length-overwrite i bs xs)

-- With the count as a number of its own, which the cases are on.
take-overwrite_count :
    (n i : ℕ) (bs xs : List ℕ)
    → n ≡ i + length bs
    → n ≤ length xs
    → take n (overwrite i bs xs) ≡ take i xs ++ bs
unfolding overwrite
take-overwrite_count zero zero [] [] e h = refl
take-overwrite_count zero zero [] (x ∷ xs) e h = refl
take-overwrite_count zero i (b ∷ bs) xs e h = absurd (omega arith)
take-overwrite_count zero (suc i) bs xs e h = absurd (omega arith)
take-overwrite_count (suc n) i bs [] e h = absurd (omega arith)
take-overwrite_count (suc n) zero [] (x ∷ xs) e h = absurd (omega arith)
take-overwrite_count (suc n) zero (b ∷ bs) (x ∷ xs) e h =
    ap (◌∷◌ b) (take-overwrite_count n zero bs xs (omega arith) (omega arith))
take-overwrite_count (suc n) (suc i) bs (x ∷ xs) e h =
    ap (◌∷◌ x) (take-overwrite_count n i bs xs (omega arith) (omega arith))

pub take-overwrite :
    (i : ℕ) (bs xs : List ℕ)
    → i + length bs ≤ length xs
    → take (i + length bs) (overwrite i bs xs) ≡ take i xs ++ bs
take-overwrite i bs xs h = take-overwrite_count (i + length bs) i bs xs refl h
