-- ===== src/Bridge/Gpci.antt =====
-- gen_gpci of native/sampraknet_bridge.cpp: 24 random characters, the first 20 of them multiplied
-- as one number, in hexadecimal without leading zeros.
pub mod Hex
pub mod Value
use mathlib.Core.List.{reverse}
use opensamp.Prelude.{
  ℕ, ◌+◌, ◌*◌, ◌/◌, ◌%◌, ◌^◌, Bool, true, false, ◌||◌, not, List, [], ◌∷◌, ◌++◌, map, take, ltb,
  ◌==◌, if◌then◌else◌,
}

-- A word from four bytes, the lowest first.
unfoldable pub le_word : ℕ → ℕ → ℕ → ℕ → ℕ
le_word a b c d = a + b * 2 ^ 8 + c * 2 ^ 16 + d * 2 ^ 24

unfoldable pub bswap32 : ℕ → ℕ
bswap32 v =
    v / 2 ^ 24 + v / 2 ^ 16 % 2 ^ 8 * 2 ^ 8 + v / 2 ^ 8 % 2 ^ 8 * 2 ^ 16 + v % 2 ^ 8 * 2 ^ 24

-- inWords: the words of the bytes, a rest shorter than a word left out.
unfoldable pub words : List ℕ → List ℕ
words (a ∷ b ∷ c ∷ d ∷ bytes) = le_word a b c d ∷ words bytes
words _ = []

-- The products: each word times the factor plus the carry, and the last carry behind them.
unfoldable pub mul_words : List ℕ → ℕ → ℕ → List ℕ
mul_words [] factor carry = carry ∷ []
mul_words (w ∷ ws) factor carry =
    let tmp = (w * factor + carry) % 2 ^ 64 in tmp % 2 ^ 32 ∷ mul_words ws factor (tmp / 2 ^ 32)

-- outBytes before they are reversed.
unfoldable pub bytes_of : List ℕ → List ℕ
bytes_of [] = []
bytes_of (w ∷ ws) =
    (w % 2 ^ 8) ∷ (w / 2 ^ 8 % 2 ^ 8) ∷ (w / 2 ^ 16 % 2 ^ 8) ∷ (w / 2 ^ 24 % 2 ^ 8) ∷ bytes_of ws

-- BIG_NUM_MUL_SAFE.
unfoldable pub big_num_mul : List ℕ → ℕ → List ℕ
big_num_mul bytes factor =
    reverse (bytes_of (mul_words (map bswap32 (reverse (words (take 20 bytes)))) factor 0))

unfoldable pub nibbles : List ℕ → List ℕ
nibbles [] = []
nibbles (b ∷ bs) = (b / 2 ^ 4) ∷ (b % 2 ^ 4) ∷ nibbles bs

unfoldable pub hex_digit : ℕ → ℕ
hex_digit n = if ltb 9 n then n + 55 else n + 48

-- The digits from the first nibble on that is not zero. The source's stop at 63 digits is not
-- met: 24 bytes have 48.
unfoldable pub hex_digits : Bool → List ℕ → List ℕ
hex_digits notzero [] = []
hex_digits notzero (n ∷ ns) =
    let keep = notzero || not (n == 0) in
    let rest = hex_digits keep ns in if keep then hex_digit n ∷ rest else rest

abbrev pub or_zero : List ℕ → List ℕ
or_zero [] = b'0' ∷ []
or_zero (d ∷ ds) = d ∷ ds

-- gen_gpci, for the characters that were drawn.
unfoldable pub gpci : List ℕ → ℕ → List ℕ
gpci raw factor =
    if factor == 0 then b'0' ∷ [] else or_zero (hex_digits false (nibbles (big_num_mul raw factor)))
