-- ===== src/Bridge/Gpci/Value.antt =====
-- BIG_NUM_MUL_SAFE of native/sampraknet_bridge.cpp multiplies, and what gen_gpci prints is that
-- product.
use mathlib.Core.List.{reverse, reverse-cons, reverse-reverse, map-append, append-nil, append_assoc}
use mathlib.Core.Path.{subst, ◌≡⟨◌⟩◌, ◌∎}
use native.Mathlib.Nat.{mul-le-mul, add-zero}
use opensamp.Prelude.{
  ℕ, ◌+◌, ◌*◌, ◌/◌, ◌%◌, ◌^◌, ◌<◌, ◌≤◌, ◌≡◌, refl, sym, ap, ◌∙◌, List, [], ◌∷◌, ◌++◌, map, take,
  arith,
}
use opensamp.Bridge.Gpci.{le_word, bswap32, words, mul_words, bytes_of, big_num_mul}

-- A number from its digits in a base, the highest first, and the lowest first.
abbrev pub Below : ℕ → List ℕ → Type 0
Below b [] = Unit
Below b (d ∷ ds) = (d < b) × Below b ds

unfoldable pub big_endian : ℕ → ℕ → List ℕ → ℕ
big_endian b acc [] = acc
big_endian b acc (d ∷ ds) = big_endian b (acc * b + d) ds

pub little_endian : ℕ → List ℕ → ℕ
little_endian b [] = 0
little_endian b (d ∷ ds) = d + b * little_endian b ds

lt_word : (w : ℕ) → w < 2 ^ 32 → w ≤ 4294967295
lt_word w h = omega arith

product_bound : (w f : ℕ) → w < 2 ^ 32 → f < 2 ^ 32 → w * f ≤ 18446744065119617025
product_bound w f h k = mul-le-mul (lt_word w h) (lt_word f k)

carry_fits : (w f c : ℕ) → w < 2 ^ 32 → f < 2 ^ 32 → c < 2 ^ 32 → w * f + c < 2 ^ 64
carry_fits w f c h k l = omega (arith, product_bound w f h k)

-- Word products with carries are the product.
little_endian-mul_words :
    (ws : List ℕ) (factor carry : ℕ)
    → Below (2 ^ 32) ws
    → factor < 2 ^ 32
    → carry < 2 ^ 32
    → little_endian (2 ^ 32) (mul_words ws factor carry)
      ≡ little_endian (2 ^ 32) ws * factor + carry
unfolding little_endian mul_words
little_endian-mul_words [] factor carry h f c = omega arith
little_endian-mul_words (w ∷ ws) factor carry (h, hs) f c =
    let tmp = w * factor + carry in
    let small : tmp < 2 ^ 64 = carry_fits w factor carry h f c in
    let rest = little_endian-mul_words ws factor (tmp % 2 ^ 64 / 2 ^ 32) hs f (omega arith) in
    omega (arith, rest, ap (λ (n : ℕ). 2 ^ 32 * n) rest)

mul_words-Below :
    (ws : List ℕ) (factor carry : ℕ)
    → factor < 2 ^ 32
    → carry < 2 ^ 32
    → Below (2 ^ 32) ws
    → Below (2 ^ 32) (mul_words ws factor carry)
unfolding mul_words
mul_words-Below [] factor carry f c h = (c, tt)
mul_words-Below (w ∷ ws) factor carry f c (h, hs) =
    (omega arith, mul_words-Below ws factor _ f (omega arith) hs)

little_endian-bytes_of :
    (ws : List ℕ)
    → Below (2 ^ 32) ws
    → little_endian (2 ^ 8) (bytes_of ws) ≡ little_endian (2 ^ 32) ws
unfolding little_endian bytes_of
little_endian-bytes_of [] h = refl
little_endian-bytes_of (w ∷ ws) (h, hs) = omega (arith, little_endian-bytes_of ws hs)

-- A reversed number is read from the other end.
big_endian-reverse :
    (b : ℕ) (ds acc : List ℕ)
    → big_endian b (little_endian b acc) ds ≡ little_endian b (reverse ds ++ acc)
unfolding big_endian little_endian
big_endian-reverse b [] acc = refl
big_endian-reverse b (d ∷ ds) acc =
    big_endian b (little_endian b acc * b + d) ds
    ≡⟨ ap (λ (n : ℕ). big_endian b n ds) (omega arith) ⟩ big_endian b (little_endian b (d ∷ acc)) ds
    ≡⟨ big_endian-reverse b ds (d ∷ acc) ⟩ little_endian b (reverse ds ++ d ∷ acc)
    ≡⟨ ap (little_endian b) (
        sym (append_assoc (reverse ds) (d ∷ []) acc)
        ∙ ap (λ l. l ++ acc) (sym (reverse-cons d ds))) ⟩
      little_endian b (reverse (d ∷ ds) ++ acc) ∎

big_endian-reverse_self : (b : ℕ) (ds : List ℕ) → big_endian b 0 (reverse ds) ≡ little_endian b ds
unfolding little_endian
big_endian-reverse_self b ds =
    big_endian-reverse b (reverse ds) []
    ∙ ap (little_endian b) (append-nil (reverse (reverse ds)) ∙ reverse-reverse ds)

-- A length that is a multiple of four.
abbrev pub IsQuads : List ℕ → Type 0
IsQuads [] = Unit
IsQuads (a ∷ b ∷ c ∷ d ∷ ds) = IsQuads ds
IsQuads _ = ⊥

swapped_word :
    (acc a b c d : ℕ)
    → a < 2 ^ 8
    → b < 2 ^ 8
    → c < 2 ^ 8
    → d < 2 ^ 8
    → acc * 2 ^ 32 + bswap32 (le_word a b c d)
      ≡ (((acc * 2 ^ 8 + a) * 2 ^ 8 + b) * 2 ^ 8 + c) * 2 ^ 8 + d
unfolding bswap32 le_word
swapped_word acc a b c d ha hb hc hd = omega arith

big_endian-words :
    (acc : ℕ) (bytes : List ℕ)
    → IsQuads bytes
    → Below (2 ^ 8) bytes
    → big_endian (2 ^ 32) acc (map bswap32 (words bytes)) ≡ big_endian (2 ^ 8) acc bytes
unfolding big_endian words
big_endian-words acc [] q h = refl
big_endian-words acc (a ∷ []) q h = elim q [ ]
big_endian-words acc (a ∷ b ∷ []) q h = elim q [ ]
big_endian-words acc (a ∷ b ∷ c ∷ []) q h = elim q [ ]
big_endian-words acc (a ∷ b ∷ c ∷ d ∷ ds) q (ha, (hb, (hc, (hd, hs)))) =
    big_endian-words (acc * 2 ^ 32 + bswap32 (le_word a b c d)) ds q hs
    ∙ ap (λ (n : ℕ). big_endian (2 ^ 8) n ds) (swapped_word acc a b c d ha hb hc hd)

words-Below :
    (bytes : List ℕ)
    → IsQuads bytes
    → Below (2 ^ 8) bytes
    → Below (2 ^ 32) (map bswap32 (words bytes))
unfolding words bswap32 le_word
words-Below [] q h = tt
words-Below (a ∷ []) q h = elim q [ ]
words-Below (a ∷ b ∷ []) q h = elim q [ ]
words-Below (a ∷ b ∷ c ∷ []) q h = elim q [ ]
words-Below (a ∷ b ∷ c ∷ d ∷ ds) q (ha, (hb, (hc, (hd, hs)))) = (omega arith, words-Below ds q hs)

map-reverse : (ws : List ℕ) → map bswap32 (reverse ws) ≡ reverse (map bswap32 ws)
map-reverse [] = refl
map-reverse (w ∷ ws) =
    rw (reverse-cons w ws, reverse-cons (bswap32 w) (map bswap32 ws), map-append)
      (ap (λ l. l ++ bswap32 w ∷ []) (map-reverse ws))

-- The words in their order, which the source takes from the last to the first.
little_endian-words :
    (bytes : List ℕ)
    → IsQuads bytes
    → Below (2 ^ 8) bytes
    → little_endian (2 ^ 32) (map bswap32 (reverse (words bytes))) ≡ big_endian (2 ^ 8) 0 bytes
unfolding little_endian
little_endian-words bytes q h =
    ap (little_endian (2 ^ 32)) (map-reverse (words bytes) ∙ sym (append-nil _))
    ∙ sym (big_endian-reverse (2 ^ 32) (map bswap32 (words bytes)) [])
    ∙ big_endian-words 0 bytes q h

Below-append : (b : ℕ) (xs ys : List ℕ) → Below b xs → Below b ys → Below b (xs ++ ys)
Below-append b [] ys h k = k
Below-append b (x ∷ xs) ys h k = (h.0, Below-append b xs ys h.1 k)

pub Below-reverse : (b : ℕ) (xs : List ℕ) → Below b xs → Below b (reverse xs)
Below-reverse b [] h = tt
Below-reverse b (x ∷ xs) h =
    rw reverse-cons (Below-append b (reverse xs) (x ∷ []) (Below-reverse b xs h.1) (h.0, tt))

-- The multiplication is exact: read from its highest byte on, the result is the number that the
-- first 20 bytes are, times the factor.
pub big_num_mul-value :
    (bytes : List ℕ) (factor : ℕ)
    → IsQuads (take 20 bytes)
    → Below (2 ^ 8) (take 20 bytes)
    → factor < 2 ^ 32
    → big_endian (2 ^ 8) 0 (big_num_mul bytes factor)
      ≡ big_endian (2 ^ 8) 0 (take 20 bytes) * factor
unfolding big_num_mul
big_num_mul-value bytes factor q h f =
    let ws = map bswap32 (reverse (words (take 20 bytes))) in
    let below : Below (2 ^ 32) ws =
      subst (Below (2 ^ 32)) (sym (map-reverse (words (take 20 bytes))))
        (Below-reverse _ _ (words-Below (take 20 bytes) q h)) in
    big_endian-reverse_self (2 ^ 8) (bytes_of (mul_words ws factor 0))
    ∙ little_endian-bytes_of _ (mul_words-Below ws factor 0 f (omega arith) below)
    ∙ little_endian-mul_words ws factor 0 below f (omega arith)
    ∙ ap (λ (n : ℕ). n * factor + 0) (little_endian-words (take 20 bytes) q h)
    ∙ add-zero _
