-- ===== src/Bridge/Gpci/Hex.antt =====
-- The text that gen_gpci of native/sampraknet_bridge.cpp makes, and the number that it stands for.
use opensamp.Prelude.{
  ℕ, ◌+◌, ◌-◌, ◌*◌, ◌^◌, ◌≤◌, ◌<◌, ◌≡◌, ◌∙◌, refl, ap, sym, inl, ◌⊎◌, Bool, true, false, ◌||◌, not,
  List, [], ◌∷◌, map, take, arith, ltb, ◌==◌, if_cases, if◌then◌else◌,
}
use opensamp.Bridge.Gpci.{nibbles, hex_digit, hex_digits, or_zero, gpci, big_num_mul, bytes_of}
use opensamp.Bridge.Gpci.Value.{Below, Below-reverse, big_endian, big_num_mul-value, IsQuads}

-- Only digits 0 to 9 and A to F.
abbrev pub IsHex : List ℕ → Type 0
IsHex [] = Unit
IsHex (d ∷ ds) = (((48 ≤ d) × (d ≤ 57)) ⊎ ((65 ≤ d) × (d ≤ 70))) × IsHex ds

hex_digit-IsHex : (n : ℕ) → n < 16 → IsHex (hex_digit n ∷ [])
unfolding hex_digit
hex_digit-IsHex n h = grind arith

hex_digits-IsHex : (ns : List ℕ) (b : Bool) → Below 16 ns → IsHex (hex_digits b ns)
unfolding hex_digits
hex_digits-IsHex [] b h = tt
hex_digits-IsHex (n ∷ ns) b h =
    let keep = b || not (n == 0) in
    if_cases IsHex keep (λ e. ((hex_digit-IsHex n h.0).0, hex_digits-IsHex ns keep h.1))
      (λ e. hex_digits-IsHex ns keep h.1)

nibbles-Below : (bs : List ℕ) → Below (2 ^ 8) bs → Below 16 (nibbles bs)
unfolding nibbles
nibbles-Below [] h = tt
nibbles-Below (b ∷ bs) (hb, hs) = (omega arith, (omega arith, nibbles-Below bs hs))

bytes_of-Below : (ws : List ℕ) → Below (2 ^ 8) (bytes_of ws)
unfolding bytes_of
bytes_of-Below [] = tt
bytes_of-Below (w ∷ ws) =
    (omega arith, (omega arith, (omega arith, (omega arith, bytes_of-Below ws))))

big_num_mul-Below : (bytes : List ℕ) (factor : ℕ) → Below (2 ^ 8) (big_num_mul bytes factor)
unfolding big_num_mul
big_num_mul-Below bytes factor = Below-reverse _ _ (bytes_of-Below _)

or_zero-IsHex : (ds : List ℕ) → IsHex ds → IsHex (or_zero ds)
or_zero-IsHex [] h = (inl (omega arith, omega arith), tt)
or_zero-IsHex (d ∷ ds) h = h

-- For any characters drawn and any factor, the text consists of digits 0 to 9 and A to F.
gpci-IsHex : (raw : List ℕ) (factor : ℕ) → IsHex (gpci raw factor)
unfolding gpci
gpci-IsHex raw factor =
    if_cases IsHex (factor == 0) (λ e. (inl (omega arith, omega arith), tt))
      (λ e.
        or_zero-IsHex _ (hex_digits-IsHex _ false (nibbles-Below _ (big_num_mul-Below raw factor))))

-- The value of a digit.
pub unhex : ℕ → ℕ
unhex d = if ltb 57 d then d - 55 else d - 48

unhex-hex_digit : (n : ℕ) → n < 16 → unhex (hex_digit n) ≡ n
unfolding unhex hex_digit
unhex-hex_digit n h = ground arith

-- The number that hexadecimal digits stand for.
abbrev pub hex_value : List ℕ → ℕ
hex_value ds = big_endian 16 0 (map unhex ds)

unkept : (n : ℕ) (b : Bool) → (b || not (n == 0)) ≡ false → b ≡ false
unkept n b e = ground arith

skipped :
    (n : ℕ) (b : Bool) (acc : ℕ)
    → (b ≡ false → acc ≡ 0)
    → (b || not (n == 0)) ≡ false
    → acc ≡ acc * 16 + n
skipped n b acc z e = ground (arith, z (unkept n b e))

hex_digits-value :
    (ns : List ℕ) (b : Bool) (acc : ℕ)
    → Below 16 ns
    → (b ≡ false → acc ≡ 0)
    → big_endian 16 acc (map unhex (hex_digits b ns)) ≡ big_endian 16 acc ns
unfolding hex_digits big_endian
hex_digits-value [] b acc h z = refl
hex_digits-value (n ∷ ns) b acc h z =
    let keep = b || not (n == 0) in
    let rest = hex_digits keep ns in
    if_cases (λ l. big_endian 16 acc (map unhex l) ≡ big_endian 16 (acc * 16 + n) ns) keep
      {x = hex_digit n ∷ rest} {y = rest}
      (λ e.
        ap (λ m. big_endian 16 (acc * 16 + m) (map unhex rest)) (unhex-hex_digit n h.0)
        ∙ hex_digits-value ns keep (acc * 16 + n) h.1 (λ k. cc))
      (λ e.
        let zero_acc : acc ≡ acc * 16 + n = skipped n b acc z e in
        ap (λ m. big_endian 16 m (map unhex rest)) zero_acc
        ∙ hex_digits-value ns keep (acc * 16 + n) h.1
            (λ k. sym (skipped n b acc z e) ∙ z (unkept n b e)))

nibbles-value : (bs : List ℕ) (acc : ℕ) → big_endian 16 acc (nibbles bs) ≡ big_endian (2 ^ 8) acc bs
unfolding nibbles big_endian
nibbles-value [] acc = refl
nibbles-value (b ∷ bs) acc =
    ap (λ m. big_endian 16 m (nibbles bs)) (omega arith) ∙ nibbles-value bs (acc * 2 ^ 8 + b)

or_zero-value : (ds : List ℕ) → hex_value (or_zero ds) ≡ hex_value ds
unfolding big_endian unhex
or_zero-value [] = refl
or_zero-value (d ∷ ds) = refl

-- For a factor of 32 bits, and characters drawn of which the first 20 are bytes that make up whole
-- words, the text is the number that these bytes are, the highest first, times the factor, in
-- hexadecimal.
pub gpci-value :
    (raw : List ℕ) (factor : ℕ)
    → IsQuads (take 20 raw)
    → Below (2 ^ 8) (take 20 raw)
    → factor < 2 ^ 32
    → hex_value (gpci raw factor) ≡ big_endian (2 ^ 8) 0 (take 20 raw) * factor
unfolding gpci big_endian unhex
gpci-value raw factor q h f =
    if_cases (λ ds. hex_value ds ≡ big_endian (2 ^ 8) 0 (take 20 raw) * factor) (factor == 0)
      (λ e. no_factor e)
      (λ e.
        or_zero-value (hex_digits false (nibbles (big_num_mul raw factor)))
        ∙ hex_digits-value _ false 0 (nibbles-Below _ (big_num_mul-Below raw factor)) (λ k. refl)
        ∙ nibbles-value (big_num_mul raw factor) 0
        ∙ big_num_mul-value raw factor q h f)
  where
    no_factor : (factor == 0) ≡ true → 0 ≡ big_endian (2 ^ 8) 0 (take 20 raw) * factor
    no_factor e = ground arith
