-- ===== src/Bridge/Sync/Nibble.antt =====
-- Health and armour in four bits: the decoding in Packet_PlayerSync and Packet_VehicleSync of
-- native/sampraknet_bridge.cpp, and the encoding in its inCarUpdate.
use mathlib.Core.Path.{subst}
use opensamp.Prelude.{
  sym, ℕ, ◌+◌, ◌*◌, ◌/◌, ◌%◌, ◌^◌, ◌≤◌, ◌<◌, ◌≡◌, arith, leb, ltb, ◌&&◌, ◌||◌, ◌==◌, if◌then◌else◌,
}

-- From a nibble to a percentage.
unfoldable pub decode4 : ℕ → ℕ
decode4 n = if n == 0xf then 100 else if n == 0 then 0 else n * 7

-- encode4 of an int, by its 32-bit pattern; from 2 ^ 31 on that is a negative number.
unfoldable pub encode4 : ℕ → ℕ
encode4 v =
    if leb 100 v && ltb v (2 ^ 31) then 0xf else if v == 0 || leb (2 ^ 31) v then 0 else v / 7

-- byteHealthArmour of inCarUpdate.
unfoldable pub pack4 : ℕ → ℕ → ℕ
pack4 health armour = (encode4 health * 2 ^ 4 + encode4 armour) % 2 ^ 8

-- Every nibble survives decoding and encoding again.
encode4-decode4 : (n : ℕ) → n < 16 → encode4 (decode4 n) ≡ n
unfolding encode4 decode4
encode4-decode4 n h = ground arith

-- What an int, by its 32-bit pattern, is as a percentage.
abbrev pub percent : ℕ → ℕ
percent v = if leb (2 ^ 31) v then 0 else if leb 100 v then 100 else v

-- The number is the other one, rounded down by at most six.
pub record IsRounded (v d : ℕ) : Type 0 where
  pub below : d ≤ v
  pub near : v ≤ d + 6

decode4-encode4-below : (v : ℕ) → decode4 (encode4 v) ≤ percent v
unfolding encode4 decode4
decode4-encode4-below v = ground arith

decode4-encode4-near : (v : ℕ) → percent v ≤ decode4 (encode4 v) + 6
unfolding encode4 decode4
decode4-encode4-near v = ground arith

decode4-encode4 : (v : ℕ) → IsRounded (percent v) (decode4 (encode4 v))
decode4-encode4 v = record { below = decode4-encode4-below v; near = decode4-encode4-near v }

pub encode4-lt : (v : ℕ) → encode4 v < 16
unfolding encode4
encode4-lt v = ground arith

pub high_nibble : (health armour : ℕ) → pack4 health armour / 2 ^ 4 ≡ encode4 health
unfolding pack4
high_nibble health armour = omega (arith, encode4-lt health, encode4-lt armour)

pub low_nibble : (health armour : ℕ) → pack4 health armour % 2 ^ 4 ≡ encode4 armour
unfolding pack4
low_nibble health armour = omega (arith, encode4-lt health, encode4-lt armour)

-- What the receiver decodes from the packed byte of any two ints is each of them as a percentage (a
-- negative one as 0, one above 100 as 100), rounded down by at most six.
pub unpack-pack4 :
    (health armour : ℕ)
    → IsRounded (percent health) (decode4 (pack4 health armour / 2 ^ 4))
      × IsRounded (percent armour) (decode4 (pack4 health armour % 2 ^ 4))
unpack-pack4 health armour = (
  subst (λ n. IsRounded (percent health) (decode4 n)) (sym (high_nibble health armour))
      (decode4-encode4 health),
  subst (λ n. IsRounded (percent armour) (decode4 n)) (sym (low_nibble health armour))
      (decode4-encode4 armour),
)
