-- ===== src/World/Wire.antt =====
-- native/sampraknet_bridge.cpp as a user of native/vendor/sampraknet: the values on the wire, the
-- calls of the RakNet client that the bridge makes, and BitStream's reads as an interface.
use opensamp.Prelude.{ℕ, ◌<◌, ◌^◌, ◌≡◌, Bool, List, Option, some, length}
use opensamp.Encoding.{CodePages}

-- Three floats. A float is its 32-bit pattern.
pub record Vec : Type 0 where
  pub x : ℕ
  pub y : ℕ
  pub z : ℕ

pub record Quat : Type 0 where
  pub w : ℕ
  pub x : ℕ
  pub y : ℕ
  pub z : ℕ

abbrev pub zero_vec : Vec
zero_vec = record { x = 0; y = 0; z = 0 }

abbrev pub zero_quat : Quat
zero_quat = record { w = 0; x = 0; y = 0; z = 0 }

-- One call of BitStream's Write, WriteCompressed, WriteNormQuat or WriteVector.
pub data Field : Type 0 where
  u8 u16 u32 : ℕ → Field
  packed_bool : Bool → Field
  chars : List ℕ → Field
  quat : Quat → Field
  vec : Vec → Field

-- The calls of RakClientInterface.
pub data ClientCall : Type 0 where
  rpc : ℕ → List Field → ClientCall
  send : List Field → ClientCall
  connect : List ℕ → ℕ → List ℕ → ClientCall
  disconnect : ClientCall

-- What the bridge takes from outside: BitStream's reads, the string decompressor, the code pages
-- of Windows, arithmetic on floats, random draws, the engine's answers,
-- and what an uninitialised local holds. A read gives nothing when the input is too short; a failed
-- `read_quat` or `read_vec` may have written part of its target.
pub record Platform : Type 1 where
  pub Stream : Type 0
  pub open_stream : List ℕ → Stream
  pub ignore_bits : ℕ → Stream → Stream
  pub unread_bits : Stream → ℕ
  pub read_bits : ℕ → Stream → Option ℕ × Stream
  pub read_bool : Stream → Option Bool × Stream
  pub read_packed_bool : Stream → Option Bool × Stream
  pub read_chars : ℕ → Stream → Option (List ℕ) × Stream
  pub read_quat : Quat → Stream → Quat × Stream
  pub read_vec : Vec → Stream → Vec × Stream
  pub decode_string : ℕ → Stream → List ℕ × Stream
  pub code_pages : CodePages
  pub float_of_word : ℕ → ℕ
  pub float_of_short : ℕ → ℕ
  pub int_of_float : ℕ → ℕ
  pub add_half : ℕ → ℕ
  -- mt19937 and rand.
  pub random_chars : List ℕ
  pub random_suffix : List ℕ
  -- AuthKeyTable of native/vendor/sampraknet.
  pub auth_keys : List (List ℕ × List ℕ)
  -- gta::sa::EnsureModelLoaded and FindGroundZ with its test.
  pub model_loads : ℕ → Bool
  pub landing_height : Vec → ℕ
  pub stack : ℕ → ℕ
  pub stack_flag : ℕ → Bool
  pub stack_chars : ℕ → ℕ → List ℕ
  pub read_bits-lt : (n : ℕ) (s : Stream) {v : ℕ} → (read_bits n s).0 ≡ some v → v < 2 ^ n
  pub read_chars-length :
      (n : ℕ) (s : Stream) {cs : List ℕ} → (read_chars n s).0 ≡ some cs → length cs ≡ n
  pub stack_chars-length : (k n : ℕ) → length (stack_chars k n) ≡ n
