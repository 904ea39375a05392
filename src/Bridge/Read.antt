-- ===== src/Bridge/Read.antt =====
-- BitStream's Read in the handlers of native/sampraknet_bridge.cpp. Each takes what its target
-- holds before, which a failed read leaves there: for a local with no initial value, that is what
-- the stack holds.
use opensamp.Prelude.{ℕ, ◌%◌, ◌^◌, Bool, List, Option, none, some, get_or}
use opensamp.Prelude.Action.{Action, reads, pure, ◌>>=◌}
use opensamp.World.{World}
use opensamp.World.Wire.{Platform, Vec, Quat}

-- A handler, over the globals and the stream that it reads.
abbrev pub Handler : Platform → Type 0 → Type 0
Handler p A = Action (World × p.Stream) A

module _ (p : Platform) where
  unfoldable pub ignore_bits : ℕ → Handler p Unit
  unfolding reads
  ignore_bits n = reads (λ s. (tt, p.ignore_bits n s))

  unfoldable pub read_word : ℕ → ℕ → Handler p ℕ
  unfolding reads
  read_word n old = reads (λ s. (get_or (p.read_bits n s).0 old, (p.read_bits n s).1))

  unfoldable pub read_bool : Bool → Handler p Bool
  unfolding reads
  read_bool old = reads (λ s. (get_or (p.read_bool s).0 old, (p.read_bool s).1))

  unfoldable pub read_packed_bool : Bool → Handler p Bool
  unfolding reads
  read_packed_bool old =
      reads (λ s. (get_or (p.read_packed_bool s).0 old, (p.read_packed_bool s).1))

  unfoldable pub read_chars : ℕ → List ℕ → Handler p (List ℕ)
  unfolding reads
  read_chars n old = reads (λ s. (get_or (p.read_chars n s).0 old, (p.read_chars n s).1))

  -- A read whose result the handler tests.
  unfoldable pub try_chars : ℕ → Handler p (Option (List ℕ))
  unfolding reads
  try_chars n = reads (p.read_chars n)

  unfoldable pub try_bool : Handler p (Option Bool)
  unfolding reads
  try_bool = reads p.read_bool

  unfoldable pub read_quat : Quat → Handler p Quat
  unfolding reads
  read_quat old = reads (p.read_quat old)

  unfoldable pub read_vec : Vec → Handler p Vec
  unfolding reads
  read_vec old = reads (p.read_vec old)

  -- The k-th uninitialised local of a handler, of n bits.
  unfoldable pub junk : ℕ → ℕ → ℕ
  junk k n = p.stack k % 2 ^ n

  -- Three floats, read one after the other.
  unfoldable pub read_floats : Vec → Handler p Vec
  read_floats old = do
    x ← read_word 32 old.x
    y ← read_word 32 old.y
    z ← read_word 32 old.z
    pure (record { x = x; y = y; z = z })

  -- `if (!read) return;`
  unfoldable pub when_some : {A : Type 0} → Option A → (A → Handler p Unit) → Handler p Unit
  when_some none h = pure tt
  when_some (some a) h = h a
