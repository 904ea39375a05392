-- ===== src/Engine/Patches.antt =====
-- native/patches.cpp: the writes into the game that the library makes when it is loaded.
pub mod Tables
pub mod Relocation
pub mod Legacy
pub mod Order
pub mod Apart
pub mod Limit
use opensamp.Prelude.{
  ℕ, zero, suc, ◌+◌, ◌-◌, ◌*◌, ◌/◌, ◌%◌, ◌^◌, Bool, true, false, ◌&&◌, List, [], ◌∷◌, ◌++◌, Option,
  none, some, length, get_elem?, get_or, leb, ltb, if◌then◌else◌,
}

-- mem_put of a value of so many bytes, mem_set, and memset and memcpy without a guard.
pub data Write : Type 0 where
  put : ℕ → ℕ → ℕ → Write
  set : ℕ → ℕ → ℕ → Write
  fill : ℕ → ℕ → ℕ → Write
  copy : ℕ → List ℕ → Write

abbrev pub start : Write → ℕ
start (put a n v) = a
start (set a v n) = a
start (fill a v n) = a
start (copy a bs) = a

abbrev pub size : Write → ℕ
size (put a n v) = n
size (set a v n) = n
size (fill a v n) = n
size (copy a bs) = length bs

-- The byte at an offset; the first byte of a number is its last 8 bits.
abbrev pub content : Write → ℕ → ℕ
content (put a n v) i = v / 256 ^ i % 256
content (set a v n) i = v % 256
content (fill a v n) i = v % 256
content (copy a bs) i = get_or (get_elem? bs i) 0

abbrev pub touches : Write → ℕ → Bool
touches w x = leb (start w) x && ltb x (start w + size w)

module _ (works : ℕ → ℕ → Bool) where
  -- Whether the bytes get there: mem_put and mem_set do nothing where they may not write.
  abbrev pub lands : Write → Bool
  lands (put a n v) = works a n
  lands (set a v n) = works a n
  lands (fill a v n) = true
  lands (copy a bs) = true

  unfoldable pub apply : Write → (ℕ → ℕ) → ℕ → ℕ
  apply w m x = if touches w x && lands w then content w (x - start w) else m x

  unfoldable pub run : List Write → (ℕ → ℕ) → ℕ → ℕ
  run [] m = m
  run (w ∷ ws) m = run ws (apply w m)

-- LP with the writes behind it.
abbrev pub Gate : Type 0
Gate = ℕ × List Write

-- legacy_gate: a negative limit, here none, lets all through.
abbrev pub gate_open : Option ℕ → ℕ → Bool
gate_open none applied = true
gate_open (some limit) applied = ltb applied limit

-- The legacy block: its writes, and g_legacyApplied and g_legacyLast behind it.
unfoldable pub run_gates : Option ℕ → ℕ → ℕ → List Gate → List Write × ℕ × ℕ
run_gates limit applied last [] = ([], applied, last)
run_gates limit applied last (g ∷ gs) =
    let rest = run_gates limit (suc applied) g.0 gs in
    if gate_open limit applied then (g.1 ++ rest.0, rest.1, rest.2) else ([], applied, last)
