-- ===== src/Engine/Script/Command.antt =====
-- What the interpreter finds in the buffer of native/game/scm.h, read back by the format of a command:
-- two bytes of the opcode, then a tag and four bytes for each parameter.
use mathlib.Core.Path.{subst}
use mathlib.Core.List.{append_assoc, append-nil}
use opensamp.Prelude.{
  ℕ, ◌+◌, ◌*◌, ◌/◌, ◌%◌, ◌^◌, ◌≤◌, ◌<◌, ◌≡◌, refl, sym, ap, ◌∙◌, List, [], ◌∷◌, ◌++◌, Option, none,
  some, take, length, length-append, ◌==◌, if◌then◌else◌, arith,
}
use opensamp.Prelude.Bytes.{overwrite, word_bytes, length-overwrite, take-overwrite}
use opensamp.Engine.Script.{Script, reset, push_int, push_float, tag_int32, tag_float}

-- A parameter of a command.
pub data Param : Type 0 where
  int float : ℕ → Param

abbrev pub bits : Param → ℕ
bits (int v) = v
bits (float v) = v

abbrev word_of : ℕ → ℕ → ℕ → ℕ → ℕ
word_of a b c d = a + 256 * b + 65536 * c + 16777216 * d

abbrev with_param : ℕ → ℕ → Option (List Param) → Option (List Param)
with_param tag v none = none
with_param tag v (some ps) =
    if tag == tag_int32
    then some (int v ∷ ps)
    else if tag == tag_float
    then some (float v ∷ ps)
    else none

-- The parameters in bytes that hold nothing else.
pub read_params : List ℕ → Option (List Param)
read_params [] = some []
read_params (tag ∷ a ∷ b ∷ c ∷ d ∷ rest) = with_param tag (word_of a b c d) (read_params rest)
read_params _ = none

abbrev with_opcode : ℕ → Option (List Param) → Option (ℕ × List Param)
with_opcode opcode none = none
with_opcode opcode (some ps) = some (opcode, ps)

pub read_command : List ℕ → Option (ℕ × List Param)
read_command (a ∷ b ∷ rest) = with_opcode (a + 256 * b) (read_params rest)
read_command _ = none

abbrev push : Param → Script → Script
push (int v) s = push_int v s
push (float v) s = push_float v s

abbrev pub push_all : List Param → Script → Script
push_all [] s = s
push_all (p ∷ ps) s = push_all ps (push p s)

abbrev tag_of : Param → ℕ
tag_of (int v) = tag_int32
tag_of (float v) = tag_float

abbrev bytes_of_param : Param → List ℕ
bytes_of_param p = tag_of p ∷ word_bytes (bits p)

params_bytes : List Param → List ℕ
params_bytes [] = []
params_bytes (p ∷ ps) = bytes_of_param p ++ params_bytes ps

abbrev opcode_bytes : ℕ → List ℕ
opcode_bytes opcode = opcode % 256 ∷ opcode / 256 % 256 ∷ []

-- The buffer holds these bytes, and no more were written.
record Holds (bytes : List ℕ) (s : Script) : Type 0 where
  size : length s.buffer ≡ 256
  pos : s.buffer_pos ≡ length bytes
  content : take s.buffer_pos s.buffer ≡ bytes

abbrev pub AllWords : List Param → Type 0
AllWords [] = Unit
AllWords (p ∷ ps) = (bits p < 2 ^ 32) × AllWords ps

length-params_bytes : (ps : List Param) → length (params_bytes ps) ≡ 5 * length ps
unfolding params_bytes
length-params_bytes [] = refl
length-params_bytes (p ∷ ps) = omega (arith, length-params_bytes ps)

reset-Holds :
    (opcode : ℕ) (s : Script) → length s.buffer ≡ 256 → Holds (opcode_bytes opcode) (reset opcode s)
unfolding reset
reset-Holds opcode s h = record {
  size = length-overwrite 0 (opcode_bytes opcode) s.buffer ∙ h;
  pos = refl;
  content = take-overwrite 0 (opcode_bytes opcode) s.buffer (omega (arith, h));
}

-- What both pushes write.
wrote-Holds :
    (tag v : ℕ) (bytes : List ℕ) (s : Script)
    → Holds bytes s
    → length bytes + 5 ≤ 256
    → Holds (bytes ++ tag ∷ word_bytes v) (record s {
      buffer = overwrite s.buffer_pos (tag ∷ word_bytes v) s.buffer;
      buffer_pos = s.buffer_pos + 5;
    })
wrote-Holds tag v bytes s h fit = record {
  size = length-overwrite s.buffer_pos (tag ∷ word_bytes v) s.buffer ∙ h.size;
  pos = omega (arith, h.pos, length-append bytes (tag ∷ word_bytes v));
  content =
      take-overwrite s.buffer_pos (tag ∷ word_bytes v) s.buffer (omega (arith, h.pos, h.size))
      ∙ ap (λ b. b ++ tag ∷ word_bytes v) h.content;
}

push-Holds :
    (p : Param) (bytes : List ℕ) (s : Script)
    → Holds bytes s
    → length bytes + 5 ≤ 256
    → Holds (bytes ++ bytes_of_param p) (push p s)
unfolding push_int push_float
push-Holds (int v) bytes s h fit = wrote-Holds tag_int32 v bytes s h fit
push-Holds (float v) bytes s h fit = wrote-Holds tag_float v bytes s h fit

push_all-Holds :
    (ps : List Param) (bytes : List ℕ) (s : Script)
    → Holds bytes s
    → length bytes + 5 * length ps ≤ 256
    → Holds (bytes ++ params_bytes ps) (push_all ps s)
unfolding params_bytes
push_all-Holds [] bytes s h fit = subst (λ b. Holds b s) (sym (append-nil bytes)) h
push_all-Holds (p ∷ ps) bytes s h fit =
    subst (λ b. Holds b (push_all (p ∷ ps) s))
      (append_assoc bytes (bytes_of_param p) (params_bytes ps))
      (push_all-Holds ps (bytes ++ bytes_of_param p) (push p s)
        (push-Holds p bytes s h (omega (arith, fit)))
        (omega (arith, fit, length-append bytes (bytes_of_param p))))

word_of-word_bytes :
    (v : ℕ)
    → v < 2 ^ 32
    → word_of (v % 256) (v / 256 % 256) (v / 65536 % 256) (v / 16777216 % 256) ≡ v
word_of-word_bytes v h = omega (arith, h)

read_params-params_bytes : (ps : List Param) → AllWords ps → read_params (params_bytes ps) ≡ some ps
unfolding params_bytes read_params
read_params-params_bytes [] h = refl
read_params-params_bytes (int v ∷ ps) h =
    simp (word_of-word_bytes v h.0, read_params-params_bytes ps h.1)
read_params-params_bytes (float v ∷ ps) h =
    simp (word_of-word_bytes v h.0, read_params-params_bytes ps h.1)

read_command-bytes :
    (opcode : ℕ) (ps : List Param)
    → opcode < 2 ^ 16
    → AllWords ps
    → read_command (opcode_bytes opcode ++ params_bytes ps) ≡ some (opcode, ps)
unfolding read_command
read_command-bytes opcode ps small h =
    let whole : opcode % 256 + 256 * (opcode / 256 % 256) ≡ opcode = omega (arith, small) in
    ap (with_opcode _) (read_params-params_bytes ps h) ∙ ap (λ n. some (n, ps)) whole

-- A command of at most 50 parameters, each of 32 bits, keeps inside the buffer of 256 bytes and is
-- read back from it as it was pushed.
pub read_command-push_all :
    (opcode : ℕ) (ps : List Param) (s : Script)
    → opcode < 2 ^ 16
    → AllWords ps
    → length ps ≤ 50
    → length s.buffer ≡ 256
    → let t = push_all ps (reset opcode s) in
      (read_command (take t.buffer_pos t.buffer) ≡ some (opcode, ps))
      × (t.buffer_pos ≤ 256)
      × (length t.buffer ≡ 256)
read_command-push_all opcode ps s small words few size =
    let h =
      push_all-Holds ps (opcode_bytes opcode) (reset opcode s) (reset-Holds opcode s size)
        (omega (arith, few)) in
    (
      ap read_command h.content ∙ read_command-bytes opcode ps small words,
      omega (arith, h.pos, few, length-params_bytes ps),
      h.size,
    )
