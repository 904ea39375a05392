-- ===== src/Examples/Parts.antt =====
-- The theorems on native/gui/dialog.cpp, and on the identity and the packed values of
-- native/sampraknet_bridge.cpp, at concrete inputs.
use opensamp.Prelude.{
  ℕ, ◌*◌, ◌/◌, ◌%◌, ◌^◌, ◌≡◌, refl, true, false, List, [], ◌∷◌, replicate, take, Option, some,
  arith,
}
use opensamp.Dialog as Dialog
use opensamp.Dialog.{Dialog, Input, Reply, list, show, draw, lines_of, newline}
use opensamp.Dialog.Safety.{Event, shown, drawn, run, IsValid, run-total, Answers, draw-Answers}
use opensamp.Bridge.Gpci.{gpci}
use opensamp.Bridge.Gpci.Value.{big_endian}
use opensamp.Bridge.Gpci.Hex.{hex_value, gpci-value}
use opensamp.Bridge.Sync.Nibble.{IsRounded, decode4, pack4, unpack-pack4}

abbrev two_lines : List ℕ
two_lines = b'a' ∷ 13 ∷ 10 ∷ b'b' ∷ []

abbrev escape : Input
escape = record {
  typed = [];
  entered = false;
  clicks = (1, false) ∷ (7, true) ∷ [];
  main_pressed = false;
  cancel_pressed = false;
  escape_pressed = true;
}

abbrev asked : List Event
asked = shown 7 list [] [] [] two_lines ∷ drawn escape ∷ []

run-total_example :
    (t : List (Option Reply) × Dialog) × (run asked Dialog.initial ≡ some t) × IsValid t.1
run-total_example = run-total asked Dialog.initial tt

abbrev open_dialog : Dialog
open_dialog = record Dialog.initial { active = true; id = 7 }

draw-Answers_example : Answers 7 (draw escape open_dialog)
draw-Answers_example = draw-Answers escape open_dialog tt refl refl

abbrev drawn_chars : List ℕ
drawn_chars = replicate 24 b'A'

gpci-value_example :
    hex_value (gpci drawn_chars 0x3e9) ≡ big_endian (2 ^ 8) 0 (take 20 drawn_chars) * 0x3e9
gpci-value_example = gpci-value drawn_chars 0x3e9 tt (omega arith) (omega arith)

unpack-pack4_example :
    IsRounded 57 (decode4 (pack4 57 400 / 2 ^ 4)) × IsRounded 100 (decode4 (pack4 57 400 % 2 ^ 4))
unpack-pack4_example = unpack-pack4 57 400
