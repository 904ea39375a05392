-- ===== src/Gui/Color.antt =====
-- native/gui/colored_text.h: text with {RRGGBB} tags, as ImGui is asked to draw it. A pointer into
-- the text is the list of the bytes from there to the end of the readable memory, and a reading
-- behind that end is an outcome of its own.
pub mod Glyphs
pub mod Tags
mod Looks
pub mod Line
pub mod Lines
pub mod Text
use opensamp.Prelude.{
  ℕ, zero, suc, ◌+◌, ◌-◌, ◌*◌, Bool, true, false, not, ◌||◌, ◌&&◌, List, [], ◌∷◌, ◌++◌, Option,
  none, some, take, drop, leb, ltb, ◌==◌, if◌then◌else◌,
}

-- The colour of a piece of text: that of the caller, or that of a tag, as ParseHexTag gives it.
-- Either way the alpha is multiplied by the caller's factor.
pub data Shade : Type 0 where
  base : Shade
  tagged : ℕ → Shade

-- hex in ParseHexTag, where none stands for -1.
abbrev pub hex : ℕ → Option ℕ
hex c =
    if leb 48 c && leb c 57
    then some (c - 48)
    else if leb 97 c && leb c 102
    then some (10 + (c - 97))
    else if leb 65 c && leb c 70
    then some (10 + (c - 65))
    else none

-- One more hexadecimal digit of a number.
abbrev pub push : Option ℕ → Option ℕ → Option ℕ
push none d = none
push (some v) none = none
push (some v) (some d) = some (v * 16 + d)

-- What ParseHexTag finds.
pub data Found : Type 0 where
  overrun no_tag : Found
  tag : ℕ → Found

-- The three components of the tag, followed by an alpha of 0xFF.
abbrev pub with_alpha : Option ℕ → Found
with_alpha none = no_tag
with_alpha (some v) = tag (v * 256 + 255)

-- ParseHexTag behind the brace: so many digits are left to look at.
unfoldable pub parse_digits : ℕ → Option ℕ → List ℕ → Found
parse_digits n v [] = overrun
parse_digits zero v (c ∷ s) = if c == 125 then with_alpha v else no_tag
parse_digits (suc n) v (c ∷ s) =
    let rest = parse_digits n (push v (hex c)) s in if c == 0 then no_tag else rest

-- ParseHexTag, for a pointer that is not null.
unfoldable pub parse_hex_tag : List ℕ → Found
parse_hex_tag [] = overrun
parse_hex_tag (c ∷ s) = if c == 123 then parse_digits 6 (some 0) s else no_tag

-- How far nextBrace runs, with so many bytes to the end of the line.
unfoldable pub next_brace : ℕ → List ℕ → ℕ
next_brace zero s = 0
next_brace (suc n) [] = 0
next_brace (suc n) (c ∷ s) = let rest = next_brace n s in if c == 123 then 0 else suc rest

-- What a round of the loop does: it takes a tag's colour, or draws so many bytes.
pub data Move : Type 0 where
  recolour : ℕ → Move
  write : ℕ → Move

abbrev pub move_of : Found → Option Move
move_of overrun = none
move_of no_tag = some (write 1)
move_of (tag v) = some (recolour v)

unfoldable pub look : ℕ → List ℕ → Option Move
look n [] = none
look n (c ∷ s) =
    if c == 123 then move_of (parse_hex_tag (c ∷ s)) else some (write (next_brace n (c ∷ s)))

-- The branches of a round.
abbrev pub move_cases : {A : Type 0} → Option Move → (ℕ → Option A) → (ℕ → Option A) → Option A
move_cases none f g = none
move_cases (some (recolour v)) f g = f v
move_cases (some (write k)) f g = g k

-- SameLine, TextColored, and TextUnformatted of nothing.
pub data Item : Type 0 where
  same_line blank : Item
  colored : Shade → List ℕ → Item

-- emit in DrawLine: what it asks for, and whether still nothing has been drawn.
abbrev pub emit_chunk : Bool → Shade → List ℕ → List Item × Bool
emit_chunk first cur [] = ([], first)
emit_chunk true cur (c ∷ cs) = (colored cur (c ∷ cs) ∷ [], false)
emit_chunk false cur (c ∷ cs) = (same_line ∷ colored cur (c ∷ cs) ∷ [], false)

module _ {A B : Type 0} where
  -- What was asked for, before what comes next.
  abbrev pub prepend : List A → Option (List A × B) → Option (List A × B)
  prepend xs none = none
  prepend xs (some (ys, b)) = some (xs ++ ys, b)

-- DrawLine, for so many rounds at most: n bytes of the line are left at s. None stands for a reading
-- behind the memory, and for a loop that goes on.
unfoldable pub draw_line : ℕ → ℕ → List ℕ → Bool → Shade → Option (List Item × Shade)
draw_line rounds zero s first cur = some (if first then blank ∷ [] else [], cur)
draw_line zero (suc n) s first cur = none
draw_line (suc rounds) (suc n) s first cur =
    move_cases (look (suc n) s) (λ v. draw_line rounds (suc n - 8) (drop 8 s) first (tagged v))
      (λ k.
        let e = emit_chunk first cur (take k s) in
        prepend e.0 (draw_line rounds (suc n - k) (drop k s) e.1 cur))

-- AddText, with the horizontal position.
pub record Run (X : Type 0) : Type 0 where
  pub x : X
  pub shade : Shade
  pub bytes : List ℕ

module _ {X : Type 0} (advance : X → List ℕ → X) where
  -- emit in DrawColoredTextOnDrawList; advance adds the width that CalcTextSize gives.
  abbrev pub add_text : X → Shade → List ℕ → List (Run X) × X
  add_text x cur [] = ([], x)
  add_text x cur (c ∷ cs) = (record { x = x; shade = cur; bytes = c ∷ cs } ∷ [], advance x (c ∷ cs))

  -- The loop of DrawColoredTextOnDrawList.
  unfoldable pub draw_runs : ℕ → ℕ → List ℕ → X → Shade → Option (List (Run X) × Shade)
  draw_runs rounds zero s x cur = some ([], cur)
  draw_runs zero (suc n) s x cur = none
  draw_runs (suc rounds) (suc n) s x cur =
      move_cases (look (suc n) s) (λ v. draw_runs rounds (suc n - 8) (drop 8 s) x (tagged v))
        (λ k.
          let e = add_text x cur (take k s) in
          prepend e.0 (draw_runs rounds (suc n - k) (drop k s) e.1 cur))

  -- DrawColoredTextOnDrawList, with whether there is a list to draw on.
  unfoldable pub draw_on_list : Bool → ℕ → List ℕ → X → Option (List (Run X) × Shade)
  draw_on_list dl zero s x = some ([], base)
  draw_on_list false (suc n) s x = some ([], base)
  draw_on_list true (suc n) s x = draw_runs (suc n) (suc n) s x base

-- How far lineEnd runs.
unfoldable pub line_end : ℕ → List ℕ → ℕ
line_end zero s = 0
line_end (suc n) [] = 0
line_end (suc n) (c ∷ s) = let rest = line_end n s in if c == 10 then 0 else suc rest

-- What follows the drawing of a line.
abbrev pub row_cases :
    {A : Type 0} → Option (List Item × Shade) → (List Item → Shade → Option A) → Option A
row_cases none f = none
row_cases (some (items, shade)) f = f items shade

-- The loop of DrawColoredText, for so many lines at most.
unfoldable pub draw_lines : ℕ → ℕ → List ℕ → Shade → Option (List (List Item) × Shade)
draw_lines zero n s cur = none
draw_lines (suc lines) n s cur =
    let k = line_end n s in
    row_cases (draw_line k k s true cur) (λ items shade.
      if ltb k n
      then prepend (items ∷ []) (draw_lines lines (n - suc k) (drop (suc k) s) shade)
      else some (items ∷ [], shade))

-- DrawColoredText: the items of each line.
unfoldable pub draw_colored_text : ℕ → List ℕ → Option (List (List Item) × Shade)
draw_colored_text n s = draw_lines (suc n) n s base
