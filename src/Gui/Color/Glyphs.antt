-- ===== src/Gui/Color/Glyphs.antt =====
-- What the tags of native/gui/colored_text.h mean: the colour of each character.
use opensamp.Prelude.{
  ℕ, zero, suc, ◌*◌, ◌+◌, List, [], ◌∷◌, ◌++◌, Option, none, some, map, ◌==◌, if◌then◌else◌,
}
use opensamp.Gui.Color.{Shade, tagged, hex, push, Item, same_line, blank, colored, Run}

-- The tag with which a line starts, where all of it stands in the line.
abbrev pub tag_value : Option ℕ → Option ℕ
tag_value none = none
tag_value (some v) = some (v * 256 + 255)

unfoldable pub tag_digits : ℕ → Option ℕ → List ℕ → Option ℕ
tag_digits n v [] = none
tag_digits zero v (c ∷ s) = if c == 125 then tag_value v else none
tag_digits (suc n) v (c ∷ s) = tag_digits n (push v (hex c)) s

unfoldable pub tag_of : List ℕ → Option ℕ
tag_of [] = none
tag_of (c ∷ s) = if c == 123 then tag_digits 6 (some 0) s else none

abbrev pub Glyph : Type 0
Glyph = Shade × ℕ

abbrev pub before : Glyph → List Glyph × Shade → List Glyph × Shade
before g (gs, cur) = (g ∷ gs, cur)

abbrev pub before_all : List Glyph → List Glyph × Shade → List Glyph × Shade
before_all xs (gs, cur) = (xs ++ gs, cur)

-- The characters of a line and their colours, and the colour behind the line. The number counts the
-- characters of a tag that are still to be passed over.
unfoldable pub glyphs : Shade → ℕ → List ℕ → List Glyph × Shade
glyphs cur n [] = ([], cur)
glyphs cur (suc n) (c ∷ s) = glyphs cur n s
glyphs cur zero (c ∷ s) = elim (tag_of (c ∷ s)) [
  | none ↦ before (cur, c) (glyphs cur 0 s)
  | some v ↦ glyphs (tagged v) 7 s
]

abbrev pub add_glyph : Glyph → List (List Glyph) × Shade → List (List Glyph) × Shade
add_glyph g ([], cur) = ((g ∷ []) ∷ [], cur)
add_glyph g (r ∷ rs, cur) = ((g ∷ r) ∷ rs, cur)

abbrev pub break : List (List Glyph) × Shade → List (List Glyph) × Shade
break (rs, cur) = ([] ∷ rs, cur)

-- The same for a text of several lines, in a single pass over it.
unfoldable pub paint : Shade → ℕ → List ℕ → List (List Glyph) × Shade
paint cur n [] = ([] ∷ [], cur)
paint cur (suc n) (c ∷ s) = paint cur n s
paint cur zero (c ∷ s) = if c == 10 then break (paint cur 0 s) else elim (tag_of (c ∷ s)) [
  | none ↦ add_glyph (cur, c) (paint cur 0 s)
  | some v ↦ paint (tagged v) 7 s
]

-- The characters that a piece shows.
abbrev pub shade_all : Shade → List ℕ → List Glyph
shade_all cur cs = map (λ c. (cur, c)) cs

abbrev pub item_glyphs : Item → List Glyph
item_glyphs same_line = []
item_glyphs blank = []
item_glyphs (colored cur cs) = shade_all cur cs

abbrev pub flatten : List Item → List Glyph
flatten [] = []
flatten (i ∷ is) = item_glyphs i ++ flatten is

abbrev pub run_glyphs : {X : Type 0} → List (Run X) → List Glyph
run_glyphs [] = []
run_glyphs (r ∷ rs) = shade_all r.shade r.bytes ++ run_glyphs rs
