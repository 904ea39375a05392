-- ===== src/Examples/Colours.antt =====
-- A text of two lines with a red tag in the first one.
use opensamp.Prelude.{ℕ, ◌*◌, ◌+◌, ◌≡◌, inl, refl, true, List, [], ◌∷◌, ◌++◌, some, length}
use opensamp.Gui.Color.{base, draw_colored_text, draw_line, draw_on_list}
use opensamp.Gui.Color.Glyphs.{paint, flatten, run_glyphs}
use opensamp.Gui.Color.Tags.{Terminated}
use opensamp.Gui.Color.Line.{shown}
use opensamp.Gui.Color.Text.{shown_rows, draw_colored_text-paint, draw_on_list-same}

-- a{FF0000}b, and c in the next line.
abbrev red_text : List ℕ
red_text = 97 ∷ 123 ∷ 70 ∷ 70 ∷ 48 ∷ 48 ∷ 48 ∷ 48 ∷ 125 ∷ 98 ∷ 10 ∷ 99 ∷ []

draw_colored_text-paint_example :
    shown_rows (draw_colored_text (length red_text) (red_text ++ 0 ∷ []))
    ≡ some (paint base 0 red_text)
draw_colored_text-paint_example = draw_colored_text-paint red_text []

draw_on_list-same_example :
    shown run_glyphs (draw_on_list (λ x cs. x + 8 * length cs) true 12 (red_text ++ 0 ∷ []) 100)
    ≡ shown flatten (draw_line 12 12 (red_text ++ 0 ∷ []) true base)
draw_on_list-same_example =
    draw_on_list-same (λ x cs. x + 8 * length cs) red_text 0 [] 100 (inl refl) Terminated.here
