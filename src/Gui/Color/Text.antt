-- ===== src/Gui/Color/Text.antt =====
-- DrawColoredText of native/gui/colored_text.h, line by line.
use mathlib.Core.Path.{subst}
use mathlib.Core.List.{append_assoc}
use mathlib.Core.Option.{some-injective}
use opensamp.Prelude.{
  ℕ, zero, suc, ◌-◌, ◌<◌, ◌≡◌, inl, inr, refl, sym, ap, ◌∙◌, Bool, true, false, List, [], ◌∷◌, ◌++◌,
  Option, none, some, map, length, length-append, drop, ltb, if◌then◌else◌, arith,
}
use opensamp.Gui.Color.{
  Shade, base, Item, draw_line, row_cases, prepend, line_end, draw_lines, draw_colored_text,
  draw_on_list,
}
use opensamp.Gui.Color.Glyphs.{Glyph, glyphs, paint, flatten, run_glyphs}
use opensamp.Gui.Color.Tags.{Terminated, IsEnd}
use opensamp.Gui.Color.Line.{shown, none_there, draw_line-glyphs, draw_runs-glyphs}
use opensamp.Gui.Color.Lines.{IsLine, Broken, break_off, row, paint-newline, paint-last}

line_end-last : (line t : List ℕ) → IsLine line → line_end (length line) (line ++ t) ≡ length line
unfolding line_end
line_end-last [] t h = refl
line_end-last (c ∷ line) t (IsLine.cons d h) =
    ap (λ b. if b then 0 else suc (line_end (length line) (line ++ t))) d
    ∙ ap suc (line_end-last line t h)

line_end-newline :
    (line u t : List ℕ)
    → IsLine line
    → line_end (length (line ++ 10 ∷ u)) (line ++ 10 ∷ t) ≡ length line
unfolding line_end
line_end-newline [] u t h = refl
line_end-newline (c ∷ line) u t (IsLine.cons d h) =
    ap (λ b. if b then 0 else suc (line_end (length (line ++ 10 ∷ u)) (line ++ 10 ∷ t))) d
    ∙ ap suc (line_end-newline line u t h)

drop-line : (line : List ℕ) (c : ℕ) (t : List ℕ) → drop (suc (length line)) (line ++ c ∷ t) ≡ t
drop-line [] c t = refl
drop-line (d ∷ line) c t = drop-line line c t

if_true : {A : Type 0} (b : Bool) (x y : A) → b ≡ true → (if b then x else y) ≡ x
if_true true x y e = refl
if_true false x y e = cc

if_false : {A : Type 0} (b : Bool) (x y : A) → b ≡ false → (if b then x else y) ≡ y
if_false true x y e = cc
if_false false x y e = refl

-- The characters of each row that is drawn.
abbrev pub shown_rows : Option (List (List Item) × Shade) → Option (List (List Glyph) × Shade)
shown_rows none = none
shown_rows (some (rs, cur)) = some (map flatten rs, cur)

shown_rows-prepend :
    (items : List Item) (q : Option (List (List Item) × Shade)) (r : List (List Glyph) × Shade)
    → shown_rows q ≡ some r
    → shown_rows (prepend (items ∷ []) q) ≡ some (row (flatten items) r)
shown_rows-prepend items none r e = cc
shown_rows-prepend items (some (rs, cur)) r e =
    ap (λ t. some (row (flatten items) t)) (some-injective _ _ e)

shown-row_cases :
    (r : Option (List Item × Shade)) (f : List Item → Shade → Option (List (List Item) × Shade))
    (g : List Glyph × Shade) {x : Option (List (List Glyph) × Shade)}
    → shown flatten r ≡ some g
    → ((items : List Item) → flatten items ≡ g.0 → shown_rows (f items g.1) ≡ x)
    → shown_rows (row_cases r f) ≡ x
shown-row_cases none f g e h = cc
shown-row_cases (some (items, shade)) f g {x = x} e h =
    let q = some-injective _ _ e in
    subst (λ t. shown_rows (f items t) ≡ x) (sym (ap (λ t. t.1) q)) (h items (ap (λ t. t.0) q))

module _ (lines n : ℕ) (s : List ℕ) (cur : Shade) (g : List Glyph × Shade) where
  draw_lines-last :
      (k : ℕ)
      → line_end n s ≡ k
      → (shown flatten (draw_line k k s true cur) ≡ some g) × (ltb k n ≡ false)
      → shown_rows (draw_lines (suc lines) n s cur) ≡ some (g.0 ∷ [], g.1)
  unfolding draw_lines
  draw_lines-last k e h =
      let q =
        subst (λ k. (shown flatten (draw_line k k s true cur) ≡ some g) × (ltb k n ≡ false)) (sym e)
          h in
      shown-row_cases _ _ g q.0 (λ items p.
        ap shown_rows (if_false (ltb (line_end n s) n) _ _ q.1) ∙ ap (λ t. some (t ∷ [], g.1)) p)

  abbrev Next : (List (List Glyph) × Shade) → ℕ → Type 0
  Next r k =
      (shown flatten (draw_line k k s true cur) ≡ some g)
      × (ltb k n ≡ true)
      × (shown_rows (draw_lines lines (n - suc k) (drop (suc k) s) g.1) ≡ some r)

  draw_lines_onward :
      {r : List (List Glyph) × Shade} (k : ℕ)
      → line_end n s ≡ k
      → Next r k
      → shown_rows (draw_lines (suc lines) n s cur) ≡ some (row g.0 r)
  unfolding draw_lines
  draw_lines_onward {r} k e h =
      let q = subst (Next r) (sym e) h in
      shown-row_cases _ _ g q.0 (λ items p.
        ap shown_rows (if_true (ltb (line_end n s) n) _ _ q.1)
        ∙ shown_rows-prepend items _ r q.2
        ∙ ap (λ t. some (row t r)) p)

ltb_same : (n : ℕ) → ltb n n ≡ false
ltb_same n = ground arith

ltb_less : (n m : ℕ) → n < m → ltb n m ≡ true
ltb_less n m h = ground arith

module _ (m : List ℕ) (lines : ℕ) where
  -- What the lines behind one show.
  abbrev Rest : Type 0
  Rest =
      (rest : List ℕ) (cur : Shade)
      → length rest < lines
      → shown_rows (draw_lines lines (length rest) (rest ++ 0 ∷ m) cur) ≡ some (paint cur 0 rest)

  draw_lines-whole :
      (text : List ℕ) (cur : Shade)
      → IsLine text
      → shown_rows (draw_lines (suc lines) (length text) (text ++ 0 ∷ m) cur)
        ≡ some (paint cur 0 text)
  draw_lines-whole text cur h =
      draw_lines-last lines (length text) (text ++ 0 ∷ m) cur (glyphs cur 0 text) (length text)
        (line_end-last text (0 ∷ m) h)
        (
          draw_line-glyphs 0 m (inl refl) Terminated.here (length text) text true cur (omega arith),
          ltb_same (length text),
        )
      ∙ ap some (sym (paint-last cur text h))

  text-Terminated : (rest : List ℕ) → Terminated (rest ++ 0 ∷ m)
  text-Terminated [] = Terminated.here
  text-Terminated (c ∷ rest) = Terminated.there (text-Terminated rest)

  draw_lines-broken :
      (line rest : List ℕ) (cur : Shade)
      → IsLine line
      → length (line ++ 10 ∷ rest) < suc lines
      → Rest
      → shown_rows
          (draw_lines (suc lines) (length (line ++ 10 ∷ rest)) ((line ++ 10 ∷ rest) ++ 0 ∷ m) cur)
        ≡ some (paint cur 0 (line ++ 10 ∷ rest))
  draw_lines-broken line rest cur h l ih =
      let n = length (line ++ 10 ∷ rest) in
      let s = line ++ 10 ∷ (rest ++ 0 ∷ m) in
      let g = glyphs cur 0 line in
      let size = length-append line (10 ∷ rest) in
      ap (λ t. shown_rows (draw_lines (suc lines) n t cur)) (append_assoc line (10 ∷ rest) (0 ∷ m))
      ∙ draw_lines_onward lines n s cur g (length line)
          (line_end-newline line rest (rest ++ 0 ∷ m) h)
          (
            draw_line-glyphs 10 (rest ++ 0 ∷ m) (inr refl) (Terminated.there (text-Terminated rest))
                (length line) line true cur (omega arith),
            ltb_less (length line) n (omega (arith, size)),
            (ap (λ t. shown_rows (draw_lines lines (n - suc (length line)) t g.1))
                  (drop-line line 10 _)
                ∙ ap (λ k. shown_rows (draw_lines lines k (rest ++ 0 ∷ m) g.1))
                    (omega (arith, size))
                ∙ ih rest g.1 (omega (arith, size))),
          )
      ∙ ap some (sym (paint-newline cur line rest h))

  draw_lines-either :
      (text : List ℕ) (cur : Shade)
      → Broken text
      → length text < suc lines
      → Rest
      → shown_rows (draw_lines (suc lines) (length text) (text ++ 0 ∷ m) cur)
        ≡ some (paint cur 0 text)
  draw_lines-either text cur (Broken.whole h) l ih = draw_lines-whole text cur h
  draw_lines-either text cur (Broken.broken line rest h e) l ih =
      subst
        (λ t.
          shown_rows (draw_lines (suc lines) (length t) (t ++ 0 ∷ m) cur) ≡ some (paint cur 0 t))
        (sym e) (draw_lines-broken line rest cur h (subst (λ t. length t < suc lines) e l) ih)

draw_lines-paint : (m : List ℕ) (lines : ℕ) → Rest m lines
draw_lines-paint m zero text cur l = elim (none_there (length text) l) [ ]
draw_lines-paint m (suc lines) text cur l =
    draw_lines-either m lines text cur (break_off text) l (draw_lines-paint m lines)

-- A text that ends with a null byte is drawn to its end, and no byte behind the null byte is read:
-- the rows show just the characters outside the {RRGGBB} tags, in order, a row for each line of the
-- text, each character in the colour of the last tag before it in the whole text, or in the caller's
-- colour.
pub draw_colored_text-paint :
    (text m : List ℕ)
    → shown_rows (draw_colored_text (length text) (text ++ 0 ∷ m)) ≡ some (paint base 0 text)
unfolding draw_colored_text
draw_colored_text-paint text m = draw_lines-paint m (suc (length text)) text base (omega arith)

-- On a draw list, a line that a null byte or a newline ends shows the same characters in the same
-- colours as in a window, whatever the widths of its pieces, and leaves the same colour behind.
pub draw_on_list-same :
    {X : Type 0} (advance : X → List ℕ → X) (line : List ℕ) (e : ℕ) (m : List ℕ) (x : X)
    → IsEnd e
    → Terminated (e ∷ m)
    → shown run_glyphs (draw_on_list advance true (length line) (line ++ e ∷ m) x)
      ≡ shown flatten (draw_line (length line) (length line) (line ++ e ∷ m) true base)
unfolding draw_on_list draw_line
draw_on_list-same advance [] e m x ends h = refl
draw_on_list-same advance (c ∷ line) e m x ends h =
    draw_runs-glyphs advance e m ends h (length (c ∷ line)) (c ∷ line) x base (omega arith)
    ∙ sym (draw_line-glyphs e m ends h (length (c ∷ line)) (c ∷ line) true base (omega arith))
