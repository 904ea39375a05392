-- ===== src/Gui/Color/Lines.antt =====
-- DrawColoredText of native/gui/colored_text.h draws a text of several lines as one pass over it says.
use mathlib.Core.List.{append-nil}
use opensamp.Prelude.{
  ℕ, zero, suc, ◌≤◌, ◌≡◌, inl, inr, refl, sym, ap, ◌∙◌, false, List, [], ◌∷◌, ◌++◌, Option, none,
  some, length, ◌==◌, ==_iff, if◌then◌else◌, arith, Bool-cases,
}
use opensamp.Gui.Color.{Shade, tagged}
use opensamp.Gui.Color.Glyphs.{Glyph, tag_of, add_glyph, break, glyphs, paint}
use opensamp.Gui.Color.Tags.{tag_of-length, tag_of-newline}
use opensamp.Gui.Color.Line.{none_there}
use opensamp.Gui.Color.Looks.{glyphs-recolour, glyphs-character}

-- There is no newline.
pub data IsLine : List ℕ → Type 0 where
  nil : IsLine []
  cons : {c : ℕ} {s : List ℕ} → (c == 10) ≡ false → IsLine s → IsLine (c ∷ s)

-- Characters before the rows of what follows.
put : List Glyph → List (List Glyph) × Shade → List (List Glyph) × Shade
put [] rs = rs
put (g ∷ gs) rs = add_glyph g (put gs rs)

paint-recolour :
    (cur : Shade) (c : ℕ) (u : List ℕ) (v : ℕ)
    → (c == 10) ≡ false
    → tag_of (c ∷ u) ≡ some v
    → paint cur 0 (c ∷ u) ≡ paint (tagged v) 7 u
unfolding paint
paint-recolour cur c u v d h =
    ap
      (λ b. if b then break (paint cur 0 u) else elim (tag_of (c ∷ u)) [
        | none ↦ add_glyph (cur, c) (paint cur 0 u)
        | some w ↦ paint (tagged w) 7 u
      ])
      d
    ∙ ap (λ o. elim o [ none ↦ add_glyph (cur, c) (paint cur 0 u) | some w ↦ paint (tagged w) 7 u ])
        h

paint-character :
    (cur : Shade) (c : ℕ) (u : List ℕ)
    → (c == 10) ≡ false
    → tag_of (c ∷ u) ≡ none
    → paint cur 0 (c ∷ u) ≡ add_glyph (cur, c) (paint cur 0 u)
unfolding paint
paint-character cur c u d h =
    ap
      (λ b. if b then break (paint cur 0 u) else elim (tag_of (c ∷ u)) [
        | none ↦ add_glyph (cur, c) (paint cur 0 u)
        | some w ↦ paint (tagged w) 7 u
      ])
      d
    ∙ ap (λ o. elim o [ none ↦ add_glyph (cur, c) (paint cur 0 u) | some w ↦ paint (tagged w) 7 u ])
        h

-- The rows of what follows, behind the characters of a line.
abbrev behind : List Glyph × Shade → List ℕ → List (List Glyph) × Shade
behind (gs, cur) t = put gs (paint cur 0 t)

module _ (t : List ℕ) (apart : (c : ℕ) (s : List ℕ) → tag_of (c ∷ s ++ t) ≡ tag_of (c ∷ s)) where
  paint-step :
      (cur : Shade) (c : ℕ) (s : List ℕ)
      → (c == 10) ≡ false
      → (o : Option ℕ) → tag_of (c ∷ s) ≡ o
      → paint cur 0 (s ++ t) ≡ behind (glyphs cur 0 s) t
      → ((v : ℕ) → 7 ≤ length s → paint (tagged v) 7 (s ++ t) ≡ behind (glyphs (tagged v) 7 s) t)
      → paint cur 0 (c ∷ s ++ t) ≡ behind (glyphs cur 0 (c ∷ s)) t
  unfolding put
  paint-step cur c s d none e p q =
      paint-character cur c (s ++ t) d (apart c s ∙ e)
      ∙ ap (add_glyph (cur, c)) p
      ∙ sym (ap (λ r. behind r t) (glyphs-character cur c s e))
  paint-step cur c s d (some v) e p q =
      paint-recolour cur c (s ++ t) v d (apart c s ∙ e)
      ∙ q v (tag_of-length c s e)
      ∙ sym (ap (λ r. behind r t) (glyphs-recolour cur c s v e))

  paint-put :
      (cur : Shade) (n : ℕ) (s : List ℕ)
      → n ≤ length s
      → IsLine s
      → paint cur n (s ++ t) ≡ behind (glyphs cur n s) t
  unfolding paint glyphs put
  paint-put cur zero [] l h = refl
  paint-put cur (suc n) [] l h = elim (none_there n l) [ ]
  paint-put cur (suc n) (c ∷ s) l (IsLine.cons d h) = paint-put cur n s (omega arith) h
  paint-put cur zero (c ∷ s) l (IsLine.cons d h) =
      paint-step cur c s d (tag_of (c ∷ s)) refl (paint-put cur 0 s (omega arith) h)
        (λ v k. paint-put (tagged v) 7 s k h)

-- A text is a line, or a line and a newline before a text.
pub data Broken (text : List ℕ) : Type 0 where
  whole : IsLine text → Broken text
  broken : (line rest : List ℕ) → IsLine line → text ≡ line ++ 10 ∷ rest → Broken text

extend : (c : ℕ) (s : List ℕ) → (c == 10) ≡ false → Broken s → Broken (c ∷ s)
extend c s d (Broken.whole h) = Broken.whole (IsLine.cons d h)
extend c s d (Broken.broken line rest h e) =
    Broken.broken (c ∷ line) rest (IsLine.cons d h) (ap (λ r. c ∷ r) e)

pub break_off : (text : List ℕ) → Broken text
break_off [] = Broken.whole IsLine.nil
break_off (c ∷ s) = elim (Bool-cases (c == 10)) [
  | inl h ↦ Broken.broken [] s IsLine.nil (ap (λ d. d ∷ s) ((==_iff c 10).0 h))
  | inr h ↦ extend c s h (break_off s)
]

-- The first row.
abbrev pub row : List Glyph → List (List Glyph) × Shade → List (List Glyph) × Shade
row gs (rs, cur) = (gs ∷ rs, cur)

put-break : (gs : List Glyph) (rs : List (List Glyph) × Shade) → put gs (break rs) ≡ row gs rs
unfolding put
put-break [] rs = refl
put-break (g ∷ gs) rs = ap (add_glyph g) (put-break gs rs)

-- A line before a newline, and the last line.
pub paint-newline :
    (cur : Shade) (s rest : List ℕ)
    → IsLine s
    → (let g = glyphs cur 0 s in paint cur 0 (s ++ 10 ∷ rest) ≡ row g.0 (paint g.1 0 rest))
unfolding paint
paint-newline cur s rest h =
    paint-put (10 ∷ rest) (λ c u. tag_of-newline c u rest) cur 0 s (omega arith) h ∙ put-break _ _

put-last : (gs : List Glyph) (cur : Shade) → put gs ([] ∷ [], cur) ≡ (gs ∷ [], cur)
unfolding put
put-last [] cur = refl
put-last (g ∷ gs) cur = ap (add_glyph g) (put-last gs cur)

pub paint-last :
    (cur : Shade) (s : List ℕ)
    → IsLine s
    → (let g = glyphs cur 0 s in paint cur 0 s ≡ (g.0 ∷ [], g.1))
unfolding paint
paint-last cur s h =
    ap (paint cur 0) (sym (append-nil s))
    ∙ paint-put [] (λ c u. ap (λ v. tag_of (c ∷ v)) (append-nil u)) cur 0 s (omega arith) h
    ∙ put-last _ _
