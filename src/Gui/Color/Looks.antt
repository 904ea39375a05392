-- ===== src/Gui/Color/Looks.antt =====
-- What the loops of native/gui/colored_text.h find at a place in a line.
use mathlib.Core.Path.{subst}
use opensamp.Prelude.{
  ℕ, zero, suc, ◌≤◌, ◌≡◌, refl, sym, ap, ◌∙◌, List, [], ◌∷◌, ◌++◌, Option, none, some, length, take,
  drop, ◌==◌, if_cases, if◌then◌else◌, arith,
}
use opensamp.Gui.Color.{Shade, tagged, Move, recolour, write, move_of, look, next_brace}
use opensamp.Gui.Color.Glyphs.{tag_of, before, before_all, glyphs, shade_all}
use opensamp.Gui.Color.Tags.{Terminated, IsEnd, found, parse_hex_tag-lem, tag_of-plain}

pub glyphs-skip : (cur : Shade) (n : ℕ) (s : List ℕ) → glyphs cur n s ≡ glyphs cur 0 (drop n s)
unfolding glyphs
glyphs-skip cur zero s = refl
glyphs-skip cur (suc n) [] = refl
glyphs-skip cur (suc n) (c ∷ s) = glyphs-skip cur n s

pub glyphs-recolour :
    (cur : Shade) (c : ℕ) (s : List ℕ) (v : ℕ)
    → tag_of (c ∷ s) ≡ some v
    → glyphs cur 0 (c ∷ s) ≡ glyphs (tagged v) 7 s
unfolding glyphs
glyphs-recolour cur c s v h =
    ap (λ o. elim o [ none ↦ before (cur, c) (glyphs cur 0 s) | some w ↦ glyphs (tagged w) 7 s ]) h

pub glyphs-tag :
    (cur : Shade) (c : ℕ) (s : List ℕ) (v : ℕ)
    → tag_of (c ∷ s) ≡ some v
    → glyphs cur 0 (c ∷ s) ≡ glyphs (tagged v) 0 (drop 7 s)
glyphs-tag cur c s v h = glyphs-recolour cur c s v h ∙ glyphs-skip (tagged v) 7 s

pub glyphs-character :
    (cur : Shade) (c : ℕ) (s : List ℕ)
    → tag_of (c ∷ s) ≡ none
    → glyphs cur 0 (c ∷ s) ≡ before (cur, c) (glyphs cur 0 s)
unfolding glyphs
glyphs-character cur c s h =
    ap (λ o. elim o [ none ↦ before (cur, c) (glyphs cur 0 s) | some w ↦ glyphs (tagged w) 7 s ]) h

-- Some characters up to the next brace.
glyphs-run :
    (cur : Shade) (s m : List ℕ)
    → (let k = next_brace (length s) (s ++ m) in
        glyphs cur 0 s ≡ before_all (shade_all cur (take k s)) (glyphs cur 0 (drop k s)))
unfolding next_brace
glyphs-run cur [] m = refl
glyphs-run cur (c ∷ s) m =
    if_cases
      (λ k.
        glyphs cur 0 (c ∷ s)
        ≡ before_all (shade_all cur (take k (c ∷ s))) (glyphs cur 0 (drop k (c ∷ s))))
      (c == 123) (λ h. refl)
      (λ h.
        glyphs-character cur c s (tag_of-plain c s h) ∙ ap (before (cur, c)) (glyphs-run cur s m))

-- What a look at a line leads to.
pub data Looked (c : ℕ) (s : List ℕ) (r : Option Move) : Type 0 where
  recolours : (v : ℕ) → tag_of (c ∷ s) ≡ some v → r ≡ some (recolour v) → Looked c s r
  writes :
      (k : ℕ)
      → k ≤ length s
      → ((cur : Shade)
          → glyphs cur 0 (c ∷ s)
            ≡ before_all (shade_all cur (c ∷ take k s)) (glyphs cur 0 (drop k s)))
      → r ≡ some (write (suc k))
      → Looked c s r

next_brace-length : (s m : List ℕ) → next_brace (length s) (s ++ m) ≤ length s
unfolding next_brace
next_brace-length [] m = omega arith
next_brace-length (c ∷ s) m =
    if_cases (λ k. k ≤ suc (length s)) (c == 123) (λ h. omega arith)
      (λ h. omega (arith, next_brace-length s m))

module _ (e : ℕ) (m : List ℕ) (ends : IsEnd e) (h : Terminated (e ∷ m)) where
  look-brace :
      (c : ℕ) (s : List ℕ) (o : Option ℕ) → tag_of (c ∷ s) ≡ o → Looked c s (move_of (found o))
  look-brace c s none p = Looked.writes 0 (omega arith) (λ cur. glyphs-character cur c s p) refl
  look-brace c s (some v) p = Looked.recolours v p refl

  pub look-Looked : (c : ℕ) (s : List ℕ) → Looked c s (look (suc (length s)) (c ∷ s ++ e ∷ m))
  unfolding look next_brace
  look-Looked c s =
      if_cases (Looked c s) (c == 123)
        (λ p.
          subst (λ r. Looked c s (move_of r)) (sym (parse_hex_tag-lem e m ends h c s))
            (look-brace c s (tag_of (c ∷ s)) refl))
        (λ p.
          Looked.writes (next_brace (length s) (s ++ e ∷ m)) (next_brace-length s (e ∷ m))
            (λ cur.
              glyphs-character cur c s (tag_of-plain c s p)
              ∙ ap (before (cur, c)) (glyphs-run cur s (e ∷ m)))
            (ap (λ b. some (write (if b then 0 else suc (next_brace (length s) (s ++ e ∷ m))))) p))
