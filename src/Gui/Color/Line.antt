-- ===== src/Gui/Color/Line.antt =====
-- DrawLine and DrawColoredTextOnDrawList of native/gui/colored_text.h draw a line as its tags say.
use mathlib.Core.Path.{subst}
use mathlib.Core.List.{append-nil, append_assoc}
use mathlib.Core.Option.{some-injective}
use opensamp.Prelude.{
  ℕ, zero, suc, ◌-◌, ◌≤◌, ◌≡◌, refl, sym, ap, ◌∙◌, Bool, true, false, List, [], ◌∷◌, ◌++◌, Option,
  none, some, length, length-drop, take, drop, if◌then◌else◌, arith,
}
use opensamp.Gui.Color.{
  Shade, tagged, Move, move_cases, Item, blank, emit_chunk, prepend, draw_line, Run, add_text,
  draw_runs,
}
use opensamp.Gui.Color.Glyphs.{
  Glyph, tag_of, before_all, glyphs, shade_all, item_glyphs, flatten, run_glyphs,
}
use opensamp.Gui.Color.Tags.{Terminated, IsEnd, tag_of-length}
use opensamp.Gui.Color.Looks.{Looked, look-Looked, glyphs-tag}

module _ {A : Type 0} (flat : List A → List Glyph) where
  -- What a drawing shows.
  abbrev pub shown : Option (List A × Shade) → Option (List Glyph × Shade)
  shown none = none
  shown (some (xs, cur)) = some (flat xs, cur)

  shown-cases :
      {c : ℕ} {s : List ℕ} {r : Option Move} (f g : ℕ → Option (List A × Shade))
      {x : Option (List Glyph × Shade)}
      → Looked c s r
      → ((v : ℕ) → tag_of (c ∷ s) ≡ some v → shown (f v) ≡ x)
      → ((k : ℕ)
          → k ≤ length s
          → ((cur : Shade)
              → glyphs cur 0 (c ∷ s)
                ≡ before_all (shade_all cur (c ∷ take k s)) (glyphs cur 0 (drop k s)))
          → shown (g (suc k)) ≡ x)
      → shown (move_cases r f g) ≡ x
  shown-cases f g {x = x} (Looked.recolours v p q) a b =
      subst (λ t. shown (move_cases t f g) ≡ x) (sym q) (a v p)
  shown-cases f g {x = x} (Looked.writes k l p q) a b =
      subst (λ t. shown (move_cases t f g) ≡ x) (sym q) (b k l p)

  shown-prepend :
      ((xs ys : List A) → flat (xs ++ ys) ≡ flat xs ++ flat ys)
      → (xs : List A) (r : Option (List A × Shade)) {gs : List Glyph} {g : List Glyph × Shade}
      → flat xs ≡ gs
      → shown r ≡ some g
      → shown (prepend xs r) ≡ some (before_all gs g)
  shown-prepend d xs none p q = cc
  shown-prepend d xs (some (ys, cur)) {gs} {g} p q =
      ap (λ zs. some (zs, cur)) (d xs ys ∙ ap (λ zs. zs ++ flat ys) p)
      ∙ ap some (ap (before_all gs) (some-injective _ _ q))

pub none_there : (n : ℕ) → suc n ≤ 0 → ⊥
none_there n h = omega arith

drop-append : (n : ℕ) (s t : List ℕ) → n ≤ length s → drop n (s ++ t) ≡ drop n s ++ t
drop-append zero s t h = refl
drop-append (suc n) [] t h = elim (none_there n h) [ ]
drop-append (suc n) (c ∷ s) t h = drop-append n s t (omega arith)

take-append : (n : ℕ) (s t : List ℕ) → n ≤ length s → take n (s ++ t) ≡ take n s
take-append zero s t h = refl
take-append (suc n) [] t h = elim (none_there n h) [ ]
take-append (suc n) (c ∷ s) t h = ap (λ r. c ∷ r) (take-append n s t (omega arith))

flatten-append : (xs ys : List Item) → flatten (xs ++ ys) ≡ flatten xs ++ flatten ys
flatten-append [] ys = refl
flatten-append (x ∷ xs) ys =
    ap (λ r. item_glyphs x ++ r) (flatten-append xs ys)
    ∙ sym (append_assoc (item_glyphs x) (flatten xs) (flatten ys))

flatten-emit_chunk :
    (first : Bool) (cur : Shade) (cs : List ℕ)
    → flatten (emit_chunk first cur cs).0 ≡ shade_all cur cs
flatten-emit_chunk first cur [] = refl
flatten-emit_chunk true cur (c ∷ cs) = append-nil _
flatten-emit_chunk false cur (c ∷ cs) = append-nil _

flatten-none : (first : Bool) → flatten (if first then blank ∷ [] else []) ≡ []
flatten-none true = refl
flatten-none false = refl

module _ (e : ℕ) (m : List ℕ) (ends : IsEnd e) (h : Terminated (e ∷ m)) where
  -- The rest of the line, in its place.
  at_rest :
      (P : ℕ → List ℕ → Type 0) (n : ℕ) (s : List ℕ)
      → n ≤ length s
      → P (length (drop n s)) (drop n s ++ e ∷ m)
      → P (suc (length s) - suc n) (drop n (s ++ e ∷ m))
  at_rest P n s l p =
      subst (λ t. P (suc (length s) - suc n) t) (sym (drop-append n s (e ∷ m) l))
        (subst (λ k. P k (drop n s ++ e ∷ m)) (omega (arith, length-drop n s)) p)

  pub draw_line-glyphs :
      (rounds : ℕ) (s : List ℕ) (first : Bool) (cur : Shade)
      → length s ≤ rounds
      → shown flatten (draw_line rounds (length s) (s ++ e ∷ m) first cur) ≡ some (glyphs cur 0 s)
  unfolding draw_line glyphs
  draw_line-glyphs zero [] first cur l = ap (λ gs. some (gs, cur)) (flatten-none first)
  draw_line-glyphs (suc rounds) [] first cur l = ap (λ gs. some (gs, cur)) (flatten-none first)
  draw_line-glyphs zero (c ∷ s) first cur l = elim (none_there (length s) l) [ ]
  draw_line-glyphs (suc rounds) (c ∷ s) first cur l =
      shown-cases flatten _ _ (look-Looked e m ends h c s)
        (λ v p.
          at_rest
            (λ n t.
              shown flatten (draw_line rounds n t first (tagged v)) ≡ some (glyphs cur 0 (c ∷ s)))
            7 s (tag_of-length c s p)
            (draw_line-glyphs rounds (drop 7 s) first (tagged v) (omega (arith, length-drop 7 s))
              ∙ ap some (sym (glyphs-tag cur c s v p))))
        (λ k n p.
          shown-prepend flatten flatten-append (emit_chunk first cur (c ∷ take k (s ++ e ∷ m))).0 _
            (flatten-emit_chunk first cur (c ∷ take k (s ++ e ∷ m))
              ∙ ap (λ r. shade_all cur (c ∷ r)) (take-append k s (e ∷ m) n))
            (at_rest
              (λ n t.
                shown flatten
                  (draw_line rounds n t (emit_chunk first cur (c ∷ take k (s ++ e ∷ m))).1 cur)
                ≡ some (glyphs cur 0 (drop k s)))
              k s n (draw_line-glyphs rounds (drop k s) _ cur (omega (arith, length-drop k s))))
          ∙ ap some (sym (p cur)))

module _ {X : Type 0} (advance : X → List ℕ → X) where
  run_glyphs-append :
      (xs ys : List (Run X)) → run_glyphs (xs ++ ys) ≡ run_glyphs xs ++ run_glyphs ys
  run_glyphs-append [] ys = refl
  run_glyphs-append (x ∷ xs) ys =
      ap (λ r. shade_all x.shade x.bytes ++ r) (run_glyphs-append xs ys)
      ∙ sym (append_assoc (shade_all x.shade x.bytes) (run_glyphs xs) (run_glyphs ys))

  run_glyphs-add_text :
      (x : X) (cur : Shade) (cs : List ℕ)
      → run_glyphs (add_text advance x cur cs).0 ≡ shade_all cur cs
  run_glyphs-add_text x cur [] = refl
  run_glyphs-add_text x cur (c ∷ cs) = append-nil _

  module _ (e : ℕ) (m : List ℕ) (ends : IsEnd e) (h : Terminated (e ∷ m)) where
    pub draw_runs-glyphs :
        (rounds : ℕ) (s : List ℕ) (x : X) (cur : Shade)
        → length s ≤ rounds
        → shown run_glyphs (draw_runs advance rounds (length s) (s ++ e ∷ m) x cur)
          ≡ some (glyphs cur 0 s)
    unfolding draw_runs glyphs
    draw_runs-glyphs zero [] x cur l = refl
    draw_runs-glyphs (suc rounds) [] x cur l = refl
    draw_runs-glyphs zero (c ∷ s) x cur l = elim (none_there (length s) l) [ ]
    draw_runs-glyphs (suc rounds) (c ∷ s) x cur l =
        shown-cases run_glyphs _ _ (look-Looked e m ends h c s)
          (λ v p.
            at_rest e m ends h
              (λ n t.
                shown run_glyphs (draw_runs advance rounds n t x (tagged v))
                ≡ some (glyphs cur 0 (c ∷ s)))
              7 s (tag_of-length c s p)
              (draw_runs-glyphs rounds (drop 7 s) x (tagged v) (omega (arith, length-drop 7 s))
                ∙ ap some (sym (glyphs-tag cur c s v p))))
          (λ k n p.
            let cs = c ∷ take k (s ++ e ∷ m) in
            shown-prepend run_glyphs run_glyphs-append (add_text advance x cur cs).0 _
              (run_glyphs-add_text x cur cs
                ∙ ap (λ r. shade_all cur (c ∷ r)) (take-append k s (e ∷ m) n))
              (at_rest e m ends h
                (λ n t.
                  shown run_glyphs (draw_runs advance rounds n t (advance x cs) cur)
                  ≡ some (glyphs cur 0 (drop k s)))
                k s n
                (draw_runs-glyphs rounds (drop k s) (advance x cs) cur
                  (omega (arith, length-drop k s))))
            ∙ ap some (sym (p cur)))
