-- ===== src/Chat/Window/Shown.antt =====
-- native/gui/chat.cpp: which lines of the chat a frame shows.
use mathlib.Core.List.{reverse, reverse-cons, map-append}
use opensamp.Prelude.{
  ℕ, zero, suc, ◌-◌, ◌≤◌, ◌<◌, ◌≡◌, refl, sym, ap, ◌∙◌, false, List, [], ◌∷◌, ◌++◌, map, get_elem?,
  length, take, drop, length-take, ◌==◌, ==_iff, if_cases, arith,
}
use opensamp.Chat.Window.{ChatLine, indices_back, text_of, shown_texts}

abbrev pub texts : List ChatLine → List (List ℕ)
texts = map (λ l. l.text)

length-texts : (ls : List ChatLine) → length (texts ls) ≡ length ls
length-texts [] = refl
length-texts (l ∷ ls) = ap suc (length-texts ls)

take-snoc :
    (n : ℕ) (ls : List ChatLine)
    → n < length ls
    → take (suc n) (texts ls) ≡ take n (texts ls) ++ text_of (get_elem? ls n) ∷ []
take-snoc n [] h = absurd (omega arith)
take-snoc zero (l ∷ ls) h = refl
take-snoc (suc n) (l ∷ ls) h = ap (◌∷◌ l.text) (take-snoc n ls (omega arith))

module _ {A : Type 0} where
  drop-beyond : (n : ℕ) (xs : List A) → length xs ≤ n → drop n xs ≡ []
  drop-beyond zero [] h = refl
  drop-beyond (suc n) [] h = refl
  drop-beyond zero (x ∷ xs) h = absurd (omega arith)
  drop-beyond (suc n) (x ∷ xs) h = drop-beyond n xs (omega arith)

  take-whole : (n : ℕ) (xs : List A) → length xs ≡ n → take n xs ≡ xs
  take-whole zero [] h = refl
  take-whole (suc n) [] h = refl
  take-whole zero (x ∷ xs) h = absurd (omega arith)
  take-whole (suc n) (x ∷ xs) h = ap (◌∷◌ x) (take-whole n xs (omega arith))

  drop-snoc : (n : ℕ) (xs ys : List A) → n ≤ length xs → drop n (xs ++ ys) ≡ drop n xs ++ ys
  drop-snoc zero xs ys h = refl
  drop-snoc (suc n) [] ys h = absurd (omega arith)
  drop-snoc (suc n) (x ∷ xs) ys h = drop-snoc n xs ys (omega arith)

module _ (ls : List ChatLine) where
  abbrev at : ℕ → List ℕ
  at i = text_of (get_elem? ls i)

  indices_back-texts :
      (n room : ℕ)
      → n ≤ length ls
      → map at (reverse (indices_back n room)) ≡ drop (n - room) (take n (texts ls))
  unfolding indices_back
  indices_back-texts zero room h = sym (drop-beyond (0 - room) [] (omega arith))
  indices_back-texts (suc n) room h =
      if_cases (λ is. map at (reverse is) ≡ drop (suc n - room) (take (suc n) (texts ls)))
        (room == 0)
        (λ e.
          let z : room ≡ 0 = (==_iff room 0).0 e in
          sym (
            drop-beyond (suc n - room) (take (suc n) (texts ls))
              (omega (arith, z, length-take (suc n) (texts ls)))))
        (λ e.
          let some_room : 0 < room = has_room room e in
          let rest = indices_back-texts n (room - 1) (omega arith) in
          let longer : length (take n (texts ls)) ≡ n =
            omega (arith, length-take n (texts ls), length-texts ls) in
          ap (map at) (reverse-cons n (indices_back n (room - 1)))
          ∙ map-append at (reverse (indices_back n (room - 1))) (n ∷ [])
          ∙ ap (λ r. r ++ at n ∷ []) rest
          ∙ sym (drop-snoc (n - (room - 1)) (take n (texts ls)) (at n ∷ []) (omega arith))
          ∙ ap (drop (n - (room - 1))) (sym (take-snoc n ls (omega arith)))
          ∙ ap (λ k. drop k (take (suc n) (texts ls))) (omega arith))
    where
      has_room : (room : ℕ) → (room == 0) ≡ false → 0 < room
      has_room room e = ground arith

-- A frame shows the last lines of the chat in their order, as many as are visible, or all of them if there
-- are fewer.
pub shown_texts-last :
    (ls : List ChatLine) (visible : ℕ)
    → shown_texts ls visible ≡ drop (length ls - visible) (texts ls)
unfolding shown_texts
shown_texts-last ls visible =
    indices_back-texts ls (length ls) visible (omega arith)
    ∙ ap (drop (length ls - visible)) (take-whole (length ls) (texts ls) (length-texts ls))
