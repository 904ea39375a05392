-- ===== src/Dialog/Lines.antt =====
-- SplitLines of native/gui/dialog.cpp.
use opensamp.Prelude.{
  ℕ, ◌≡◌, ◌≢◌, ◌∙◌, refl, List, [], ◌∷◌, ◌++◌, arith, ◌==◌, ==_iff, Bool-cases, if_cases, inl, inr,
  ap, sym,
}
use opensamp.Dialog.{lines_of, extend_first, newline}

-- The text that joins lines by newlines.
abbrev pub unjoin : List (List ℕ) → List ℕ
unjoin [] = []
unjoin (l ∷ []) = l
unjoin (l ∷ m ∷ ms) = l ++ newline ∷ unjoin (m ∷ ms)

abbrev IsNonempty : List (List ℕ) → Type 0
IsNonempty [] = ⊥
IsNonempty (l ∷ ls) = Unit

extend_first-IsNonempty : (c : ℕ) (ls : List (List ℕ)) → IsNonempty (extend_first c ls)
unfolding extend_first
extend_first-IsNonempty c [] = tt
extend_first-IsNonempty c (l ∷ ls) = tt

lines_of-IsNonempty : (s : List ℕ) → IsNonempty (lines_of s)
unfolding lines_of
lines_of-IsNonempty [] = tt
lines_of-IsNonempty (c ∷ cs) =
    if_cases IsNonempty (c == newline) (λ e. tt) (λ e. extend_first-IsNonempty c (lines_of cs))

unjoin-extend_first :
    (c : ℕ) (ls : List (List ℕ)) → IsNonempty ls → unjoin (extend_first c ls) ≡ c ∷ unjoin ls
unfolding extend_first
unjoin-extend_first c [] h = absurd h
unjoin-extend_first c (l ∷ []) h = refl
unjoin-extend_first c (l ∷ m ∷ ms) h = refl

unjoin-cons_empty : (ls : List (List ℕ)) → IsNonempty ls → unjoin ([] ∷ ls) ≡ newline ∷ unjoin ls
unjoin-cons_empty [] h = absurd h
unjoin-cons_empty (l ∷ ls) h = refl

-- Joined by newlines, the lines of a text are the text.
unjoin-lines_of : (s : List ℕ) → unjoin (lines_of s) ≡ s
unfolding lines_of
unjoin-lines_of [] = refl
unjoin-lines_of (c ∷ cs) = elim (Bool-cases (c == newline)) [
  | inl e ↦ rw e (
      unjoin-cons_empty (lines_of cs) (lines_of-IsNonempty cs)
      ∙ ap (λ t. newline ∷ t) (unjoin-lines_of cs)
      ∙ ap (λ (n : ℕ). n ∷ cs) (sym ((==_iff c newline).0 e)))
  | inr e ↦ rw e (
      unjoin-extend_first c (lines_of cs) (lines_of-IsNonempty cs)
      ∙ ap (λ t. c ∷ t) (unjoin-lines_of cs))
]

-- A character that does not occur.
abbrev pub Without : ℕ → List ℕ → Type 0
Without c [] = Unit
Without c (d ∷ ds) = (d ≢ c) × Without c ds

abbrev pub AllWithout : ℕ → List (List ℕ) → Type 0
AllWithout c [] = Unit
AllWithout c (l ∷ ls) = Without c l × AllWithout c ls

extend_first-AllWithout :
    (n c : ℕ) (ls : List (List ℕ)) → c ≢ n → AllWithout n ls → AllWithout n (extend_first c ls)
unfolding extend_first
extend_first-AllWithout n c [] h a = ((h, tt), tt)
extend_first-AllWithout n c (l ∷ ls) h a = ((h, a.0), a.1)

-- No line of a text holds a newline.
lines_of-AllWithout : (s : List ℕ) → AllWithout newline (lines_of s)
unfolding lines_of
lines_of-AllWithout [] = (tt, tt)
lines_of-AllWithout (c ∷ cs) = elim (Bool-cases (c == newline)) [
  | inl e ↦ rw e (tt, lines_of-AllWithout cs)
  | inr e ↦
      rw e (extend_first-AllWithout newline c (lines_of cs) (ground arith) (lines_of-AllWithout cs))
]
