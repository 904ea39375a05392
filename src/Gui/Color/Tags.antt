-- ===== src/Gui/Color/Tags.antt =====
-- ParseHexTag of native/gui/colored_text.h reads inside the memory and finds the tags of the line.
use mathlib.Core.Path.{subst}
use opensamp.Prelude.{
  ℕ, zero, suc, ◌+◌, ◌≤◌, ◌≡◌, ◌⊎◌, inl, inr, refl, sym, ap, ◌∙◌, ==_iff, Bool, true, false, List,
  [], ◌∷◌, ◌++◌, Option, none, some, length, ◌==◌, if_cases, if◌then◌else◌, arith,
}
use opensamp.Gui.Color.{hex, push, Found, no_tag, tag, with_alpha, parse_digits, parse_hex_tag}
use opensamp.Gui.Color.Glyphs.{tag_value, tag_digits, tag_of}

-- There is a null byte.
pub data Terminated : List ℕ → Type 0 where
  here : {s : List ℕ} → Terminated (0 ∷ s)
  there : {c : ℕ} {s : List ℕ} → Terminated s → Terminated (c ∷ s)

-- What may stand behind a line: the end of the text, or a newline.
abbrev pub IsEnd : ℕ → Type 0
IsEnd e = (e ≡ 0) ⊎ (e ≡ 10)

abbrev pub found : Option ℕ → Found
found none = no_tag
found (some v) = tag v

with_alpha-found : (v : Option ℕ) → with_alpha v ≡ found (tag_value v)
with_alpha-found none = refl
with_alpha-found (some v) = refl

found-if :
    (b : Bool) (r : Found) (v : Option ℕ)
    → r ≡ found v
    → (if b then r else no_tag) ≡ found (if b then v else none)
found-if true r v h = h
found-if false r v h = refl

push-none : (v : Option ℕ) → push v none ≡ none
push-none none = refl
push-none (some v) = refl

if_same : {A : Type 0} (b : Bool) (x : A) → (if b then x else x) ≡ x
if_same true x = refl
if_same false x = refl

-- Once a digit is none, no tag is found.
parse_digits-none : (n : ℕ) (s : List ℕ) → Terminated s → parse_digits n none s ≡ no_tag
unfolding parse_digits
parse_digits-none zero [] h = elim h [ ]
parse_digits-none (suc n) [] h = elim h [ ]
parse_digits-none zero (c ∷ s) h = if_same (c == 125) no_tag
parse_digits-none (suc n) (c ∷ s) Terminated.here = refl
parse_digits-none (suc n) (c ∷ s) (Terminated.there h) =
    if_cases (λ r. r ≡ no_tag) (c == 0) (λ e. refl) (λ e. parse_digits-none n s h)

tag_digits-none : (n : ℕ) (s : List ℕ) → tag_digits n none s ≡ none
unfolding tag_digits
tag_digits-none zero [] = refl
tag_digits-none (suc n) [] = refl
tag_digits-none zero (c ∷ s) = if_same (c == 125) none
tag_digits-none (suc n) (c ∷ s) = tag_digits-none n s

not_brace : (e : ℕ) → IsEnd e → (e == 125) ≡ false
not_brace e (inl p) = rw p
not_brace e (inr p) = rw p

tail-Terminated : (m : List ℕ) → Terminated (10 ∷ m) → Terminated m
tail-Terminated m (Terminated.there h) = h

parse_digits-end :
    (n : ℕ) (v : Option ℕ) (e : ℕ) (m : List ℕ)
    → IsEnd e
    → Terminated (e ∷ m)
    → parse_digits n v (e ∷ m) ≡ no_tag
unfolding parse_digits
parse_digits-end zero v e m ends h = ap (λ b. if b then with_alpha v else no_tag) (not_brace e ends)
parse_digits-end (suc n) v e m (inl p) h =
    subst (λ d. parse_digits (suc n) v (d ∷ m) ≡ no_tag) (sym p) refl
parse_digits-end (suc n) v e m (inr p) h =
    subst (λ d. parse_digits (suc n) v (d ∷ m) ≡ no_tag) (sym p)
      (ap (λ w. parse_digits n w m) (push-none v)
        ∙ parse_digits-none n m (tail-Terminated m (subst (λ d. Terminated (d ∷ m)) p h)))

-- A null byte is no digit.
tag_digits-null :
    (n : ℕ) (v : Option ℕ) (c : ℕ) (line : List ℕ)
    → (c == 0) ≡ true
    → tag_digits n (push v (hex c)) line ≡ none
tag_digits-null n v c line z =
    subst (λ d. tag_digits n (push v (hex d)) line ≡ none) (sym ((==_iff c 0).0 z))
      (ap (λ w. tag_digits n w line) (push-none v) ∙ tag_digits-none n line)

module _ (e : ℕ) (m : List ℕ) (ends : IsEnd e) (h : Terminated (e ∷ m)) where
  parse_digits-lem :
      (n : ℕ) (v : Option ℕ) (line : List ℕ)
      → parse_digits n v (line ++ e ∷ m) ≡ found (tag_digits n v line)
  unfolding parse_digits tag_digits
  parse_digits-lem zero v [] = parse_digits-end zero v e m ends h
  parse_digits-lem (suc n) v [] = parse_digits-end (suc n) v e m ends h
  parse_digits-lem zero v (c ∷ line) =
      found-if (c == 125) (with_alpha v) (tag_value v) (with_alpha-found v)
  parse_digits-lem (suc n) v (c ∷ line) =
      if_cases (λ r. r ≡ found (tag_digits n (push v (hex c)) line)) (c == 0)
        (λ z. ap found (sym (tag_digits-null n v c line z)))
        (λ z. parse_digits-lem n (push v (hex c)) line)

  pub parse_hex_tag-lem :
      (c : ℕ) (line : List ℕ) → parse_hex_tag (c ∷ line ++ e ∷ m) ≡ found (tag_of (c ∷ line))
  unfolding parse_hex_tag tag_of
  parse_hex_tag-lem c line = found-if (c == 123) _ _ (parse_digits-lem 6 (some 0) line)

-- A tag takes eight characters of the line.
tag_digits-length :
    (n : ℕ) (v : Option ℕ) (line : List ℕ) {w : ℕ}
    → tag_digits n v line ≡ some w
    → n + 1 ≤ length line
unfolding tag_digits
tag_digits-length zero v [] e = cc
tag_digits-length (suc n) v [] e = cc
tag_digits-length zero v (c ∷ line) e = omega arith
tag_digits-length (suc n) v (c ∷ line) e =
    omega (arith, tag_digits-length n (push v (hex c)) line e)

if_some :
    {A : Type 0} (b : Bool) (o : Option A) {a : A} → (if b then o else none) ≡ some a → o ≡ some a
if_some true o e = e
if_some false o e = cc

pub tag_of-length : (c : ℕ) (line : List ℕ) {w : ℕ} → tag_of (c ∷ line) ≡ some w → 7 ≤ length line
unfolding tag_of
tag_of-length c line e =
    tag_digits-length 6 (some 0) line (if_some (c == 123) (tag_digits 6 (some 0) line) e)

pub tag_of-plain : (c : ℕ) (line : List ℕ) → (c == 123) ≡ false → tag_of (c ∷ line) ≡ none
unfolding tag_of
tag_of-plain c line h = ap (λ b. if b then tag_digits 6 (some 0) line else none) h

-- Behind a newline nothing belongs to the tag.
tag_digits-newline :
    (n : ℕ) (v : Option ℕ) (line rest : List ℕ)
    → tag_digits n v (line ++ 10 ∷ rest) ≡ tag_digits n v line
unfolding tag_digits
tag_digits-newline zero v [] rest = refl
tag_digits-newline (suc n) v [] rest =
    ap (λ w. tag_digits n w rest) (push-none v) ∙ tag_digits-none n rest
tag_digits-newline zero v (c ∷ line) rest = refl
tag_digits-newline (suc n) v (c ∷ line) rest = tag_digits-newline n (push v (hex c)) line rest

pub tag_of-newline :
    (c : ℕ) (line rest : List ℕ) → tag_of (c ∷ line ++ 10 ∷ rest) ≡ tag_of (c ∷ line)
unfolding tag_of
tag_of-newline c line rest =
    ap (λ o. if c == 123 then o else none) (tag_digits-newline 6 (some 0) line rest)
