-- ===== src/Chat/Words.antt =====
-- SplitWhitespace of native/gui/chat.cpp.
use opensamp.Prelude.{
  ℕ, ◌≡◌, refl, ap, ◌∙◌, sym, Bool, true, false, not, List, [], ◌∷◌, ◌++◌, if_cases,
}
use mathlib.Core.List.{append-nil}
use opensamp.Chat.{is_space, starts_word, attach, split_whitespace}

-- No white space occurs.
abbrev pub IsSolid : List ℕ → Type 0
IsSolid [] = Unit
IsSolid (c ∷ cs) = (is_space c ≡ false) × IsSolid cs

-- A word: at least one character, and no white space.
abbrev pub IsWord : List ℕ → Type 0
IsWord [] = ⊥
IsWord (c ∷ cs) = IsSolid (c ∷ cs)

abbrev pub AllWords : List (List ℕ) → Type 0
AllWords [] = Unit
AllWords (w ∷ ws) = IsWord w × AllWords ws

attach-AllWords :
    (c : ℕ) (b : Bool) (ws : List (List ℕ))
    → is_space c ≡ false
    → AllWords ws
    → AllWords (attach c b ws)
attach-AllWords c true [] e h = ((e, tt), tt)
attach-AllWords c true ([] ∷ ws) e h = absurd h.0
attach-AllWords c true ((d ∷ ds) ∷ ws) e h = ((e, h.0), h.1)
attach-AllWords c false ws e h = ((e, tt), h)

-- Every word of a line has at least one character, and no white space.
split_whitespace-AllWords : (s : List ℕ) → AllWords (split_whitespace s)
unfolding split_whitespace
split_whitespace-AllWords [] = tt
split_whitespace-AllWords (c ∷ cs) =
    let rest = split_whitespace cs in
    let h : AllWords rest = split_whitespace-AllWords cs in
    if_cases AllWords (is_space c) {x = rest} {y = attach c (starts_word cs) rest} (λ e. h)
      (λ e. attach-AllWords c (starts_word cs) rest e h)

-- The words with a space between each two.
abbrev pub unwords : List (List ℕ) → List ℕ
unwords [] = []
unwords (w ∷ []) = w
unwords (w ∷ v ∷ vs) = w ++ 32 ∷ unwords (v ∷ vs)

split_whitespace-word :
    (w s : List ℕ)
    → IsWord w
    → starts_word s ≡ false
    → split_whitespace (w ++ s) ≡ w ∷ split_whitespace s
unfolding split_whitespace
split_whitespace-word [] s h e = absurd h
split_whitespace-word (c ∷ []) s h e = rw (h.0, e) refl
split_whitespace-word (c ∷ d ∷ ds) s (hc, (hd, hs)) e =
    let rest = split_whitespace (d ∷ ds ++ s) in
    if_cases (λ l. l ≡ (c ∷ d ∷ ds) ∷ split_whitespace s) (is_space c) {x = rest}
      {y = attach c (not (is_space d)) rest} (λ k. cc)
      (λ k.
        ap (λ b. attach c (not b) rest) hd
        ∙ ap (attach c true) (split_whitespace-word (d ∷ ds) s (hd, hs) e))

-- Words joined by spaces come back as they were.
pub split_whitespace-unwords :
    (ws : List (List ℕ)) → AllWords ws → split_whitespace (unwords ws) ≡ ws
unfolding split_whitespace
split_whitespace-unwords [] h = refl
split_whitespace-unwords (w ∷ []) h =
    ap split_whitespace (sym (append-nil w)) ∙ split_whitespace-word w [] h.0 refl
split_whitespace-unwords (w ∷ v ∷ vs) h =
    split_whitespace-word w (32 ∷ unwords (v ∷ vs)) h.0 refl
    ∙ ap (λ r. w ∷ r) (split_whitespace-unwords (v ∷ vs) h.1)
