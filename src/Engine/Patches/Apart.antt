-- ===== src/Engine/Patches/Apart.antt =====
-- Groups of writes that do not overlap, over the model of native/patches.cpp.
use opensamp.Prelude.{
  ℕ, ◌+◌, ◌-◌, ◌≡◌, inl, inr, refl, sym, ap, ◌∙◌, Bool, true, false, ◌&&◌, ◌||◌, List, [], ◌∷◌,
  ◌++◌, leb, ltb, if◌then◌else◌, arith, Bool-cases,
}
use opensamp.Engine.Patches.{Write, start, size, content, touches, lands, apply, run}

abbrev pub clear : Write → List Write → Bool
clear w [] = true
clear w (v ∷ vs) =
    (leb (start w + size w) (start v) || leb (start v + size v) (start w)) && clear w vs

-- No write of the one list overlaps one of the other.
abbrev pub apart : List Write → List Write → Bool
apart [] vs = true
apart (w ∷ ws) vs = clear w vs && apart ws vs

abbrev pub apart_all : List Write → List (List Write) → Bool
apart_all g [] = true
apart_all g (h ∷ hs) = apart g h && apart_all g hs

abbrev pub all_apart : List (List Write) → Bool
all_apart [] = true
all_apart (g ∷ gs) = apart_all g gs && all_apart gs

abbrev pub touched : List Write → ℕ → Bool
touched [] x = false
touched (w ∷ ws) x = touches w x || touched ws x

pub data Member (g : List Write) : List (List Write) → Type 0 where
  here : {gs : List (List Write)} → Member g (g ∷ gs)
  there : {h : List Write} {gs : List (List Write)} → Member g gs → Member g (h ∷ gs)

abbrev pub all_of : List (List Write) → List Write
all_of [] = []
all_of (g ∷ gs) = g ++ all_of gs

pub both : (b c : Bool) → (b && c) ≡ true → (b ≡ true) × (c ≡ true)
both true c e = (refl, e)
both false c e = cc

neither : (b c : Bool) → (b || c) ≡ false → (b ≡ false) × (c ≡ false)
neither true c e = cc
neither false c e = (refl, e)

-- Two writes that do not overlap touch no address in common.
clear-one :
    (a m b n x : ℕ)
    → (leb (a + m) b || leb (b + n) a) ≡ true
    → (leb a x && ltb x (a + m)) ≡ true
    → (leb b x && ltb x (b + n)) ≡ false
clear-one a m b n x h k = ground arith

clear-touched :
    (w : Write) (vs : List Write) (x : ℕ)
    → clear w vs ≡ true
    → touches w x ≡ true
    → touched vs x ≡ false
clear-touched w [] x h k = refl
clear-touched w (v ∷ vs) x h k =
    let q =
      both (leb (start w + size w) (start v) || leb (start v + size v) (start w)) (clear w vs) h in
    rw (clear-one (start w) (size w) (start v) (size v) x q.0 k, clear-touched w vs x q.1 k)

apart-touched :
    (ws vs : List Write) (x : ℕ) → apart ws vs ≡ true → touched ws x ≡ true → touched vs x ≡ false
apart-touched [] vs x h k = cc
apart-touched (w ∷ ws) vs x h k =
    let q = both (clear w vs) (apart ws vs) h in
    elim (Bool-cases (touches w x)) [
      | inl e ↦ clear-touched w vs x q.0 e
      | inr e ↦ apart-touched ws vs x q.1 (sym (ap (λ b. b || touched ws x) e) ∙ k)
    ]

apart-untouched :
    (ws vs : List Write) (x : ℕ) → apart ws vs ≡ true → touched vs x ≡ true → touched ws x ≡ false
apart-untouched ws vs x h k = elim (Bool-cases (touched ws x)) [
  | inl e ↦ e ∙ sym k ∙ apart-touched ws vs x h e
  | inr e ↦ e
]

module _ (works : ℕ → ℕ → Bool) where
  -- A list of writes leaves alone what it does not touch.
  run-untouched :
      (ws : List Write) (m : ℕ → ℕ) (x : ℕ) → touched ws x ≡ false → run works ws m x ≡ m x
  unfolding run apply
  run-untouched [] m x h = refl
  run-untouched (w ∷ ws) m x h =
      let q = neither (touches w x) (touched ws x) h in
      run-untouched ws (apply works w m) x q.1
      ∙ ap (λ b. if b && lands works w then content w (x - start w) else m x) q.0

  -- A byte after some writes depends on that byte before them only.
  run-local :
      (ws : List Write) (m k : ℕ → ℕ) (x : ℕ) → m x ≡ k x → run works ws m x ≡ run works ws k x
  unfolding run apply
  run-local [] m k x h = h
  run-local (w ∷ ws) m k x h =
      run-local ws (apply works w m) (apply works w k) x
        (ap (λ c. if touches w x && lands works w then content w (x - start w) else c) h)

  run-append :
      (ws vs : List Write) (m : ℕ → ℕ) → run works (ws ++ vs) m ≡ run works vs (run works ws m)
  unfolding run
  run-append [] vs m = refl
  run-append (w ∷ ws) vs m = run-append ws vs (apply works w m)

  apart_all-untouched :
      (g : List Write) (gs : List (List Write)) (x : ℕ)
      → apart_all g gs ≡ true
      → touched g x ≡ true
      → (m : ℕ → ℕ) → run works (all_of gs) m x ≡ m x
  unfolding run
  apart_all-untouched g [] x h k m = refl
  apart_all-untouched g (h ∷ hs) x p k m =
      let q = both (apart g h) (apart_all g hs) p in
      ap (λ f. f x) (run-append h (all_of hs) m)
      ∙ apart_all-untouched g hs x q.1 k (run works h m)
      ∙ run-untouched h m x (apart-touched g h x q.0 k)

  apart-Member :
      (h g : List Write) (gs : List (List Write))
      → apart_all h gs ≡ true
      → Member g gs
      → apart h g ≡ true
  apart-Member h g [] p i = elim i [ ]
  apart-Member h g (f ∷ gs) p Member.here = (both (apart h g) (apart_all h gs) p).0
  apart-Member h g (f ∷ gs) p (Member.there i) =
      apart-Member h g gs (both (apart h f) (apart_all h gs) p).1 i

  -- Where no two groups overlap, each ends up as if it were alone.
  pub run-Member :
      (gs : List (List Write)) (g : List Write) (m : ℕ → ℕ) (x : ℕ)
      → all_apart gs ≡ true
      → Member g gs
      → touched g x ≡ true
      → run works (all_of gs) m x ≡ run works g m x
  run-Member [] g m x p i k = elim i [ ]
  run-Member (f ∷ gs) g m x p Member.here k =
      let q = both (apart_all g gs) (all_apart gs) p in
      ap (λ f. f x) (run-append g (all_of gs) m) ∙ apart_all-untouched g gs x q.0 k (run works g m)
  run-Member (h ∷ gs) g m x p (Member.there i) k =
      let q = both (apart_all h gs) (all_apart gs) p in
      ap (λ f. f x) (run-append h (all_of gs) m)
      ∙ run-Member gs g (run works h m) x q.1 i k
      ∙ run-local g (run works h m) m x
          (run-untouched h m x (apart-untouched h g x (apart-Member h g gs q.0 i) k))

-- What holds of a list of writes holds of its beginning.
apart-prefix : (ws zs vs : List Write) → apart (ws ++ zs) vs ≡ true → apart ws vs ≡ true
apart-prefix [] zs vs h = refl
apart-prefix (w ∷ ws) zs vs h =
    let q = both (clear w vs) (apart (ws ++ zs) vs) h in rw (q.0, apart-prefix ws zs vs q.1)

pub apart_all-prefix :
    (ws zs : List Write) (gs : List (List Write))
    → apart_all (ws ++ zs) gs ≡ true
    → apart_all ws gs ≡ true
apart_all-prefix ws zs [] h = refl
apart_all-prefix ws zs (g ∷ gs) h =
    let q = both (apart (ws ++ zs) g) (apart_all (ws ++ zs) gs) h in
    rw (apart-prefix ws zs g q.0, apart_all-prefix ws zs gs q.1)

abbrev pub every : (Write → Bool) → List Write → Bool
every f [] = true
every f (w ∷ ws) = f w && every f ws

pub every-prefix :
    (f : Write → Bool) (ws zs : List Write) → every f (ws ++ zs) ≡ true → every f ws ≡ true
every-prefix f [] zs h = refl
every-prefix f (w ∷ ws) zs h =
    let q = both (f w) (every f (ws ++ zs)) h in rw (q.0, every-prefix f ws zs q.1)

pub every-append :
    (f : Write → Bool) (ws zs : List Write)
    → every f ws ≡ true
    → every f zs ≡ true
    → every f (ws ++ zs) ≡ true
every-append f [] zs h k = k
every-append f (w ∷ ws) zs h k =
    let q = both (f w) (every f ws) h in rw (q.0, every-append f ws zs q.1 k)
