-- ===== src/Engine/Memory/Content.antt =====
-- What native/gta/common.h and native/memory.h write into the memory is read back.
use mathlib.Core.Path.{subst, fun_ext}
use opensamp.Prelude.{
  ℕ, zero, suc, ◌+◌, ◌^◌, ◌≤◌, ◌<◌, ◌≡◌, refl, sym, ap, ◌∙◌, Bool, true, false, not, List, [], ◌∷◌,
  Option, none, some, length, take, ltb, ◌==◌, ==_iff, if◌then◌else◌, if_cases, arith,
}
use opensamp.Engine.Memory.{
  Memory, Paging, store, bytes_at, same_bytes, is_readable, read_memory, write_memory, mem_get,
  mem_put, close_pages, execute_readwrite,
}
use opensamp.Engine.Memory.Protection.{
  IsFaithful, Paged, both, denied, opened_pages, closed_again, opened-readable,
}

bytes_at-agree :
    (f g : ℕ → ℕ) (n a : ℕ) → ((x : ℕ) → a ≤ x → f x ≡ g x) → bytes_at f a n ≡ bytes_at g a n
bytes_at-agree f g zero a h = refl
bytes_at-agree f g (suc n) a h =
    rw (h a (omega arith), bytes_at-agree f g n (suc a) (λ x l. h x (omega arith)))

not_above : (x a : ℕ) → suc a ≤ x → (x == a) ≡ true → ⊥
not_above x a h e = let p = (==_iff x a).0 e in omega arith

not_empty : (n : ℕ) → suc n ≤ 0 → ⊥
not_empty n h = omega arith

not_less : (k n : ℕ) → ltb k n ≡ false → n ≤ k
not_less k n h = ground arith

store-above :
    (f : ℕ → ℕ) (a b : ℕ) (bs : List ℕ) (x : ℕ)
    → suc a ≤ x
    → store f a (b ∷ bs) x ≡ store f (suc a) bs x
unfolding store
store-above f a b bs x h =
    if_cases (λ r. r ≡ store f (suc a) bs x) (x == a) (λ e. elim (not_above x a h e) [ ])
      (λ e. refl)

store-here : (f : ℕ → ℕ) (a b : ℕ) (bs : List ℕ) → store f a (b ∷ bs) a ≡ b
unfolding store
store-here f a b bs = rw ((==_iff a a).1 refl)

pub bytes_at-store : (f : ℕ → ℕ) (a : ℕ) (bs : List ℕ) → bytes_at (store f a bs) a (length bs) ≡ bs
bytes_at-store f a [] = refl
bytes_at-store f a (b ∷ bs) =
    ap (λ c. c ∷ bytes_at (store f a (b ∷ bs)) (suc a) (length bs)) (store-here f a b bs)
    ∙ ap (λ cs. b ∷ cs)
        (bytes_at-agree _ _ (length bs) (suc a) (store-above f a b bs)
          ∙ bytes_at-store f (suc a) bs)

take-all : (k : ℕ) (bs : List ℕ) → length bs ≤ k → take k bs ≡ bs
take-all zero [] h = refl
take-all (suc k) [] h = refl
take-all zero (b ∷ bs) h = elim (not_empty (length bs) h) [ ]
take-all (suc k) (b ∷ bs) h = ap (λ r. b ∷ r) (take-all k bs (omega arith))

same_bytes-equal : (cs bs : List ℕ) → same_bytes cs bs ≡ true → cs ≡ bs
same_bytes-equal [] [] h = refl
same_bytes-equal [] (b ∷ bs) h = cc
same_bytes-equal (c ∷ cs) [] h = cc
same_bytes-equal (c ∷ cs) (b ∷ bs) h =
    let q = both (c == b) (same_bytes cs bs) h in
    rw ((==_iff c b).0 q.0, same_bytes-equal cs bs q.1)

-- memcpy does not fault where is_readable says yes.
abbrev pub NoFault : Paging → Type 0
NoFault os = (m : Memory) (a n : ℕ) → is_readable os m a n ≡ true → ltb (os.moved m a n) n ≡ false

-- A write that reports success has passed its two tests.
passed :
    (c d : Bool) (m : Memory) (q : Bool × Memory)
    → (if c then (false, m) else if d then (false, m) else q).0 ≡ true
    → (c ≡ false) × ((if c then (false, m) else if d then (false, m) else q) ≡ q)
passed true d m q h = cc
passed false true m q h = cc
passed false false m q h = (refl, refl)

refuted : (b : Bool) → not b ≡ true → b ≡ false
refuted true h = cc
refuted false h = refl

read_if :
    (c d : Bool) (cs : List ℕ)
    → c ≡ true
    → d ≡ false
    → (if not c then none else if d then none else some cs) ≡ some cs
read_if true true cs h k = cc
read_if true false cs h k = refl
read_if false d cs h k = cc

through :
    (c d b : Bool) (m n : Memory)
    → c ≡ true
    → d ≡ true
    → let r : Bool × Memory = if not c then (false, m) else if not d then (false, m) else (b, n) in
      r.1.byte ≡ n.byte
through true true b m n h k = refl
through true false b m n h k = cc
through false d b m n h k = cc

module _ (os : Paging) (calm : NoFault os) where
  pub is_readable-protect :
      (m : Memory) (g f : ℕ → ℕ) (a n : ℕ)
      → f ≡ m.protect
      → is_readable os m a n ≡ true
      → is_readable os (record { byte = g; protect = f }) a n ≡ true
  unfolding is_readable
  is_readable-protect m g f a n e h =
      subst (λ p. is_readable os (record { byte = g; protect = p }) a n ≡ true) (sym e) h

  -- A reading of what has just been stored, where the pages are readable.
  read-stored :
      (m : Memory) (f : ℕ → ℕ) (a k : ℕ) (bs : List ℕ)
      → is_readable os (record { byte = store m.byte a (take k bs); protect = f }) a (length bs)
        ≡ true
      → ltb k (length bs) ≡ false
      → read_memory os (record { byte = store m.byte a (take k bs); protect = f }) a (length bs)
        ≡ some bs
  unfolding read_memory
  read-stored m f a k bs r l =
      read_if _ _ _ r (calm _ a (length bs) r)
      ∙ ap some (
          ap (λ cs. bytes_at (store m.byte a cs) a (length bs)) (take-all k bs (not_less _ _ l))
          ∙ bytes_at-store m.byte a bs)

  -- A write that the system allows.
  pub written :
      (m : Memory) (a : ℕ) (bs : List ℕ)
      → is_readable os m a (length bs) ≡ true
      → os.allows m.protect a (length bs) execute_readwrite ≡ true
      → (write_memory os m a bs).1.byte ≡ store m.byte a bs
  unfolding write_memory
  written m a bs r w =
      through _ _ _ _ _ r w
      ∙ ap (store m.byte a) (take-all _ bs (not_less _ _ (calm m a (length bs) r)))

  pub read-readable :
      (m : Memory) (a n : ℕ)
      → is_readable os m a n ≡ true
      → read_memory os m a n ≡ some (bytes_at m.byte a n)
  unfolding read_memory
  read-readable m a n r = read_if _ _ _ r (calm m a n r)

  -- After the write the pages are readable, whether they got their protection back or not.
  closed-readable :
      (m : Memory)
      → IsFaithful os
      → Paged m.protect
      → (a n : ℕ) → a + n < 2 ^ 32
      → is_readable os m a n ≡ true
      → (g : ℕ → ℕ)
      → is_readable os
          (record { byte = g; protect = close_pages os (opened_pages m a n) a n (m.protect a) })
          a
          n
        ≡ true
  unfolding close_pages
  closed-readable m law paged a n short h g =
      if_cases (λ f. is_readable os (record { byte = g; protect = f }) a n ≡ true)
        (os.allows (opened_pages m a n) a n (m.protect a))
        (λ e. is_readable-protect m g _ a n (fun_ext (closed_again os law m paged a n short h)) h)
        (λ e. opened-readable os m g a n law short h)

  write-read :
      (m : Memory) (a : ℕ) (bs : List ℕ)
      → IsFaithful os
      → Paged m.protect
      → a + length bs < 2 ^ 32
      → (write_memory os m a bs).0 ≡ true
      → read_memory os (write_memory os m a bs).1 a (length bs) ≡ some bs
  unfolding write_memory
  write-read m a bs law paged short h =
      let n = length bs in
      let q =
        passed (not (is_readable os m a n)) (not (os.allows m.protect a n execute_readwrite)) m _
          h in
      ap (λ w. read_memory os w.1 a n) q.1
      ∙ read-stored m _ a (os.moved m a n) bs
          (closed-readable m law paged a n short (denied _ q.0) _)
          (refuted _ (ap (λ w. w.0) (sym q.1) ∙ h))

  module _ (m : Memory) (a : ℕ) (bs : List ℕ) (law : IsFaithful os) (paged : Paged m.protect)
      (short : a + length bs < 2 ^ 32) where
    put-if :
        (current : List ℕ) (b : Bool)
        → read_memory os m a (length bs) ≡ some current
        → same_bytes current bs ≡ b
        → (if b then (true, m) else write_memory os m a bs).0 ≡ true
        → read_memory os (if b then (true, m) else write_memory os m a bs).1 a (length bs) ≡ some bs
    put-if current true p q h = p ∙ ap some (same_bytes-equal current bs q)
    put-if current false p q h = write-read m a bs law paged short h

    abbrev put_result : Option (List ℕ) → Bool × Memory
    put_result none = (false, m)
    put_result (some current) = if same_bytes current bs then (true, m) else write_memory os m a bs

    put-cases :
        (o : Option (List ℕ))
        → read_memory os m a (length bs) ≡ o
        → (put_result o).0 ≡ true
        → read_memory os (put_result o).1 a (length bs) ≡ some bs
    put-cases none p h = cc
    put-cases (some current) p h = put-if current (same_bytes current bs) p refl h

-- Suppose that VirtualQuery answers whole pages of one protection, also for pages that have just been
-- opened, and that memcpy does not fault where is_readable says yes. When mem_put reports success, for a value that ends below 4 GB, then mem_get
-- at the same address reads that value, also where mem_put had found it there and wrote nothing.
pub mem_put-mem_get :
    (os : Paging) (m : Memory) (a : ℕ) (bs : List ℕ)
    → IsFaithful os
    → NoFault os
    → Paged m.protect
    → a + length bs < 2 ^ 32
    → (mem_put os m a bs).0 ≡ true
    → mem_get os (mem_put os m a bs).1 a (length bs) ≡ some bs
unfolding mem_put mem_get
mem_put-mem_get os m a bs law calm paged short h =
    put-cases os calm m a bs law paged short (read_memory os m a (length bs)) refl h
