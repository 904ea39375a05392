-- ===== src/Engine/Memory/Protection.antt =====
-- write_memory of native/gta/common.h gives the pages back the protection that they had.
use opensamp.Prelude.{
  ℕ, ◌*◌, ◌+◌, ◌-◌, ◌/◌, ◌%◌, ◌^◌, ◌≤◌, ◌<◌, ◌≡◌, refl, sym, ◌∙◌, Bool, true, false, not, ◌&&◌,
  ◌||◌, List, Option, none, some, length, leb, ◌==◌, if◌then◌else◌, arith,
}
use opensamp.Engine.Memory.{
  Memory, Region, Paging, page, execute_readwrite, is_readable_flag, region_readable, set_protect,
  is_readable, write_memory, close_pages,
}

-- A protection belongs to a page.
abbrev pub Paged : (ℕ → ℕ) → Type 0
Paged f = (x : ℕ) → f x ≡ f (x / 4096 * 4096)

-- VirtualQuery answers whole pages around the address that all have the same protection, below the
-- end of the address space, also where pages have been opened.
pub record IsFaithful (os : Paging) : Type 0 where
  pub around : (f : ℕ → ℕ) (a : ℕ) (r : Region) → os.query f a ≡ some r → r.base ≤ a
  pub aligned :
      (f : ℕ → ℕ) (a : ℕ) (r : Region)
      → os.query f a ≡ some r
      → (r.base % 4096 ≡ 0) × (r.size % 4096 ≡ 0)
  pub inside : (f : ℕ → ℕ) (a : ℕ) (r : Region) → os.query f a ≡ some r → r.base + r.size < 2 ^ 32
  pub uniform :
      (f : ℕ → ℕ) (a : ℕ) (r : Region)
      → os.query f a ≡ some r
      → Paged f
      → (b : ℕ) → r.base ≤ b
      → b < r.base + r.size
      → f b ≡ r.protect
  -- Pages of a region that have been opened are a region of their own, still committed.
  pub opens :
      (f : ℕ → ℕ) (a n : ℕ) (r : Region)
      → os.query f a ≡ some r
      → 0 < n
      → a + n ≤ r.base + r.size
      → (q : Region) × (os.query (set_protect a n execute_readwrite f) a ≡ some q)
        × (q.state ≡ r.state)
        × (q.protect ≡ execute_readwrite)
        × (a + n ≤ q.base + q.size)

leb_iff : (a b : ℕ) → leb a b ≡ true → a ≤ b
leb_iff a b h = ground arith

abbrev touched : ℕ → ℕ → ℕ → Bool
touched a n x = leb (a / page) (x / page) && leb (x / page) ((a + n - 1) / page)

-- A page that the range touches lies in the region around it.
in_region :
    (base size a n x : ℕ)
    → base % 4096 ≡ 0
    → size % 4096 ≡ 0
    → base ≤ a
    → a + n ≤ base + size
    → a / 4096 ≤ x / 4096
    → x / 4096 ≤ (a + n - 1) / 4096
    → 0 < n
    → (base ≤ x) × (x < base + size)
in_region base size a n x h k l m p q r = (grind arith, grind arith)

pub both : (b c : Bool) → (b && c) ≡ true → (b ≡ true) × (c ≡ true)
both true c e = (refl, e)
both false c e = cc

twice : (b : Bool) (u v w : ℕ) → (b ≡ true → w ≡ u) → (if b then u else if b then v else w) ≡ w
twice true u v w h = sym (h refl)
twice false u v w h = refl

set_protect-restored :
    (a n flags : ℕ) (f : ℕ → ℕ) (x : ℕ)
    → (a / page ≤ x / page → x / page ≤ (a + n - 1) / page → f x ≡ f a)
    → set_protect a n (f a) (set_protect a n flags f) x ≡ f x
unfolding set_protect
set_protect-restored a n flags f x h = twice (touched a n x) (f a) flags (f x) (λ e.
    let t = both (leb (a / page) (x / page)) (leb (x / page) ((a + n - 1) / page)) e in
    h (leb_iff _ _ t.0) (leb_iff _ _ t.1))

no_wrap : (u v : ℕ) → u < 2 ^ 32 → v < 2 ^ 32 → u % 2 ^ 32 ≤ v % 2 ^ 32 → u ≤ v
no_wrap u v h k l = grind arith

end_inside :
    (r : Region) (a n : ℕ)
    → a + n < 2 ^ 32
    → r.base + r.size < 2 ^ 32
    → region_readable r a n ≡ true
    → a + n ≤ r.base + r.size
end_inside r a n h c e = no_wrap (a + n) (r.base + r.size) h c (
    leb_iff _ _
      (both
        (r.state == 0x1000
          && not (r.protect % 2 == 1)
          && not (r.protect / 256 % 2 == 1)
          && is_readable_flag (r.protect % 256))
        (leb ((a + n) % 2 ^ 32) ((r.base + r.size) % 2 ^ 32)) e).1)

-- What is_readable says of the query.
readable_parts :
    (c : Bool) (o : Option Region) (a n : ℕ)
    → (if c then false else elim o [ none ↦ false | some r ↦ region_readable r a n ]) ≡ true
    → (c ≡ false) × ((r : Region) × (o ≡ some r) × (region_readable r a n ≡ true))
readable_parts true o a n h = cc
readable_parts false none a n h = cc
readable_parts false (some r) a n h = (refl, (r, refl, h))

some_bytes : (a n : ℕ) → (a == 0 || n == 0) ≡ false → 0 < n
some_bytes a n h = ground arith

module _ (os : Paging) (law : IsFaithful os) (m : Memory) (paged : Paged m.protect) (a n : ℕ)
    (short : a + n < 2 ^ 32) where
  -- The region of a readable range has the range in it, and one protection.
  region_uniform :
      (r : Region)
      → os.query m.protect a ≡ some r
      → region_readable r a n ≡ true
      → 0 < n
      → (x : ℕ) → a / page ≤ x / page
      → x / page ≤ (a + n - 1) / page
      → m.protect x ≡ m.protect a
  region_uniform r e h p x l k =
      let g = law.aligned m.protect a r e in
      let b = law.around m.protect a r e in
      let t = end_inside r a n short (law.inside m.protect a r e) h in
      let d = in_region r.base r.size a n x g.0 g.1 b t l k p in
      law.uniform m.protect a r e paged x d.0 d.1
      ∙ sym (law.uniform m.protect a r e paged a b (omega (arith, t, p)))

  readable_uniform :
      is_readable os m a n ≡ true
      → (x : ℕ) → a / page ≤ x / page
      → x / page ≤ (a + n - 1) / page
      → m.protect x ≡ m.protect a
  unfolding is_readable
  readable_uniform h x l k =
      let q = readable_parts (a == 0 || n == 0) (os.query m.protect a) a n h in
      region_uniform q.1.0 q.1.1 q.1.2 (some_bytes a n q.0) x l k

pub denied : (b : Bool) → not b ≡ false → b ≡ true
denied true h = refl
denied false h = cc

-- The pages of the range, opened for the write.
abbrev pub opened_pages : Memory → ℕ → ℕ → ℕ → ℕ
opened_pages m a n = set_protect a n execute_readwrite m.protect

first_of : (b c d e f : Bool) → (b && c && d && e && f) ≡ true → b ≡ true
first_of b c d e f h = ground arith

leb_mod : (u v : ℕ) → u ≤ v → v < 2 ^ 32 → leb (u % 2 ^ 32) (v % 2 ^ 32) ≡ true
leb_mod u v h k = let l : u % 2 ^ 32 ≤ v % 2 ^ 32 = grind arith in ground arith

-- A committed region with the flags of opened pages is readable.
region_opened :
    (r q : Region) (a n : ℕ)
    → region_readable r a n ≡ true
    → q.state ≡ r.state
    → q.protect ≡ execute_readwrite
    → a + n ≤ q.base + q.size
    → q.base + q.size < 2 ^ 32
    → region_readable q a n ≡ true
region_opened r q a n h e f l s =
    rw (e, f, first_of (r.state == 0x1000) _ _ _ _ h, leb_mod (a + n) (q.base + q.size) l s) refl

-- A readable range is readable when it has been opened.
pub opened-readable :
    (os : Paging) (m : Memory) (g : ℕ → ℕ) (a n : ℕ)
    → IsFaithful os
    → a + n < 2 ^ 32
    → is_readable os m a n ≡ true
    → is_readable os (record { byte = g; protect = opened_pages m a n }) a n ≡ true
unfolding is_readable
opened-readable os m g a n law short h =
    let (c, (r, e, good)) = readable_parts (a == 0 || n == 0) (os.query m.protect a) a n h in
    let fit = end_inside r a n short (law.inside m.protect a r e) good in
    let (q, e', state, flags, fit') = law.opens m.protect a n r e (some_bytes a n c) fit in
    rw (c, e')
      (region_opened r q a n good state flags fit' (law.inside (opened_pages m a n) a q e'))

-- The range was opened, and VirtualProtect refuses to put the old protection back.
abbrev pub stays_open : Paging → Memory → ℕ → ℕ → Bool
stays_open os m a n =
    is_readable os m a n
    && os.allows m.protect a n execute_readwrite
    && not (os.allows (opened_pages m a n) a n (m.protect a))

module _ (os : Paging) (law : IsFaithful os) (m : Memory) (paged : Paged m.protect) (a n : ℕ)
    (short : a + n < 2 ^ 32) where
  pub closed_again :
      is_readable os m a n ≡ true
      → (x : ℕ) → set_protect a n (m.protect a) (opened_pages m a n) x ≡ m.protect x
  closed_again h x =
      set_protect-restored a n execute_readwrite m.protect x
        (readable_uniform os law m paged a n short h x)

  close_pages-result :
      is_readable os m a n ≡ true
      → (x : ℕ)
      → close_pages os (opened_pages m a n) a n (m.protect a) x ≡ (
          if not (os.allows (opened_pages m a n) a n (m.protect a))
          then opened_pages m a n x
          else m.protect x)
  unfolding close_pages
  close_pages-result h x = choose (os.allows (opened_pages m a n) a n (m.protect a))
    where
      choose :
          (b : Bool)
          → (if b then set_protect a n (m.protect a) (opened_pages m a n) else opened_pages m a n) x
            ≡ (if not b then opened_pages m a n x else m.protect x)
      choose true = closed_again h x
      choose false = refl

-- Suppose that VirtualQuery answers whole pages of one protection, also for pages that have just been
-- opened. Then write_memory, for a range that
-- ends below 4 GB, leaves the protection of every page as it was, whether it writes, is refused by
-- VirtualProtect, or faults in the middle, with one exception: where VirtualProtect has opened the range
-- and then refuses to put the old protection back, the pages of the range stay open, and the others are
-- as they were.
pub write_memory-protect :
    (os : Paging) (m : Memory) (a : ℕ) (bs : List ℕ) (x : ℕ)
    → IsFaithful os
    → Paged m.protect
    → a + length bs < 2 ^ 32
    → (write_memory os m a bs).1.protect x
      ≡ (if stays_open os m a (length bs) then opened_pages m a (length bs) x else m.protect x)
unfolding write_memory
write_memory-protect os m a bs x law paged short =
    branches (is_readable os m a n) (os.allows m.protect a n execute_readwrite) _ _ _
      (close_pages-result os law m paged a n short)
  where
    n : ℕ
    n = length bs

    branches :
        (c d b late : Bool) (k : Memory)
        → (c ≡ true → (y : ℕ) → k.protect y ≡ (if late then opened_pages m a n y else m.protect y))
        → let r : Bool × Memory =
            if not c then (false, m) else if not d then (false, m) else (b, k) in
          r.1.protect x ≡ (if c && d && late then opened_pages m a n x else m.protect x)
    branches true true b late k h = h refl x
    branches true false b late k h = refl
    branches false d b late k h = refl
