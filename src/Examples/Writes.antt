-- ===== src/Examples/Writes.antt =====
-- A memory whose pages are read-only code, with a byte patch.
use mathlib.Core.Path.{subst}
use mathlib.Core.Option.{some-injective}
use opensamp.Prelude.{
  ℕ, ◌+◌, ◌*◌, ◌/◌, ◌%◌, ◌^◌, ◌≤◌, ◌<◌, ◌≡◌, refl, sym, ap, ◌∙◌, Bool, true, false, [], ◌∷◌, none,
  some, leb, ltb, ◌&&◌, ◌-◌, ◌==◌, if◌then◌else◌, arith,
}
use opensamp.Engine.Memory.{
  set_protect, close_pages, Memory, Region, Paging, is_readable, read_memory, write_memory, mem_get,
  mem_put,
}
use opensamp.Engine.Memory.Protection.{IsFaithful, stays_open, opened_pages, write_memory-protect}
use opensamp.Engine.Memory.Content.{mem_put-mem_get}
use opensamp.Engine.Start.{get_system_state, kick_game_start}
use opensamp.Engine.Start.Kick.{IsOpen, kick_game_start-playing}

abbrev page_of : (ℕ → ℕ) → ℕ → Region
page_of f a = record {
  base = a / 4096 * 4096;
  size = 4096;
  state = 0x1000;
  protect = f (a / 4096 * 4096);
}

abbrev flat : Paging
flat = record {
  query = λ f a. if ltb a 0x80000000 then some (page_of f a) else none;
  allows = λ f a n flags. true;
  has_heap = λ n. true;
  moved = λ m a n. n;
}

abbrev code : Memory
code = record { byte = λ a. 0; protect = λ a. 0x20 }

if_some : (b : Bool) (x r : Region) → (if b then some x else none) ≡ some r → (b ≡ true) × (x ≡ r)
if_some true x r e = (refl, some-injective x r e)
if_some false x r e = cc

low : (a : ℕ) → ltb a 0x80000000 ≡ true → a / 4096 * 4096 + 4096 < 2 ^ 32
low a h = let k : a < 0x80000000 = ground arith in omega arith

own_page : (a b : ℕ) → a / 4096 * 4096 ≤ b → b < a / 4096 * 4096 + 4096 → b / 4096 ≡ a / 4096
own_page a b h k = grind arith

whole_page : (a : ℕ) → a / 4096 * 4096 % 4096 ≡ 0
whole_page a = grind arith

page_start : (a : ℕ) → a / 4096 * 4096 ≤ a
page_start a = grind arith

no_less : (n : ℕ) → ltb n n ≡ false
no_less n = ground arith

touches :
    (a n : ℕ)
    → 0 < n
    → (leb (a / 4096) (a / 4096 * 4096 / 4096) && leb (a / 4096 * 4096 / 4096) ((a + n - 1) / 4096))
      ≡ true
touches a n h = grind arith

-- The page of the first byte is opened.
opened_here : (f : ℕ → ℕ) (a n : ℕ) → 0 < n → set_protect a n 0x40 f (a / 4096 * 4096) ≡ 0x40
unfolding set_protect
opened_here f a n h = rw (touches a n h)

flat-IsFaithful : IsFaithful flat
flat-IsFaithful = record {
  around = λ f a r e. subst (λ q. q.base ≤ a) (if_some _ _ r e).1 (page_start a);
  aligned = λ f a r e.
      subst (λ q. (q.base % 4096 ≡ 0) × (q.size % 4096 ≡ 0)) (if_some _ _ r e).1
        (whole_page a, refl);
  inside = λ f a r e.
      subst (λ q. q.base + q.size < 2 ^ 32) (if_some _ _ r e).1 (low a (if_some _ _ r e).0);
  uniform = λ f a r e paged b h l.
      let q = (if_some _ _ r e).1 in
      subst (λ q. f b ≡ q.protect) q
        (paged b
          ∙ ap (λ k. f (k * 4096))
              (own_page a b (subst (λ q. q.base ≤ b) (sym q) h)
                (subst (λ q. b < q.base + q.size) (sym q) l)));
  opens = λ f a n r e some_bytes fit.
      let (below, own) = if_some _ _ r e in
      let within : a + n ≤ a / 4096 * 4096 + 4096 =
        subst (λ q. a + n ≤ q.base + q.size) (sym own) fit in
      (
        page_of (set_protect a n 0x40 f) a,
        ap (λ b. if b then some (page_of (set_protect a n 0x40 f) a) else none) below,
        ap (λ q. q.state) own,
        opened_here f a n some_bytes,
        within,
      );
}

-- A system that opens pages, but never protects them again.
abbrev stubborn : Paging
stubborn = record flat { allows = λ f a n flags. flags == 0x40 }

stubborn-IsFaithful : IsFaithful stubborn
stubborn-IsFaithful = record {
  around = flat-IsFaithful.around;
  aligned = flat-IsFaithful.aligned;
  inside = flat-IsFaithful.inside;
  uniform = flat-IsFaithful.uniform;
  opens = flat-IsFaithful.opens;
}

-- The page stays open.
stubborn_run : (write_memory stubborn code 0x5A82C0 (0xC3 ∷ [])).1.protect 0x5A8000 ≡ 0x40
unfolding write_memory is_readable close_pages set_protect
stubborn_run = refl

write_memory-protect_example :
    (write_memory stubborn code 0x5A82C0 (0xC3 ∷ [])).1.protect 0x5A8000
    ≡ (if stays_open stubborn code 0x5A82C0 1 then opened_pages code 0x5A82C0 1 0x5A8000 else 0x20)
write_memory-protect_example =
    write_memory-protect stubborn code 0x5A82C0 (0xC3 ∷ []) 0x5A8000 stubborn-IsFaithful (λ x. refl)
      (omega arith)

mem_put-mem_get_example :
    mem_get flat (mem_put flat code 0x5A82C0 (0xC3 ∷ [])).1 0x5A82C0 1 ≡ some (0xC3 ∷ [])
unfolding mem_put mem_get read_memory write_memory is_readable
mem_put-mem_get_example =
    mem_put-mem_get flat code 0x5A82C0 (0xC3 ∷ []) flat-IsFaithful (λ m a n h. no_less n)
      (λ x. refl) (omega arith) refl

abbrev writable : (a n : ℕ) → is_readable flat code a n ≡ true → IsOpen flat code a n
writable a n h = record { readable = h; allowed = refl; restored = refl }

kick_game_start-playing_example :
    let k = kick_game_start flat code in
    (get_system_state flat k ≡ 8)
    × (k.byte 0xba6831 ≡ 1)
    × (k.byte 0xba67a4 ≡ 0)
    × (k.byte 0xba677b ≡ 0)
    × (k.protect ≡ code.protect)
unfolding is_readable
kick_game_start-playing_example =
    kick_game_start-playing flat
      (record { faithful = flat-IsFaithful; no_fault = λ m a n h. no_less n }) code (λ x. refl)
      (writable _ _ refl) (writable _ _ refl) (writable _ _ refl) (writable _ _ refl)
