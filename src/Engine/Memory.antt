-- ===== src/Engine/Memory.antt =====
-- native/gta/common.h and native/memory.h: guarded reads and writes of the game's memory.
pub mod Protection
pub mod Content
use opensamp.Prelude.{
  ℕ, zero, suc, ◌+◌, ◌-◌, ◌/◌, ◌%◌, ◌^◌, Bool, true, false, not, ◌&&◌, ◌||◌, List, [], ◌∷◌, Option,
  none, some, length, replicate, take, leb, ltb, ◌==◌, if◌then◌else◌,
}

-- The bytes, and the protection of the page of each address.
pub record Memory : Type 0 where
  pub byte : ℕ → ℕ
  pub protect : ℕ → ℕ

-- MEMORY_BASIC_INFORMATION.
pub record Region : Type 0 where
  pub base : ℕ
  pub size : ℕ
  pub state : ℕ
  pub protect : ℕ

-- What Windows decides: VirtualQuery; whether VirtualProtect sets these flags, as the pages are
-- protected; whether malloc succeeds; and how many bytes memcpy moves before it faults.
pub record Paging : Type 0 where
  pub query : (ℕ → ℕ) → ℕ → Option Region
  pub allows : (ℕ → ℕ) → ℕ → ℕ → ℕ → Bool
  pub has_heap : ℕ → Bool
  pub moved : Memory → ℕ → ℕ → ℕ

-- MEM_COMMIT, PAGE_EXECUTE_READWRITE and the size of a page.
abbrev mem_commit : ℕ
mem_commit = 0x1000

abbrev pub execute_readwrite : ℕ
execute_readwrite = 0x40

abbrev pub page : ℕ
page = 4096

-- The flags that is_readable accepts.
abbrev pub is_readable_flag : ℕ → Bool
is_readable_flag p = p == 2 || p == 4 || p == 8 || p == 0x20 || p == 0x40 || p == 0x80

-- is_readable, behind the query.
abbrev pub region_readable : Region → ℕ → ℕ → Bool
region_readable r ptr size =
    r.state == mem_commit
    && not (r.protect % 2 == 1)
    && not (r.protect / 256 % 2 == 1)
    && is_readable_flag (r.protect % 256)
    && leb ((ptr + size) % 2 ^ 32) ((r.base + r.size) % 2 ^ 32)

abbrev pub bytes_at : (ℕ → ℕ) → ℕ → ℕ → List ℕ
bytes_at f a zero = []
bytes_at f a (suc n) = f a ∷ bytes_at f (suc a) n

-- memcpy into the memory.
unfoldable pub store : (ℕ → ℕ) → ℕ → List ℕ → ℕ → ℕ
store f a [] x = f x
store f a (b ∷ bs) x = let rest = store f (suc a) bs x in if x == a then b else rest

-- VirtualProtect: the pages that the range touches.
unfoldable pub set_protect : ℕ → ℕ → ℕ → (ℕ → ℕ) → ℕ → ℕ
set_protect a n flags f x =
    if leb (a / page) (x / page) && leb (x / page) ((a + n - 1) / page) then flags else f x

abbrev pub same_bytes : List ℕ → List ℕ → Bool
same_bytes [] [] = true
same_bytes [] (d ∷ ds) = false
same_bytes (c ∷ cs) [] = false
same_bytes (c ∷ cs) (d ∷ ds) = c == d && same_bytes cs ds

module _ (os : Paging) where
  unfoldable pub is_readable : Memory → ℕ → ℕ → Bool
  is_readable m ptr size =
      if ptr == 0 || size == 0
      then false
      else elim (os.query m.protect ptr) [ none ↦ false | some r ↦ region_readable r ptr size ]

  -- read_memory, into a buffer that is not null; none where it returns 0.
  unfoldable pub read_memory : Memory → ℕ → ℕ → Option (List ℕ)
  read_memory m a n =
      if not (is_readable m a n)
      then none
      else if ltb (os.moved m a n) n
      then none
      else some (bytes_at m.byte a n)

  -- The second VirtualProtect of write_memory, whose result is ignored: the pages get back the
  -- protection of the first one, or keep the one that they were opened with.
  unfoldable pub close_pages : (ℕ → ℕ) → ℕ → ℕ → ℕ → ℕ → ℕ
  close_pages opened a n old =
      if os.allows opened a n old then set_protect a n old opened else opened

  -- write_memory, and whether it returns the size.
  unfoldable pub write_memory : Memory → ℕ → List ℕ → Bool × Memory
  write_memory m a bs =
      let n = length bs in
      let old = m.protect a in
      let k = os.moved m a n in
      let opened = set_protect a n execute_readwrite m.protect in
      if not (is_readable m a n)
      then (false, m)
      else if not (os.allows m.protect a n execute_readwrite)
      then (false, m)
      else (
        not (ltb k n),
        record { byte = store m.byte a (take k bs); protect = close_pages opened a n old },
      )

  -- mem_set.
  unfoldable pub mem_set : Memory → ℕ → ℕ → ℕ → Bool × Memory
  mem_set m a value amount =
      if amount == 0
      then (true, m)
      else if ltb 4096 amount && not (os.has_heap amount)
      then (false, m)
      else write_memory m a (replicate amount value)

  -- mem_get, for a type of so many bytes.
  unfoldable pub mem_get : Memory → ℕ → ℕ → Option (List ℕ)
  mem_get m a n = read_memory m a n

  -- mem_put.
  unfoldable pub mem_put : Memory → ℕ → List ℕ → Bool × Memory
  mem_put m a bs = elim (mem_get m a (length bs)) [
    | none ↦ (false, m)
    | some current ↦ if same_bytes current bs then (true, m) else write_memory m a bs
  ]
