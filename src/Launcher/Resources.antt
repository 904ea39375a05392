-- ===== src/Launcher/Resources.antt =====
-- The handles and the memory that launcher/inject.h holds, read off its calls.
use opensamp.Prelude.{
  ℕ, ◌≡◌, ap, ◌∙◌, Bool, true, false, ◌||◌, ◌&&◌, List, [], ◌∷◌, Option, none, some, ◌==◌, if_cases,
  if◌then◌else◌,
}
use opensamp.Launcher.Calls.{
  Windows, Call, module_file_name, exe_exists, dll_exists, absolute_path, create_process,
  tick_count, module_handle, message_box, proc_address, open_process, create_snapshot, sleep,
  module_first, close, terminate, exit_code_process, exit_code_thread, wait, alloc, free,
  write_memory, remote_thread, Answer, Failure, Outcome, returns, throws, going, Log, Step, pure,
  throw, exhausted, ◌>>=◌, ◌>>◌, ask, tell, continue,
}

-- An open handle, or memory allocated in the process behind a handle.
pub data Resource : Type 0 where
  handle : ℕ → Resource
  memory : ℕ → ℕ → Resource

abbrev pub same : Resource → Resource → Bool
same (handle h) (handle i) = h == i
same (handle h) (memory p m) = false
same (memory p m) (handle i) = false
same (memory p m) (memory q n) = p == q && m == n

unfoldable pub holds : Resource → List Resource → Bool
holds r [] = false
holds r (x ∷ xs) = same r x || holds r xs

unfoldable pub release : Resource → List Resource → Option (List Resource)
release r [] = none
release r (x ∷ xs) = if same r x then some xs else none

abbrev pub needing : Bool → List Resource → Option (List Resource)
needing b xs = if b then some xs else none

-- What is held after a call, the latest first; none for a call that uses or releases what is not
-- held, or releases what is not the latest.
unfoldable pub effect : Call → Answer → List Resource → Option (List Resource)
effect create_process a xs =
    if a.result == 0 then some xs else some (handle a.out2 ∷ handle a.out ∷ xs)
effect (open_process pid) a xs = if a.result == 0 then some xs else some (handle a.result ∷ xs)
effect (create_snapshot pid) a xs =
    if a.result == 0xffffffff then some xs else some (handle a.result ∷ xs)
effect (alloc p n) a xs =
    if holds (handle p) xs
    then if a.result == 0 then some xs else some (memory p a.result ∷ xs)
    else none
effect (remote_thread p f m) a xs =
    if holds (handle p) xs && (m == 0 || holds (memory p m) xs)
    then if a.result == 0 then some xs else some (handle a.result ∷ xs)
    else none
effect (close h) a xs = release (handle h) xs
effect (free p m) a xs = if holds (handle p) xs then release (memory p m) xs else none
effect (write_memory p m n) a xs = needing (holds (handle p) xs && holds (memory p m) xs) xs
effect (module_first h) a xs = needing (holds (handle h) xs) xs
effect (terminate h) a xs = needing (holds (handle h) xs) xs
effect (exit_code_process h) a xs = needing (holds (handle h) xs) xs
effect (exit_code_thread h) a xs = needing (holds (handle h) xs) xs
effect (wait h ms) a xs = needing (holds (handle h) xs) xs
effect module_file_name a xs = some xs
effect exe_exists a xs = some xs
effect dll_exists a xs = some xs
effect absolute_path a xs = some xs
effect tick_count a xs = some xs
effect module_handle a xs = some xs
effect message_box a xs = some xs
effect (proc_address m) a xs = some xs
effect (sleep ms) a xs = some xs

abbrev pub after : Call → Answer → Option (List Resource) → Option (List Resource)
after c a none = none
after c a (some xs) = effect c a xs

-- What is held after all calls of a log.
abbrev pub live : Log → Option (List Resource)
live [] = some []
live ((c, a) ∷ l) = after c a (live l)

-- What is held at the end: `ys` where the function returns, and `zs` otherwise.
abbrev pub Ends : {A : Type 0} → Outcome A × Log → (A → List Resource) → List Resource → Type 0
Ends (returns a, l) ys zs = live l ≡ some (ys a)
Ends (throws e, l) ys zs = live l ≡ some zs
Ends (going, l) ys zs = live l ≡ some zs

pub record Leads {A : Type 0} (o : Option (List Resource)) (m : Step A) (ys : A → List Resource)
    (zs : List Resource) : Type 0 where
  pub at : (l : Log) → live l ≡ o → Ends (m l) ys zs

module _ {A : Type 0} {ys : A → List Resource} {zs : List Resource} where
  pub Leads-pure : (a : A) → Leads (some (ys a)) (pure a) ys zs
  unfolding pure
  Leads-pure a = record { at = λ l h. h }

  pub Leads-throw : (e : Failure) → Leads (some zs) (throw e) ys zs
  unfolding throw
  Leads-throw e = record { at = λ l h. h }

  pub Leads-exhausted : Leads (some zs) exhausted ys zs
  unfolding exhausted
  Leads-exhausted = record { at = λ l h. h }

  pub Leads-if :
      {o : Option (List Resource)} (b : Bool) (m n : Step A)
      → (b ≡ true → Leads o m ys zs)
      → (b ≡ false → Leads o n ys zs)
      → Leads o (if b then m else n) ys zs
  Leads-if {o = o} b m n h k = if_cases (λ t. Leads o t ys zs) b h k

  -- A test of an answer on which it depends what is held.
  pub Leads-choose :
      {o o' : Option (List Resource)} (b : Bool) (m n : Step A)
      → Leads o m ys zs
      → Leads o' n ys zs
      → Leads (if b then o else o') (if b then m else n) ys zs
  Leads-choose true m n h k = h
  Leads-choose false m n h k = k

module _ {A B : Type 0} {ys : B → List Resource} {zs : List Resource} where
  continue-Ends :
      (xs : A → List Resource) (r : Outcome A × Log) (k : A → Step B)
      → Ends r xs zs
      → ((a : A) → Leads (some (xs a)) (k a) ys zs)
      → Ends (continue r k) ys zs
  continue-Ends xs (returns a, l) k h g = (g a).at l h
  continue-Ends xs (throws e, l) k h g = h
  continue-Ends xs (going, l) k h g = h

  pub Leads-bind :
      {o : Option (List Resource)} (xs : A → List Resource) (m : Step A) (k : A → Step B)
      → Leads o m xs zs
      → ((a : A) → Leads (some (xs a)) (k a) ys zs)
      → Leads o (m >>= k) ys zs
  unfolding ◌>>=◌
  Leads-bind xs m k h g = record { at = λ l e. continue-Ends xs (m l) k (h.at l e) g }

module _ {B : Type 0} {ys : B → List Resource} {zs : List Resource} where
  pub Leads-then :
      {o : Option (List Resource)} (xs : List Resource) (m : Step Unit) (k : Step B)
      → Leads o m (λ u. xs) zs
      → Leads (some xs) k ys zs
      → Leads o (m >> k) ys zs
  unfolding ◌>>◌
  Leads-then xs m k h g = record {
    at = λ l e. continue-Ends (λ u. xs) (m l) (λ u. k) (h.at l e) (λ u. g);
  }

module _ (os : Windows) where
  pub Leads-ask :
      {B : Type 0} {ys : B → List Resource} {zs : List Resource} {o : Option (List Resource)}
      (c : Call) (k : Answer → Step B)
      → ((a : Answer) → Leads (after c a o) (k a) ys zs)
      → Leads o (ask os c >>= k) ys zs
  unfolding ask ◌>>=◌
  Leads-ask c k g = record { at = λ l h. (g (os l c)).at _ (ap (after c (os l c)) h) }

  pub Leads-tell :
      {B : Type 0} {ys : B → List Resource} {zs : List Resource} {o : Option (List Resource)}
      (c : Call) (k : Step B)
      → ((a : Answer) → Leads (after c a o) k ys zs)
      → Leads o (tell os c >> k) ys zs
  unfolding tell ◌>>◌
  Leads-tell c k g = record { at = λ l h. (g (os l c)).at _ (ap (after c (os l c)) h) }

  pub Leads-tell_last :
      {xs zs : List Resource} {o : Option (List Resource)} (c : Call)
      → ((a : Answer) → after c a o ≡ some xs)
      → Leads o (tell os c) (λ u. xs) zs
  unfolding tell
  Leads-tell_last c g = record { at = λ l h. ap (after c (os l c)) h ∙ g (os l c) }
