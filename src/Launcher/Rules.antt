-- ===== src/Launcher/Rules.antt =====
-- Rules to derive what the functions of launcher/inject.h hold at their ends.
use mathlib.Core.Path.{subst}
use opensamp.Prelude.{
  ℕ, ◌≡◌, refl, sym, ap, ◌∙◌, true, ◌||◌, ◌&&◌, List, ◌∷◌, none, some, ◌==◌, if◌then◌else◌,
}
use opensamp.Launcher.Calls.{
  Windows, Call, create_process, open_process, create_snapshot, close, alloc, free, remote_thread,
  Answer, Step, pure, ◌>>=◌, ◌>>◌, ask, tell,
}
use opensamp.Launcher.Resources.{
  Resource, handle, memory, same, holds, release, needing, effect, after, live, Ends, Leads,
  Leads-pure, Leads-throw, Leads-exhausted, Leads-if, Leads-choose, Leads-bind, Leads-then,
  Leads-ask, Leads-tell, Leads-tell_last,
}
use opensamp.Launcher.Harmless.{
  Holds, or_true, held, release_first, Harmless, needed, wait-Harmless, exit_code_process-Harmless,
  exit_code_thread-Harmless, terminate-Harmless, module_first-Harmless, write_memory-Harmless,
  module_file_name-Harmless, exe_exists-Harmless, dll_exists-Harmless, absolute_path-Harmless,
  tick_count-Harmless, module_handle-Harmless, message_box-Harmless, proc_address-Harmless,
  sleep-Harmless,
}

module _ (os : Windows) where
  module _ {B : Type 0} {xs : List Resource} {ys : B → List Resource} {zs : List Resource} where
    pub Leads-look :
        {c : Call} {k : Answer → Step B}
        → Harmless c xs
        → ((a : Answer) → Leads (some xs) (k a) ys zs)
        → Leads (some xs) (ask os c >>= k) ys zs
    Leads-look {c} {k} h g =
        Leads-ask os c k (λ a. subst (λ o. Leads o (k a) ys zs) (sym (h.run a)) (g a))

    pub Leads-touch :
        {c : Call} {k : Step B}
        → Harmless c xs
        → Leads (some xs) k ys zs
        → Leads (some xs) (tell os c >> k) ys zs
    Leads-touch {c} {k} h g =
        Leads-tell os c k (λ a. subst (λ o. Leads o k ys zs) (sym (h.run a)) g)

    pub Leads-close :
        {h : ℕ} {k : Step B}
        → Leads (some xs) k ys zs
        → Leads (some (handle h ∷ xs)) (tell os (close h) >> k) ys zs
    unfolding effect
    Leads-close {h} {k} g =
        Leads-tell os (close h) k (λ a. subst (λ o. Leads o k ys zs) (sym (release_first _ _)) g)

    pub Leads-free :
        {p m : ℕ} {k : Step B}
        → Holds (handle p) (memory p m ∷ xs)
        → Leads (some xs) k ys zs
        → Leads (some (memory p m ∷ xs)) (tell os (free p m) >> k) ys zs
    unfolding effect
    Leads-free {p} {m} {k} h g = Leads-tell os (free p m) k (λ a.
        subst (λ o. Leads o k ys zs)
          (sym (
            ap (λ b. if b then release (memory p m) (memory p m ∷ xs) else none) (held h)
            ∙ release_first _ _))
          g)

    pub Leads-open :
        (pid : ℕ) {k : Answer → Step B}
        → ((a : Answer)
            → Leads (if a.result == 0 then some xs else some (handle a.result ∷ xs)) (k a) ys zs)
        → Leads (some xs) (ask os (open_process pid) >>= k) ys zs
    unfolding effect
    Leads-open pid {k} g = Leads-ask os (open_process pid) k g

    pub Leads-create :
        {k : Answer → Step B}
        → ((a : Answer)
            → Leads
                (if a.result == 0 then some xs else some (handle a.out2 ∷ handle a.out ∷ xs))
                (k a)
                ys
                zs)
        → Leads (some xs) (ask os create_process >>= k) ys zs
    unfolding effect
    Leads-create {k} g = Leads-ask os create_process k g

    pub Leads-snapshot :
        (pid : ℕ) {k : Answer → Step B}
        → ((a : Answer)
            → Leads
                (if a.result == 0xffffffff then some xs else some (handle a.result ∷ xs))
                (k a)
                ys
                zs)
        → Leads (some xs) (ask os (create_snapshot pid) >>= k) ys zs
    unfolding effect
    Leads-snapshot pid {k} g = Leads-ask os (create_snapshot pid) k g

    pub Leads-alloc :
        {p : ℕ} (n : ℕ) {k : Answer → Step B}
        → Holds (handle p) xs
        → ((a : Answer)
            → Leads (if a.result == 0 then some xs else some (memory p a.result ∷ xs)) (k a) ys zs)
        → Leads (some xs) (ask os (alloc p n) >>= k) ys zs
    unfolding effect
    Leads-alloc {p} n {k} h g = Leads-ask os (alloc p n) k (λ a.
        subst
          (λ b.
            Leads
              (if b then if a.result == 0 then some xs else some (memory p a.result ∷ xs) else none)
              (k a) ys zs)
          (sym (held h)) (g a))

    open_thread :
        {p : ℕ} (f m : ℕ) {k : Answer → Step B}
        → Holds (handle p) xs
        → (m == 0 || holds (memory p m) xs) ≡ true
        → ((a : Answer)
            → Leads (if a.result == 0 then some xs else some (handle a.result ∷ xs)) (k a) ys zs)
        → Leads (some xs) (ask os (remote_thread p f m) >>= k) ys zs
    unfolding effect
    open_thread {p} f m {k} h e g = Leads-ask os (remote_thread p f m) k (λ a.
        subst
          (λ b.
            Leads
              (if b then if a.result == 0 then some xs else some (handle a.result ∷ xs) else none)
              (k a) ys zs)
          (sym (ap (λ b. b && (m == 0 || holds (memory p m) xs)) (held h) ∙ e)) (g a))

    pub Leads-null_thread :
        {p : ℕ} (f : ℕ) {k : Answer → Step B}
        → Holds (handle p) xs
        → ((a : Answer)
            → Leads (if a.result == 0 then some xs else some (handle a.result ∷ xs)) (k a) ys zs)
        → Leads (some xs) (ask os (remote_thread p f 0) >>= k) ys zs
    Leads-null_thread f h g = open_thread f 0 h refl g

    pub Leads-thread :
        {p m : ℕ} (f : ℕ) {k : Answer → Step B}
        → Holds (handle p) xs
        → Holds (memory p m) xs
        → ((a : Answer)
            → Leads (if a.result == 0 then some xs else some (handle a.result ∷ xs)) (k a) ys zs)
        → Leads (some xs) (ask os (remote_thread p f m) >>= k) ys zs
    Leads-thread {p} {m} f h j g = open_thread f m h (or_true (m == 0) (held j)) g

  module _ {xs : List Resource} {zs : List Resource} where
    pub Leads-close_last : {h : ℕ} → Leads (some (handle h ∷ xs)) (tell os (close h)) (λ u. xs) zs
    unfolding effect
    Leads-close_last {h} = Leads-tell_last os (close h) (λ a. release_first _ _)

    pub Leads-touch_last : {c : Call} → Harmless c xs → Leads (some xs) (tell os c) (λ u. xs) zs
    Leads-touch_last {c} h = Leads-tell_last os c h.run

-- A part of a function that holds at its end what it held at its start.
module _ {A B : Type 0} {xs zs : List Resource} {ys : B → List Resource} where
  pub Leads-bind_same :
      {m : Step A} {k : A → Step B}
      → Leads (some xs) m (λ a. xs) zs
      → ((a : A) → Leads (some xs) (k a) ys zs)
      → Leads (some xs) (m >>= k) ys zs
  Leads-bind_same {m} {k} h g = Leads-bind (λ a. xs) m k h g

module _ {B : Type 0} {xs zs : List Resource} {ys : B → List Resource} where
  pub Leads-then_same :
      {m : Step Unit} {k : Step B}
      → Leads (some xs) m (λ u. xs) zs
      → Leads (some xs) k ys zs
      → Leads (some xs) (m >> k) ys zs
  Leads-then_same {m} {k} h g = Leads-then xs m k h g

pub Leads-value :
    {A : Type 0} {xs zs : List Resource} (a : A) → Leads (some xs) (pure a) (λ b. xs) zs
Leads-value a = Leads-pure a

pub ruleset leads_rules = (
  Leads-value, Leads-throw, Leads-exhausted, Leads-choose, Leads-if, Leads-bind_same,
  Leads-then_same, Leads-look, Leads-touch, Leads-close, Leads-free, Leads-open, Leads-create,
  Leads-snapshot, Leads-alloc, Leads-null_thread, Leads-thread, Leads-close_last, Leads-touch_last,
  Holds.here, Holds.there, wait-Harmless, exit_code_process-Harmless, exit_code_thread-Harmless,
  terminate-Harmless, module_first-Harmless, write_memory-Harmless, module_file_name-Harmless,
  exe_exists-Harmless, dll_exists-Harmless, absolute_path-Harmless, tick_count-Harmless,
  module_handle-Harmless, message_box-Harmless, proc_address-Harmless, sleep-Harmless,
)
