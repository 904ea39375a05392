-- ===== src/Launcher/Clock.antt =====
-- The time that the calls of a round of wait_for_process_ready take, in launcher/inject.h.
use opensamp.Prelude.{
  ℕ, suc, ◌+◌, ◌*◌, ◌%◌, ◌^◌, ◌≤◌, ◌≡◌, Bool, true, false, ◌∷◌, if◌then◌else◌, arith,
}
use opensamp.Launcher.Calls.{
  Windows, Call, sleep, tick_count, open_process, wait, create_snapshot, module_first, close,
  Answer, Failure, Log, Step, pure, throw, ◌>>=◌, ◌>>◌, ask, tell,
}
use opensamp.Launcher.{has_module, check_running}

-- A day in milliseconds.
abbrev pub day : ℕ
day = 86400000

-- The calls that a round of the loop makes.
pub data Polls : Call → Type 0 where
  counting : Polls tick_count
  opening : {pid : ℕ} → Polls (open_process pid)
  waiting : {h : ℕ} → Polls (wait h 0)
  closing : {h : ℕ} → Polls (close h)
  listing : {pid : ℕ} → Polls (create_snapshot pid)
  finding : {h : ℕ} → Polls (module_first h)
  sleeping : Polls (sleep 100)

-- Time in milliseconds, of which GetTickCount answers the last 32 bits. It does not run backwards,
-- Sleep takes some of it, and no call of the loop takes more than a day.
pub record Clock (os : Windows) : Type 0 where
  pub now : Log → ℕ
  pub ticks : (l : Log) → (os l tick_count).result ≡ now l % 2 ^ 32
  pub forward : (l : Log) (c : Call) (a : Answer) → now l ≤ now ((c, a) ∷ l)
  pub soon : (l : Log) (c : Call) (a : Answer) → Polls c → now ((c, a) ∷ l) ≤ now l + 86400000
  pub sleeps : (l : Log) (ms : ℕ) (a : Answer) → now l + 1 ≤ now ((sleep (ms + 1), a) ∷ l)

module _ (os : Windows) (clock : Clock os) where
  -- The time from one log to another, in days at most.
  abbrev pub Within : ℕ → Log → Log → Type 0
  Within n l m = (clock.now l ≤ clock.now m) × (clock.now m ≤ clock.now l + n * day)

  pub record Takes {A : Type 0} (n : ℕ) (m : Step A) : Type 0 where
    pub at : (l : Log) → Within n l (m l).1

  Within-call :
      (n : ℕ) (l m : Log) (c : Call) (a : Answer)
      → Polls c
      → Within n ((c, a) ∷ l) m
      → Within (suc n) l m
  Within-call n l m c a p h =
      let i = clock.forward l c a in
      let j = clock.soon l c a p in (omega (arith, h.0), omega (arith, h.1))

  module _ {A : Type 0} where
    Takes-pure : (n : ℕ) (a : A) → Takes n (pure a)
    unfolding pure
    Takes-pure n a = record { at = λ l. (omega arith, omega arith) }

    Takes-throw : (n : ℕ) (e : Failure) → Takes n (throw {A = A} e)
    unfolding throw
    Takes-throw n e = record { at = λ l. (omega arith, omega arith) }

    Takes-if :
        (n : ℕ) (b : Bool) (m k : Step A) → Takes n m → Takes n k → Takes n (if b then m else k)
    Takes-if n true m k h g = h
    Takes-if n false m k h g = g

    Takes-ask :
        (n : ℕ) (c : Call) (k : Answer → Step A)
        → Polls c
        → ((a : Answer) → Takes n (k a))
        → Takes (suc n) (ask os c >>= k)
    unfolding ask ◌>>=◌
    Takes-ask n c k p h = record { at = λ l. Within-call n l _ c _ p ((h _).at _) }

    Takes-tell :
        (n : ℕ) (c : Call) (k : Step A) → Polls c → Takes n k → Takes (suc n) (tell os c >> k)
    unfolding tell ◌>>◌
    Takes-tell n c k p h = record { at = λ l. Within-call n l _ c _ p (h.at _) }

  pub check_running-Takes : (pid : ℕ) → Takes 3 (check_running os pid)
  unfolding check_running
  check_running-Takes pid =
      search
        (
          Takes-pure, Takes-throw, Takes-if, Takes-ask, Takes-tell, Polls.opening, Polls.waiting,
          Polls.closing,
        )
        depth 20

  pub has_module-Takes : (pid : ℕ) → Takes 3 (has_module os pid)
  unfolding has_module
  has_module-Takes pid =
      search
        (Takes-pure, Takes-if, Takes-ask, Takes-tell, Polls.listing, Polls.closing, Polls.finding)
        depth 20
