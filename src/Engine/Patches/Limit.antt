-- ===== src/Engine/Patches/Limit.antt =====
-- The limit of the legacy block of native/patches.cpp.
use mathlib.Core.List.{append_assoc}
use mathlib.Core.Path.{subst}
use Prim.Native.Nat.{min}
use opensamp.Prelude.{
  ℕ, zero, suc, ◌+◌, ◌≡◌, refl, sym, ap, ◌∙◌, true, false, List, [], ◌∷◌, ◌++◌, Option, none, some,
  length, take, ltb, if◌then◌else◌, if_cases, arith,
}
use opensamp.Engine.Patches.{Write, Gate, gate_open, run_gates}

-- Without a limit the same writes come first.
pub run_gates-prefix :
    (limit : Option ℕ) (k l i j : ℕ) (gs : List Gate)
    → (rest : List Write) × ((run_gates none i j gs).0 ≡ (run_gates limit k l gs).0 ++ rest)
unfolding run_gates
run_gates-prefix limit k l i j [] = ([], refl)
run_gates-prefix limit k l i j (g ∷ gs) =
    if_cases {A = List Write × ℕ × ℕ}
      (λ r. (rest : List Write) × (g.1 ++ (run_gates none (suc i) g.0 gs).0 ≡ r.0 ++ rest))
      (gate_open limit k)
      (λ h.
        let q = run_gates-prefix limit (suc k) g.0 (suc i) g.0 gs in
        (q.0, ap (λ ws. g.1 ++ ws) q.1 ∙ sym (append_assoc g.1 _ q.0)))
      (λ h. (g.1 ++ (run_gates none (suc i) g.0 gs).0, refl))

abbrev pub writes_of : List Gate → List Write
writes_of [] = []
writes_of (g ∷ gs) = g.1 ++ writes_of gs

open-if : (k d limit : ℕ) → limit ≡ k + suc d → ltb k limit ≡ true
open-if k d limit e = ground arith

shut-if : (k limit : ℕ) → limit ≡ k + 0 → ltb k limit ≡ false
shut-if k limit e = ground arith

-- The same from any gate on, when so many are still let through.
abbrev Through : ℕ → ℕ → ℕ → List Gate → List Write × ℕ × ℕ → Type 0
Through limit k d gs r = (r.0 ≡ writes_of (take d gs)) × (r.1 ≡ k + min d (length gs))

run_gates-Through :
    (limit k d l : ℕ) (gs : List Gate)
    → limit ≡ k + d
    → Through limit k d gs (run_gates (some limit) k l gs)
unfolding run_gates
run_gates-Through limit k zero l [] e = (refl, omega arith)
run_gates-Through limit k (suc d) l [] e = (refl, omega arith)
run_gates-Through limit k zero l (g ∷ gs) e =
    subst
      (λ b. Through limit k 0 (g ∷ gs) (
        if b
        then (let rest = run_gates (some limit) (suc k) g.0 gs in (g.1 ++ rest.0, rest.1, rest.2))
        else ([], k, l)))
      (sym (shut-if k limit e)) (refl, omega arith)
run_gates-Through limit k (suc d) l (g ∷ gs) e =
    let q = run_gates-Through limit (suc k) d g.0 gs (omega (arith, e)) in
    subst
      (λ b. Through limit k (suc d) (g ∷ gs) (
        if b
        then (let rest = run_gates (some limit) (suc k) g.0 gs in (g.1 ++ rest.0, rest.1, rest.2))
        else ([], k, l)))
      (sym (open-if k d limit e)) (ap (λ ws. g.1 ++ ws) q.0, omega (arith, q.1))

-- With a limit, the legacy block makes the writes of just so many gates, the first ones, or of all
-- where there are fewer, and that is the number that it reports.
run_gates-limit :
    (limit : ℕ) (gs : List Gate)
    → ((run_gates (some limit) 0 0 gs).0 ≡ writes_of (take limit gs))
      × ((run_gates (some limit) 0 0 gs).1 ≡ min limit (length gs))
run_gates-limit limit gs =
    let q = run_gates-Through limit 0 limit 0 gs (omega arith) in (q.0, omega (arith, q.1))
