-- ===== src/Chat/Connect.antt =====
-- RouteInput and ParsePort of native/gui/chat.cpp.
use opensamp.Prelude.{
  ℕ, ◌+◌, ◌*◌, ◌-◌, ◌<◌, ◌≤◌, ◌≡◌, refl, ap, ◌∙◌, true, false, List, [], ◌∷◌, Option, none, some,
  arith, if_cases,
}
use opensamp.Chat.{
  Route, bad_port, connects, route_input, route_line, route_connect, connect_word, parse_port,
  read_digits, in_range, all_read, is_digit,
}
use opensamp.Chat.Words.{IsWord, unwords, split_whitespace-unwords}

-- The route that a port gives.
abbrev pub with_port : List ℕ → List ℕ → Option ℕ → Route
with_port host nickname none = bad_port
with_port host nickname (some v) = connects host v nickname

-- A line that consists of //connect, a host, a port and a nickname, with a space between each two,
-- connects to that host with that nickname, at the port that is read, or is refused for its port.
-- None of the words is empty or has white space.
pub route_input-connect :
    (host port nickname : List ℕ)
    → IsWord host
    → IsWord port
    → IsWord nickname
    → route_input (unwords (connect_word ∷ host ∷ port ∷ nickname ∷ []))
      ≡ with_port host nickname (parse_port port)
unfolding route_input route_line route_connect
route_input-connect host port nickname h k l =
    let ws = connect_word ∷ host ∷ port ∷ nickname ∷ [] in
    ap route_connect (split_whitespace-unwords ws (connect_solid, (h, (k, (l, tt)))))
    ∙ by_port (parse_port port)
  where
    connect_solid : IsWord connect_word
    connect_solid = (refl, (refl, (refl, (refl, (refl, (refl, (refl, (refl, (refl, tt)))))))))

    by_port :
        (o : Option ℕ)
        → (elim o [ none ↦ bad_port | some v ↦ connects host v nickname ])
          ≡ with_port host nickname o
    by_port none = refl
    by_port (some v) = refl

all_read-range : (r : ℕ × List ℕ) (v : ℕ) → all_read r ≡ some v → (0 < v) × (v ≤ 65535)
all_read-range (n, []) v e = ground arith
all_read-range (n, c ∷ cs) v e = cc

-- A port that is accepted is not zero and has 16 bits.
parse_port-range : (s : List ℕ) (v : ℕ) → parse_port s ≡ some v → (0 < v) × (v ≤ 65535)
unfolding parse_port
parse_port-range s v e = first (read_digits 0 false s) e
  where
    second :
        (o : Option (ℕ × List ℕ))
        → (elim o [ none ↦ none | some q ↦ all_read q ]) ≡ some v
        → (0 < v) × (v ≤ 65535)
    second none e = cc
    second (some q) e = all_read-range q v e

    first :
        (o : Option (ℕ × List ℕ))
        → (elim o [
          | none ↦ none
          | some r ↦ elim (in_range r) [ none ↦ none | some q ↦ all_read q ]
        ])
          ≡ some v
        → (0 < v) × (v ≤ 65535)
    first none e = cc
    first (some r) e = second (in_range r) e

-- Digits only.
abbrev pub IsDecimal : List ℕ → Type 0
IsDecimal [] = Unit
IsDecimal (c ∷ cs) = ((48 ≤ c) × (c ≤ 57)) × IsDecimal cs

-- The number that digits stand for, behind a number that was read before.
abbrev pub decimal : ℕ → List ℕ → ℕ
decimal v [] = v
decimal v (c ∷ cs) = decimal (v * 10 + (c - 48)) cs

read_digits-decimal :
    (v : ℕ) (cs : List ℕ) → IsDecimal cs → read_digits v true cs ≡ some (decimal v cs, [])
unfolding read_digits
read_digits-decimal v [] h = refl
read_digits-decimal v (c ∷ cs) h =
    let rest = read_digits (v * 10 + (c - 48)) true cs in
    if_cases (λ r. r ≡ some (decimal (v * 10 + (c - 48)) cs, [])) (is_digit c) {x = rest}
      {y = some (v, c ∷ cs)} (λ e. read_digits-decimal (v * 10 + (c - 48)) cs h.1)
      (λ e. absurd (no_digit e))
  where
    no_digit : is_digit c ≡ false → ⊥
    no_digit e = ground arith

in_port_range :
    (v : ℕ)
    → 0 < v
    → v ≤ 65535
    → elim (in_range (v, [])) [ none ↦ none | some q ↦ all_read q ] ≡ some v
in_port_range v h k = ground arith

-- Decimal digits, at least one, whose number is a port are read as that port.
parse_port-decimal :
    (c : ℕ) (cs : List ℕ)
    → IsDecimal (c ∷ cs)
    → 0 < decimal 0 (c ∷ cs)
    → decimal 0 (c ∷ cs) ≤ 65535
    → parse_port (c ∷ cs) ≡ some (decimal 0 (c ∷ cs))
unfolding parse_port read_digits
parse_port-decimal c cs d h k =
    let rest = read_digits (0 * 10 + (c - 48)) true cs in
    if_cases
      (λ r.
        (elim r [ none ↦ none | some q ↦ elim (in_range q) [ none ↦ none | some t ↦ all_read t ] ])
        ≡ some (decimal 0 (c ∷ cs)))
      (is_digit c) {x = rest} {y = none}
      (λ e. rw (read_digits-decimal (0 * 10 + (c - 48)) cs d.1) (in_port_range _ h k))
      (λ e. absurd (no_digit e))
  where
    no_digit : is_digit c ≡ false → ⊥
    no_digit e = ground arith
