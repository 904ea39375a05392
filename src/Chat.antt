-- ===== src/Chat.antt =====
-- native/gui/chat.cpp: what becomes of a line that the user has typed.
pub mod Words
pub mod Connect
pub mod Window
use opensamp.Prelude.{
  ℕ, ◌+◌, ◌*◌, ◌-◌, ◌^◌, Bool, true, false, not, ◌&&◌, ◌||◌, List, [], ◌∷◌, Option, none, some,
  get_elem?, get_or, ltb, leb, ◌==◌, if◌then◌else◌,
}

-- isspace in the C locale.
abbrev pub is_space : ℕ → Bool
is_space c = c == 32 || (leb 9 c && leb c 13)

abbrev pub starts_word : List ℕ → Bool
starts_word [] = false
starts_word (c ∷ cs) = not (is_space c)

-- A character before the words of what follows: it opens a word, or goes on with the first one.
abbrev pub attach : ℕ → Bool → List (List ℕ) → List (List ℕ)
attach c true (w ∷ ws) = (c ∷ w) ∷ ws
attach c true [] = (c ∷ []) ∷ []
attach c false ws = (c ∷ []) ∷ ws

-- SplitWhitespace.
unfoldable pub split_whitespace : List ℕ → List (List ℕ)
split_whitespace [] = []
split_whitespace (c ∷ cs) =
    let rest = split_whitespace cs in if is_space c then rest else attach c (starts_word cs) rest

abbrev pub is_digit : ℕ → Bool
is_digit c = leb 48 c && leb c 57

-- std::from_chars for an unsigned number: the value of the digits in front, and what stands behind
-- them. The flag says whether a digit was read.
unfoldable pub read_digits : ℕ → Bool → List ℕ → Option (ℕ × List ℕ)
read_digits v seen [] = if seen then some (v, []) else none
read_digits v seen (c ∷ cs) =
    let rest = read_digits (v * 10 + (c - 48)) true cs in
    if is_digit c then rest else if seen then some (v, c ∷ cs) else none

abbrev pub in_range : ℕ × List ℕ → Option (ℕ × List ℕ)
in_range (v, rest) = if ltb v (2 ^ 32) then some (v, rest) else none

abbrev pub all_read : ℕ × List ℕ → Option ℕ
all_read (v, []) = if v == 0 || ltb 65535 v then none else some v
all_read (v, c ∷ cs) = none

-- ParsePort.
unfoldable pub parse_port : List ℕ → Option ℕ
parse_port s = elim (read_digits 0 false s) [
  | none ↦ none
  | some r ↦ elim (in_range r) [ none ↦ none | some q ↦ all_read q ]
]

abbrev pub same : List ℕ → List ℕ → Bool
same [] [] = true
same [] (d ∷ ds) = false
same (c ∷ cs) [] = false
same (c ∷ cs) (d ∷ ds) = c == d && same cs ds

-- rfind(text, 0) == 0.
abbrev pub has_prefix : List ℕ → List ℕ → Bool
has_prefix [] s = true
has_prefix (d ∷ ds) [] = false
has_prefix (d ∷ ds) (c ∷ cs) = d == c && has_prefix ds cs

-- What RouteInput does with a line.
pub data Route : Type 0 where
  nothing quit usage bad_port disconnects compat_dump init_pools : Route
  connects : List ℕ → ℕ → List ℕ → Route
  command : List ℕ → Route
  chat : List ℕ → Route

abbrev pub connect_word : List ℕ
connect_word = b'/' ∷ b'/' ∷ b'c' ∷ b'o' ∷ b'n' ∷ b'n' ∷ b'e' ∷ b'c' ∷ b't' ∷ []

abbrev pub disconnect_line : List ℕ
disconnect_line =
    b'/' ∷ b'/' ∷ b'd' ∷ b'i' ∷ b's' ∷ b'c' ∷ b'o' ∷ b'n' ∷ b'n' ∷ b'e' ∷ b'c' ∷ b't' ∷ []

abbrev pub compat_line : List ℕ
compat_line = b'/' ∷ b'/' ∷ b'c' ∷ b'o' ∷ b'm' ∷ b'p' ∷ b'a' ∷ b't' ∷ []

abbrev pub reinit_line : List ℕ
reinit_line =
    b'/' ∷ b'/' ∷ b'c' ∷ b'o' ∷ b'm' ∷ b'p' ∷ b'a' ∷ b't' ∷ b' ' ∷ b'r' ∷ b'e' ∷ b'i' ∷ b'n' ∷ b'i'
    ∷ b't' ∷ []

abbrev pub pools_line : List ℕ
pools_line =
    b'/' ∷ b'/' ∷ b'c' ∷ b'o' ∷ b'm' ∷ b'p' ∷ b'a' ∷ b't' ∷ b' ' ∷ b'p' ∷ b'o' ∷ b'o' ∷ b'l' ∷ b's'
    ∷ []

abbrev pub default_nick : List ℕ
default_nick = b'O' ∷ b'p' ∷ b'e' ∷ b'n' ∷ b'S' ∷ b'a' ∷ b'm' ∷ b'p' ∷ []

abbrev pub nick_of : List (List ℕ) → List ℕ
nick_of [] = default_nick
nick_of (n ∷ ws) = n

-- The words of a //connect line.
unfoldable pub route_connect : List (List ℕ) → Route
route_connect (w ∷ host ∷ port ∷ ws) = elim (parse_port port) [
  | none ↦ bad_port
  | some v ↦ connects host v (nick_of ws)
]
route_connect _ = usage

-- A single slash with another character behind it.
abbrev pub is_command : List ℕ → Bool
is_command (c ∷ d ∷ cs) = c == b'/' && not (d == b'/')
is_command _ = false

-- RouteInput, behind its test for an empty line.
unfoldable pub route_line : List ℕ → Route
route_line s =
    if same s (b'/' ∷ b'q' ∷ []) || same s (b'/' ∷ b'/' ∷ b'q' ∷ [])
    then quit
    else if has_prefix connect_word s
    then route_connect (split_whitespace s)
    else if same s disconnect_line
    then disconnects
    else if same s compat_line
    then compat_dump
    else if same s reinit_line || same s pools_line
    then init_pools
    else if is_command s
    then command s
    else chat s

-- RouteInput.
unfoldable pub route_input : List ℕ → Route
route_input [] = nothing
route_input (c ∷ cs) = route_line (c ∷ cs)

abbrev pub is_trimmed : ℕ → Bool
is_trimmed c = c == 13 || c == 10 || c == 32 || c == 9

abbrev pub keep_before : ℕ → List ℕ → List ℕ
keep_before c [] = if is_trimmed c then [] else c ∷ []
keep_before c (d ∷ ds) = c ∷ d ∷ ds

-- The loop that takes line ends, spaces and tabs off the end of a line.
unfoldable pub trim_end : List ℕ → List ℕ
trim_end [] = []
trim_end (c ∷ cs) = keep_before c (trim_end cs)

-- What ImGuiChat::Draw does with the text of its input field when it is committed.
unfoldable pub submit : List ℕ → Route
submit s = route_input (trim_end s)
