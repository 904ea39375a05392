-- ===== src/Chat/Window.antt =====
-- native/gui/chat.cpp and native/gui/chat.hpp: the lines of the chat, and a frame of its window. The
-- widgets of ImGui answer through the inputs of the frame.
pub mod Shown
pub mod History
use mathlib.Core.List.{reverse}
use opensamp.Prelude.{
  ℕ, zero, suc, ◌-◌, Bool, true, false, List, [], ◌∷◌, ◌++◌, map, Option, none, some, get_elem?,
  length, ltb, ◌==◌, if◌then◌else◌,
}
use opensamp.Gui.Input.{Chat, set_active}
use opensamp.Chat.{Route, usage, bad_port, submit}

-- ChatLine.
pub record ChatLine : Type 0 where
  pub text : List ℕ
  pub ms : ℕ

-- The members of ImGuiChat: the deques with the oldest entry first.
pub record Window : Type 0 where
  pub lines : List ChatLine
  pub out_commands : List (List ℕ)
  pub pending : List (List ℕ)
  pub box : Chat
  pub visible_lines : ℕ

-- What ImGui answers in a frame: the readings of the clock, whether the lines are scrolled to their
-- end, what InputText leaves in its buffer, whether it was committed by Enter, and whether the item was
-- deactivated after an edit.
pub record Frame : Type 0 where
  pub clock : ℕ → ℕ
  pub at_end : Bool
  pub typed : List ℕ
  pub entered : Bool
  pub deactivated : Bool

-- "//connect <ip> <port> [nick]" and "Invalid port.".
abbrev pub usage_text : List ℕ
usage_text =
    b'/' ∷ b'/' ∷ b'c' ∷ b'o' ∷ b'n' ∷ b'n' ∷ b'e' ∷ b'c' ∷ b't' ∷ b' ' ∷ b'<' ∷ b'i' ∷ b'p' ∷ b'>'
    ∷ b' ' ∷ b'<' ∷ b'p' ∷ b'o' ∷ b'r' ∷ b't' ∷ b'>' ∷ b' ' ∷ b'[' ∷ b'n' ∷ b'i' ∷ b'c' ∷ b'k'
    ∷ b']' ∷ []

abbrev pub bad_port_text : List ℕ
bad_port_text =
    b'I' ∷ b'n' ∷ b'v' ∷ b'a' ∷ b'l' ∷ b'i' ∷ b'd' ∷ b' ' ∷ b'p' ∷ b'o' ∷ b'r' ∷ b't' ∷ b'.' ∷ []

-- PushLineAsync.
unfoldable pub push_line_async : List ℕ → Window → Window
push_line_async s w = record w { pending = w.pending ++ s ∷ [] }

abbrev pub push_all : List (List ℕ) → Window → Window
push_all [] w = w
push_all (s ∷ ss) w = push_all ss (push_line_async s w)

-- PopCommand.
abbrev pop_first : List (List ℕ) → Window → Option (List ℕ) × Window
pop_first [] w = (none, w)
pop_first (c ∷ cs) w = (some c, record w { out_commands = cs })

unfoldable pub pop_command : Window → Option (List ℕ) × Window
pop_command w = pop_first w.out_commands w

-- The loop over the pending lines, with the number of the reading of the clock.
unfoldable pub stamp_all : (ℕ → ℕ) → ℕ → List (List ℕ) → List ChatLine
stamp_all clock i [] = []
stamp_all clock i (s ∷ ss) = record { text = s; ms = clock i } ∷ stamp_all clock (suc i) ss

abbrev pub take_lines : (ℕ → ℕ) → List (List ℕ) → Window → Window
take_lines clock [] w = w
take_lines clock (s ∷ ss) w = record w {
  lines = w.lines ++ stamp_all clock 0 (s ∷ ss);
  pending = [];
  box = record w.box { scroll_to_bottom = true };
}

-- The lines that are pending become lines of the chat.
unfoldable pub take_pending : (ℕ → ℕ) → Window → Window
take_pending clock w = take_lines clock w.pending w

-- The loop that collects indices from the last line on, below a bound and with so much room, and the
-- texts at them after ranges::reverse.
unfoldable pub indices_back : ℕ → ℕ → List ℕ
indices_back zero room = []
indices_back (suc i) room =
    let rest = indices_back i (room - 1) in if room == 0 then [] else i ∷ rest

abbrev pub text_of : Option ChatLine → List ℕ
text_of none = []
text_of (some l) = l.text

unfoldable pub shown_texts : List ChatLine → ℕ → List (List ℕ)
shown_texts lines visible =
    map (λ i. text_of (get_elem? lines i)) (reverse (indices_back (length lines) visible))

-- What a committed line has the chat say: the answers of RouteInput itself, or what is logged by what
-- it calls.
abbrev pub replies : (Route → List (List ℕ)) → Route → List (List ℕ)
replies logged usage = usage_text ∷ []
replies logged bad_port = bad_port_text ∷ []
replies logged r = logged r

-- Draw behind InputText, where it was committed: what becomes of the line.
unfoldable pub commit : (Route → List (List ℕ)) → List ℕ → Window → Route × Window
commit logged typed w =
    let route = submit typed in
    let said = push_all (replies logged route) w in
    (route, record said { box = record (set_active false said.box) { scroll_to_bottom = true } })

-- Draw, with the text in the input field.
unfoldable pub draw_input : (Route → List (List ℕ)) → Frame → Window → Option Route × Window
draw_input logged f w =
    let typing = record w { box = record w.box { want_focus = false; input = f.typed } } in
    let done = commit logged f.typed typing in
    if f.entered
    then if f.deactivated then (some done.0, done.1) else (none, typing)
    else (none, typing)

-- Draw: the texts that it shows, what becomes of a line that was committed, and the window.
unfoldable pub draw_chat :
    (Route → List (List ℕ)) → Frame → Window → List (List ℕ) × Option Route × Window
draw_chat logged f w =
    let taken = take_pending f.clock w in
    let scrolled =
      if f.at_end
      then record taken { box = record taken.box { scroll_to_bottom = true } }
      else taken in
    let input = draw_input logged f scrolled in
    let texts = shown_texts taken.lines taken.visible_lines in
    if scrolled.box.active then (texts, input.0, input.1) else (texts, none, scrolled)
