-- ===== src/Dialog.antt =====
-- native/gui/dialog.cpp and dialog.hpp: the server's dialog as it is shown and answered.
pub mod Safety
pub mod Lines
use mathlib.Core.Option
use opensamp.Prelude.{
  ℕ, ◌%◌, ◌^◌, Bool, true, false, not, ◌&&◌, ◌||◌, List, [], ◌∷◌, map, Option, none, some,
  get_elem?, length, take, ltb, leb, ◌==◌, if◌then◌else◌,
}

-- enum class DialogStyle, and any other value of its byte.
pub data DialogStyle : Type 0 where
  msg_box input list password tab_list tab_list_headers : DialogStyle
  unknown : ℕ → DialogStyle

unfoldable pub style_of : ℕ → DialogStyle
style_of n =
    if n == 0
    then msg_box
    else if n == 1
    then input
    else if n == 2
    then list
    else if n == 3
    then password
    else if n == 4
    then tab_list
    else if n == 5
    then tab_list_headers
    else unknown n

-- The members of class Dialog. `selected` is none for -1, and `typed` is the text in m_input.
pub record Dialog : Type 0 where
  pub active : Bool
  pub id : ℕ
  pub style : DialogStyle
  pub title : List ℕ
  pub btn1 : List ℕ
  pub btn2 : List ℕ
  pub info : List ℕ
  pub items : List (List ℕ)
  pub selected : Option ℕ
  pub typed : List ℕ
  pub want_focus : Bool

abbrev pub initial : Dialog
initial = record {
  active = false;
  id = 0;
  style = msg_box;
  title = [];
  btn1 = [];
  btn2 = [];
  info = [];
  items = [];
  selected = none;
  typed = [];
  want_focus = false;
}

abbrev pub newline : ℕ
newline = 10

abbrev pub carriage_return : ℕ
carriage_return = 13

-- `if (!line.empty() && line.back() == '\r') line.pop_back();`
unfoldable pub trim_cr : List ℕ → List ℕ
trim_cr [] = []
trim_cr (c ∷ []) = if c == carriage_return then [] else c ∷ []
trim_cr (c ∷ d ∷ cs) = c ∷ trim_cr (d ∷ cs)

unfoldable pub extend_first : ℕ → List (List ℕ) → List (List ℕ)
extend_first c [] = (c ∷ []) ∷ []
extend_first c (l ∷ ls) = (c ∷ l) ∷ ls

-- The loop of SplitLines over `find('\n', start)`: what stands between the newlines.
unfoldable pub lines_of : List ℕ → List (List ℕ)
unfolding extend_first
lines_of [] = [] ∷ []
lines_of (c ∷ cs) = if c == newline then [] ∷ lines_of cs else extend_first c (lines_of cs)

-- `if (!out.empty() && out.back().empty()) out.pop_back();`
unfoldable pub drop_empty_last : List (List ℕ) → List (List ℕ)
drop_empty_last [] = []
drop_empty_last ([] ∷ []) = []
drop_empty_last ((c ∷ cs) ∷ []) = (c ∷ cs) ∷ []
drop_empty_last (l ∷ m ∷ ms) = l ∷ drop_empty_last (m ∷ ms)

unfoldable pub split_lines : List ℕ → List (List ℕ)
unfolding trim_cr lines_of drop_empty_last
split_lines s = drop_empty_last (map trim_cr (lines_of s))

abbrev pub has_rows : DialogStyle → Bool
has_rows list = true
has_rows tab_list = true
has_rows tab_list_headers = true
has_rows _ = false

abbrev pub has_input : DialogStyle → Bool
has_input input = true
has_input password = true
has_input _ = false

abbrev pub first_of_rows : List (List ℕ) → Option ℕ
first_of_rows [] = none
first_of_rows (l ∷ ls) = some 0

-- Dialog::Show.
unfoldable pub show : ℕ → DialogStyle → List ℕ → List ℕ → List ℕ → List ℕ → Dialog → Dialog
show id style title btn1 btn2 info d =
    let items = if has_rows style then split_lines info else [] in
    record {
      active = true;
      id = id;
      style = style;
      title = title;
      btn1 = btn1;
      btn2 = btn2;
      info = info;
      items = items;
      selected = first_of_rows items;
      typed = [];
      want_focus = has_input style;
    }

-- Dialog::Hide.
unfoldable pub hide : Dialog → Dialog
hide d = record d { active = false }

-- The arguments of bridge::SendDialogResponse.
pub record Reply : Type 0 where
  pub id : ℕ
  pub button : ℕ
  pub list_item : ℕ
  pub text : List ℕ

abbrev pub no_item : ℕ
no_item = 0xffff

-- The choice of list item and text in Dialog::Respond; none for a read outside m_listItems.
unfoldable pub payload : DialogStyle → Option ℕ → List (List ℕ) → List ℕ → Option (ℕ × List ℕ)
payload list (some i) items typed = elim (get_elem? items i) [
  | none ↦ none
  | some text ↦ some (i % 2 ^ 16, text)
]
payload list none items typed = some (no_item, [])
payload input selected items typed = some (no_item, typed)
payload password selected items typed = some (no_item, typed)
payload _ selected items typed = some (no_item, [])

-- Dialog::Respond: the reply that is sent, and the dialog, hidden.
unfoldable pub respond : ℕ → Dialog → Option (Reply × Dialog)
respond button d = elim (payload d.style d.selected d.items d.typed) [
  | none ↦ none
  | some (item, text) ↦
      some (record { id = d.id; button = button; list_item = item; text = text }, hide d)
]

-- What the user does in one frame, as ImGui reports it: the text of the input field and whether
-- enter ended it, the rows clicked, each with whether the click was double, the two buttons, ESC.
pub record Input : Type 0 where
  pub typed : List ℕ
  pub entered : Bool
  pub clicks : List (ℕ × Bool)
  pub main_pressed : Bool
  pub cancel_pressed : Bool
  pub escape_pressed : Bool

-- Rows are drawn from the first one that is not a column header.
abbrev pub first_row : Dialog → ℕ
first_row d = elim d.style [ tab_list_headers ↦ elim d.items [ [] ↦ 0 | l ∷ ls ↦ 1 ] | _ ↦ 0 ]

-- The clicks on rows that are drawn, in their order.
unfoldable pub click : ℕ → ℕ → List (ℕ × Bool) → Option ℕ × Bool → Option ℕ × Bool
click lo hi [] r = r
click lo hi ((i, double) ∷ cs) (sel, main) =
    click lo hi cs (if leb lo i && ltb i hi then (some i, main || double) else (sel, main))

abbrev pub is_empty : List ℕ → Bool
is_empty [] = true
is_empty (c ∷ cs) = false

-- The widgets of Dialog::Draw for the style: the dialog with the input taken over, and whether
-- one of them submits.
unfoldable pub draw_body : Input → Dialog → Dialog × Bool
draw_body u d =
    if has_rows d.style
    then (let r = click (first_row d) (length d.items) u.clicks (d.selected, false) in
        (record d { selected = r.0 }, r.1))
    else if has_input d.style
    then (record d { typed = take 255 u.typed; want_focus = false }, u.entered)
    else (d, false)

-- The buttons, ESC and the answer at the end of Dialog::Draw, after the widgets.
unfoldable pub finish : Input → Dialog × Bool → Option (Option Reply × Dialog)
finish u (e, submit) =
    let has_btn2 = not (is_empty e.btn2) in
    let main = submit || u.main_pressed || (u.escape_pressed && not has_btn2) in
    let cancel = has_btn2 && (u.cancel_pressed || u.escape_pressed) in
    if main
    then Option.map (λ r. (some r.0, r.1)) (respond 1 e)
    else if cancel
    then Option.map (λ r. (some r.0, r.1)) (respond 0 e)
    else some (none, e)

-- Dialog::Draw: nothing when inactive. The result is none where Respond reads outside the list.
unfoldable pub draw : Input → Dialog → Option (Option Reply × Dialog)
draw u d = if d.active then finish u (draw_body u d) else some (none, d)
