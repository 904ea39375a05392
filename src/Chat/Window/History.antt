-- ===== src/Chat/Window/History.antt =====
-- native/gui/chat.cpp and native/gui/chat.hpp: the two queues of the chat, seen as one list of texts.
use mathlib.Core.List.{append_assoc, append-nil, map-append}
use opensamp.Prelude.{
  ℕ, suc, ◌-◌, ◌≡◌, refl, sym, ap, ◌∙◌, Bool, true, false, List, [], ◌∷◌, ◌++◌, Option, none, some,
  length, drop, if_cases, if◌then◌else◌,
}
use opensamp.Gui.Input.{Chat, set_active}
use opensamp.Chat.{Route, submit}
use opensamp.Chat.Window.{
  ChatLine, Window, Frame, push_line_async, push_all, stamp_all, take_lines, take_pending,
  shown_texts, replies, commit, draw_input, draw_chat,
}
use opensamp.Chat.Window.Shown.{texts, shown_texts-last}

-- All that the chat has been given, the oldest text first.
abbrev pub log : Window → List (List ℕ)
log w = texts w.lines ++ w.pending

-- The last texts of a list.
abbrev pub last : ℕ → List (List ℕ) → List (List ℕ)
last n ts = drop (length ts - n) ts

abbrev pub answers : (Route → List (List ℕ)) → Option Route → List (List ℕ)
answers logged none = []
answers logged (some r) = replies logged r

texts-stamp_all : (clock : ℕ → ℕ) (i : ℕ) (ss : List (List ℕ)) → texts (stamp_all clock i ss) ≡ ss
unfolding stamp_all
texts-stamp_all clock i [] = refl
texts-stamp_all clock i (s ∷ ss) = ap (◌∷◌ s) (texts-stamp_all clock (suc i) ss)

length-texts : (ls : List ChatLine) → length (texts ls) ≡ length ls
length-texts [] = refl
length-texts (l ∷ ls) = ap suc (length-texts ls)

log-push_all : (ss : List (List ℕ)) (w : Window) → log (push_all ss w) ≡ log w ++ ss
unfolding push_line_async
log-push_all [] w = sym (append-nil (log w))
log-push_all (s ∷ ss) w =
    log-push_all ss (push_line_async s w)
    ∙ ap (λ r. r ++ ss) (sym (append_assoc (texts w.lines) w.pending (s ∷ [])))
    ∙ append_assoc (log w) (s ∷ []) ss

lines-take_lines :
    (clock : ℕ → ℕ) (ss : List (List ℕ)) (w : Window)
    → texts (take_lines clock ss w).lines ≡ texts w.lines ++ ss
lines-take_lines clock [] w = sym (append-nil (texts w.lines))
lines-take_lines clock (s ∷ ss) w =
    map-append (λ l. l.text) w.lines (stamp_all clock 0 (s ∷ ss))
    ∙ ap (λ r. texts w.lines ++ r) (texts-stamp_all clock 0 (s ∷ ss))

pending-take_lines :
    (clock : ℕ → ℕ) (ss : List (List ℕ)) (w : Window)
    → w.pending ≡ ss
    → (take_lines clock ss w).pending ≡ []
pending-take_lines clock [] w e = e
pending-take_lines clock (s ∷ ss) w e = refl

visible-take_lines :
    (clock : ℕ → ℕ) (ss : List (List ℕ)) (w : Window)
    → (take_lines clock ss w).visible_lines ≡ w.visible_lines
visible-take_lines clock [] w = refl
visible-take_lines clock (s ∷ ss) w = refl

-- What the input field does to the log, and to the box where a line was committed.
record Heard (logged : Route → List (List ℕ)) (w : Window) (r : Option Route × Window)
    : Type 0 where
  whole : log r.1 ≡ log w ++ answers logged r.0
  closed : (o : Route) → r.0 ≡ some o → (r.1.box.active ≡ false) × (r.1.box.input ≡ [])

set_active-closed :
    (b : Chat)
    → b.active ≡ true
    → ((set_active false b).active ≡ false) × ((set_active false b).input ≡ [])
unfolding set_active
set_active-closed b on =
    if_cases (λ (c : Chat). (c.active ≡ false) × (c.input ≡ [])) b.active (λ e. (refl, refl))
      (λ e. elim (both_ways b.active on e) [ ])
  where
    both_ways : (b : Bool) → b ≡ true → b ≡ false → ⊥
    both_ways true p q = cc
    both_ways false p q = cc

module _ (logged : Route → List (List ℕ)) where
  box-push_all : (ss : List (List ℕ)) (w : Window) → (push_all ss w).box ≡ w.box
  unfolding push_line_async
  box-push_all [] w = refl
  box-push_all (s ∷ ss) w = box-push_all ss (push_line_async s w)

  draw_input-Heard :
      (f : Frame) (w : Window) → w.box.active ≡ true → Heard logged w (draw_input logged f w)
  unfolding draw_input commit
  draw_input-Heard f w on =
      let typing : Window = record w {
        box = record w.box { want_focus = false; input = f.typed };
      } in
      let ss = replies logged (submit f.typed) in
      let quiet : Heard logged w (none, typing) = record {
        whole = sym (append-nil (log w));
        closed = λ o e. cc;
      } in
      if_cases (Heard logged w) f.entered
        (λ e.
          if_cases (Heard logged w) f.deactivated
            (λ d. record {
              whole = log-push_all ss typing;
              closed = λ o q.
                  set_active-closed (push_all ss typing).box
                    (ap (λ b. b.active) (box-push_all ss typing) ∙ on);
            })
            (λ d. quiet))
        (λ e. quiet)

  -- What a frame comes to.
  abbrev Drawn : Window → List (List ℕ) × Option Route × Window → Type 0
  Drawn w r =
      (r.0 ≡ last w.visible_lines (log w))
      × (log r.2 ≡ log w ++ answers logged r.1)
      × ((o : Route) → r.1 ≡ some o → (r.2.box.active ≡ false) × (r.2.box.input ≡ []))

  lines-take_pending : (clock : ℕ → ℕ) (w : Window) → texts (take_pending clock w).lines ≡ log w
  unfolding take_pending
  lines-take_pending clock w = lines-take_lines clock w.pending w

  log-take_pending : (clock : ℕ → ℕ) (w : Window) → log (take_pending clock w) ≡ log w
  unfolding take_pending
  log-take_pending clock w =
      ap (λ p. texts (take_pending clock w).lines ++ p) (pending-take_lines clock w.pending w refl)
      ∙ append-nil (texts (take_pending clock w).lines)
      ∙ lines-take_pending clock w

  shown-take_pending :
      (clock : ℕ → ℕ) (w : Window)
      → shown_texts (take_pending clock w).lines (take_pending clock w).visible_lines
        ≡ last w.visible_lines (log w)
  unfolding take_pending
  shown-take_pending clock w =
      let k = take_pending clock w in
      shown_texts-last k.lines k.visible_lines
      ∙ ap (λ n. drop (n - k.visible_lines) (texts k.lines)) (sym (length-texts k.lines))
      ∙ ap (last k.visible_lines) (lines-take_pending clock w)
      ∙ ap (λ n. last n (log w)) (visible-take_lines clock w.pending w)

  log-scrolled :
      (b : Bool) (w : Window)
      → log (if b then record w { box = record w.box { scroll_to_bottom = true } } else w) ≡ log w
  log-scrolled true w = refl
  log-scrolled false w = refl

  -- A frame shows the last texts of all that the chat has been given before it, pending or not. What it has
  -- been given afterwards is the same, in the same order, and then what is said about a line that was
  -- committed in the frame; such a line closes the input field and empties it.
  pub draw_chat-log :
      (f : Frame) (w : Window)
      → let r = draw_chat logged f w in
        (r.0 ≡ last w.visible_lines (log w))
        × (log r.2 ≡ log w ++ answers logged r.1)
        × ((o : Route) → r.1 ≡ some o → (r.2.box.active ≡ false) × (r.2.box.input ≡ []))
  unfolding draw_chat
  draw_chat-log f w =
      let taken = take_pending f.clock w in
      let scrolled : Window =
        if f.at_end
        then record taken { box = record taken.box { scroll_to_bottom = true } }
        else taken in
      let kept : log scrolled ≡ log w = log-scrolled f.at_end taken ∙ log-take_pending f.clock w in
      if_cases (Drawn w) scrolled.box.active
        (λ e.
          let h = draw_input-Heard f scrolled e in
          (
            shown-take_pending f.clock w,
            h.whole ∙ ap (λ l. l ++ answers logged (draw_input logged f scrolled).0) kept,
            h.closed,
          ))
        (λ e. (shown-take_pending f.clock w, kept ∙ sym (append-nil (log w)), λ o. cc))
