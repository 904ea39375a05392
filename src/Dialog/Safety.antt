-- ===== src/Dialog/Safety.antt =====
-- Dialog::Show, Hide, Respond and Draw: what is selected stands in the list, and how a dialog ends.
use mathlib.Core.Option
use mathlib.Core.Path.{subst}
use opensamp.Prelude.{
  ℕ, zero, suc, ◌<◌, ◌≡◌, refl, not, if_cases, ◌%◌, ◌^◌, ◌||◌, Bool, true, false, List, [], ◌∷◌,
  Option, none, some, get_elem?, length, arith, ltb, leb, ◌&&◌,
}
use opensamp.Dialog.{
  Dialog, DialogStyle, msg_box, input, list, password, tab_list, tab_list_headers, unknown, Reply,
  Input, show, hide, respond, payload, click, draw, draw_body, finish, has_rows, has_input,
  first_of_rows, first_row, is_empty,
}

-- The selected row, if there is one, is a row.
abbrev pub InRange : Option ℕ → List (List ℕ) → Type 0
InRange none items = Unit
InRange (some i) items = i < length items

abbrev pub IsValid : Dialog → Type 0
IsValid d = InRange d.selected d.items

first_of_rows-InRange : (items : List (List ℕ)) → InRange (first_of_rows items) items
first_of_rows-InRange [] = tt
first_of_rows-InRange (l ∷ ls) = omega arith

get_elem?-lt {ℓ} :
    {A : Type ℓ} (xs : List A) (i : ℕ) → i < length xs → (x : A) × (get_elem? xs i ≡ some x)
get_elem?-lt [] i h = elim h [ ]
get_elem?-lt (x ∷ xs) zero h = (x, refl)
get_elem?-lt (x ∷ xs) (suc i) h = get_elem?-lt xs i (omega arith)

click-InRange :
    (lo : ℕ) (items : List (List ℕ)) (cs : List (ℕ × Bool)) (r : Option ℕ × Bool)
    → InRange r.0 items
    → InRange (click lo (length items) cs r).0 items
unfolding click
click-InRange lo items [] (sel, main) h = h
click-InRange lo items ((i, double) ∷ cs) (sel, main) h = click-InRange lo items cs _ (
    if_cases (λ (r : Option ℕ × Bool). InRange r.0 items) (leb lo i && ltb i (length items))
      (λ e. ground arith) (λ e. h))

draw_body-IsValid : (u : Input) (d : Dialog) → IsValid d → IsValid (draw_body u d).0
unfolding draw_body
draw_body-IsValid u d h =
    if_cases OnFirst (has_rows d.style)
      (λ e. click-InRange (first_row d) d.items u.clicks (d.selected, false) h)
      λ e. if_cases OnFirst (has_input d.style) (λ e'. h) (λ e'. h)
  where
    OnFirst : Dialog × Bool → Type 0
    OnFirst r = IsValid r.0

payload-total :
    (style : DialogStyle) (sel : Option ℕ) (items : List (List ℕ)) (typed : List ℕ)
    → InRange sel items
    → (p : ℕ × List ℕ) × (payload style sel items typed ≡ some p)
unfolding payload
payload-total list (some i) items typed h =
    let (text, e) = get_elem?-lt items i h in ((i % 2 ^ 16, text), ground (arith, e))
payload-total list none items typed h = (_, refl)
payload-total input sel items typed h = (_, refl)
payload-total password sel items typed h = (_, refl)
payload-total msg_box sel items typed h = (_, refl)
payload-total tab_list sel items typed h = (_, refl)
payload-total tab_list_headers sel items typed h = (_, refl)
payload-total (unknown n) sel items typed h = (_, refl)

-- What a frame gives: no fault, and a dialog whose selection is a row; with a reply, it is hidden.
abbrev pub Fine : Option (Option Reply × Dialog) → Type 0
Fine none = ⊥
Fine (some (none, d)) = IsValid d
Fine (some (some r, d)) = IsValid d × (d.active ≡ false)

respond-Fine :
    (b : ℕ) (d : Dialog) → IsValid d → Fine (Option.map (λ r. (some r.0, r.1)) (respond b d))
unfolding respond hide
respond-Fine b d h =
    let (p, e) = payload-total d.style d.selected d.items d.typed h in rw (e, respond) (h, refl)

finish-Fine : (u : Input) (d : Dialog) (submit : Bool) → IsValid d → Fine (finish u (d, submit))
unfolding finish
finish-Fine u d submit h =
    let has_btn2 = not (is_empty d.btn2) in
    if_cases Fine (submit || u.main_pressed || (u.escape_pressed && not has_btn2))
      (λ e. respond-Fine 1 d h)
      λ e.
        if_cases Fine (has_btn2 && (u.cancel_pressed || u.escape_pressed))
          (λ e'. respond-Fine 0 d h) (λ e'. h)

draw-Fine : (u : Input) (d : Dialog) → IsValid d → Fine (draw u d)
unfolding draw
draw-Fine u d h =
    if_cases Fine d.active
      (λ e. finish-Fine u (draw_body u d).0 (draw_body u d).1 (draw_body-IsValid u d h)) (λ e. h)

-- What happens to the dialog: the server shows or hides it, or a frame is drawn.
pub data Event : Type 0 where
  shown : ℕ → DialogStyle → List ℕ → List ℕ → List ℕ → List ℕ → Event
  hidden : Event
  drawn : Input → Event

unfoldable pub step : Event → Dialog → Option (Option Reply × Dialog)
step (shown id style title btn1 btn2 info) d = some (none, show id style title btn1 btn2 info d)
step hidden d = some (none, hide d)
step (drawn u) d = draw u d

-- The replies of a history, and its last dialog; none as soon as an event faults.
unfoldable pub run : List Event → Dialog → Option (List (Option Reply) × Dialog)
unfolding step
run [] d = some ([], d)
run (e ∷ es) d = elim (step e d) [
  | none ↦ none
  | some (r, d') ↦ Option.map (λ t. (r ∷ t.0, t.1)) (run es d')
]

step-Fine : (e : Event) (d : Dialog) → IsValid d → Fine (step e d)
unfolding step show hide
step-Fine (shown id style title btn1 btn2 info) d h = first_of_rows-InRange _
step-Fine hidden d h = h
step-Fine (drawn u) d h = draw-Fine u d h

Fine-IsValid : (r : Option Reply) (d : Dialog) → Fine (some (r, d)) → IsValid d
Fine-IsValid none d h = h
Fine-IsValid (some r) d h = h.0

-- Whatever the server shows and the user does, from any dialog whose selection is a row no answer
-- reads outside the list, and the selection still is a row at the end.
pub run-total :
    (es : List Event) (d : Dialog)
    → IsValid d
    → (t : List (Option Reply) × Dialog) × (run es d ≡ some t) × IsValid t.1
unfolding run
run-total [] d h = (([], d), refl, h)
run-total (e ∷ es) d h = after (step e d) refl (step-Fine e d h) (run-total es)
  where
    Result : Dialog → List Event → Type 0
    Result d es = (t : List (Option Reply) × Dialog) × (run es d ≡ some t) × IsValid t.1

    after :
        (o : Option (Option Reply × Dialog))
        → step e d ≡ o
        → Fine o
        → ((d' : Dialog) → IsValid d' → Result d' es)
        → Result d (e ∷ es)
    after none p f ih = absurd f
    after (some (r, d')) p f ih =
        let (t, q, v) = ih d' (Fine-IsValid r d' f) in ((r ∷ t.0, t.1), rw (p, run) (rw q), v)

-- The frame answers the server and closes the dialog.
abbrev pub Answers : ℕ → Option (Option Reply × Dialog) → Type 0
Answers id (some (some r, e)) = (r.id ≡ id) × (e.active ≡ false)
Answers id _ = ⊥

respond-Answers :
    (b : ℕ) (d : Dialog)
    → IsValid d
    → Answers d.id (Option.map (λ r. (some r.0, r.1)) (respond b d))
unfolding respond hide
respond-Answers b d h =
    let (p, e) = payload-total d.style d.selected d.items d.typed h in rw (e, respond) (refl, refl)

finish-Answers :
    (u : Input) (d : Dialog) (submit : Bool)
    → IsValid d
    → u.escape_pressed ≡ true
    → Answers d.id (finish u (d, submit))
unfolding finish
finish-Answers u d submit h p =
    let has_btn2 = not (is_empty d.btn2) in
    if_cases (Answers d.id) (submit || u.main_pressed || (u.escape_pressed && not has_btn2))
      (λ e. respond-Answers 1 d h)
      λ e.
        if_cases (Answers d.id) (has_btn2 && (u.cancel_pressed || u.escape_pressed))
          (λ e'. respond-Answers 0 d h)
          (λ e'. absurd (pressed submit u.main_pressed u.cancel_pressed (is_empty d.btn2) p e e'))
  where
    pressed :
        {esc : Bool} (a b c empty : Bool)
        → esc ≡ true
        → (a || b || (esc && not (not empty))) ≡ false
        → (not empty && (c || esc)) ≡ false
        → ⊥
    pressed a b c empty p q r = ground arith

draw_body-id : (u : Input) (d : Dialog) → (draw_body u d).0.id ≡ d.id
unfolding draw_body
draw_body-id u d = ground arith

-- A frame in which ESC is pressed while a dialog is shown answers that dialog and closes it,
-- whatever its style and its buttons, so that it cannot stay up.
pub draw-Answers :
    (u : Input) (d : Dialog)
    → IsValid d
    → d.active ≡ true
    → u.escape_pressed ≡ true
    → Answers d.id (draw u d)
unfolding draw
draw-Answers u d h a p =
    if_cases (Answers d.id) d.active
      (λ e.
        subst (λ (id : ℕ). Answers id (finish u (draw_body u d))) (draw_body-id u d)
          (finish-Answers u (draw_body u d).0 (draw_body u d).1 (draw_body-IsValid u d h) p))
      (λ e. cc)
