-- ===== src/NetGame/Transition.antt =====
-- CNetGame::TransitionTo of native/net/netgame.cpp.
use opensamp.Prelude.{ℕ, ◌≡◌, refl, ap, ◌∙◌, sym, true, if_cases, if◌then◌else◌, ◌==◌, ==_iff}
use opensamp.NetGame.{
  NetGame, NetState, none, connecting, await_join, connected, disconnected, restarting, number, is,
  transition_to,
}

of_number : ℕ → NetState
of_number n =
    if n == 0
    then none
    else if n == 1
    then connecting
    else if n == 2
    then await_join
    else if n == 3
    then connected
    else if n == 4
    then disconnected
    else restarting

of_number-number : (s : NetState) → of_number (number s) ≡ s
unfolding of_number
of_number-number none = refl
of_number-number connecting = refl
of_number-number await_join = refl
of_number-number connected = refl
of_number-number disconnected = refl
of_number-number restarting = refl

is-path : (s t : NetState) → is s t ≡ true → s ≡ t
is-path s t e =
    sym (of_number-number s)
    ∙ ap of_number ((==_iff (number s) (number t)).0 e)
    ∙ of_number-number t

pub transition_to-state : (now : ℕ) (s : NetState) (g : NetGame) → (transition_to now s g).state ≡ s
unfolding transition_to
transition_to-state now s g =
    if_cases (λ (h : NetGame). h.state ≡ s) (is s g.state) (λ e. sym (is-path s g.state e))
      (λ e. refl)

pub transition_to-initialized :
    (now : ℕ) (s : NetState) (g : NetGame) → (transition_to now s g).initialized ≡ g.initialized
unfolding transition_to
transition_to-initialized now s g =
    if_cases (λ (h : NetGame). h.initialized ≡ g.initialized) (is s g.state) (λ e. refl) (λ e. refl)
