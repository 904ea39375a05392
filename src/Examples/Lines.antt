-- ===== src/Examples/Lines.antt =====
-- The theorems on native/gui/chat.cpp at concrete inputs.
use opensamp.Prelude.{ℕ, ◌≡◌, refl, List, [], ◌∷◌, some}
use opensamp.Chat.{connect_word, route_input, parse_port, read_digits, split_whitespace}
use opensamp.Chat.Words.{unwords, split_whitespace-unwords}
use opensamp.Chat.Connect.{with_port, route_input-connect}

abbrev host : List ℕ
host = b'h' ∷ []

abbrev port : List ℕ
port = b'7' ∷ b'7' ∷ b'7' ∷ b'7' ∷ []

abbrev nickname : List ℕ
nickname = b'n' ∷ []

split_whitespace-unwords_example : split_whitespace (unwords (host ∷ port ∷ [])) ≡ host ∷ port ∷ []
split_whitespace-unwords_example =
    split_whitespace-unwords (host ∷ port ∷ [])
      ((refl, tt), ((refl, (refl, (refl, (refl, tt)))), tt))

route_input-connect_example :
    route_input (unwords (connect_word ∷ host ∷ port ∷ nickname ∷ []))
    ≡ with_port host nickname (parse_port port)
route_input-connect_example =
    route_input-connect host port nickname (refl, tt) (refl, (refl, (refl, (refl, tt)))) (refl, tt)

port-7777 : parse_port port ≡ some 7777
unfolding parse_port read_digits
port-7777 = refl
