-- ===== src/LobbyServer/Commands.antt =====
-- From the line that a client types to what the lobby of ken/server.go does.
use mathlib.Core.List.{reverse-append, reverse-cons}
use cmpt436chat_client.Prelude.{
  ℕ, ◌<◌, false, List, [], ◌∷◌, ◌++◌, reverse, ◌==◌, ◌≡◌, refl, arith, ◌≢◌, count, ◌∙◌, ap,
}
use cmpt436chat_client.Text.{Text, newline, has_prefix}
use cmpt436chat_client.Text.Laws.{trim_suffix-append, trim_suffix_plain}
use cmpt436chat_client.LobbyServer.Types.{Server, new_message, cmd_create, cmd_join, cmd_name}
use cmpt436chat_client.LobbyServer.Lobby.{
  parse, argument, create_chat_room, join_chat_room, change_name,
}
use cmpt436chat_client.LobbyServer.Events.{line, step, chomp}

-- A text that does not end in a line break.
abbrev pub IsPlain : Text → Type 0
IsPlain s = has_prefix (reverse s) (newline ∷ []) ≡ false

-- A line that a client types is handed to the lobby without its line break.
typed :
    (order : List Text → List Text) (c t : ℕ) (text : Text) (w : Server)
    → 0 < count c w.state.relayed
    → step order (line c t (text ++ newline ∷ [])) w ≡ parse order (new_message t c text) w
unfolding step chomp
typed order c t text w h =
    let served : (count c w.state.relayed == 0) ≡ false = ground arith in
    rw (served, trim_suffix-append text (newline ∷ [])) refl

tail-IsPlain :
    (xs ys : Text) (d : ℕ)
    → has_prefix ((xs ++ d ∷ []) ++ ys) (newline ∷ []) ≡ has_prefix (xs ++ d ∷ []) (newline ∷ [])
unfolding has_prefix
tail-IsPlain [] ys d = refl
tail-IsPlain (x ∷ xs) ys d = refl

longer-IsPlain :
    (command : Text) (d : ℕ) (name : Text) → IsPlain (d ∷ name) → IsPlain (command ++ d ∷ name)
longer-IsPlain command d name p =
    rw
      (
        reverse-append command (d ∷ name),
        reverse-cons d name,
        tail-IsPlain (reverse name) (reverse command) d,
      )
      (rw reverse-cons at p)

module _ (d : ℕ) (name : Text) (ne : (d == b' ') ≡ false) (p : IsPlain (d ∷ name)) where
  parse_letter :
      (order : List Text → List Text) (c t : ℕ) (w : Server)
      → (parse order (new_message t c (cmd_create ++ d ∷ name)) w
          ≡ create_chat_room c (cmd_create ++ d ∷ name) w)
        × (parse order (new_message t c (cmd_join ++ d ∷ name)) w
            ≡ join_chat_room c (cmd_join ++ d ∷ name) w)
        × (parse order (new_message t c (cmd_name ++ d ∷ name)) w
            ≡ change_name c (cmd_name ++ d ∷ name) w)
  unfolding parse new_message argument has_prefix
  parse_letter order c t w = (
    rw ne (
        ap (λ n. create_chat_room c n w)
          (trim_suffix_plain _ (longer-IsPlain cmd_create d name p))),
    rw ne (ap (λ n. join_chat_room c n w) (trim_suffix_plain _ (longer-IsPlain cmd_join d name p))),
    rw ne (ap (λ n. change_name c n w) (trim_suffix_plain _ (longer-IsPlain cmd_name d name p))),
  )

-- A client whose lines are relayed and whose line begins with "/c", "/j" or "/n", and then with any
-- byte but a blank, creates, joins or takes as its name the whole line, command and all: "/create
-- go" creates a room "/create go".
pub letter_unspaced :
    (order : List Text → List Text) (c t d : ℕ) (name : Text) (w : Server)
    → 0 < count c w.state.relayed
    → d ≢ b' '
    → IsPlain (d ∷ name)
    → (step order (line c t (cmd_create ++ (d ∷ name) ++ newline ∷ [])) w
        ≡ create_chat_room c (cmd_create ++ d ∷ name) w)
      × (step order (line c t (cmd_join ++ (d ∷ name) ++ newline ∷ [])) w
          ≡ join_chat_room c (cmd_join ++ d ∷ name) w)
      × (step order (line c t (cmd_name ++ (d ∷ name) ++ newline ∷ [])) w
          ≡ change_name c (cmd_name ++ d ∷ name) w)
letter_unspaced order c t d name w h ne p =
    let other : (d == b' ') ≡ false = ground arith in
    let (create, enter, rename) = parse_letter d name other p order c t w in
    (
      typed order c t (cmd_create ++ d ∷ name) w h ∙ create,
      typed order c t (cmd_join ++ d ∷ name) w h ∙ enter,
      typed order c t (cmd_name ++ d ∷ name) w h ∙ rename,
    )
