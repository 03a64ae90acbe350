-- ===== src/SlashChat/Reference/Runs.antt =====
-- The goroutines of `Evan's Work/serverref.go` as steps, and whole histories of the two servers.
use cmpt436chat_client.Prelude.{
  &&_split, ℕ, suc, true, false, Bool, not, ◌&&◌, List, [], ◌∷◌, ◌≡◌, refl, ap, ◌∙◌, if◌then◌else◌,
  is_empty, update, ltb,
}
use cmpt436chat_client.Text.{Text, codes, text_eq}
use cmpt436chat_client.SlashChat.Action.{trim_space, get_action}
use cmpt436chat_client.SlashChat.Util.{
  State, Client, Run, running, exited, ◌>>=◌, register, send_client_message, close,
}
use cmpt436chat_client.SlashChat.Server
use cmpt436chat_client.SlashChat.Server.{Event, accept, line, eof}
use cmpt436chat_client.SlashChat.Reference.{handle_action, handle_input, listing, servers_agree}

abbrev pub lobby : Text
lobby = codes "lobby"

unfoldable pub new_client : Text → State → Client
new_client addr s = record {
  conn_open = true;
  addr = addr;
  written = [];
  room = lobby;
  prop = s.config;
  user = [];
}

-- One round of the loop of main, up to the goroutines.
unfoldable pub registered : Text → State → State
unfolding new_client register
registered addr s = register s.next_client (record s {
  clients = update s.clients s.next_client (new_client addr s);
  next_client = suc s.next_client;
})

unfoldable pub step : Event → State → Run
unfolding registered
step (accept addr) s =
    send_client_message (codes "ready") s.config.port s.next_client true s.config
      (registered addr s)
step (line c txt) s = if ltb c s.next_client then handle_input c txt s else running s
step (eof c) s = if ltb c s.next_client then close c true s else running s

unfoldable pub run : List Event → State → Run
unfolding step
run [] s = running s
run (e ∷ es) s = do t ← step e s; run es t

-- A line that asks neither to enter a room nor for the list of rooms.
abbrev pub is_plain_line : Text → Bool
is_plain_line txt =
    let action = (get_action (trim_space txt)).0 in
    not (text_eq action (codes "enter")) && not (text_eq action (codes "list"))

abbrev pub is_plain : List Event → Bool
is_plain [] = true
is_plain (accept addr ∷ es) = is_plain es
is_plain (line c txt ∷ es) = is_plain_line txt && is_plain es
is_plain (eof c ∷ es) = is_plain es

not_cases : (b : Bool) → not b ≡ true → b ≡ false
not_cases true h = cc
not_cases false h = refl

plain_action :
    (c : ℕ) (action body : Text) (s : State)
    → (not (text_eq action (codes "enter")) && not (text_eq action (codes "list"))) ≡ true
    → Server.act c action body s ≡ handle_action c action body s
plain_action c action body s h =
    let (e, l) =
      &&_split (not (text_eq action (codes "enter"))) (not (text_eq action (codes "list"))) h in
    let other =
      if text_eq action (codes "list")
      then Server.list_each c s.rooms s
      else handle_action c action body s in
    (servers_agree c action body s).0
    ∙ ap (λ b. if b then handle_action c action body s >>= listing body else other) (not_cases _ e)
    ∙ ap (λ b. if b then Server.list_each c s.rooms s else handle_action c action body s)
        (not_cases _ l)

plain_line :
    (c : ℕ) (txt : Text) (s : State)
    → is_plain_line txt ≡ true
    → Server.handle_user_input c txt s ≡ handle_input c txt s
unfolding Server.handle_user_input handle_input
plain_line c txt s h =
    let action = get_action (trim_space txt) in
    ap (λ r. if is_empty txt then running s else r) (plain_action c (action.0) (action.1) s h)

plain_step : (e : Event) (s : State) → is_plain (e ∷ []) ≡ true → Server.step e s ≡ step e s
unfolding Server.step step Server.accepted registered Server.new_client new_client
plain_step (accept addr) s h = refl
plain_step (line c txt) s h =
    ap (λ r. if ltb c s.next_client then r else running s)
      (plain_line c txt s (&&_split (is_plain_line txt) true h).0)
plain_step (eof c) s h = refl

is_plain_split :
    (e : Event) (es : List Event)
    → is_plain (e ∷ es) ≡ true
    → (is_plain (e ∷ []) ≡ true) × (is_plain es ≡ true)
is_plain_split (accept addr) es h = (refl, h)
is_plain_split (line c txt) es h =
    let (a, b) = &&_split (is_plain_line txt) (is_plain es) h in (rw a refl, b)
is_plain_split (eof c) es h = (refl, h)

>>=_eq : (r : Run) (f g : State → Run) → ((s : State) → f s ≡ g s) → (r >>= f) ≡ (r >>= g)
>>=_eq (running s) f g h = h s
>>=_eq (exited s) f g h = refl

-- In a history whose lines ask neither to enter a room nor for the list of rooms, server.go and
-- serverref.go come to the same: the same clients with the same texts written to each, the same
-- log, and the same exit, if the log cannot be written.
pub histories_agree :
    (es : List Event) (s : State) → is_plain es ≡ true → Server.run es s ≡ run es s
unfolding Server.run run
histories_agree [] s h = refl
histories_agree (e ∷ es) s h =
    let (now, later) = is_plain_split e es h in
    ap (λ r. r >>= Server.run es) (plain_step e s now)
    ∙ >>=_eq (step e s) (Server.run es) (run es) (λ t. histories_agree es t later)
