-- ===== src/SlashChat/Server.antt =====
-- The goroutines of server.go as steps on the package's variables.
use cmpt436chat_client.Prelude.{
  ℕ, suc, true, false, not, ◌||◌, List, [], ◌∷◌, if◌then◌else◌, is_empty, update, ltb,
}
use cmpt436chat_client.Text.{Text, codes, text_eq}
use cmpt436chat_client.SlashChat.Action.{trim_space, get_action}
use cmpt436chat_client.SlashChat.Util.{
  State, Client, Run, running, ◌>>=◌, set_client, register, send_client_message, close,
}

abbrev pub mainlobby : Text
mainlobby = codes "lobby"

abbrev pub first_rooms : List Text
first_rooms = mainlobby ∷ [] ∷ [] ∷ [] ∷ [] ∷ [] ∷ [] ∷ [] ∷ [] ∷ [] ∷ []

abbrev pub set_room : ℕ → Text → State → State
set_room c room s = set_client c (record (s.clients c) { room = room }) s

-- The loop that enters a room's name in the list of rooms.
unfoldable pub list_room : Text → List Text → List Text
unfolding text_eq
list_room room [] = []
list_room room (r ∷ rs) =
    let rest = r ∷ list_room room rs in
    if is_empty r || not (text_eq r room) then room ∷ rs else rest

-- The loop that answers "/list".
unfoldable pub list_each : ℕ → List Text → State → Run
list_each c [] s = running s
list_each c (r ∷ rs) s = do
  t ←
      if is_empty r
      then running s
      else send_client_message (codes "list") r c true (s.clients c).prop s
  list_each c rs t

unfoldable pub enter : ℕ → Text → State → Run
unfolding list_room
enter c body s = if is_empty body then running s else do
  t ← send_client_message (codes "enter") body c false (s.clients c).prop (set_room c body s)
  running (record t { rooms = list_room body t.rooms })

unfoldable pub leave : ℕ → State → Run
unfolding text_eq
leave c s = if text_eq (s.clients c).room mainlobby then running s else do
  t ← send_client_message (codes "leave") (s.clients c).room c false (s.clients c).prop s
  running (set_room c mainlobby t)

unfoldable pub name_user : ℕ → Text → State → Run
name_user c body s =
    send_client_message (codes "connect") [] c false (s.clients c).prop
      (set_client c (record (s.clients c) { user = body }) s)

-- The switch of HandleUserInput. The properties that main passes are those that it put in the
-- client.
unfoldable pub act : ℕ → Text → Text → State → Run
unfolding text_eq
act c cur_action body s =
    if is_empty cur_action
    then running s
    else if text_eq cur_action (codes "message")
    then send_client_message (codes "message") body c false (s.clients c).prop s
    else if text_eq cur_action (codes "user")
    then name_user c body s
    else if text_eq cur_action (codes "disconnect")
    then close c false s
    else if text_eq cur_action (codes "enter")
    then enter c body s
    else if text_eq cur_action (codes "list")
    then list_each c s.rooms s
    else if text_eq cur_action (codes "leave")
    then leave c s
    else send_client_message (codes "unrecognized") cur_action c true (s.clients c).prop s

-- One round of HandleUserInput. The empty message, which it reads for ever once the channel is
-- closed, has no effect.
unfoldable pub handle_user_input : ℕ → Text → State → Run
handle_user_input c cur_message s =
    let action = get_action (trim_space cur_message) in
    if is_empty cur_message then running s else act c (action.0) (action.1) s

-- What happens: somebody connects from an address, a client's line is handled, a client's reader
-- fails.
pub data Event : Type 0 where
  accept : Text → Event
  line : ℕ → Text → Event
  eof : ℕ → Event

unfoldable pub new_client : Text → State → Client
new_client addr s = record {
  conn_open = true;
  addr = addr;
  written = [];
  room = mainlobby;
  prop = s.config;
  user = [];
}

unfoldable pub accepted : Text → State → State
unfolding new_client register
accepted addr s =
    let t = record s {
      clients = update s.clients s.next_client (new_client addr s);
      next_client = suc s.next_client;
    } in
    register s.next_client t

unfoldable pub step : Event → State → Run
unfolding accepted
step (accept addr) s =
    send_client_message (codes "ready") s.config.port s.next_client true s.config (accepted addr s)
step (line c txt) s = if ltb c s.next_client then handle_user_input c txt s else running s
step (eof c) s = if ltb c s.next_client then close c true s else running s

unfoldable pub run : List Event → State → Run
unfolding step
run [] s = running s
run (e ∷ es) s = do t ← step e s; run es t
