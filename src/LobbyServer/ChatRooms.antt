-- ===== src/LobbyServer/ChatRooms.antt =====
-- The methods of ChatRoom (ken/server.go, lines 297 to 335).
use cmpt436chat_client.Prelude.{
  ℕ, ◌+◌, List, [], ◌∷◌, ◌++◌, Option, none, some, remove_first, update,
}
use cmpt436chat_client.Text.{Text, sprintf}
use cmpt436chat_client.Goroutine.{Outcome, done, ◌>>=◌, send_each, send_all}
use cmpt436chat_client.LobbyServer.Types.{
  State, Server, Client, ChatRoom, expiry_time, notice_room_join, notice_room_leave,
  notice_room_delete,
}

abbrev pub set_room : ℕ → ChatRoom → State → State
set_room r room s = record s { chat_rooms = update s.chat_rooms r room }

abbrev pub set_client : ℕ → Client → State → State
set_client c client s = record s { clients = update s.clients c client }

abbrev pub at_state : (State → State) → Server → Server
at_state f w = record w { state = f w.state }

-- What Broadcast does to the room before it sends.
unfoldable pub remembered : ℕ → Text → State → State
remembered r message s =
    let room = s.chat_rooms r in
    set_room r
      (record room { expiry = s.now + expiry_time; messages = room.messages ++ message ∷ [] }) s

unfoldable pub broadcast : ℕ → Text → Server → Outcome Server
unfolding remembered
broadcast r message w =
    send_all (w.state.chat_rooms r).clients message (at_state (remembered r message) w)

-- `client.chatRoom = …`.
unfoldable pub move_to : Option ℕ → ℕ → State → State
move_to room c s = set_client c (record (s.clients c) { chat_room = room }) s

unfoldable pub move_out : List ℕ → State → State
unfolding move_to
move_out [] s = s
move_out (c ∷ cs) s = move_out cs (move_to none c s)

-- Delete tells the room's clients and sends them back to the lobby.
unfoldable pub delete : ℕ → Server → Outcome Server
unfolding broadcast move_out
delete r w = do
  w1 ← broadcast r notice_room_delete w
  done (at_state (move_out (w1.state.chat_rooms r).clients) w1)

unfoldable pub add_client : ℕ → ℕ → State → State
add_client r c s =
    let room = s.chat_rooms r in set_room r (record room { clients = room.clients ++ c ∷ [] }) s

unfoldable pub join : ℕ → ℕ → Server → Outcome Server
unfolding move_to add_client broadcast sprintf
join r c w = do
  w1 ← send_each c (w.state.chat_rooms r).messages (at_state (move_to (some r) c) w)
  let w2 = at_state (add_client r c) w1
  broadcast r (sprintf notice_room_join ((w2.state.clients c).name ∷ [])) w2

unfoldable pub drop_client : ℕ → ℕ → State → State
unfolding remove_first
drop_client r c s =
    let room = s.chat_rooms r in
    set_room r (record room { clients = remove_first c room.clients }) s

unfoldable pub leave : ℕ → ℕ → Server → Outcome Server
unfolding broadcast drop_client move_to sprintf
leave r c w = do
  w1 ← broadcast r (sprintf notice_room_leave ((w.state.clients c).name ∷ [])) w
  done (at_state (move_to none c) (at_state (drop_client r c) w1))
