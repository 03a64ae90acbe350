-- ===== src/RoomServer/Rooms.antt =====
-- The methods of CRoom (newServer.go, lines 402 to 458).
use cmpt436chat_client.Prelude.{
  ℕ, ◌+◌, List, [], ◌∷◌, ◌++◌, none, some, if◌then◌else◌, is_empty, update, remove_first,
}
use cmpt436chat_client.Text.{Text, codes, sprintf}
use cmpt436chat_client.Goroutine.{Outcome, done, ◌>>=◌, send, send_each, send_all}
use cmpt436chat_client.RoomServer.Types.{
  State, Client, CRoom, Server, extime, note_room_enter, note_room_leave,
}

-- Writes through a pointer to a room and to a client.
abbrev pub set_room : ℕ → CRoom → State → State
set_room r room s = record s { rooms = update s.rooms r room }

abbrev pub set_client : ℕ → Client → State → State
set_client c client s = record s { clients = update s.clients c client }

abbrev pub at_state : (State → State) → Server → Server
at_state f w = record w { state = f w.state }

-- What Broadcast does to the room before it sends.
unfoldable pub logged : ℕ → Text → State → State
logged r msg s =
    let room = s.rooms r in
    set_room r (record room { expire = s.now + extime; msgs = room.msgs ++ msg ∷ [] }) s

unfoldable pub broadcast : ℕ → Text → Server → Outcome Server
unfolding logged
broadcast r msg w = send_all (w.state.rooms r).cur_clients msg (at_state (logged r msg) w)

-- The loop of Delete over the room's clients.
unfoldable pub clear_rooms : List ℕ → State → State
clear_rooms [] s = s
clear_rooms (c ∷ cs) s = clear_rooms cs (set_client c (record (s.clients c) { c_room = none }) s)

unfoldable pub delete : ℕ → State → State
unfolding clear_rooms
delete r s = clear_rooms (s.rooms r).cur_clients s

abbrev pub begin_log : Text
begin_log = codes "================BEGIN LOG================\n"

abbrev pub end_log : Text
end_log = codes "================END LOG================\n"

-- `client.cRoom = cRoom`, and appending to the room's clients.
unfoldable pub point_at : ℕ → ℕ → State → State
point_at c r s = set_client c (record (s.clients c) { c_room = some r }) s

unfoldable pub add_member : ℕ → ℕ → State → State
add_member c r s =
    let room = s.rooms r in set_room r (record room { cur_clients = room.cur_clients ++ c ∷ [] }) s

-- The room's earlier messages, between two marks if there are any.
unfoldable pub show_log : ℕ → ℕ → Server → Outcome Server
show_log r c w = do
  w1 ← if is_empty (w.state.rooms r).msgs then done w else send c begin_log w
  w2 ← send_each c (w1.state.rooms r).msgs w1
  if is_empty (w2.state.rooms r).msgs then done w2 else send c end_log w2

unfoldable pub join : ℕ → ℕ → Server → Outcome Server
unfolding point_at show_log add_member broadcast sprintf
join r c w = do
  w1 ← show_log r c (at_state (point_at c r) w)
  let w2 = at_state (add_member c r) w1
  broadcast r (sprintf note_room_enter ((w2.state.clients c).username ∷ [])) w2

-- Taking the client out of the room's clients, and `client.cRoom = nil`.
unfoldable pub drop_member : ℕ → ℕ → State → State
unfolding remove_first
drop_member c r s =
    let room = s.rooms r in
    set_room r (record room { cur_clients = remove_first c room.cur_clients }) s

unfoldable pub point_at_lobby : ℕ → State → State
point_at_lobby c s = set_client c (record (s.clients c) { c_room = none }) s

unfoldable pub leave : ℕ → ℕ → Server → Outcome Server
unfolding broadcast drop_member point_at_lobby sprintf
leave r c w = do
  w1 ← broadcast r (sprintf note_room_leave ((w.state.clients c).username ∷ [])) w
  done (at_state (point_at_lobby c) (at_state (drop_member c r) w1))
