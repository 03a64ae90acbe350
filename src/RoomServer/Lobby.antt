-- ===== src/RoomServer/Lobby.antt =====
-- The methods of Lobby (newServer.go, lines 192 to 378). Log output is left out.
use cmpt436chat_client.Prelude.{
  ℕ, suc, ◌+◌, ◌-◌, List, [], ◌∷◌, ◌++◌, map, Option, none, some, ltb, leb, if◌then◌else◌, length,
  is_nil, remove_first, update,
}
use cmpt436chat_client.Text.{Text, codes, newline, has_prefix, trim_prefix, trim_suffix, sprintf}
use cmpt436chat_client.Table
use cmpt436chat_client.Table.{lookup, insert, keys}
use cmpt436chat_client.Goroutine.{
  Outcome, done, panicked, ◌>>=◌, send, send_each, close_out, close_conn,
}
use cmpt436chat_client.RoomServer.Types.{
  State, Msg, Server, comm_createroom, comm_enterroom, comm_leaveroom, comm_listrooms,
  comm_helpchat, comm_changename, comm_quitchat, note_changename, note_room_create,
  note_pub_changename, err_create, err_enter, err_leave, err_send, clientmax, sconnect, extime,
  new_c_room, to_string,
}
use cmpt436chat_client.RoomServer.Rooms
use cmpt436chat_client.RoomServer.Rooms.{set_room, set_client, at_state, broadcast, join, leave}

abbrev pub room_of : ℕ → State → Option ℕ
room_of c s = (s.clients c).c_room

abbrev pub name_of : ℕ → State → Text
name_of c s = (s.clients c).username

abbrev pub find_room : Text → State → Option ℕ
find_room name s = lookup name s.lobby.c_room

unfoldable pub welcome_to : ℕ → State → State
welcome_to c s = record s {
  lobby = record (s.lobby) { cur_clients = s.lobby.cur_clients ++ c ∷ [] };
}

-- The goroutine that hands the client's messages to the lobby.
unfoldable pub relay : ℕ → State → State
relay c s = record s { relayed = s.relayed ++ c ∷ [] }

unfoldable pub join_room : ℕ → Server → Outcome Server
unfolding welcome_to relay
join_room c w =
    if leb clientmax (length w.state.lobby.cur_clients)
    then done (close_conn c w)
    else do w1 ← send c sconnect (at_state (welcome_to c) w); done (at_state (relay c) w1)

unfoldable pub forget_client : ℕ → State → State
unfolding remove_first
forget_client c s = record s {
  lobby = record (s.lobby) { cur_clients = remove_first c s.lobby.cur_clients };
}

-- Lobby.Leave, which no code of the file calls.
unfoldable pub lobby_leave : ℕ → Server → Outcome Server
unfolding forget_client leave
lobby_leave c w = do
  w1 ← elim (room_of c w.state) [ none ↦ done w | some r ↦ leave r c w ]
  close_out c (at_state (forget_client c) w1)

-- A goroutine that sleeps until `t` and then sends the room to delRoom.
unfoldable pub sleep_until : ℕ → ℕ → State → State
sleep_until t r s = record s { sleepers = s.sleepers ++ (t, r) ∷ [] }

unfoldable pub unregister : Text → State → State
unregister name s = record s {
  lobby = record (s.lobby) { c_room = Table.delete name s.lobby.c_room };
}

unfoldable pub delete_c_room : ℕ → State → State
unfolding sleep_until unregister Rooms.delete
delete_c_room r s =
    let room = s.rooms r in
    if ltb s.now room.expire
    then sleep_until (s.now + (room.expire - s.now)) r s
    else unregister room.c_name (Rooms.delete r s)

unfoldable pub leave_c_room : ℕ → Server → Outcome Server
unfolding leave
leave_c_room c w = elim (room_of c w.state) [ none ↦ send c err_leave w | some r ↦ leave r c w ]

-- Calling Join on a nil room would panic.
abbrev pub join_found : Option ℕ → ℕ → Server → Outcome Server
join_found none c w = panicked w
join_found (some r) c w = join r c w

unfoldable pub enter_c_room : ℕ → Text → Server → Outcome Server
unfolding leave_c_room join
enter_c_room c name w = if is_nil (find_room name w.state) then send c err_enter w else do
  w1 ← if is_nil (room_of c w.state) then done w else leave_c_room c w
  join_found (find_room name w1.state) c w1

-- NewCRoom, and the entry under its name.
unfoldable pub register_room : Text → State → State
unfolding new_c_room
register_room name s = record s {
  rooms = update s.rooms s.next_room (new_c_room s.now name);
  next_room = suc s.next_room;
  lobby = record (s.lobby) { c_room = insert name s.next_room s.lobby.c_room };
}

unfoldable pub create_c_room : ℕ → Text → Server → Outcome Server
unfolding register_room sleep_until enter_c_room sprintf
create_c_room c name w =
    if is_nil (find_room name w.state)
    then (do
      let r = w.state.next_room
      let w1 = at_state (register_room name) w
      let w2 = at_state (sleep_until (w1.state.now + extime) r) w1
      w3 ← send c (sprintf note_room_create ((w2.state.rooms r).c_name ∷ [])) w2
      enter_c_room c name w3)
    else send c err_create w

unfoldable pub send_msg : Msg → Server → Outcome Server
unfolding broadcast to_string
send_msg msg w = elim (room_of msg.client w.state) [
  | none ↦ send msg.client err_send w
  | some r ↦ broadcast r (to_string w.state msg) w
]

unfoldable pub rename : ℕ → Text → State → State
rename c username s = set_client c (record (s.clients c) { username = username }) s

unfoldable pub change_username : ℕ → Text → Server → Outcome Server
unfolding rename broadcast sprintf
change_username c username w = do
  w1 ← elim (room_of c w.state) [
    | none ↦ send c (sprintf note_changename (username ∷ [])) w
    | some r ↦ broadcast r (sprintf note_pub_changename (name_of c w.state ∷ username ∷ [])) w
  ]
  done (at_state (rename c username) w1)

abbrev pub room_line : Text → Text
room_line name = name ++ codes "\n"

-- `order` is the order in which the range loop meets the keys of the map.
unfoldable pub list_c_rooms : (List Text → List Text) → ℕ → Server → Outcome Server
list_c_rooms order c w = do
  w1 ← send c (codes "\n\n") w
  w2 ← send c (codes "Chat Rooms:\n") w1
  w3 ← send_each c (map room_line (order (keys w2.state.lobby.c_room))) w2
  send c (codes "\n") w3

abbrev pub help_lines : List Text
help_lines =
    codes "\n\n"
    ∷ codes "Commands and Usage:\n"
    ∷ codes "!help - lists all commands.\n"
    ∷ codes "!list - lists all chat rooms that are active.\n"
    ∷ codes "!name param - changes your name to param.\n"
    ∷ codes "!create chan - creates a channel called chan.\n"
    ∷ codes "!enter chan - enters a chat named chan.\n"
    ∷ codes "!leave - leaves the current channel.\n"
    ∷ codes "!quit - quits the chat client.\n"
    ∷ codes "\n\n"
    ∷ []

unfoldable pub help : ℕ → Server → Outcome Server
help c w = send_each c help_lines w

-- strings.TrimSuffix(strings.TrimPrefix(txt, command+" "), "\n").
unfoldable pub argument : Text → Text → Text
unfolding trim_prefix trim_suffix
argument txt command = trim_suffix (trim_prefix txt (command ++ codes " ")) (newline ∷ [])

unfoldable pub parse_msg : (List Text → List Text) → Msg → Server → Outcome Server
parse_msg order msg w =
    if has_prefix msg.txt comm_createroom
    then create_c_room msg.client (argument msg.txt comm_createroom) w
    else if has_prefix msg.txt comm_enterroom
    then enter_c_room msg.client (argument msg.txt comm_enterroom) w
    else if has_prefix msg.txt comm_leaveroom
    then leave_c_room msg.client w
    else if has_prefix msg.txt comm_listrooms
    then list_c_rooms order msg.client w
    else if has_prefix msg.txt comm_helpchat
    then help msg.client w
    else if has_prefix msg.txt comm_changename
    then change_username msg.client (argument msg.txt comm_changename) w
    else if has_prefix msg.txt comm_quitchat
    then done (close_conn msg.client w)
    else send_msg msg w
