-- ===== src/LobbyServer/Lobby.antt =====
-- The methods of Lobby (ken/server.go, lines 122 to 221 and 235 to 294). Log output is left out.
use cmpt436chat_client.Prelude.{
  ℕ, suc, ◌+◌, ◌-◌, List, [], ◌∷◌, ◌++◌, map, Option, none, some, ltb, leb, if◌then◌else◌, length,
  is_nil, remove_first, update,
}
use cmpt436chat_client.Text.{Text, codes, newline, has_prefix, trim_prefix, trim_suffix, sprintf}
use cmpt436chat_client.Table
use cmpt436chat_client.Table.{lookup, insert, keys}
use cmpt436chat_client.Goroutine.{
  Outcome, done, panicked, ◌>>=◌, send, send_each, close_out, close_conn,
}
use cmpt436chat_client.LobbyServer.Types.{
  State, Message, Server, max_clients, cmd_create, cmd_list, cmd_join, cmd_leave, cmd_help,
  cmd_name, cmd_quit, error_send, error_create, error_join, error_leave, notice_room_name,
  notice_lobby_create, msg_connect, expiry_time, new_chat_room, string,
}
use cmpt436chat_client.LobbyServer.ChatRooms
use cmpt436chat_client.LobbyServer.ChatRooms.{set_client, at_state, broadcast}

abbrev pub room_of : ℕ → State → Option ℕ
room_of c s = (s.clients c).chat_room

abbrev pub find_room : Text → State → Option ℕ
find_room name s = lookup name s.lobby.chat_rooms

unfoldable pub welcome : ℕ → State → State
welcome c s = record s { lobby = record (s.lobby) { clients = s.lobby.clients ++ c ∷ [] } }

-- The goroutine that hands the client's messages to the lobby.
unfoldable pub relay : ℕ → State → State
relay c s = record s { relayed = s.relayed ++ c ∷ [] }

unfoldable pub join : ℕ → Server → Outcome Server
unfolding welcome relay
join c w =
    if leb max_clients (length w.state.lobby.clients)
    then done (close_conn c w)
    else do w1 ← send c msg_connect (at_state (welcome c) w); done (at_state (relay c) w1)

unfoldable pub forget : ℕ → State → State
unfolding remove_first
forget c s = record s { lobby = record (s.lobby) { clients = remove_first c s.lobby.clients } }

unfoldable pub leave : ℕ → Server → Outcome Server
unfolding forget
leave c w = do
  w1 ← elim (room_of c w.state) [ none ↦ done w | some r ↦ ChatRooms.leave r c w ]
  close_out c (at_state (forget c) w1)

-- A goroutine that sleeps until `t` and then sends the room to `delete`.
unfoldable pub sleep_until : ℕ → ℕ → State → State
sleep_until t r s = record s { sleepers = s.sleepers ++ (t, r) ∷ [] }

unfoldable pub unregister : Text → State → State
unregister name s = record s {
  lobby = record (s.lobby) { chat_rooms = Table.delete name s.lobby.chat_rooms };
}

unfoldable pub delete_chat_room : ℕ → Server → Outcome Server
unfolding sleep_until unregister
delete_chat_room r w =
    let s = w.state in
    let expiry = (s.chat_rooms r).expiry in
    if ltb s.now expiry then done (at_state (sleep_until (s.now + (expiry - s.now)) r) w) else (do
      w1 ← ChatRooms.delete r w
      done (at_state (unregister (w1.state.chat_rooms r).name) w1))

-- NewChatRoom, and the entry under its name.
unfoldable pub register : Text → State → State
unfolding new_chat_room
register name s = record s {
  chat_rooms = update s.chat_rooms s.next_room (new_chat_room s.now name);
  next_room = suc s.next_room;
  lobby = record (s.lobby) { chat_rooms = insert name s.next_room s.lobby.chat_rooms };
}

unfoldable pub create_chat_room : ℕ → Text → Server → Outcome Server
unfolding register sleep_until sprintf
create_chat_room c name w =
    if is_nil (find_room name w.state)
    then (let r = w.state.next_room in
        let w1 = at_state (register name) w in
        let w2 = at_state (sleep_until (w1.state.now + expiry_time) r) w1 in
        send c (sprintf notice_lobby_create ((w2.state.chat_rooms r).name ∷ [])) w2)
    else send c error_create w

unfoldable pub leave_chat_room : ℕ → Server → Outcome Server
leave_chat_room c w = elim (room_of c w.state) [
  | none ↦ send c error_leave w
  | some r ↦ ChatRooms.leave r c w
]

-- Calling Join on a nil room would panic.
abbrev pub join_found : Option ℕ → ℕ → Server → Outcome Server
join_found none c w = panicked w
join_found (some r) c w = ChatRooms.join r c w

unfoldable pub join_chat_room : ℕ → Text → Server → Outcome Server
join_chat_room c name w = if is_nil (find_room name w.state) then send c error_join w else do
  w1 ← if is_nil (room_of c w.state) then done w else leave_chat_room c w
  join_found (find_room name w1.state) c w1

abbrev pub room_line : Text → Text
room_line name = name ++ codes "\n"

-- `order` is the order in which the range loop meets the keys of the map.
unfoldable pub list_chat_rooms : (List Text → List Text) → ℕ → Server → Outcome Server
list_chat_rooms order c w = do
  w1 ← send c (codes "\n") w
  w2 ← send c (codes "Chat Rooms:\n") w1
  w3 ← send_each c (map room_line (order (keys w2.state.lobby.chat_rooms))) w2
  send c (codes "\n") w3

unfoldable pub send_message : Message → Server → Outcome Server
unfolding string
send_message message w = elim (room_of message.client w.state) [
  | none ↦ send message.client error_send w
  | some r ↦ broadcast r (string w.state message) w
]

unfoldable pub rename : ℕ → Text → State → State
rename c name s = set_client c (record (s.clients c) { name = name }) s

unfoldable pub change_name : ℕ → Text → Server → Outcome Server
unfolding rename sprintf
change_name c name w =
    let notice = sprintf notice_room_name ((w.state.clients c).name ∷ name ∷ []) in
    do
      w1 ← elim (room_of c w.state) [ none ↦ send c notice w | some r ↦ broadcast r notice w ]
      done (at_state (rename c name) w1)

abbrev pub help_lines : List Text
help_lines =
    codes "\n"
    ∷ codes "Commands:\n"
    ∷ (cmd_help ++ codes " - lists all commands\n")
    ∷ (cmd_list ++ codes " - lists all chat rooms\n")
    ∷ (cmd_create ++ codes " test - creates a chat room named test\n")
    ∷ (cmd_join ++ codes " test - joins a chat room named test\n")
    ∷ (cmd_leave ++ codes " - leaves the current chat room\n")
    ∷ (cmd_name ++ codes " test - changes your name to test\n")
    ∷ (cmd_quit ++ codes " - quits the program\n")
    ∷ codes "\n"
    ∷ []

unfoldable pub help : ℕ → Server → Outcome Server
help c w = send_each c help_lines w

-- strings.TrimSuffix(strings.TrimPrefix(text, command+" "), "\n").
unfoldable pub argument : Text → Text → Text
unfolding trim_prefix trim_suffix
argument text command = trim_suffix (trim_prefix text (command ++ codes " ")) (newline ∷ [])

unfoldable pub parse : (List Text → List Text) → Message → Server → Outcome Server
parse order message w =
    if has_prefix message.text cmd_create
    then create_chat_room message.client (argument message.text cmd_create) w
    else if has_prefix message.text cmd_leave
    then leave_chat_room message.client w
    else if has_prefix message.text cmd_list
    then list_chat_rooms order message.client w
    else if has_prefix message.text cmd_join
    then join_chat_room message.client (argument message.text cmd_join) w
    else if has_prefix message.text cmd_name
    then change_name message.client (argument message.text cmd_name) w
    else if has_prefix message.text cmd_help
    then help message.client w
    else if has_prefix message.text cmd_quit
    then done (close_conn message.client w)
    else send_message message w
