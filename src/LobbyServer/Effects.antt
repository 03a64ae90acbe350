-- ===== src/LobbyServer/Effects.antt =====
-- What each operation of ken/server.go makes of the server's own state, as functions on it alone:
-- the sends to the clients are left out.
use cmpt436chat_client.Prelude.{
  ℕ, ◌+◌, [], ◌∷◌, Option, none, some, if◌then◌else◌, is_nil, ltb, leb, ◌-◌,
}
use cmpt436chat_client.Text.{Text, has_prefix, sprintf}
use cmpt436chat_client.Sleepers.{sleeper_at, without_at}
use cmpt436chat_client.LobbyServer.Types.{
  State, Message, cmd_create, cmd_list, cmd_join, cmd_leave, cmd_help, cmd_name, cmd_quit,
  notice_room_join, notice_room_leave, notice_room_name, notice_room_delete, expiry_time, string,
}
use cmpt436chat_client.LobbyServer.ChatRooms.{
  remembered, move_to, move_out, add_client, drop_client,
}
use cmpt436chat_client.LobbyServer.Lobby.{
  room_of, find_room, register, sleep_until, unregister, rename, argument,
}

abbrev pub name_of : ℕ → State → Text
name_of c s = (s.clients c).name

unfoldable pub left : ℕ → ℕ → State → State
left c r s =
    move_to none c (drop_client r c (remembered r (sprintf notice_room_leave (name_of c s ∷ [])) s))

unfoldable pub joined : ℕ → ℕ → State → State
joined c r s =
    let s1 = add_client r c (move_to (some r) c s) in
    remembered r (sprintf notice_room_join (name_of c s1 ∷ [])) s1

unfoldable pub left_current : ℕ → State → State
unfolding left
left_current c s = elim (room_of c s) [ none ↦ s | some r ↦ left c r s ]

-- The room is looked up again, after the old one has been left.
unfoldable pub moved_to : Option ℕ → ℕ → State → State
unfolding joined
moved_to none c s = s
moved_to (some r) c s = joined c r s

unfoldable pub entered : ℕ → Text → State → State
unfolding left_current moved_to
entered c name s =
    if is_nil (find_room name s)
    then s
    else let s1 = left_current c s in moved_to (find_room name s1) c s1

unfoldable pub created : Text → State → State
unfolding register sleep_until
created name s =
    if is_nil (find_room name s)
    then sleep_until (s.now + expiry_time) s.next_room (register name s)
    else s

unfoldable pub said : Message → State → State
unfolding remembered
said m s = elim (room_of m.client s) [ none ↦ s | some r ↦ remembered r (string s m) s ]

unfoldable pub renamed : ℕ → Text → State → State
unfolding rename remembered
renamed c name s = rename c name (elim (room_of c s) [
  | none ↦ s
  | some r ↦ remembered r (sprintf notice_room_name (name_of c s ∷ name ∷ [])) s
])

-- The state after a line of a client.
unfoldable pub parsed : Message → State → State
unfolding created entered left_current renamed said
parsed m s =
    if has_prefix m.text cmd_create
    then created (argument m.text cmd_create) s
    else if has_prefix m.text cmd_leave
    then left_current m.client s
    else if has_prefix m.text cmd_list
    then s
    else if has_prefix m.text cmd_join
    then entered m.client (argument m.text cmd_join) s
    else if has_prefix m.text cmd_name
    then renamed m.client (argument m.text cmd_name) s
    else if has_prefix m.text cmd_help
    then s
    else if has_prefix m.text cmd_quit
    then s
    else said m s

-- The state after a room has been handed to DeleteChatRoom.
unfoldable pub deleted : ℕ → State → State
unfolding sleep_until unregister move_out remembered
deleted r s =
    let expiry = (s.chat_rooms r).expiry in
    if ltb s.now expiry
    then sleep_until (s.now + (expiry - s.now)) r s
    else (let n = remembered r notice_room_delete s in
        let o = move_out (n.chat_rooms r).clients n in unregister (o.chat_rooms r).name o)

-- The state after a sleeping goroutine's time has come.
unfoldable pub woken : ℕ → State → State
unfolding sleeper_at without_at deleted
woken i s = elim (sleeper_at i s.sleepers) [
  | none ↦ s
  | some (t, r) ↦
      if leb t s.now then deleted r (record s { sleepers = without_at i s.sleepers }) else s
]
