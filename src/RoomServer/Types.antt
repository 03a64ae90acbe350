-- ===== src/RoomServer/Types.antt =====
-- The constants and the data of newServer.go (lines 18 to 89, 149 to 170, 383 to 399, 464 to 483).
use cmpt436chat_client.Prelude.{ℕ, ◌+◌, ◌*◌, List, [], ◌∷◌, ◌++◌, Option, none, true}
use cmpt436chat_client.Text.{Text, codes, sprintf}
use cmpt436chat_client.Text.Clock.{hour, kitchen}
use cmpt436chat_client.Goroutine.{Wire, World}

abbrev pub comm_prefix : Text
comm_prefix = codes "!"

abbrev pub comm_createroom : Text
comm_createroom = comm_prefix ++ codes "create"

abbrev pub comm_enterroom : Text
comm_enterroom = comm_prefix ++ codes "enter"

abbrev pub comm_leaveroom : Text
comm_leaveroom = comm_prefix ++ codes "leave"

abbrev pub comm_listrooms : Text
comm_listrooms = comm_prefix ++ codes "list"

abbrev pub comm_changename : Text
comm_changename = comm_prefix ++ codes "name"

abbrev pub comm_quitchat : Text
comm_quitchat = comm_prefix ++ codes "quit"

abbrev pub comm_helpchat : Text
comm_helpchat = comm_prefix ++ codes "help"

abbrev pub note_prefix : Text
note_prefix = codes "Note: "

abbrev pub note_changename : Text
note_changename = note_prefix ++ codes "Changed their name to [%s].\n"

abbrev pub note_room_create : Text
note_room_create = note_prefix ++ codes "Created the room {%s}.\n"

abbrev pub note_room_enter : Text
note_room_enter = note_prefix ++ codes "[%s] has joined the room.\n"

abbrev pub note_room_leave : Text
note_room_leave = note_prefix ++ codes "[%s] has left the room.\n"

abbrev pub note_pub_changename : Text
note_pub_changename = note_prefix ++ codes "[%s] changed their name to [%s].\n"

abbrev pub err_prefix : Text
err_prefix = codes "Error: "

abbrev pub err_create : Text
err_create = err_prefix ++ codes "There is a chat room with that name already.\n"

abbrev pub err_enter : Text
err_enter = err_prefix ++ codes "Chat room does not exist, you cannot join.\n"

abbrev pub err_leave : Text
err_leave = err_prefix ++ codes "You cannot leave the lobby!\n"

abbrev pub err_send : Text
err_send = err_prefix ++ codes "Cannot send messages in the lobby.\n"

-- CNAME, CLIENTMAX and SCONNECT.
abbrev pub cname : Text
cname = codes "Anon"

abbrev pub clientmax : ℕ
clientmax = 12

abbrev pub sconnect : Text
sconnect =
    codes
      "Welcome to the GO Chat server! To get started, type \"!help\" to retrieve a list of commands.\n"

abbrev pub extime : ℕ
extime = 7 * 24 * hour

-- The fields of Client that the lobby's goroutine works on; the others are the client's Wire.
pub record Client : Type 0 where
  pub c_room : Option ℕ
  pub username : Text

pub record CRoom : Type 0 where
  pub c_name : Text
  pub cur_clients : List ℕ
  pub msgs : List Text
  pub expire : ℕ

-- The map from names to rooms holds pointers.
pub record Lobby : Type 0 where
  pub cur_clients : List ℕ
  pub c_room : List (Text × ℕ)

pub record Msg : Type 0 where
  pub time : ℕ
  pub client : ℕ
  pub txt : Text

-- The heap of clients and rooms, the lobby, the goroutines that sleep before they send a room to
-- delRoom (with the time at which they wake), the clients whose messages are relayed to the lobby,
-- and the clock.
pub record State : Type 0 where
  pub clients : ℕ → Client
  pub rooms : ℕ → CRoom
  pub next_room : ℕ
  pub next_client : ℕ
  pub lobby : Lobby
  pub sleepers : List (ℕ × ℕ)
  pub relayed : List ℕ
  pub now : ℕ

abbrev pub Server : Type 0
Server = World State

-- What is new in ClientConstruct: an open connection, two empty channels, no room, the default
-- name.
unfoldable pub client_construct : Client
client_construct = record { c_room = none; username = cname }

abbrev pub new_wire : Wire
new_wire = record { conn_open = true; writing = true; out_open = true; written = [] }

unfoldable pub new_lobby : Lobby
new_lobby = record { cur_clients = []; c_room = [] }

unfoldable pub new_c_room : ℕ → Text → CRoom
new_c_room now name = record { c_name = name; cur_clients = []; msgs = []; expire = now + extime }

unfoldable pub new_msg : ℕ → ℕ → Text → Msg
new_msg time client txt = record { time = time; client = client; txt = txt }

unfoldable pub to_string : State → Msg → Text
unfolding kitchen sprintf
to_string s msg =
    sprintf (codes "%s-[%s]  %s\n")
      (kitchen msg.time ∷ (s.clients msg.client).username ∷ msg.txt ∷ [])
