-- ===== src/LobbyServer/Types.antt =====
-- The constants and the data of ken/server.go (lines 13 to 101, 224 to 231, 340 to 356 and 404 to
-- 415).
use cmpt436chat_client.Prelude.{ℕ, ◌+◌, ◌*◌, List, [], ◌∷◌, ◌++◌, Option, none, true}
use cmpt436chat_client.Text.{Text, codes, sprintf}
use cmpt436chat_client.Text.Clock.{hour, kitchen}
use cmpt436chat_client.Goroutine.{Wire, World}

abbrev pub max_clients : ℕ
max_clients = 10

abbrev pub cmd_pfx : Text
cmd_pfx = codes "/"

abbrev pub cmd_create : Text
cmd_create = cmd_pfx ++ codes "c"

abbrev pub cmd_list : Text
cmd_list = cmd_pfx ++ codes "l"

abbrev pub cmd_join : Text
cmd_join = cmd_pfx ++ codes "j"

abbrev pub cmd_leave : Text
cmd_leave = cmd_pfx ++ codes "leave"

abbrev pub cmd_help : Text
cmd_help = cmd_pfx ++ codes "h"

abbrev pub cmd_name : Text
cmd_name = cmd_pfx ++ codes "n"

abbrev pub cmd_quit : Text
cmd_quit = cmd_pfx ++ codes "q"

abbrev pub client_name : Text
client_name = codes "new_user"

abbrev pub error_pfx : Text
error_pfx = codes "Error: "

abbrev pub error_send : Text
error_send = error_pfx ++ codes "You cannot send messages in the lobby.\n"

abbrev pub error_create : Text
error_create = error_pfx ++ codes "A chat room with that name already exists.\n"

abbrev pub error_join : Text
error_join = error_pfx ++ codes "A chat room with that name does not exist.\n"

abbrev pub error_leave : Text
error_leave = error_pfx ++ codes "You cannot leave the lobby.\n"

abbrev pub notice_pfx : Text
notice_pfx = codes "Notice: "

abbrev pub notice_room_join : Text
notice_room_join = notice_pfx ++ codes "\"%s\" joined.\n"

abbrev pub notice_room_leave : Text
notice_room_leave = notice_pfx ++ codes "\"%s\" left.\n"

abbrev pub notice_room_name : Text
notice_room_name = notice_pfx ++ codes "\"%s\" is now \"%s\".\n"

abbrev pub notice_room_delete : Text
notice_room_delete = notice_pfx ++ codes "Inactive Room, Deleting...\n"

abbrev pub notice_lobby_create : Text
notice_lobby_create = notice_pfx ++ codes "Created \"%s\".\n"

abbrev pub msg_connect : Text
msg_connect = codes "Welcome. Type \"/h\" for commands.\n"

abbrev pub expiry_time : ℕ
expiry_time = 7 * 24 * hour

-- The fields of Client that the lobby's goroutine works on; the others are the client's Wire.
pub record Client : Type 0 where
  pub name : Text
  pub chat_room : Option ℕ

pub record ChatRoom : Type 0 where
  pub name : Text
  pub clients : List ℕ
  pub messages : List Text
  pub expiry : ℕ

pub record Lobby : Type 0 where
  pub clients : List ℕ
  pub chat_rooms : List (Text × ℕ)

pub record Message : Type 0 where
  pub time : ℕ
  pub client : ℕ
  pub text : Text

-- The heap of clients and rooms, the lobby, the goroutines that sleep before they send a room to
-- `delete` (with the time at which they wake), the clients whose messages are relayed, and the
-- clock.
pub record State : Type 0 where
  pub clients : ℕ → Client
  pub chat_rooms : ℕ → ChatRoom
  pub next_room : ℕ
  pub next_client : ℕ
  pub lobby : Lobby
  pub sleepers : List (ℕ × ℕ)
  pub relayed : List ℕ
  pub now : ℕ

abbrev pub Server : Type 0
Server = World State

unfoldable pub new_client : Client
new_client = record { name = client_name; chat_room = none }

-- The two goroutines that Client.Listen starts, over open channels and an open connection.
abbrev pub client_listen : Wire
client_listen = record { conn_open = true; writing = true; out_open = true; written = [] }

unfoldable pub new_lobby : Lobby
new_lobby = record { clients = []; chat_rooms = [] }

unfoldable pub new_chat_room : ℕ → Text → ChatRoom
new_chat_room now name = record {
  name = name;
  clients = [];
  messages = [];
  expiry = now + expiry_time;
}

unfoldable pub new_message : ℕ → ℕ → Text → Message
new_message time client text = record { time = time; client = client; text = text }

unfoldable pub string : State → Message → Text
unfolding kitchen sprintf
string s message =
    sprintf (codes "%s - %s: %s\n")
      (kitchen message.time ∷ (s.clients message.client).name ∷ message.text ∷ [])
