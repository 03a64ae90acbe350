-- ===== src/RpcChat/Types.antt =====
-- The constants and the data of `Evan's Work/Assign 2/server` (main.go, lines 12 to 48; client.go,
-- lines 8 to 26; cRoom.go, lines 15 to 44), and the locks of package sync.
use cmpt436chat_client.Prelude.{
  ℕ, ◌+◌, ◌*◌, Bool, false, List, [], ◌++◌, Option, none, ◌==◌, update,
}
use cmpt436chat_client.Text.{Text, codes}
use cmpt436chat_client.Text.Clock.{hour}
use cmpt436chat_client.RpcChat.Registry.{Registry}

abbrev pub note_prefix : Text
note_prefix = codes "Note: "

abbrev pub note_room_create : Text
note_room_create = note_prefix ++ codes "Created the room {%s}.\n"

abbrev pub note_room_enter : Text
note_room_enter = note_prefix ++ codes "[%s] has joined the room.\n"

abbrev pub note_room_leave : Text
note_room_leave = note_prefix ++ codes "[%s] has left the room.\n"

abbrev pub note_room_deletion : Text
note_room_deletion = note_prefix ++ codes "Chat room is being deleted due to inactivity.\n"

abbrev pub err_send : Text
err_send = codes "Error: Cannot send messages in the lobby.\n"

abbrev pub cname : Text
cname = codes "Anon"

abbrev pub sconnect : Text
sconnect =
    codes
      "Welcome to the GO Chat server! To get started, type \"!help\" to retrieve a list of commands.\n"

abbrev pub extime : ℕ
extime = 7 * 24 * hour

-- A goroutine: one that serves a call or that a `go` statement started, or the one that a room's
-- Listen started.
pub data Tid : Type 0 where
  call loop : ℕ → Tid

abbrev pub same_tid : Tid → Tid → Bool
same_tid (call a) (call b) = a == b
same_tid (call a) (loop b) = false
same_tid (loop a) (call b) = false
same_tid (loop a) (loop b) = a == b

-- The writer of an RWMutex: none, one that waits for the readers to leave, during which no reader
-- is let in, or one that holds the lock.
pub data Writer : Type 0 where
  free : Writer
  announced held : Tid → Writer

pub record RwMutex : Type 0 where
  pub readers : List Tid
  pub writer : Writer

abbrev pub unlocked : RwMutex
unlocked = record { readers = []; writer = free }

-- The outMsg and the Mutex of a client, and the channels of a room, go by its number.
pub record Client : Type 0 where
  pub token : Text
  pub name : Text
  pub c_room : Option ℕ

pub record CRoom : Type 0 where
  pub c_name : Text
  pub cur_clients : List ℕ
  pub msgs : List Text
  pub expire : ℕ

-- What the goroutines share: the clients and the rooms, the two registries, and the clock.
pub record Memory : Type 0 where
  pub clients : ℕ → Client
  pub rooms : ℕ → CRoom
  pub next_client : ℕ
  pub next_room : ℕ
  pub cur_clients : Registry
  pub c_rooms : Registry
  pub now : ℕ

unfoldable pub new_client : Text → Client
new_client tok = record { token = tok; name = cname; c_room = none }

unfoldable pub new_room : ℕ → Text → CRoom
new_room now c_name = record { c_name = c_name; cur_clients = []; msgs = []; expire = now + extime }

abbrev pub set_client : ℕ → Client → Memory → Memory
set_client c client m = record m { clients = update m.clients c client }

abbrev pub set_room : ℕ → CRoom → Memory → Memory
set_room r room m = record m { rooms = update m.rooms r room }
