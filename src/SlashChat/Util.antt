-- ===== src/SlashChat/Util.antt =====
-- The registry of clients, the messages and the log of util.go (lines 21 to 174 and 199 to 284).
pub mod Laws
use cmpt436chat_client.Prelude.{
  ℕ, suc, ◌+◌, Bool, true, false, not, ◌&&◌, ◌||◌, List, [], ◌∷◌, ◌++◌, Option, none, some, ◌==◌,
  if◌then◌else◌, length, take, drop, is_empty, update,
}
use cmpt436chat_client.Text.{Text, codes, newline, text_eq, sprintf}
use cmpt436chat_client.SlashChat.Codec.{encode_csv}

pub record Properties : Type 0 where
  pub host : Text
  pub port : Text
  pub has_entered_room_msg : Text
  pub has_left_room_msg : Text
  pub has_entered_lobby_msg : Text
  pub has_left_lobby_msg : Text
  pub received_msg : Text
  pub log_file : Text

-- A connection is its state, the address of its other end, and what was written to it.
pub record Client : Type 0 where
  pub conn_open : Bool
  pub addr : Text
  pub written : List Text
  pub room : Text
  pub prop : Properties
  pub user : Text

pub record Action : Type 0 where
  pub comm : Text
  pub content : Text
  pub username : Text
  pub ip_addy : Text
  pub stamp : Text
  pub room : Text

-- The log file: whether it can be opened, whether it can be once it was created, whether a write to
-- it succeeds, and its lines.
pub record Disk : Type 0 where
  pub opens : Bool
  pub creates : Bool
  pub writes : Bool
  pub lines : List Text

-- The package's variables, server.go's list of rooms, the clients, and the disk; `stamp` is what
-- time.Now and Format give.
pub record State : Type 0 where
  pub actions : List Action
  pub cur_clients : List ℕ
  pub config : Properties
  pub rooms : List Text
  pub clients : ℕ → Client
  pub next_client : ℕ
  pub disk : Disk
  pub stamp : Text

-- CheckForError ends the program on an error.
pub data Run : Type 0 where
  running exited : State → Run

infixl 5 ◌>>=◌
abbrev pub ◌>>=◌ : Run → (State → Run) → Run
running s >>= f = f s
exited s >>= f = exited s

unfoldable pub check_for_error : Bool → State → Run
check_for_error ok s = if ok then running s else exited s

abbrev pub set_client : ℕ → Client → State → State
set_client c client s = record s { clients = update s.clients c client }

-- fmt.Fprintln on a connection, whose error the code drops.
unfoldable pub fprintln : ℕ → Text → State → State
fprintln c msg s =
    let client = s.clients c in
    if client.conn_open
    then set_client c (record client { written = client.written ++ (msg ++ newline ∷ []) ∷ [] }) s
    else s

unfoldable pub register : ℕ → State → State
register c s = record s { cur_clients = s.cur_clients ++ c ∷ [] }

abbrev pub suc_index : Option ℕ → Option ℕ
suc_index none = none
suc_index (some i) = some (suc i)

-- The loop of removeEntry: the index of the first occurrence.
unfoldable pub entry_index : ℕ → List ℕ → Option ℕ
entry_index c [] = none
entry_index c (x ∷ xs) = if x == c then some 0 else suc_index (entry_index c xs)

abbrev pub copied : List ℕ → Option ℕ → List ℕ
copied arr none = arr
copied arr (some i) = take i arr ++ drop (suc i) arr

unfoldable pub remove_entry : ℕ → List ℕ → List ℕ
unfolding entry_index
remove_entry c arr = copied arr (entry_index c arr)

-- The line of the log for an action.
unfoldable pub message_log : Action → Text
unfolding encode_csv sprintf
message_log a = sprintf (codes "\"%s\", \"%s\", \"%s\", \"%s\", \"%s\", \"%s\"\n") (
    encode_csv a.username
    ∷ encode_csv a.comm
    ∷ encode_csv a.content
    ∷ encode_csv a.room
    ∷ encode_csv a.stamp
    ∷ encode_csv a.ip_addy
    ∷ [])

-- Opening the file for appending, after creating it if need be.
unfoldable pub open_log : State → Run
unfolding check_for_error
open_log s =
    if s.disk.opens
    then running s
    else check_for_error s.disk.creates (record s { disk = record (s.disk) { opens = true } })

unfoldable pub write_log : Text → State → Run
unfolding check_for_error
write_log l s = do
  t ← open_log s
  if t.disk.writes
      then running (record t { disk = record (t.disk) { lines = t.disk.lines ++ l ∷ [] } })
      else exited t

-- LogAction: the list of actions, and the file for two kinds of them.
unfoldable pub log_action : Text → Text → ℕ → Properties → State → Run
unfolding write_log message_log text_eq
log_action act msg c property s =
    let client = s.clients c in
    let action : Action = record {
      comm = act;
      content = msg;
      username = client.user;
      ip_addy = client.addr;
      stamp = s.stamp;
      room = client.room;
    } in
    let logged : State = record s { actions = s.actions ++ action ∷ [] } in
    let shown : Action = record action { content = if is_empty msg then codes "N/A" else msg } in
    if not (is_empty property.log_file)
      && (text_eq act (codes "message") || text_eq act (codes "leave"))
    then write_log (message_log shown) logged
    else running logged

-- The body of SendClientMessage's loop, for the client `d` of the list.
unfoldable pub pass_on : Text → Text → ℕ → Bool → ℕ → State → State
unfolding fprintln text_eq
pass_on message_type p_load c only d s =
    let client = s.clients c in
    let other = s.clients d in
    if (only && text_eq other.user client.user) || (not only && not (is_empty other.user))
    then (if text_eq message_type (codes "message") && not (text_eq client.room other.room)
        then s
        else fprintln d p_load s)
    else s

unfoldable pub pass_on_all : Text → Text → ℕ → Bool → List ℕ → State → State
unfolding pass_on
pass_on_all message_type p_load c only [] s = s
pass_on_all message_type p_load c only (d ∷ ds) s =
    pass_on_all message_type p_load c only ds (pass_on message_type p_load c only d s)

-- What goes to the clients for an action.
unfoldable pub payload : Text → Text → Text → Text
unfolding sprintf
payload message_type user message =
    sprintf (codes "/%v [%v] %v") (message_type ∷ user ∷ message ∷ [])

-- The part of SendClientMessage for the other clients.
unfoldable pub tell : Text → Text → ℕ → Bool → Properties → State → Run
unfolding log_action pass_on_all payload
tell message_type message c only props s = do
  t ← log_action message_type message c props s
  let p_load = payload message_type (t.clients c).user message
  running (pass_on_all message_type p_load c only t.cur_clients t)

unfoldable pub send_client_message : Text → Text → ℕ → Bool → Properties → State → Run
unfolding fprintln tell sprintf
send_client_message message_type message c only props s =
    if only
    then running (fprintln c (sprintf (codes "/%v") (message_type ∷ [])) s)
    else if not (is_empty (s.clients c).user)
    then tell message_type message c only props s
    else running s

-- `client.UserConnection.Close()`, and dropping the client from the list.
unfoldable pub close_connection : ℕ → State → State
close_connection c s = set_client c (record (s.clients c) { conn_open = false }) s

unfoldable pub drop_entry : ℕ → State → State
unfolding remove_entry
drop_entry c s = record s { cur_clients = remove_entry c s.cur_clients }

unfoldable pub close : ℕ → Bool → State → Run
unfolding close_connection drop_entry
close c send_message s = do
  t ←
      if send_message
      then send_client_message (codes "disconnected") [] c false (s.clients c).prop s
      else running s
  running (drop_entry c (close_connection c t))

abbrev pub default_config : Properties
default_config = record {
  host = codes "localhost";
  port = codes "5555";
  has_entered_room_msg = codes "[%s] has entered the room \"%s\"";
  has_left_room_msg = codes "[%s] has left the room \"%s\"";
  has_entered_lobby_msg = codes "[%s] has entered the lobby";
  has_left_lobby_msg = codes "[%s] has left the lobby";
  received_msg = codes "{%s} says: %s";
  log_file = codes "./log.txt";
}

-- LoadConfig returns what the state's `config` then holds.
unfoldable pub load_config : State → State
load_config s = if is_empty s.config.port then record s { config = default_config } else s
