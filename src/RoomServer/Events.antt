-- ===== src/RoomServer/Events.antt =====
-- What drives the server: main's accept loop, the clients' readers and relays, the sleeping
-- goroutines and the clock (newServer.go, lines 79 to 145, 173 to 188, 203 to 209 and 487 to 508).
use cmpt436chat_client.Prelude.{
  ℕ, suc, ◌+◌, List, [], ◌∷◌, none, some, ◌==◌, leb, if◌then◌else◌, remove_first, update, count,
}
use cmpt436chat_client.Text.{Text, newline, trim_suffix}
use cmpt436chat_client.Sleepers.{sleeper_at, without_at}
use cmpt436chat_client.Goroutine.{Outcome, done, ◌>>=◌, close_conn}
use cmpt436chat_client.RoomServer.Types.{
  State, Server, client_construct, new_wire, new_lobby, new_msg,
}
use cmpt436chat_client.RoomServer.Rooms.{at_state}
use cmpt436chat_client.RoomServer.Lobby.{join_room, parse_msg, leave_c_room, delete_c_room}

-- accept: a connection comes in. line: the lobby takes a line of a client, which its reader stamped
-- at the given time. eof: the lobby hears that a client's reader has stopped. wake: a sleeping
-- goroutine is due. break: writes to a client's connection begin to fail. tick: time passes.
pub data Event : Type 0 where
  accept : Event
  line : ℕ → ℕ → Text → Event
  eof : ℕ → Event
  wake : ℕ → Event
  fail : ℕ → Event
  tick : ℕ → Event

-- ClientConstruct, at the next address.
unfoldable pub construct : Server → Server
unfolding client_construct
construct w =
    let s = w.state in
    record w {
      state = record s {
        clients = update s.clients s.next_client client_construct;
        next_client = suc s.next_client;
      };
      wires = update w.wires s.next_client new_wire;
    }

-- The relay goroutine of a client ends with its last message.
unfoldable pub end_relay : ℕ → State → State
unfolding remove_first
end_relay c s = record s { relayed = remove_first c s.relayed }

-- The sleeper leaves the list when its time has come, and the lobby handles its room.
unfoldable pub wake_sleeper : ℕ → State → State
unfolding sleeper_at without_at delete_c_room
wake_sleeper i s = elim (sleeper_at i s.sleepers) [
  | none ↦ s
  | some (t, r) ↦
      if leb t s.now then delete_c_room r (record s { sleepers = without_at i s.sleepers }) else s
]

-- What ReadMsg makes of a line that it has read.
unfoldable pub chomp : Text → Text
unfolding trim_suffix
chomp txt = trim_suffix txt (newline ∷ [])

-- An event that cannot happen in a state changes nothing.
unfoldable pub step : (List Text → List Text) → Event → Server → Outcome Server
unfolding construct join_room parse_msg end_relay leave_c_room wake_sleeper new_msg chomp
step order accept w = join_room w.state.next_client (construct w)
step order (line c t txt) w =
    if count c w.state.relayed == 0 then done w else parse_msg order (new_msg t c (chomp txt)) w
step order (eof c) w =
    if count c w.state.relayed == 0 then done w else leave_c_room c (at_state (end_relay c) w)
step order (wake i) w = done (at_state (wake_sleeper i) w)
step order (fail c) w = done (close_conn c w)
step order (tick d) w = done (at_state (λ s. record s { now = s.now + d }) w)

unfoldable pub run : (List Text → List Text) → List Event → Server → Outcome Server
run order [] w = done w
run order (e ∷ es) w = do w' ← step order e w; run order es w'

-- The server before the first connection.
unfoldable pub start : ℕ → Server
unfolding client_construct new_lobby
start now = record {
  state = record {
    clients = λ c. client_construct;
    rooms = λ r. record { c_name = []; cur_clients = []; msgs = []; expire = 0 };
    next_room = 0;
    next_client = 0;
    lobby = new_lobby;
    sleepers = [];
    relayed = [];
    now = now;
  };
  wires = λ c. new_wire;
}
