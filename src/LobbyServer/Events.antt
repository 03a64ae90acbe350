-- ===== src/LobbyServer/Events.antt =====
-- What drives the server of ken/server.go: main's accept loop, the clients' readers and relays, the
-- sleeping goroutines and the clock (lines 104 to 134, 340 to 400 and 418 to 438).
use cmpt436chat_client.Prelude.{
  ℕ, suc, ◌+◌, List, [], ◌∷◌, Option, none, some, ◌==◌, leb, if◌then◌else◌, remove_first, update,
  count,
}
use cmpt436chat_client.Text.{Text, newline, trim_suffix}
use cmpt436chat_client.Sleepers.{sleeper_at, without_at}
use cmpt436chat_client.Goroutine.{Outcome, done, ◌>>=◌, close_conn}
use cmpt436chat_client.LobbyServer.Types.{
  State, Server, new_client, client_listen, new_lobby, new_message,
}
use cmpt436chat_client.LobbyServer.ChatRooms.{at_state}
use cmpt436chat_client.LobbyServer.Lobby.{join, leave, parse, delete_chat_room}

-- accept: a connection comes in. line: the lobby takes a line of a client, which its reader stamped
-- at the given time. eof: the lobby hears that a client's reader has stopped. wake: a sleeping
-- goroutine is due. fail: writes to a client's connection begin to fail. tick: time passes.
pub data Event : Type 0 where
  accept : Event
  line : ℕ → ℕ → Text → Event
  eof : ℕ → Event
  wake : ℕ → Event
  fail : ℕ → Event
  tick : ℕ → Event

-- NewClient, at the next address.
unfoldable pub construct : Server → Server
unfolding new_client
construct w =
    let s = w.state in
    record w {
      state = record s {
        clients = update s.clients s.next_client new_client;
        next_client = suc s.next_client;
      };
      wires = update w.wires s.next_client client_listen;
    }

-- The relay goroutine of a client ends with its last message.
unfoldable pub end_relay : ℕ → State → State
unfolding remove_first
end_relay c s = record s { relayed = remove_first c s.relayed }

abbrev pub awake : Option (ℕ × ℕ) → ℕ → Server → Outcome Server
awake none i w = done w
awake (some (t, r)) i w =
    let w1 = at_state (λ s. record s { sleepers = without_at i s.sleepers }) w in
    if leb t w.state.now then delete_chat_room r w1 else done w

-- The sleeper leaves the list when its time has come, and the lobby handles its room.
unfoldable pub wake_sleeper : ℕ → Server → Outcome Server
unfolding sleeper_at without_at
wake_sleeper i w = awake (sleeper_at i w.state.sleepers) i w

-- What Read makes of a line that it has read.
unfoldable pub chomp : Text → Text
unfolding trim_suffix
chomp text = trim_suffix text (newline ∷ [])

-- An event that cannot happen in a state changes nothing.
unfoldable pub step : (List Text → List Text) → Event → Server → Outcome Server
unfolding construct end_relay wake_sleeper new_message chomp
step order accept w = join w.state.next_client (construct w)
step order (line c t text) w =
    if count c w.state.relayed == 0 then done w else parse order (new_message t c (chomp text)) w
step order (eof c) w =
    if count c w.state.relayed == 0 then done w else leave c (at_state (end_relay c) w)
step order (wake i) w = wake_sleeper i w
step order (fail c) w = done (close_conn c w)
step order (tick d) w = done (at_state (λ s. record s { now = s.now + d }) w)

unfoldable pub run : (List Text → List Text) → List Event → Server → Outcome Server
run order [] w = done w
run order (e ∷ es) w = do w' ← step order e w; run order es w'

-- The server before the first connection.
unfoldable pub start : ℕ → Server
unfolding new_client new_lobby
start now = record {
  state = record {
    clients = λ c. new_client;
    chat_rooms = λ r. record { name = []; clients = []; messages = []; expiry = 0 };
    next_room = 0;
    next_client = 0;
    lobby = new_lobby;
    sleepers = [];
    relayed = [];
    now = now;
  };
  wires = λ c. client_listen;
}
