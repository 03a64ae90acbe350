-- ===== src/RoomServer/Reach.antt =====
-- Every history of the server keeps its books in order.
use cmpt436chat_client.Prelude.{
  ℕ, ◌+◌, ◌<◌, false, List, [], ◌∷◌, ◌==◌, leb, if◌then◌else◌, length, ◌≡◌, refl, arith, Bool-cases,
  inl, inr, count, count-append, count-remove_first, count-single,
}
use cmpt436chat_client.Text.{Text}
use cmpt436chat_client.Table.{lookup}
use cmpt436chat_client.Goroutine.{done}
use cmpt436chat_client.Goroutine.Laws.{
  IfDone, IfDone-bind, IfDone-eq, Leads, Leads-if, close_conn_state,
}
use cmpt436chat_client.RoomServer.Types.{
  State, Server, client_construct, new_msg, new_lobby, clientmax,
}
use cmpt436chat_client.RoomServer.Rooms.{at_state}
use cmpt436chat_client.RoomServer.Lobby.{welcome_to, relay}
use cmpt436chat_client.RoomServer.Events.{
  Event, accept, line, eof, wake, fail, tick, construct, end_relay, wake_sleeper, step, run, start,
  chomp,
}
use cmpt436chat_client.RoomServer.Effects.{
  parsed, parse_msg-Leads, leave_c_room-Leads, join_room-Leads, left_current,
}
use cmpt436chat_client.RoomServer.Invariant.{Inv, parsed-Inv, left_current-facts}
use cmpt436chat_client.RoomServer.Expiry.{IsWatched, parsed-IsWatched, left_current-IsWatched}
use cmpt436chat_client.RoomServer.Deletion.{wake_sleeper-keeps}

-- The books of the server: who is in which room, and which rooms are waited for.
abbrev pub Books : State → Type 0
Books s = Inv s × IsWatched s

-- The state after an event that gets through.
unfoldable pub stepped : Event → Server → State
unfolding construct parsed end_relay left_current wake_sleeper new_msg welcome_to relay
stepped accept w =
    let s = (construct w).state in
    if leb clientmax (length s.lobby.cur_clients)
    then s
    else relay w.state.next_client (welcome_to w.state.next_client s)
stepped (line c t txt) w =
    if count c w.state.relayed == 0 then w.state else parsed (new_msg t c (chomp txt)) w.state
stepped (eof c) w =
    if count c w.state.relayed == 0 then w.state else left_current c (end_relay c w.state)
stepped (wake i) w = wake_sleeper i w.state
stepped (fail c) w = w.state
stepped (tick d) w = record (w.state) { now = w.state.now + d }

pub step-Leads :
    (order : List Text → List Text) (e : Event) (w : Server) → Leads (step order e w) (stepped e w)
unfolding step stepped
step-Leads order accept w = join_room-Leads w.state.next_client (construct w)
step-Leads order (line c t txt) w =
    Leads-if (count c w.state.relayed == 0) _ _ _ _ refl
      (parse_msg-Leads order (new_msg t c (chomp txt)) w)
step-Leads order (eof c) w =
    Leads-if (count c w.state.relayed == 0) _ _ _ _ refl
      (leave_c_room-Leads c (at_state (end_relay c) w))
step-Leads order (wake i) w = refl
step-Leads order (fail c) w = close_conn_state c w
step-Leads order (tick d) w = refl

construct-Books : (w : Server) → Books w.state → Books (construct w).state
unfolding construct client_construct
construct-Books w (v, k) = (
  record {
    titled = v.titled;
    allocated = v.allocated;
    located = λ c r h. ground (arith, v.located c r);
    placed = λ c r h. ground (arith, v.placed c r, v.unborn c);
    unborn = λ c h. ground (arith, v.unborn c);
    known = λ c h. v.known c (omega arith);
  },
  k,
)

welcomed-Books :
    (s : State) (c : ℕ) → c < s.next_client → Books s → Books (relay c (welcome_to c s))
unfolding relay welcome_to
welcomed-Books s c born (v, k) = (
  record {
    titled = v.titled;
    allocated = v.allocated;
    located = v.located;
    placed = v.placed;
    unborn = v.unborn;
    known = λ d h. ground (arith, v.known d, count-append d s.relayed (c ∷ []), count-single d c);
  },
  k,
)

end_relay-Books : (s : State) (c : ℕ) → Books s → Books (end_relay c s)
unfolding end_relay
end_relay-Books s c (v, k) = (
  record {
    titled = v.titled;
    allocated = v.allocated;
    located = v.located;
    placed = v.placed;
    unborn = v.unborn;
    known = λ d h. ground (arith, v.known d, count-remove_first d c s.relayed);
  },
  k,
)

tick-Books : (s : State) (d : ℕ) → Books s → Books (record s { now = s.now + d })
tick-Books s d (v, k) = (
  record {
    titled = v.titled;
    allocated = v.allocated;
    located = v.located;
    placed = v.placed;
    unborn = v.unborn;
    known = v.known;
  },
  k,
)

-- A client whose lines are relayed has been constructed.
relayed_born : (s : State) (c : ℕ) → Inv s → (count c s.relayed == 0) ≡ false → c < s.next_client
relayed_born s c v h = ground (arith, v.known c)

stepped-Books : (e : Event) (w : Server) → Books w.state → Books (stepped e w)
unfolding stepped
stepped-Books accept w b =
    elim (Bool-cases (leb clientmax (length (construct w).state.lobby.cur_clients))) [
      | inl full ↦ rw full (construct-Books w b)
      | inr room ↦ rw room (
          welcomed-Books (construct w).state w.state.next_client (unfold construct in omega arith)
            (construct-Books w b))
    ]
stepped-Books (line c t txt) w b = elim (Bool-cases (count c w.state.relayed == 0)) [
  | inl off ↦ rw off b
  | inr on ↦ rw on (
    parsed-Inv (new_msg t c (chomp txt)) w.state (unfold new_msg in relayed_born w.state c b.0 on)
        b.0,
    parsed-IsWatched (new_msg t c (chomp txt)) w.state b.0 b.1,
  )
]
stepped-Books (eof c) w b = elim (Bool-cases (count c w.state.relayed == 0)) [
  | inl off ↦ rw off b
  | inr on ↦
      let (v, k) = end_relay-Books w.state c b in
      rw on (
        (left_current-facts c (end_relay c w.state) v).0,
        left_current-IsWatched c (end_relay c w.state) k,
      )
]
stepped-Books (wake i) w b = wake_sleeper-keeps i w.state b.0 b.1
stepped-Books (fail c) w b = b
stepped-Books (tick d) w b = tick-Books w.state d b

run-Books :
    (order : List Text → List Text) (es : List Event) (w : Server)
    → Books w.state
    → IfDone (run order es w) (λ v. Books v.state)
unfolding run
run-Books order [] w b = b
run-Books order (e ∷ es) w b =
    IfDone-bind (step order e w) (run order es) (λ v. v.state ≡ stepped e w) (λ v. Books v.state)
      (step-Leads order e w) λ v h. run-Books order es v (rw h (stepped-Books e w b))

start-Books : (now : ℕ) → Books (start now).state
unfolding start client_construct new_lobby lookup count
start-Books now = (
  record {
    titled = λ name r h. cc;
    allocated = λ name r h. cc;
    located = λ c r h. cc;
    placed = λ c r h. cc;
    unborn = λ c h. refl;
    known = λ c h. refl;
  },
  λ r. refl,
)

-- After any history from the start, whatever the clients typed and in whatever order things
-- happened: a room is in the lobby's map under its own name; a client's room is in the map; a room
-- in the map lists exactly the clients whose room it is, each once; and exactly the rooms in the
-- map have a goroutine that sleeps until they may have expired, one each.
pub run-start-Books :
    (order : List Text → List Text) (now : ℕ) (es : List Event) (w : Server)
    → run order es (start now) ≡ done w
    → Books w.state
run-start-Books order now es w h =
    IfDone-eq (λ v. Books v.state) (run order es (start now))
      (run-Books order es (start now) (start-Books now)) h
