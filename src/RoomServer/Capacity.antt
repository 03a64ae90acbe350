-- ===== src/RoomServer/Capacity.antt =====
-- The number of clients that the lobby counts.
use cmpt436chat_client.Prelude.{
  ℕ, suc, ◌+◌, ap, ◌≤◌, false, List, [], ◌∷◌, ◌++◌, Option, none, some, leb, length, length-append,
  ◌≡◌, refl, arith, ◌⊎◌, Bool-cases, Option-cases, inl, inr,
}
use cmpt436chat_client.Sleepers.{without_at, sleeper-cases}
use cmpt436chat_client.Text.{Text}
use cmpt436chat_client.Goroutine.{done}
use cmpt436chat_client.Goroutine.Laws.{IfDone, IfDone-bind, IfDone-eq}
use cmpt436chat_client.RoomServer.Types.{State, Server, Msg, clientmax, new_msg, new_lobby}
use cmpt436chat_client.RoomServer.Rooms.{
  logged, drop_member, point_at_lobby, add_member, point_at, delete,
}
use cmpt436chat_client.RoomServer.Lobby.{
  find_room, welcome_to, relay, register_room, sleep_until, rename, unregister, delete_c_room,
}
use cmpt436chat_client.RoomServer.Effects.{
  left, joined, left_current, moved_to, entered, created, said, renamed, parsed,
}
use cmpt436chat_client.RoomServer.Reach.{Books, run-start-Books}
use cmpt436chat_client.RoomServer.Events.{
  Event, accept, line, eof, wake, fail, tick, construct, end_relay, wake_sleeper, step, run, start,
  chomp,
}
use cmpt436chat_client.RoomServer.Invariant.{parsed_cases}
use cmpt436chat_client.RoomServer.Deletion.{clear_rooms_lem}
use cmpt436chat_client.RoomServer.Reach.{stepped, step-Leads}

abbrev pub roster : State → List ℕ
roster s = s.lobby.cur_clients

left_current-roster : (c : ℕ) (s : State) → roster (left_current c s) ≡ roster s
unfolding left_current left logged drop_member point_at_lobby
left_current-roster c s = ground arith

moved_to-roster : (o : Option ℕ) (c : ℕ) (s : State) → roster (moved_to o c s) ≡ roster s
unfolding moved_to joined logged add_member point_at
moved_to-roster none c s = refl
moved_to-roster (some r) c s = refl

entered-roster : (c : ℕ) (name : Text) (s : State) → roster (entered c name s) ≡ roster s
unfolding entered
entered-roster c name s = ground (
  arith,
  left_current-roster c s,
  moved_to-roster (find_room name (left_current c s)) c (left_current c s),
)

created-roster : (c : ℕ) (name : Text) (s : State) → roster (created c name s) ≡ roster s
unfolding created sleep_until register_room
created-roster c name s = elim (Option-cases (find_room name s)) [
  | inl e ↦ rw e (entered-roster c name _)
  | inr (r, e) ↦ rw e
]

-- No line of a client changes the lobby's list of clients.
parsed-roster : (msg : Msg) (s : State) → roster (parsed msg s) ≡ roster s
parsed-roster msg s =
    parsed_cases (λ t. roster t ≡ roster s) msg s (λ name. created-roster msg.client name s)
      (λ name. entered-roster msg.client name s) (left_current-roster msg.client s)
      (λ username. unfold renamed rename logged in ground arith)
      (unfold said logged in ground arith) refl

wake_sleeper-roster : (i : ℕ) (s : State) → roster (wake_sleeper i s) ≡ roster s
unfolding wake_sleeper delete_c_room sleep_until delete unregister
wake_sleeper-roster i s = elim (sleeper-cases i s.sleepers) [
  | inl e ↦ rw (e, wake_sleeper)
  | inr (t, r, e) ↦
      let (new, cleared, same) =
        clear_rooms_lem (s.rooms r).cur_clients (record s { sleepers = without_at i s.sleepers }) in
      rw (e, wake_sleeper) (ground (arith, same))
]

abbrev pub accepts : List Event → ℕ
accepts [] = 0
accepts (accept ∷ es) = suc (accepts es)
accepts (line c t txt ∷ es) = accepts es
accepts (eof c ∷ es) = accepts es
accepts (wake i ∷ es) = accepts es
accepts (fail c ∷ es) = accepts es
accepts (tick d ∷ es) = accepts es

stepped-roster_same :
    (e : Event) (w : Server) → accepts (e ∷ []) ≡ 0 → roster (stepped e w) ≡ roster w.state
unfolding stepped
stepped-roster_same accept w h = ground (arith, h)
stepped-roster_same (line c t txt) w h =
    ground (arith, parsed-roster (new_msg t c (chomp txt)) w.state)
stepped-roster_same (eof c) w h =
    unfold end_relay in ground (arith, left_current-roster c (end_relay c w.state))
stepped-roster_same (wake i) w h = wake_sleeper-roster i w.state
stepped-roster_same (fail c) w h = refl
stepped-roster_same (tick d) w h = refl

-- Only a new connection changes the list, and only while it is short of the limit.
abbrev IsAdmission : Server → State → Type 0
IsAdmission w s =
    (roster s ≡ roster w.state)
    ⊎ ((leb clientmax (length (roster w.state)) ≡ false)
        × (roster s ≡ roster w.state ++ w.state.next_client ∷ []))

stepped-roster : (e : Event) (w : Server) → IsAdmission w (stepped e w)
unfolding stepped
stepped-roster accept w =
    unfold construct relay welcome_to in
    elim (Bool-cases (leb clientmax (length (roster w.state)))) [
      | inl full ↦ inl (rw full)
      | inr room ↦ inr (room, rw room)
    ]
stepped-roster (line c t txt) w = inl (stepped-roster_same (line c t txt) w refl)
stepped-roster (eof c) w = inl (stepped-roster_same (eof c) w refl)
stepped-roster (wake i) w = inl (stepped-roster_same (wake i) w refl)
stepped-roster (fail c) w = inl (stepped-roster_same (fail c) w refl)
stepped-roster (tick d) w = inl (stepped-roster_same (tick d) w refl)

-- A connection takes one place at most, and nothing else takes any.
pub stepped-length :
    (e : Event) (es : List Event) (w : Server)
    → length (roster (stepped e w)) + accepts es ≤ length (roster w.state) + accepts (e ∷ es)
stepped-length accept es w = elim (stepped-roster accept w) [
  | inl same ↦ ground (arith, ap (length {A = ℕ}) same)
  | inr p ↦
      ground
        (arith, ap (length {A = ℕ}) p.1, length-append (roster w.state) (w.state.next_client ∷ []))
]
stepped-length (line c t txt) es w = ground (arith, stepped-roster_same (line c t txt) w refl)
stepped-length (eof c) es w = ground (arith, stepped-roster_same (eof c) w refl)
stepped-length (wake i) es w = ground (arith, stepped-roster_same (wake i) w refl)
stepped-length (fail c) es w = ground (arith, stepped-roster_same (fail c) w refl)
stepped-length (tick d) es w = ground (arith, stepped-roster_same (tick d) w refl)

run-fits :
    (order : List Text → List Text) (es : List Event) (w : Server)
    → length (roster w.state) ≤ clientmax
    → IfDone (run order es w) (λ v. length (roster v.state) ≤ clientmax)
unfolding run
run-fits order [] w h = h
run-fits order (e ∷ es) w h =
    IfDone-bind (step order e w) (run order es) (λ v. v.state ≡ stepped e w)
      (λ v. length (roster v.state) ≤ clientmax) (step-Leads order e w)
      λ v g. run-fits order es v (fits v g (stepped-roster e w))
  where
    fits :
        (v : Server)
        → v.state ≡ stepped e w
        → IsAdmission w (stepped e w)
        → length (roster v.state) ≤ clientmax
    fits v g (inl same) = rw (g, same) h
    fits v g (inr (room, more)) =
        rw (g, more)
          (ground (arith, room, length-append (roster w.state) (w.state.next_client ∷ [])))

-- After any history from the start the lobby counts at most CLIENTMAX clients.
pub run-start-fits :
    (order : List Text → List Text) (now : ℕ) (es : List Event) (w : Server)
    → run order es (start now) ≡ done w
    → length w.state.lobby.cur_clients ≤ clientmax
run-start-fits order now es w h =
    IfDone-eq (λ v. length (roster v.state) ≤ clientmax) (run order es (start now))
      (run-fits order es (start now) (unfold start new_lobby in omega arith)) h

-- After any history from the start, whatever the clients typed and in whatever order things
-- happened: a room is in the lobby's map under its own name; a client's room is in the map; a room
-- in the map lists exactly the clients whose room it is, each once; exactly the rooms in the map
-- have a goroutine that sleeps until they may have expired, one each; and the lobby counts at most
-- CLIENTMAX clients.
pub run-start_in_order :
    (order : List Text → List Text) (now : ℕ) (es : List Event) (w : Server)
    → run order es (start now) ≡ done w
    → Books w.state × (length w.state.lobby.cur_clients ≤ clientmax)
run-start_in_order order now es w h =
    (run-start-Books order now es w h, run-start-fits order now es w h)

run-full :
    (order : List Text → List Text) (es : List Event) (w : Server) (cs : List ℕ)
    → roster w.state ≡ cs
    → clientmax ≤ length cs
    → IfDone (run order es w) (λ v. roster v.state ≡ cs)
unfolding run
run-full order [] w cs e h = e
run-full order (x ∷ es) w cs e h =
    IfDone-bind (step order x w) (run order es) (λ v. v.state ≡ stepped x w)
      (λ v. roster v.state ≡ cs) (step-Leads order x w)
      λ v g. run-full order es v cs (kept v g (stepped-roster x w)) h
  where
    kept : (v : Server) → v.state ≡ stepped x w → IsAdmission w (stepped x w) → roster v.state ≡ cs
    kept v g (inl same) = rw (g, same) e
    kept v g (inr (room, more)) = absurd (ground (arith, room, e))

-- Once the lobby counts CLIENTMAX clients it counts those same clients for ever: a client that
-- quits or is cut off keeps its place, and no later connection is let in.
pub run-full_stays :
    (order : List Text → List Text) (es : List Event) (w v : Server)
    → clientmax ≤ length w.state.lobby.cur_clients
    → run order es w ≡ done v
    → v.state.lobby.cur_clients ≡ w.state.lobby.cur_clients
run-full_stays order es w v full h =
    IfDone-eq (λ u. roster u.state ≡ roster w.state) (run order es w)
      (run-full order es w (roster w.state) refl full) h
