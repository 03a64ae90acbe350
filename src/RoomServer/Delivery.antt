-- ===== src/RoomServer/Delivery.antt =====
-- What the members of a room are sent.
use cmpt436chat_client.Prelude.{
  ℕ, ◌+◌, ◌<◌, List, [], ◌∷◌, ◌++◌, append_assoc, append-nil, none, some, ◌==◌, if◌then◌else◌, ◌≡◌,
  refl, ◌∙◌, arith, count, same_pointer, replicate, update, ap, count-append, count-single,
}
use cmpt436chat_client.Text.{Text, sprintf}
use cmpt436chat_client.Goroutine.{done}
use cmpt436chat_client.Goroutine.Laws.{
  IsLive, receive, handed, send_live, send_each_live, send_all_live, same_world, handed-handed,
  bind-done,
}
use cmpt436chat_client.RoomServer.Types.{State, Server, Msg, extime, to_string, note_room_enter}
use cmpt436chat_client.RoomServer.Rooms.{
  logged, broadcast, show_log, join, at_state, point_at, add_member, begin_log, end_log,
}
use cmpt436chat_client.RoomServer.Lobby.{room_of, name_of, find_room, send_msg}
use cmpt436chat_client.RoomServer.Invariant.{Inv, members, title}
use cmpt436chat_client.RoomServer.Effects.{joined}

-- The clients of a room can be reached: their connections work, and their writers run.
abbrev pub CanReach : ℕ → Server → Type 0
CanReach r w = (c : ℕ) → room_of c w.state ≡ some r → IsLive (w.wires c)

member_room :
    (r c : ℕ) (s : State)
    → Inv s
    → find_room (title r s) s ≡ some r
    → 0 < count c (members r s)
    → room_of c s ≡ some r
member_room r c s v there h = ground (arith, v.placed c r there)

-- A message in a room of the map whose clients can be reached gets through. Each client whose room
-- it is gets it exactly once, and nobody else gets anything; the room remembers it behind the
-- earlier messages and will expire EXTIME from now; nothing else of the room changes.
pub send_msg_reaches :
    (r : ℕ) (msg : Msg) (w : Server)
    → Inv w.state
    → room_of msg.client w.state ≡ some r
    → CanReach r w
    → send_msg msg w
      ≡ done (record {
        state = record (w.state) {
          rooms = update w.state.rooms r (record (w.state.rooms r) {
            expire = w.state.now + extime;
            msgs = (w.state.rooms r).msgs ++ to_string w.state msg ∷ [];
          });
        };
        wires = λ c.
            if same_pointer (room_of c w.state) (some r)
            then receive (w.wires c) (to_string w.state msg ∷ [])
            else w.wires c;
      })
unfolding send_msg broadcast logged
send_msg_reaches r msg w v at reach =
    let text = to_string w.state msg in
    let there = v.located msg.client r at in
    rw (at, send_msg)
      (send_all_live (members r w.state) text (at_state (logged r text) w)
          (λ c h. reach c (member_room r c w.state v there h))
        ∙ same_world (at_state (logged r text) w)
            λ c. ground (arith, v.placed c r there, append-nil (w.wires c).written))

-- What a client is shown of a room's history as it joins.
abbrev pub log_of : List Text → List Text
log_of [] = []
log_of (msg ∷ msgs) = begin_log ∷ (msg ∷ msgs) ++ end_log ∷ []

show_log_live :
    (r c : ℕ) (msgs : List Text) (w : Server)
    → (w.state.rooms r).msgs ≡ msgs
    → IsLive (w.wires c)
    → show_log r c w ≡ done (record w { wires = handed c (log_of msgs) w.wires })
unfolding show_log
show_log_live r c [] w e h =
    rw (e, e)
      (rw (send_each_live c [] w h)
        (rw e (same_world w λ q. ground (arith, append-nil (w.wires q).written))))
show_log_live r c (msg ∷ msgs) w e h =
    let w2 = record w { wires = handed c (begin_log ∷ []) w.wires } in
    let w3 = record w { wires = handed c (msg ∷ msgs) w2.wires } in
    rw (e, send_live c begin_log w h)
      (rw (e, send_each_live c (msg ∷ msgs) w2 (ground arith))
        (rw (e, send_live c end_log w3 (ground arith))
          (same_world w λ q.
            handed-handed c (msg ∷ msgs) (end_log ∷ []) w2.wires q
            ∙ handed-handed c (begin_log ∷ []) ((msg ∷ msgs) ++ end_log ∷ []) w.wires q)))

greeting_live :
    (r : ℕ) (note : Text) (w : Server)
    → ((d : ℕ) → 0 < count d (members r w.state) → IsLive (w.wires d))
    → broadcast r note w
      ≡ done (record {
        state = logged r note w.state;
        wires = λ q. receive (w.wires q) (replicate (count q (members r w.state)) note);
      })
unfolding broadcast
greeting_live r note w h = send_all_live (members r w.state) note (at_state (logged r note) w) h

-- The room with the new member, and who is in it.
abbrev seated : ℕ → ℕ → State → State
seated c r s = add_member c r (point_at c r s)

count-seated :
    (c r d : ℕ) (s : State)
    → count d (members r (seated c r s)) ≡ count d (members r s) + (if d == c then 1 else 0)
unfolding add_member point_at
count-seated c r d s = ground (arith, count-append d (members r s) (c ∷ []), count-single d c)

seated_name : (c r : ℕ) (s : State) → name_of c (seated c r s) ≡ name_of c s
unfolding add_member point_at
seated_name c r s = ground arith

module _ (r c : ℕ) (w : Server) (v : Inv w.state)
    (there : find_room (title r w.state) w.state ≡ some r) (out : room_of c w.state ≡ none) where
  -- How often a client is listed after the join, in terms of whose room it was before.
  seated_once :
      (d : ℕ)
      → count d (members r (seated c r w.state))
        ≡ (if d == c then 1 else if same_pointer (room_of d w.state) (some r) then 1 else 0)
  seated_once d = ground (arith, count-seated c r d w.state, v.placed d r there)

  seated_reach :
      CanReach r w
      → IsLive (w.wires c)
      → (log : List Text) (d : ℕ) → 0 < count d (members r (seated c r w.state))
      → IsLive (handed c log w.wires d)
  seated_reach reach live log d p = ground (arith, seated_once d, reach d)

  got :
      (log : List Text) (note : Text) (q : ℕ)
      → receive (handed c log w.wires q) (replicate (count q (members r (seated c r w.state))) note)
        ≡ (if q == c
            then receive (w.wires q) (log ++ note ∷ [])
            else if same_pointer (room_of q w.state) (some r)
            then receive (w.wires q) (note ∷ [])
            else w.wires q)
  got log note q = ground (
    arith,
    seated_once q,
    append_assoc (w.wires q).written log (note ∷ []),
    append-nil (w.wires q).written,
  )

-- A client in the lobby that joins a room of the map gets the room's whole history in order,
-- between its two marks if there is any, and then, as all members before it, the note that it has
-- joined. Nobody else gets anything.
pub join_shows_log :
    (r c : ℕ) (w : Server)
    → Inv w.state
    → room_of c w.state ≡ none
    → find_room (title r w.state) w.state ≡ some r
    → CanReach r w
    → IsLive (w.wires c)
    → join r c w
      ≡ done (record {
        state = joined c r w.state;
        wires = λ q.
            if q == c
            then receive (w.wires q) (
                log_of (w.state.rooms r).msgs
                ++ sprintf note_room_enter (name_of c w.state ∷ []) ∷ [])
            else if same_pointer (room_of q w.state) (some r)
            then receive (w.wires q) (sprintf note_room_enter (name_of c w.state ∷ []) ∷ [])
            else w.wires q;
      })
unfolding join joined
join_shows_log r c w v out there reach live =
    let w1 = at_state (point_at c r) w in
    let log = log_of (w.state.rooms r).msgs in
    let note = λ (name : Text). sprintf note_room_enter (name ∷ []) in
    let s2 = seated c r w.state in
    let w2 = record w1 { state = s2; wires = handed c log w.wires } in
    bind-done (show_log r c w1) _ (show_log_live r c (w.state.rooms r).msgs w1 refl live)
    ∙ greeting_live r (note (name_of c s2)) w2 (seated_reach r c w v there out reach live log)
    ∙ same_world (record w2 { state = logged r (note (name_of c s2)) s2 })
        λ q.
          ap
            (λ (name : Text).
              receive (handed c log w.wires q) (replicate (count q (members r s2)) (note name)))
            (seated_name c r w.state)
          ∙ got r c w v there out log (note (name_of c w.state)) q
