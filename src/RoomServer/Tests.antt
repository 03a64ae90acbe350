-- ===== src/RoomServer/Tests.antt =====
-- newServer.go run on small histories, and its theorems at concrete inputs.
use cmpt436chat_client.Prelude.{
  ℕ, ◌+◌, ◌≤◌, List, [], ◌∷◌, ◌++◌, none, some, ◌≡◌, refl, arith, ◌≢◌, length, count, update,
  same_pointer, if◌then◌else◌, ◌==◌, ltb, ◌*◌,
}
use cmpt436chat_client.Text.{Text, codes, has_prefix, sprintf, text_eq}
use cmpt436chat_client.Text.Clock.{hour, kitchen}
use cmpt436chat_client.Table.{lookup, insert}
use cmpt436chat_client.Goroutine.{
  Outcome, done, blocked, panicked, send, send_each, send_all, close_conn,
}
use cmpt436chat_client.RoomServer.Types.{
  note_room_enter, comm_createroom, comm_enterroom, comm_changename, Server, Msg, new_msg, new_wire,
  to_string, extime,
}
use cmpt436chat_client.RoomServer.Rooms.{join}
use cmpt436chat_client.RoomServer.Lobby.{
  room_of, name_of, find_room, parse_msg, argument, create_c_room, enter_c_room, leave_c_room,
  list_c_rooms, help, change_username, send_msg, delete_c_room,
}
use cmpt436chat_client.RoomServer.Events.{chomp, Event, accept, line, eof, fail, step, run, start}
use cmpt436chat_client.RoomServer.Reach.{Books, run-start-Books}
use cmpt436chat_client.RoomServer.Calm.{IsOpen}
use cmpt436chat_client.RoomServer.Panics.{run-start-ne-panicked}
use cmpt436chat_client.RoomServer.Lasting.{AllGentle, run-start_goes_on}
use cmpt436chat_client.Goroutine.Safety.{reliable, good}
use cmpt436chat_client.RoomServer.Capacity.{run-start_in_order, run-full_stays}
use cmpt436chat_client.RoomServer.Delivery.{send_msg_reaches, join_shows_log, log_of}
use cmpt436chat_client.RoomServer.Stall.{cut_member_stalls}
use cmpt436chat_client.RoomServer.Commands.{typed, line_taken}
use cmpt436chat_client.RoomServer.Outcomes.{entered_outcome, created_outcome, delete_outcome}
use cmpt436chat_client.RoomServer.Invariant.{Inv, members, title}
use cmpt436chat_client.RoomServer.Effects.{joined}
use cmpt436chat_client.Goroutine.Laws.{receive}

abbrev same_order : List Text → List Text
same_order names = names

abbrev says : ℕ → Text → Event
says c txt = line c 0 (txt ++ codes "\n")

-- Two clients; the first creates a room, the second enters it and talks.
abbrev history : List Event
history =
    accept
    ∷ accept
    ∷ says 0 (codes "!create go")
    ∷ says 1 (codes "!name bo")
    ∷ says 1 (codes "!enter go")
    ∷ says 1 (codes "hi")
    ∷ []

abbrev result : Outcome Server → Server
result (done w) = w
result (blocked w) = w
result (panicked w) = w

talk : Server
unfolding run start step parse_msg argument create_c_room enter_c_room leave_c_room list_c_rooms
    help change_username send_msg text_eq lookup insert send_each send_all send close_conn count
    kitchen
talk = result (run same_order history (start 0))

talk_runs : run same_order history (start 0) ≡ done talk
unfolding talk
talk_runs = refl

heard :
    (talk.wires 0).written
    ≡ codes
        "Welcome to the GO Chat server! To get started, type \"!help\" to retrieve a list of commands.\n"
      ∷ codes "Note: Created the room {go}.\n"
      ∷ codes "Note: [Anon] has joined the room.\n"
      ∷ codes "Note: [bo] has joined the room.\n"
      ∷ codes "12:00AM-[bo]  hi\n"
      ∷ []
unfolding talk
heard = refl

talk-Books : Books talk.state
talk-Books = run-start-Books same_order 0 history talk talk_runs

run-start-ne-panicked_example : run same_order history (start 0) ≢ panicked talk
run-start-ne-panicked_example = run-start-ne-panicked same_order 0 history talk

history-AllGentle : AllGentle history
unfolding chomp has_prefix
history-AllGentle = (tt, (tt, (refl, (refl, (refl, (refl, tt))))))

run-start_goes_on_example :
    (w : Server) × (run same_order history (start 0) ≡ done w)
    × Books w.state
    × IsOpen reliable w.wires
run-start_goes_on_example = run-start_goes_on same_order 0 history history-AllGentle (omega arith)

run-start_in_order_example : Books talk.state × (length talk.state.lobby.cur_clients ≤ 12)
run-start_in_order_example = run-start_in_order same_order 0 history talk talk_runs

-- Twelve clients, the first of which then quits, before one more connects.
abbrev twelve : List Event
twelve =
    accept ∷ accept ∷ accept ∷ accept ∷ accept ∷ accept ∷ accept ∷ accept ∷ accept ∷ accept ∷ accept
    ∷ accept ∷ []

full : Server
unfolding talk
full = result (run same_order twelve (start 0))

turnover : List Event
turnover = says 0 (codes "!quit") ∷ eof 0 ∷ accept ∷ []

later : Server
unfolding talk full turnover
later = result (run same_order turnover full)

run-full_stays_example : later.state.lobby.cur_clients ≡ full.state.lobby.cur_clients
run-full_stays_example =
    run-full_stays same_order turnover full later (unfold full in omega arith)
      (unfold later in refl)

question : Msg
unfolding new_msg
question = new_msg (13 * hour) 0 (codes "who?")

-- The same room, with nothing written to anybody yet.
abbrev fresh_wires : Server → Server
fresh_wires w = record w { wires = λ c. new_wire }

abbrev quiet : Server
quiet = fresh_wires talk

send_msg_reaches_example :
    send_msg question quiet
    ≡ done (record {
      state = record (quiet.state) {
        rooms = update quiet.state.rooms 0 (record (quiet.state.rooms 0) {
          expire = quiet.state.now + extime;
          msgs = (quiet.state.rooms 0).msgs ++ to_string quiet.state question ∷ [];
        });
      };
      wires = λ c.
          if same_pointer (room_of c quiet.state) (some 0)
          then receive (quiet.wires c) (to_string quiet.state question ∷ [])
          else quiet.wires c;
    })
send_msg_reaches_example =
    send_msg_reaches 0 question quiet talk-Books.0 (unfold talk question in refl)
      (λ c h. (refl, refl, refl))

-- A third client in the lobby.
newcomer : Server
unfolding talk
newcomer = result (run same_order (accept ∷ []) talk)

newcomer_runs : run same_order (history ++ accept ∷ []) (start 0) ≡ done newcomer
unfolding newcomer
newcomer_runs = refl

abbrev guest : Server
guest = fresh_wires newcomer

join_shows_log_example :
    join 0 2 guest
    ≡ done (record {
      state = joined 2 0 guest.state;
      wires = λ q.
          if q == 2
          then receive (guest.wires q) (
              log_of (guest.state.rooms 0).msgs
              ++ sprintf note_room_enter (name_of 2 guest.state ∷ []) ∷ [])
          else if same_pointer (room_of q guest.state) (some 0)
          then receive (guest.wires q) (sprintf note_room_enter (name_of 2 guest.state ∷ []) ∷ [])
          else guest.wires q;
    })
join_shows_log_example =
    join_shows_log 0 2 guest
      (run-start-Books same_order 0 (history ++ accept ∷ []) newcomer newcomer_runs).0
      (unfold newcomer in refl) (unfold newcomer in refl) (λ c h. (refl, refl, refl))
      (refl, refl, refl)

-- The connection of client 1 breaks.
broken : Server
unfolding talk
broken = result (run same_order (fail 1 ∷ []) talk)

broken_next : Server
unfolding broken question
broken_next = result (send_msg question broken)

cut_member_stalls_example : send_msg question broken_next ≢ done talk
cut_member_stalls_example =
    cut_member_stalls 0 1 question question broken broken_next talk
      (run-start-Books same_order 0 (history ++ fail 1 ∷ []) broken (unfold broken in refl)).0
      (unfold broken in refl) (unfold broken in refl) (unfold broken question in refl)
      (unfold broken question in refl) (unfold broken_next in refl)

line_taken_example :
    (step same_order (line 0 0 (typed (comm_createroom ++ codes "x"))) talk
      ≡ create_c_room 0 (codes "!createx") talk)
    × (step same_order (line 0 0 (typed (comm_enterroom ++ codes "x"))) talk
        ≡ enter_c_room 0 (codes "!enterx") talk)
    × (step same_order (line 0 0 (typed (comm_changename ++ codes "x"))) talk
        ≡ change_username 0 (codes "!namex") talk)
line_taken_example =
    line_taken same_order 0 0 b'x' [] talk (unfold talk in omega arith) (unfold has_prefix in refl)

entered_outcome_example :
    (v : Server) × (enter_c_room 2 (codes "go") guest ≡ done v)
    × Inv v.state
    × ((d : ℕ) → room_of d v.state ≡ (if d == 2 then some 0 else room_of d guest.state))
    × (v.state.lobby ≡ guest.state.lobby)
entered_outcome_example =
    entered_outcome 2 0 (codes "go") guest
      (run-start-Books same_order 0 (history ++ accept ∷ []) newcomer newcomer_runs).0
      (λ c. unfold good in refl) (unfold newcomer in omega arith) (unfold newcomer in refl)

created_outcome_example :
    (v : Server) × (create_c_room 1 (codes "new") quiet ≡ done v)
    × Inv v.state
    × ((n : Text)
        → find_room n v.state ≡ (
            if text_eq (codes "new") n
            then some quiet.state.next_room
            else find_room n quiet.state))
    × ((d : ℕ)
        → room_of d v.state
          ≡ (if d == 1 then some quiet.state.next_room else room_of d quiet.state))
    × (members quiet.state.next_room v.state ≡ 1 ∷ [])
    × (title quiet.state.next_room v.state ≡ codes "new")
    × ((v.state.rooms quiet.state.next_room).expire ≡ quiet.state.now + extime)
created_outcome_example =
    created_outcome 1 (codes "new") quiet talk-Books.0 (λ c. unfold good in refl)
      (unfold talk in omega arith) (unfold talk in refl)

delete_outcome_example :
    let t = delete_c_room 0 talk.state in
    let lasts = ltb talk.state.now (talk.state.rooms 0).expire in
    ((n : Text)
      → find_room n t ≡ (
          if lasts
          then find_room n talk.state
          else if text_eq (title 0 talk.state) n
          then none
          else find_room n talk.state))
    × ((d : ℕ)
        → room_of d t ≡ (
            if lasts
            then room_of d talk.state
            else if same_pointer (room_of d talk.state) (some 0)
            then none
            else room_of d talk.state))
    × ((d : ℕ) → name_of d t ≡ name_of d talk.state)
    × (t.rooms ≡ talk.state.rooms)
    × (t.sleepers ≡ (
        if lasts
        then talk.state.sleepers ++ ((talk.state.rooms 0).expire, 0) ∷ []
        else talk.state.sleepers))
delete_outcome_example = delete_outcome 0 talk.state talk-Books.0 (unfold talk in refl)
