-- ===== src/LobbyServer/Tests.antt =====
-- ken/server.go run on small histories, and its theorems at concrete inputs.
use cmpt436chat_client.Prelude.{
  ℕ, ◌+◌, ◌≤◌, ◌*◌, List, [], ◌∷◌, ◌++◌, none, ◌≡◌, ◌≢◌, refl, arith, length, count, update,
  replicate, if◌then◌else◌, ◌==◌,
}
use cmpt436chat_client.Text.{Text, codes, text_eq, has_prefix}
use cmpt436chat_client.Text.Clock.{hour, kitchen}
use cmpt436chat_client.Table.{lookup, insert}
use cmpt436chat_client.Goroutine.{
  Outcome, done, blocked, panicked, send, send_each, send_all, close_out, close_conn,
}
use cmpt436chat_client.Goroutine.Laws.{receive}
use cmpt436chat_client.LobbyServer.Types.{
  Server, Message, new_message, client_listen, expiry_time, string, notice_room_delete,
}
use cmpt436chat_client.LobbyServer.ChatRooms
use cmpt436chat_client.LobbyServer.ChatRooms.{broadcast}
use cmpt436chat_client.LobbyServer.Lobby.{
  room_of, find_room, parse, argument, create_chat_room, join_chat_room, leave_chat_room,
  list_chat_rooms, send_message, change_name, help, join, leave, delete_chat_room,
}
use cmpt436chat_client.LobbyServer.Events.{chomp, Event, accept, line, step, run, start}
use cmpt436chat_client.LobbyServer.Arrival.{Books}
use cmpt436chat_client.LobbyServer.History.{
  AllSpare, history_in_order, history_never_panics, history_goes_on,
}
use cmpt436chat_client.Goroutine.Safety.{unreliable, reliable}
use cmpt436chat_client.LobbyServer.Capacity.{listed}
use cmpt436chat_client.LobbyServer.Commands.{letter_unspaced}
use cmpt436chat_client.LobbyServer.Delivery.{
  send_message_reaches, delete_sends_home, members, title,
}

abbrev same_order : List Text → List Text
same_order names = names

abbrev says : ℕ → Text → Event
says c text = line c 0 (text ++ codes "\n")

-- Two clients; the first creates a room, both join it.
abbrev history : List Event
history =
    accept
    ∷ accept
    ∷ says 0 (codes "/c go")
    ∷ says 0 (codes "/j go")
    ∷ says 1 (codes "/n bo")
    ∷ says 1 (codes "/j go")
    ∷ []

abbrev result : Outcome Server → Server
result (done w) = w
result (blocked w) = w
result (panicked w) = w

talk : Server
unfolding run start step parse argument create_chat_room join_chat_room leave_chat_room
    list_chat_rooms send_message change_name help join leave delete_chat_room ChatRooms.join
    ChatRooms.leave broadcast text_eq lookup insert send_each send_all send close_out close_conn
    count kitchen has_prefix
talk = result (run same_order history (start 0))

talk_runs : run same_order history (start 0) ≡ done talk
unfolding talk
talk_runs = refl

heard :
    (talk.wires 0).written
    ≡ codes "Welcome. Type \"/h\" for commands.\n"
      ∷ codes "Notice: Created \"go\".\n"
      ∷ codes "Notice: \"new_user\" joined.\n"
      ∷ codes "Notice: \"bo\" joined.\n"
      ∷ []
unfolding talk
heard = refl

history_in_order_example : Books unreliable talk × (length (listed talk) ≤ 10)
history_in_order_example = history_in_order same_order 0 history talk talk_runs

history_never_panics_example : run same_order history (start 0) ≢ panicked talk
history_never_panics_example = history_never_panics same_order 0 history talk

history_spares : AllSpare reliable history
unfolding chomp has_prefix
history_spares = (tt, (tt, (λ q. cc, (λ q. cc, (λ q. cc, (λ q. cc, tt))))))

history_goes_on_example :
    (v : Server) × (run same_order history (start 0) ≡ done v) × Books reliable v
history_goes_on_example = history_goes_on same_order 0 history history_spares

-- The same room, with nothing written to anybody yet, and a week later.
abbrev quiet : Server
quiet = record { state = talk.state; wires = λ c. client_listen }

abbrev week_later : Server
week_later = record quiet { state = record (talk.state) { now = 2 * expiry_time } }

question : Message
unfolding new_message
question = new_message (13 * hour) 0 (codes "who?")

send_message_reaches_example :
    send_message question quiet
    ≡ done (record {
      state = record (quiet.state) {
        chat_rooms = update quiet.state.chat_rooms 0 (record (quiet.state.chat_rooms 0) {
          expiry = quiet.state.now + expiry_time;
          messages = (quiet.state.chat_rooms 0).messages ++ string quiet.state question ∷ [];
        });
      };
      wires = λ c.
          receive
            (quiet.wires c)
            (replicate (count c (members 0 quiet.state)) (string quiet.state question));
    })
send_message_reaches_example =
    send_message_reaches 0 question quiet (unfold talk question in refl) (λ c h. (refl, refl, refl))

delete_sends_home_example :
    (v : Server) × (delete_chat_room 0 week_later ≡ done v)
    × ((c : ℕ)
        → v.wires c
          ≡ receive
              (week_later.wires c)
              (replicate (count c (members 0 week_later.state)) notice_room_delete))
    × ((c : ℕ)
        → room_of c v.state ≡ (
            if count c (members 0 week_later.state) == 0 then room_of c week_later.state else none))
    × ((name : Text)
        → find_room name v.state ≡ (
            if text_eq (title 0 week_later.state) name
            then none
            else find_room name week_later.state))
delete_sends_home_example =
    delete_sends_home 0 week_later (unfold talk in omega arith) (λ c h. (refl, refl, refl))

letter_unspaced_example :
    (step same_order (line 0 7 (codes "/create go\n")) talk
      ≡ create_chat_room 0 (codes "/create go") talk)
    × (step same_order (line 0 7 (codes "/jreate go\n")) talk
        ≡ join_chat_room 0 (codes "/jreate go") talk)
    × (step same_order (line 0 7 (codes "/nreate go\n")) talk
        ≡ change_name 0 (codes "/nreate go") talk)
letter_unspaced_example =
    letter_unspaced same_order 0 7 b'r' (codes "eate go") talk (unfold talk count in omega arith)
      (omega arith) (unfold has_prefix in refl)
