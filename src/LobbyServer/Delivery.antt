-- ===== src/LobbyServer/Delivery.antt =====
-- What the clients of a room of ken/server.go are sent.
use cmpt436chat_client.Prelude.{
  ℕ, ◌+◌, ◌<◌, ◌≤◌, List, [], ◌∷◌, ◌++◌, none, some, ◌==◌, if◌then◌else◌, ◌≡◌, refl, ◌∙◌, arith,
  count, replicate, update, ap, ltb, false,
}
use cmpt436chat_client.Text.{Text, text_eq}
use cmpt436chat_client.Table.{lookup, lookup-delete}
use cmpt436chat_client.Goroutine.{Wire, done}
use cmpt436chat_client.Goroutine.Laws.{IsLive, receive, send_all_live, bind-done}
use cmpt436chat_client.LobbyServer.Types.{
  Lobby, ChatRoom, State, Server, Message, expiry_time, string, notice_room_delete,
}
use cmpt436chat_client.LobbyServer.ChatRooms.{
  remembered, broadcast, delete, at_state, move_to, move_out,
}
use cmpt436chat_client.LobbyServer.Lobby.{
  room_of, find_room, send_message, delete_chat_room, unregister,
}

abbrev pub members : ℕ → State → List ℕ
members r s = (s.chat_rooms r).clients

-- The clients that a room lists can be reached: their connections work, and their writers run.
abbrev pub CanReach : ℕ → Server → Type 0
CanReach r w = (c : ℕ) → 0 < count c (members r w.state) → IsLive (w.wires c)

broadcast_live :
    (r : ℕ) (notice : Text) (w : Server)
    → CanReach r w
    → broadcast r notice w
      ≡ done (record {
        state = remembered r notice w.state;
        wires = λ q. receive (w.wires q) (replicate (count q (members r w.state)) notice);
      })
unfolding broadcast
broadcast_live r notice w h =
    send_all_live (members r w.state) notice (at_state (remembered r notice) w) h

-- A message of a client in a room whose clients can be reached gets through. Every client gets it
-- as often as the room lists it, and nobody else gets anything; the room remembers it behind the
-- earlier messages and will expire EXPIRY_TIME from now; nothing else changes.
pub send_message_reaches :
    (r : ℕ) (message : Message) (w : Server)
    → room_of message.client w.state ≡ some r
    → CanReach r w
    → send_message message w
      ≡ done (record {
        state = record (w.state) {
          chat_rooms = update w.state.chat_rooms r (record (w.state.chat_rooms r) {
            expiry = w.state.now + expiry_time;
            messages = (w.state.chat_rooms r).messages ++ string w.state message ∷ [];
          });
        };
        wires = λ c.
            receive (w.wires c) (replicate (count c (members r w.state)) (string w.state message));
      })
unfolding send_message remembered
send_message_reaches r message w at reach =
    rw (at, send_message) (broadcast_live r (string w.state message) w reach)

-- The loop of Delete touches no more than the rooms that clients are in.
move_out-room :
    (cs : List ℕ) (c : ℕ) (s : State)
    → room_of c (move_out cs s) ≡ (if count c cs == 0 then room_of c s else none)
unfolding move_out move_to count
move_out-room [] c s = refl
move_out-room (d ∷ cs) c s = ground (arith, move_out-room cs c (move_to none d s))

move_out-books :
    (cs : List ℕ) (s : State)
    → ((move_out cs s).lobby ≡ s.lobby) × ((move_out cs s).chat_rooms ≡ s.chat_rooms)
unfolding move_out move_to
move_out-books [] s = (refl, refl)
move_out-books (d ∷ cs) s = move_out-books cs (move_to none d s)

abbrev pub title : ℕ → State → Text
title r s = (s.chat_rooms r).name

-- The state once the note is out, once the clients are out, and once the map has no entry.
abbrev noted : ℕ → State → State
noted r s = remembered r notice_room_delete s

abbrev emptied : ℕ → State → State
emptied r s = move_out (members r (noted r s)) (noted r s)

abbrev noted_wires : ℕ → Server → ℕ → Wire
noted_wires r w =
    λ q. receive (w.wires q) (replicate (count q (members r w.state)) notice_room_delete)

delete_live :
    (r : ℕ) (w : Server)
    → CanReach r w
    → delete r w ≡ done (record { state = emptied r w.state; wires = noted_wires r w })
unfolding delete
delete_live r w reach =
    bind-done (broadcast r notice_room_delete w) _ (broadcast_live r notice_room_delete w reach)

delete_chat_room_live :
    (r : ℕ) (w : Server)
    → ltb w.state.now (w.state.chat_rooms r).expiry ≡ false
    → CanReach r w
    → delete_chat_room r w
      ≡ done (record {
        state = unregister (title r (emptied r w.state)) (emptied r w.state);
        wires = noted_wires r w;
      })
unfolding delete_chat_room
delete_chat_room_live r w late reach = rw late (bind-done (delete r w) _ (delete_live r w reach))

noted-members : (r : ℕ) (s : State) → members r (noted r s) ≡ members r s
unfolding remembered
noted-members r s = ground arith

emptied-room :
    (r c : ℕ) (s : State)
    → room_of c (emptied r s) ≡ (if count c (members r s) == 0 then room_of c s else none)
unfolding remembered
emptied-room r c s =
    move_out-room (members r (noted r s)) c (noted r s) ∙ rw (noted-members r s) refl

emptied-title : (r : ℕ) (s : State) → title r (emptied r s) ≡ title r s
unfolding remembered
emptied-title r s =
    let (_, same) = move_out-books (members r (noted r s)) (noted r s) in
    ap (λ (f : ℕ → ChatRoom). (f r).name) same ∙ ground arith

emptied-find : (r : ℕ) (name : Text) (s : State) → find_room name (emptied r s) ≡ find_room name s
unfolding remembered
emptied-find r name s =
    let (same, _) = move_out-books (members r (noted r s)) (noted r s) in
    ap (λ (l : Lobby). lookup name l.chat_rooms) same

unregistered :
    (gone name : Text) (s : State)
    → find_room name (unregister gone s) ≡ (if text_eq gone name then none else find_room name s)
unfolding unregister
unregistered gone name s = lookup-delete gone name s.lobby.chat_rooms

-- When a room has expired and its clients can be reached, DeleteChatRoom gets through: every client
-- gets the note as often as the room lists it, the room's clients are in no room afterwards and the
-- others where they were, and the map has no room under its name and the same ones under the
-- others.
pub delete_sends_home :
    (r : ℕ) (w : Server)
    → (w.state.chat_rooms r).expiry ≤ w.state.now
    → CanReach r w
    → (v : Server) × (delete_chat_room r w ≡ done v)
      × ((c : ℕ)
          → v.wires c
            ≡ receive (w.wires c) (replicate (count c (members r w.state)) notice_room_delete))
      × ((c : ℕ)
          → room_of c v.state
            ≡ (if count c (members r w.state) == 0 then room_of c w.state else none))
      × ((name : Text)
          → find_room name v.state
            ≡ (if text_eq (title r w.state) name then none else find_room name w.state))
delete_sends_home r w late reach =
    let s = w.state in
    (
      record { state = unregister (title r (emptied r s)) (emptied r s); wires = noted_wires r w },
      delete_chat_room_live r w (ground arith) reach,
      λ c. refl,
      λ c. unfold unregister in emptied-room r c s,
      λ name.
          unregistered (title r (emptied r s)) name (emptied r s)
          ∙ rw (emptied-title r s, emptied-find r name s) refl,
    )
