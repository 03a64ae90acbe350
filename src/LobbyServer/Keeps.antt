-- ===== src/LobbyServer/Keeps.antt =====
-- The methods that leave the lobby's list of clients alone (ken/server.go).
use cmpt436chat_client.Prelude.{
  ℕ, ◌≡◌, refl, ap, ◌∙◌, Bool, true, false, List, [], ◌∷◌, Option, none, some, ltb, if◌then◌else◌,
  is_nil, Option-cases, inl, inr,
}
use cmpt436chat_client.Text.{Text, codes}
use cmpt436chat_client.Goroutine.{Outcome, done, ◌>>=◌, send, send_each, close_conn}
use cmpt436chat_client.Goroutine.Laws.{
  IfDone, IfDone-bind, IfDone-map, Leads, send-Leads, send_each-Leads, send_all-Leads,
}
use cmpt436chat_client.LobbyServer.Types.{
  Lobby, State, Server, Message, notice_room_delete, error_send, error_create, error_join,
  error_leave,
}
use cmpt436chat_client.LobbyServer.ChatRooms
use cmpt436chat_client.LobbyServer.ChatRooms.{
  at_state, broadcast, remembered, move_to, move_out, add_client, drop_client,
}
use cmpt436chat_client.LobbyServer.Lobby.{
  room_of, find_room, delete_chat_room, sleep_until, unregister, register, create_chat_room,
  leave_chat_room, join_found, join_chat_room, list_chat_rooms, send_message, rename, change_name,
  help, help_lines, parse,
}

-- If the code gets through, the lobby's list of clients is `cs`.
pub data Keeps (cs : List ℕ) (o : Outcome Server) : Type 0 where
  keeps : IfDone o (λ v. v.state.lobby.clients ≡ cs) → Keeps cs o

pub kept :
    (cs : List ℕ) (o : Outcome Server) → Keeps cs o → IfDone o (λ v. v.state.lobby.clients ≡ cs)
kept cs o (keeps h) = h

module _ (cs : List ℕ) where
  pub Keeps-Leads : (o : Outcome Server) (s : State) → Leads o s → s.lobby.clients ≡ cs → Keeps cs o
  Keeps-Leads o s h e =
      keeps (IfDone-map o (λ v. v.state ≡ s) _ h (λ v p. ap (λ (x : State). x.lobby.clients) p ∙ e))

  pub done-Keeps : (w : Server) → w.state.lobby.clients ≡ cs → Keeps cs (done w)
  done-Keeps w e = keeps e

  pub Keeps-bind :
      (o : Outcome Server) (f : Server → Outcome Server)
      → Keeps cs o
      → ((v : Server) → v.state.lobby.clients ≡ cs → Keeps cs (f v))
      → Keeps cs (o >>= f)
  Keeps-bind o f h k = keeps (
      IfDone-bind o f (λ v. v.state.lobby.clients ≡ cs) _ (kept cs o h)
        (λ v e. kept cs (f v) (k v e)))

  pub Keeps-if :
      (b : Bool) (o p : Outcome Server) → Keeps cs o → Keeps cs p → Keeps cs (if b then o else p)
  Keeps-if true o p h k = h
  Keeps-if false o p h k = k

  pub send-Keeps :
      (c : ℕ) (msg : Text) (w : Server) → w.state.lobby.clients ≡ cs → Keeps cs (send c msg w)
  send-Keeps c msg w e = Keeps-Leads (send c msg w) w.state (send-Leads c msg w refl) e

  send_each-Keeps :
      (c : ℕ) (msgs : List Text) (w : Server)
      → w.state.lobby.clients ≡ cs
      → Keeps cs (send_each c msgs w)
  send_each-Keeps c msgs w e =
      Keeps-Leads (send_each c msgs w) w.state (send_each-Leads c msgs w refl) e

  broadcast-Keeps :
      (r : ℕ) (msg : Text) (w : Server) → w.state.lobby.clients ≡ cs → Keeps cs (broadcast r msg w)
  unfolding broadcast remembered
  broadcast-Keeps r msg w e =
      Keeps-Leads (broadcast r msg w) (remembered r msg w.state)
        (send_all-Leads (w.state.chat_rooms r).clients msg (at_state (remembered r msg) w) refl) e

  room_join-Keeps :
      (r c : ℕ) (w : Server) → w.state.lobby.clients ≡ cs → Keeps cs (ChatRooms.join r c w)
  unfolding ChatRooms.join add_client move_to
  room_join-Keeps r c w e =
      Keeps-bind (send_each c (w.state.chat_rooms r).messages (at_state (move_to (some r) c) w)) _
        (send_each-Keeps c (w.state.chat_rooms r).messages (at_state (move_to (some r) c) w) e)
        (λ v p. broadcast-Keeps r _ (at_state (add_client r c) v) p)

  pub room_leave-Keeps :
      (r c : ℕ) (w : Server) → w.state.lobby.clients ≡ cs → Keeps cs (ChatRooms.leave r c w)
  unfolding ChatRooms.leave drop_client move_to
  room_leave-Keeps r c w e =
      Keeps-bind (broadcast r _ w) _ (broadcast-Keeps r _ w e) (λ v p. done-Keeps _ p)

  move_out_clients : (ds : List ℕ) (s : State) → (move_out ds s).lobby ≡ s.lobby
  unfolding move_out move_to
  move_out_clients [] s = refl
  move_out_clients (d ∷ ds) s = move_out_clients ds (move_to none d s)

  room_delete-Keeps :
      (r : ℕ) (w : Server) → w.state.lobby.clients ≡ cs → Keeps cs (ChatRooms.delete r w)
  unfolding ChatRooms.delete
  room_delete-Keeps r w e =
      Keeps-bind (broadcast r notice_room_delete w) _ (broadcast-Keeps r notice_room_delete w e)
        (λ v p. done-Keeps _ (
          ap (λ (l : Lobby). l.clients) (move_out_clients (v.state.chat_rooms r).clients v.state)
          ∙ p))

  pub delete_chat_room-Keeps :
      (r : ℕ) (w : Server) → w.state.lobby.clients ≡ cs → Keeps cs (delete_chat_room r w)
  unfolding delete_chat_room sleep_until unregister
  delete_chat_room-Keeps r w e =
      Keeps-if (ltb w.state.now (w.state.chat_rooms r).expiry) _ _ (done-Keeps _ e)
        (Keeps-bind (ChatRooms.delete r w) _ (room_delete-Keeps r w e) (λ v p. done-Keeps _ p))

  leave_chat_room-Keeps :
      (c : ℕ) (w : Server) → w.state.lobby.clients ≡ cs → Keeps cs (leave_chat_room c w)
  unfolding leave_chat_room
  leave_chat_room-Keeps c w e = elim (Option-cases (room_of c w.state)) [
    | inl p ↦ rw (p, leave_chat_room) (send-Keeps c error_leave w e)
    | inr (r, p) ↦ rw (p, leave_chat_room) (room_leave-Keeps r c w e)
  ]

  create_chat_room-Keeps :
      (c : ℕ) (name : Text) (w : Server)
      → w.state.lobby.clients ≡ cs
      → Keeps cs (create_chat_room c name w)
  unfolding create_chat_room register sleep_until
  create_chat_room-Keeps c name w e =
      Keeps-if (is_nil (find_room name w.state)) _ _ (send-Keeps c _ _ e)
        (send-Keeps c error_create w e)

  found-Keeps :
      (o : Option ℕ) (c : ℕ) (w : Server) → w.state.lobby.clients ≡ cs → Keeps cs (join_found o c w)
  found-Keeps none c w e = keeps tt
  found-Keeps (some r) c w e = room_join-Keeps r c w e

  join_chat_room-Keeps :
      (c : ℕ) (name : Text) (w : Server)
      → w.state.lobby.clients ≡ cs
      → Keeps cs (join_chat_room c name w)
  unfolding join_chat_room
  join_chat_room-Keeps c name w e =
      Keeps-if (is_nil (find_room name w.state)) _ _ (send-Keeps c error_join w e) (
        Keeps-bind _ _
          (Keeps-if (is_nil (room_of c w.state)) _ _ (done-Keeps w e) (leave_chat_room-Keeps c w e))
          (λ v p. found-Keeps (find_room name v.state) c v p))

  list_chat_rooms-Keeps :
      (order : List Text → List Text) (c : ℕ) (w : Server)
      → w.state.lobby.clients ≡ cs
      → Keeps cs (list_chat_rooms order c w)
  unfolding list_chat_rooms
  list_chat_rooms-Keeps order c w e =
      Keeps-bind (send c (codes "\n") w) _ (send-Keeps c (codes "\n") w e) λ v p.
        Keeps-bind (send c (codes "Chat Rooms:\n") v) _ (send-Keeps c (codes "Chat Rooms:\n") v p)
          λ u q.
            Keeps-bind (send_each c _ u) _ (send_each-Keeps c _ u q) (send-Keeps c (codes "\n"))

  send_message-Keeps :
      (message : Message) (w : Server)
      → w.state.lobby.clients ≡ cs
      → Keeps cs (send_message message w)
  unfolding send_message
  send_message-Keeps message w e = elim (Option-cases (room_of message.client w.state)) [
    | inl p ↦ rw (p, send_message) (send-Keeps message.client error_send w e)
    | inr (r, p) ↦ rw (p, send_message) (broadcast-Keeps r _ w e)
  ]

  told-Keeps :
      (o : Option ℕ) (c : ℕ) (notice : Text) (w : Server)
      → w.state.lobby.clients ≡ cs
      → Keeps cs (elim o [ none ↦ send c notice w | some r ↦ broadcast r notice w ])
  told-Keeps none c notice w e = send-Keeps c notice w e
  told-Keeps (some r) c notice w e = broadcast-Keeps r notice w e

  change_name-Keeps :
      (c : ℕ) (name : Text) (w : Server)
      → w.state.lobby.clients ≡ cs
      → Keeps cs (change_name c name w)
  unfolding change_name rename
  change_name-Keeps c name w e =
      Keeps-bind _ _ (told-Keeps (room_of c w.state) c _ w e) (λ v p. done-Keeps _ p)

  help-Keeps : (c : ℕ) (w : Server) → w.state.lobby.clients ≡ cs → Keeps cs (help c w)
  unfolding help
  help-Keeps c w e = send_each-Keeps c help_lines w e

  quit-Keeps : (c : ℕ) (w : Server) → w.state.lobby.clients ≡ cs → Keeps cs (done (close_conn c w))
  unfolding close_conn
  quit-Keeps c w e = keeps e

  pub parse-Keeps :
      (order : List Text → List Text) (m : Message) (w : Server)
      → w.state.lobby.clients ≡ cs
      → Keeps cs (parse order m w)
  unfolding parse
  parse-Keeps order m w e = Keeps-if _ _ _ (create_chat_room-Keeps m.client _ w e) (
      Keeps-if _ _ _ (leave_chat_room-Keeps m.client w e) (
        Keeps-if _ _ _ (list_chat_rooms-Keeps order m.client w e) (
          Keeps-if _ _ _ (join_chat_room-Keeps m.client _ w e) (
            Keeps-if _ _ _ (change_name-Keeps m.client _ w e) (
              Keeps-if _ _ _ (help-Keeps m.client w e)
                (Keeps-if _ _ _ (quit-Keeps m.client w e) (send_message-Keeps m w e)))))))
