-- ===== src/RoomServer/Effects.antt =====
-- What each operation makes of the server's own state, as functions on it alone: the sends to the
-- clients are left out. Every operation that gets through has this effect.
use cmpt436chat_client.Prelude.{
  ℕ, ◌+◌, Bool, true, false, List, [], ◌∷◌, Option, none, some, leb, if◌then◌else◌, length, is_nil,
  refl, Option-cases, inl, inr,
}
use cmpt436chat_client.Text.{Text, has_prefix, sprintf}
use cmpt436chat_client.Goroutine.{done, send}
use cmpt436chat_client.Goroutine.Laws.{
  Leads, Leads-then, Leads-if, send-Leads, send_all-Leads, send_each-Leads, close_conn_state,
}
use cmpt436chat_client.RoomServer.Types.{
  State, Msg, Server, comm_createroom, comm_enterroom, comm_leaveroom, comm_listrooms,
  comm_helpchat, comm_changename, comm_quitchat, note_room_enter, note_room_leave,
  note_pub_changename, clientmax, extime, to_string, err_leave,
}
use cmpt436chat_client.RoomServer.Rooms.{
  logged, broadcast, point_at, add_member, drop_member, point_at_lobby, show_log, join, leave,
  at_state, begin_log, end_log,
}
use cmpt436chat_client.RoomServer.Lobby.{
  room_of, name_of, find_room, welcome_to, relay, join_room, leave_c_room, enter_c_room,
  register_room, create_c_room, sleep_until, send_msg, rename, change_username, list_c_rooms, help,
  argument, parse_msg, join_found, help_lines,
}

unfoldable pub left : ℕ → ℕ → State → State
left c r s =
    point_at_lobby c (drop_member c r (logged r (sprintf note_room_leave (name_of c s ∷ [])) s))

unfoldable pub joined : ℕ → ℕ → State → State
joined c r s =
    let s1 = add_member c r (point_at c r s) in
    logged r (sprintf note_room_enter (name_of c s1 ∷ [])) s1

unfoldable pub left_current : ℕ → State → State
unfolding left
left_current c s = elim (room_of c s) [ none ↦ s | some r ↦ left c r s ]

-- The room is looked up again, after the old one has been left.
unfoldable pub moved_to : Option ℕ → ℕ → State → State
unfolding joined
moved_to none c s = s
moved_to (some r) c s = joined c r s

unfoldable pub entered : ℕ → Text → State → State
unfolding left_current moved_to
entered c name s =
    if is_nil (find_room name s)
    then s
    else let s1 = left_current c s in moved_to (find_room name s1) c s1

unfoldable pub created : ℕ → Text → State → State
unfolding register_room sleep_until entered
created c name s =
    if is_nil (find_room name s)
    then entered c name (sleep_until (s.now + extime) s.next_room (register_room name s))
    else s

unfoldable pub said : Msg → State → State
unfolding logged
said msg s = elim (room_of msg.client s) [ none ↦ s | some r ↦ logged r (to_string s msg) s ]

unfoldable pub renamed : ℕ → Text → State → State
unfolding rename logged
renamed c username s = rename c username (elim (room_of c s) [
  | none ↦ s
  | some r ↦ logged r (sprintf note_pub_changename (name_of c s ∷ username ∷ [])) s
])

broadcast-Leads :
    (r : ℕ) (msg : Text) (w : Server) → Leads (broadcast r msg w) (logged r msg w.state)
unfolding broadcast
broadcast-Leads r msg w = send_all-Leads _ msg _ refl

pub leave-Leads : (r c : ℕ) (w : Server) → Leads (leave r c w) (left c r w.state)
unfolding leave left
leave-Leads r c w =
    Leads-then (broadcast r (sprintf note_room_leave (name_of c w.state ∷ [])) w)
      (λ v. done (at_state (point_at_lobby c) (at_state (drop_member c r) v)))
      (λ s. point_at_lobby c (drop_member c r s)) _ (broadcast-Leads r _ w) (λ v. refl)

if_send-Leads :
    (b : Bool) (c : ℕ) (msg : Text) (w : Server)
    → Leads (if b then done w else send c msg w) w.state
if_send-Leads true c msg w = refl
if_send-Leads false c msg w = send-Leads c msg w refl

show_log-Leads : (r c : ℕ) (w : Server) → Leads (show_log r c w) w.state
unfolding show_log
show_log-Leads r c w =
    Leads-then _ _ (λ s. s) _ (if_send-Leads _ c begin_log w)
      λ w1.
        Leads-then _ _ (λ s. s) _ (send_each-Leads c _ w1 refl) λ w2. if_send-Leads _ c end_log w2

join-Leads : (r c : ℕ) (w : Server) → Leads (join r c w) (joined c r w.state)
unfolding join joined
join-Leads r c w =
    Leads-then _ _
      (λ (s : State).
        logged r (sprintf note_room_enter (name_of c (add_member c r s) ∷ [])) (add_member c r s))
      _ (show_log-Leads r c (at_state (point_at c r) w))
      λ v. broadcast-Leads r _ (at_state (add_member c r) v)

pub leave_c_room-Leads : (c : ℕ) (w : Server) → Leads (leave_c_room c w) (left_current c w.state)
unfolding leave_c_room left_current
leave_c_room-Leads c w = elim (Option-cases (room_of c w.state)) [
  | inl e ↦ rw (e, leave_c_room, left_current) (send-Leads c err_leave w refl)
  | inr (r, e) ↦ rw (e, leave_c_room, left_current) (leave-Leads r c w)
]

-- A client in the lobby has no room to leave.
leave_old-Leads :
    (c : ℕ) (w : Server)
    → Leads
        (if is_nil (room_of c w.state) then done w else leave_c_room c w)
        (left_current c w.state)
unfolding left_current
leave_old-Leads c w = elim (Option-cases (room_of c w.state)) [
  | inl e ↦ rw (e, left_current) refl
  | inr (r, e) ↦ rw e (leave_c_room-Leads c w)
]

join_found-Leads :
    (o : Option ℕ) (c : ℕ) (w : Server) → Leads (join_found o c w) (moved_to o c w.state)
unfolding moved_to
join_found-Leads none c w = tt
join_found-Leads (some r) c w = join-Leads r c w

pub enter_c_room-Leads :
    (c : ℕ) (name : Text) (w : Server) → Leads (enter_c_room c name w) (entered c name w.state)
unfolding enter_c_room entered
enter_c_room-Leads c name w =
    Leads-if (is_nil (find_room name w.state)) _ _ _ _ (send-Leads c _ w refl) (
      Leads-then _ _ (λ s. moved_to (find_room name s) c s) _ (leave_old-Leads c w)
        λ v. join_found-Leads (find_room name v.state) c v)

pub create_c_room-Leads :
    (c : ℕ) (name : Text) (w : Server) → Leads (create_c_room c name w) (created c name w.state)
unfolding create_c_room created
create_c_room-Leads c name w =
    Leads-if (is_nil (find_room name w.state)) _ _ _ _
      (Leads-then _ _ (entered c name) _ (send-Leads c _ _ refl) λ v. enter_c_room-Leads c name v)
      (send-Leads c _ w refl)

pub send_msg-Leads : (msg : Msg) (w : Server) → Leads (send_msg msg w) (said msg w.state)
unfolding send_msg said
send_msg-Leads msg w = elim (Option-cases (room_of msg.client w.state)) [
  | inl e ↦ rw (e, send_msg, said) (send-Leads msg.client _ w refl)
  | inr (r, e) ↦ rw (e, send_msg, said) (broadcast-Leads r _ w)
]

change_username-Leads :
    (c : ℕ) (username : Text) (w : Server)
    → Leads (change_username c username w) (renamed c username w.state)
unfolding change_username renamed
change_username-Leads c username w = elim (Option-cases (room_of c w.state)) [
  | inl e ↦
      rw (e, change_username, renamed)
        (Leads-then _ _ (rename c username) _ (send-Leads c _ w refl) λ v. refl)
  | inr (r, e) ↦
      rw (e, change_username, renamed)
        (Leads-then _ _ (rename c username) _ (broadcast-Leads r _ w) λ v. refl)
]

list_c_rooms-Leads :
    (order : List Text → List Text) (c : ℕ) (w : Server) → Leads (list_c_rooms order c w) w.state
unfolding list_c_rooms
list_c_rooms-Leads order c w =
    Leads-then _ _ (λ s. s) _ (send-Leads c _ w refl)
      λ w1.
        Leads-then _ _ (λ s. s) _ (send-Leads c _ w1 refl)
          λ w2. Leads-then _ _ (λ s. s) _ (send_each-Leads c _ w2 refl) λ w3. send-Leads c _ w3 refl

help-Leads : (c : ℕ) (w : Server) → Leads (help c w) w.state
unfolding help
help-Leads c w = send_each-Leads c help_lines w refl

pub join_room-Leads :
    (c : ℕ) (w : Server)
    → Leads (join_room c w) (
        if leb clientmax (length w.state.lobby.cur_clients)
        then w.state
        else relay c (welcome_to c w.state))
unfolding join_room
join_room-Leads c w =
    Leads-if (leb clientmax (length w.state.lobby.cur_clients)) _ _ _ _ (close_conn_state c w)
      (Leads-then _ _ (relay c) _ (send-Leads c _ _ refl) λ v. refl)

-- The state after a line of a client.
unfoldable pub parsed : Msg → State → State
unfolding created entered left_current renamed said
parsed msg s =
    if has_prefix msg.txt comm_createroom
    then created msg.client (argument msg.txt comm_createroom) s
    else if has_prefix msg.txt comm_enterroom
    then entered msg.client (argument msg.txt comm_enterroom) s
    else if has_prefix msg.txt comm_leaveroom
    then left_current msg.client s
    else if has_prefix msg.txt comm_listrooms
    then s
    else if has_prefix msg.txt comm_helpchat
    then s
    else if has_prefix msg.txt comm_changename
    then renamed msg.client (argument msg.txt comm_changename) s
    else if has_prefix msg.txt comm_quitchat
    then s
    else said msg s

-- Handling a line changes the lobby, the rooms and the clients as `parsed` says, whatever is sent.
pub parse_msg-Leads :
    (order : List Text → List Text) (msg : Msg) (w : Server)
    → Leads (parse_msg order msg w) (parsed msg w.state)
unfolding parse_msg parsed
parse_msg-Leads order msg w =
    Leads-if (has_prefix msg.txt comm_createroom) _ _ _ _ (create_c_room-Leads _ _ w) (
      Leads-if (has_prefix msg.txt comm_enterroom) _ _ _ _ (enter_c_room-Leads _ _ w) (
        Leads-if (has_prefix msg.txt comm_leaveroom) _ _ _ _ (leave_c_room-Leads _ w) (
          Leads-if (has_prefix msg.txt comm_listrooms) _ _ _ _ (list_c_rooms-Leads order _ w) (
            Leads-if (has_prefix msg.txt comm_helpchat) _ _ _ _ (help-Leads _ w) (
              Leads-if (has_prefix msg.txt comm_changename) _ _ _ _ (change_username-Leads _ _ w) (
                Leads-if (has_prefix msg.txt comm_quitchat) _ _ _ _ (close_conn_state _ w)
                  (send_msg-Leads msg w)))))))
