-- ===== src/LobbyServer/Safety.antt =====
-- The handlers of ken/server.go for the lines of clients, as to panics and endless waits.
use cmpt436chat_client.Prelude.{
  ℕ, ◌<◌, true, false, List, some, if◌then◌else◌, is_nil, ◌≡◌, refl, sym, ap, ◌∙◌, arith,
  Option-cases, Bool-cases, inl, inr, count, subst,
}
use cmpt436chat_client.Text.{has_prefix, Text, codes}
use cmpt436chat_client.Table.{lookup}
use cmpt436chat_client.Goroutine.{done, send, close_conn}
use cmpt436chat_client.Goroutine.Safety.{
  Safe-if_known, good-update, cut-good, Network, MayFail, good, AllGood, Safe, done-Safe, Safe-then,
  Safe-if, send-Safe, send_each-Safe,
}
use cmpt436chat_client.LobbyServer.Types.{
  cmd_quit, Message, Server, error_leave, error_join, error_create, error_send,
}
use cmpt436chat_client.LobbyServer.ChatRooms.{at_state, remembered}
use cmpt436chat_client.LobbyServer.Lobby.{
  room_of, find_room, create_chat_room, leave_chat_room, join_found, join_chat_room,
  list_chat_rooms, send_message, rename, change_name, help, help_lines, parse,
}
use cmpt436chat_client.LobbyServer.Effects.{
  left_current, moved_to, entered, created, said, renamed, parsed,
}
use cmpt436chat_client.LobbyServer.Invariant.{Inv, members, left_current-facts}
use cmpt436chat_client.LobbyServer.RoomSafety.{
  broadcast-Safe, leave-Safe, join-Safe, Ready, members-AllGood,
}

module _ (net : Network) (c : ℕ) (w : Server) (on : 0 < count c w.state.relayed) (i : Inv w.state)
    (h : Ready net w.state w.wires) where
  own-AllGood : (r : ℕ) → room_of c w.state ≡ some r → AllGood net (members r w.state) w.wires
  own-AllGood r e = members-AllGood net r w.state w.wires (i.located c r e) i h

  reply-Safe : (msg : Text) → Safe net w.state w.wires (send c msg w)
  reply-Safe msg = send-Safe c msg w (h c on)

  leave_chat_room-Safe : Safe net (left_current c w.state) w.wires (leave_chat_room c w)
  unfolding leave_chat_room left_current
  leave_chat_room-Safe = elim (Option-cases (room_of c w.state)) [
    | inl e ↦ rw (e, leave_chat_room, left_current) (reply-Safe error_leave)
    | inr (r, e) ↦ rw (e, leave_chat_room, left_current) (leave-Safe r c w (own-AllGood r e))
  ]

  create_chat_room-Safe :
      (name : Text) → Safe net (created name w.state) w.wires (create_chat_room c name w)
  unfolding create_chat_room created
  create_chat_room-Safe name =
      Safe-if (is_nil (find_room name w.state)) _ _ w.wires _ _ (send-Safe c _ _ (h c on))
        (reply-Safe error_create)

  list_chat_rooms-Safe :
      (order : List Text → List Text) → Safe net w.state w.wires (list_chat_rooms order c w)
  unfolding list_chat_rooms
  list_chat_rooms-Safe order =
      Safe-then (λ s. s) w.state w.wires _ _ (reply-Safe (codes "\n"))
        (λ v e same.
          Safe-then (λ s. s) v.state v.wires _ _ (send-Safe c _ v (same c ∙ h c on))
            (λ u f same2.
              Safe-then (λ s. s) u.state u.wires _ _
                (send_each-Safe c _ u (same2 c ∙ same c ∙ h c on))
                (λ t g same3. send-Safe c _ t (same3 c ∙ same2 c ∙ same c ∙ h c on))))

  change_name-Safe :
      (name : Text) → Safe net (renamed c name w.state) w.wires (change_name c name w)
  unfolding change_name renamed
  change_name-Safe name = elim (Option-cases (room_of c w.state)) [
    | inl e ↦
        rw (e, change_name, renamed)
          (Safe-then (rename c name) w.state w.wires _ _ (reply-Safe _)
            (λ v f same. done-Safe (at_state (rename c name) v)))
    | inr (r, e) ↦
        rw (e, change_name, renamed)
          (Safe-then (rename c name) (remembered r _ w.state) w.wires _ _
            (broadcast-Safe r _ w (own-AllGood r e))
            (λ v f same. done-Safe (at_state (rename c name) v)))
  ]

  quit-Safe : MayFail net → Safe net w.state w.wires (done (close_conn c w))
  unfolding close_conn
  quit-Safe may = record {
    ending = (refl, λ d. good-update net c d w.wires _ (cut-good net (w.wires c) may));
  }

send_message-Safe :
    {net : Network} (m : Message) (w : Server)
    → 0 < count m.client w.state.relayed
    → Inv w.state
    → Ready net w.state w.wires
    → Safe net (said m w.state) w.wires (send_message m w)
unfolding send_message said
send_message-Safe {net = net} m w on i h = elim (Option-cases (room_of m.client w.state)) [
  | inl e ↦ rw (e, send_message, said) (reply-Safe net m.client w on i h error_send)
  | inr (r, e) ↦
      rw (e, send_message, said) (broadcast-Safe r _ w (own-AllGood net m.client w on i h r e))
]

-- The room has just been looked up, so that it is not nil.
join_found-Safe :
    {net : Network} (c : ℕ) (name : Text) (w : Server)
    → is_nil (find_room name w.state) ≡ false
    → 0 < count c w.state.relayed
    → Inv w.state
    → Ready net w.state w.wires
    → Safe net
        (moved_to (find_room name w.state) c w.state)
        w.wires
        (join_found (find_room name w.state) c w)
unfolding moved_to
join_found-Safe {net = net} c name w there on i h = elim (Option-cases (find_room name w.state)) [
  | inl e ↦ ground (arith, e, there)
  | inr (r, e) ↦ rw e (
      join-Safe r c w (h c on)
        (members-AllGood net r w.state w.wires (ground (arith, i.titled name r e, e)) i h))
]

leave_first-Safe :
    {net : Network} (c : ℕ) (w : Server)
    → 0 < count c w.state.relayed
    → Inv w.state
    → Ready net w.state w.wires
    → Safe net
        (left_current c w.state)
        w.wires
        (if is_nil (room_of c w.state) then done w else leave_chat_room c w)
unfolding left_current
leave_first-Safe {net = net} c w on i h = elim (Option-cases (room_of c w.state)) [
  | inl e ↦ rw (e, left_current) (done-Safe w)
  | inr (r, e) ↦
      subst
        (λ b. Safe net (left_current c w.state) w.wires (if b then done w else leave_chat_room c w))
        (sym (ap is_nil e)) (leave_chat_room-Safe net c w on i h)
]

join_chat_room-Safe :
    {net : Network} (c : ℕ) (name : Text) (w : Server)
    → 0 < count c w.state.relayed
    → Inv w.state
    → Ready net w.state w.wires
    → Safe net (entered c name w.state) w.wires (join_chat_room c name w)
unfolding join_chat_room entered
join_chat_room-Safe {net = net} c name w on i h =
    let (i', out, same_lobby, relayed) = left_current-facts c w.state i in
    elim (Bool-cases (is_nil (find_room name w.state))) [
      | inl e ↦ rw e (reply-Safe net c w on i h error_join)
      | inr e ↦ rw e (
          Safe-then (λ s. moved_to (find_room name s) c s) (left_current c w.state) w.wires _ _
            (leave_first-Safe c w on i h)
            (λ v f same.
              join_found-Safe c name v
                (ap (λ s. is_nil (find_room name s)) f
                  ∙ ap (λ l. is_nil (lookup name l.chat_rooms)) same_lobby
                  ∙ e)
                (subst (λ s. 0 < count c s.relayed) (sym f)
                  (subst (λ ds. 0 < count c ds) (sym relayed) on))
                (subst Inv (sym f) i')
                (λ d p.
                  same d ∙ h d (subst (λ ds. 0 < count d ds) (ap (λ s. s.relayed) f ∙ relayed) p))))
    ]

help-Safe :
    {net : Network} (c : ℕ) (w : Server)
    → good net (w.wires c) ≡ true
    → Safe net w.state w.wires (help c w)
unfolding help
help-Safe {net = net} c w o = send_each-Safe c help_lines w o

-- Every line of a client is handled without a panic and, where connections do not fail, to its end.
pub parse-Safe :
    {net : Network} (order : List Text → List Text) (m : Message) (w : Server)
    → 0 < count m.client w.state.relayed
    → Inv w.state
    → Ready net w.state w.wires
    → (has_prefix m.text cmd_quit ≡ true → MayFail net)
    → Safe net (parsed m w.state) w.wires (parse order m w)
unfolding parse parsed
parse-Safe {net = net} order m w on i h may =
    Safe-if _ _ _ w.wires _ _ (create_chat_room-Safe net m.client w on i h _) (
      Safe-if _ _ _ w.wires _ _ (leave_chat_room-Safe net m.client w on i h) (
        Safe-if _ _ _ w.wires _ _ (list_chat_rooms-Safe net m.client w on i h order) (
          Safe-if _ _ _ w.wires _ _ (join_chat_room-Safe m.client _ w on i h) (
            Safe-if _ _ _ w.wires _ _ (change_name-Safe net m.client w on i h _) (
              Safe-if _ _ _ w.wires _ _ (help-Safe m.client w (h m.client on)) (
                Safe-if_known _ _ _ w.wires _ _ (λ q. quit-Safe net m.client w on i h (may q))
                  (send_message-Safe m w on i h)))))))
