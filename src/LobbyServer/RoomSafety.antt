-- ===== src/LobbyServer/RoomSafety.antt =====
-- The methods of the rooms of ken/server.go, as to panics and endless waits.
use cmpt436chat_client.Prelude.{
  ℕ, ◌+◌, ◌-◌, ◌<◌, true, [], ◌∷◌, Option, none, some, ltb, ◌≡◌, refl, sym, ap, ◌∙◌, arith, ◌++◌,
  count, count-append, count-single, subst,
}
use cmpt436chat_client.Text.{Text, sprintf}
use cmpt436chat_client.Goroutine.{Wire}
use cmpt436chat_client.Goroutine.Safety.{
  Network, good, AllGood, AllGood-same, Safe, done-Safe, Safe-then, Safe-if, send_each-Safe,
  send_all-Safe,
}
use cmpt436chat_client.LobbyServer.Types.{State, Server, notice_room_join, notice_room_delete}
use cmpt436chat_client.LobbyServer.ChatRooms
use cmpt436chat_client.LobbyServer.ChatRooms.{
  at_state, broadcast, remembered, move_to, move_out, add_client, drop_client,
}
use cmpt436chat_client.LobbyServer.Lobby.{find_room, delete_chat_room, sleep_until, unregister}
use cmpt436chat_client.LobbyServer.Effects.{name_of, left, joined, deleted}
use cmpt436chat_client.LobbyServer.Invariant.{Inv, members, title}

pub broadcast-Safe :
    {net : Network} (r : ℕ) (msg : Text) (w : Server)
    → AllGood net (members r w.state) w.wires
    → Safe net (remembered r msg w.state) w.wires (broadcast r msg w)
unfolding broadcast
broadcast-Safe r msg w h = send_all-Safe (members r w.state) msg (at_state (remembered r msg) w) h

pub leave-Safe :
    {net : Network} (r c : ℕ) (w : Server)
    → AllGood net (members r w.state) w.wires
    → Safe net (left c r w.state) w.wires (ChatRooms.leave r c w)
unfolding ChatRooms.leave left
leave-Safe r c w h =
    Safe-then (λ s. move_to none c (drop_client r c s)) _ w.wires (broadcast r _ w) _
      (broadcast-Safe r _ w h)
      (λ v e same. done-Safe (at_state (move_to none c) (at_state (drop_client r c) v)))

members-add_client : (r c : ℕ) (s : State) → members r (add_client r c s) ≡ members r s ++ c ∷ []
unfolding add_client
members-add_client r c s = ground arith

-- A channel of a room's clients, or of the one that joins it.
AllGood-add_client :
    (net : Network) (r c : ℕ) (s : State) (ks : ℕ → Wire)
    → good net (ks c) ≡ true
    → AllGood net (members r s) ks
    → AllGood net (members r (add_client r c s)) ks
AllGood-add_client net r c s ks o h =
    rw (members-add_client r c s)
      (λ d p. ground (arith, h d, o, count-append d (members r s) (c ∷ []), count-single d c))

members-move_to : (r c : ℕ) (o : Option ℕ) (s : State) → members r (move_to o c s) ≡ members r s
unfolding move_to
members-move_to r c o s = refl

pub join-Safe :
    {net : Network} (r c : ℕ) (w : Server)
    → good net (w.wires c) ≡ true
    → AllGood net (members r w.state) w.wires
    → Safe net (joined c r w.state) w.wires (ChatRooms.join r c w)
unfolding ChatRooms.join joined
join-Safe {net = net} r c w o h =
    Safe-then
      (λ s.
        remembered r (sprintf notice_room_join (name_of c (add_client r c s) ∷ []))
          (add_client r c s))
      (move_to (some r) c w.state) w.wires _ _
      (send_each-Safe c (w.state.chat_rooms r).messages (at_state (move_to (some r) c) w) o)
      (λ v e same. broadcast-Safe r _ (at_state (add_client r c) v) (
        AllGood-add_client net r c v.state v.wires (same c ∙ o) (
          subst (λ ms. AllGood net ms v.wires)
            (sym (ap (members r) e ∙ members-move_to r c (some r) w.state))
            (AllGood-same net (members r w.state) w.wires v.wires same h))))

-- The clients whose messages are relayed are good.
abbrev pub Ready : Network → State → (ℕ → Wire) → Type 0
Ready net s ks = (c : ℕ) → 0 < count c s.relayed → good net (ks c) ≡ true

pub members-AllGood :
    (net : Network) (r : ℕ) (s : State) (ks : ℕ → Wire)
    → find_room (title r s) s ≡ some r
    → Inv s
    → Ready net s ks
    → AllGood net (members r s) ks
members-AllGood net r s ks there i h d p = ground (arith, i.placed d r there, i.heard d r, h d)

delete-Safe :
    {net : Network} (r : ℕ) (w : Server)
    → AllGood net (members r w.state) w.wires
    → let n = remembered r notice_room_delete w.state in
      Safe net (move_out (members r n) n) w.wires (ChatRooms.delete r w)
unfolding ChatRooms.delete
delete-Safe r w h =
    Safe-then (λ s. move_out (members r s) s) (remembered r notice_room_delete w.state) w.wires _ _
      (broadcast-Safe r notice_room_delete w h)
      (λ v e same. done-Safe (at_state (move_out (members r v.state)) v))

pub delete_chat_room-Safe :
    {net : Network} (r : ℕ) (w : Server)
    → AllGood net (members r w.state) w.wires
    → Safe net (deleted r w.state) w.wires (delete_chat_room r w)
unfolding delete_chat_room deleted
delete_chat_room-Safe r w h =
    Safe-if (ltb w.state.now (w.state.chat_rooms r).expiry) _ _ w.wires _ _
      (done-Safe
        (at_state (sleep_until (w.state.now + ((w.state.chat_rooms r).expiry - w.state.now)) r) w))
      (Safe-then (λ s. unregister (title r s) s) _ w.wires _ _ (delete-Safe r w h)
        (λ v e same. done-Safe (at_state (unregister (title r v.state)) v)))
