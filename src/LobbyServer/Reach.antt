-- ===== src/LobbyServer/Reach.antt =====
-- The events of ken/server.go, one by one, as to the books and to panics.
use cmpt436chat_client.Prelude.{
  ℕ, ◌+◌, ◌<◌, true, List, none, some, leb, ◌≡◌, refl, sym, ◌∙◌, ap, subst, arith, Option-cases,
  Bool-cases, inl, inr, count, length,
}
use cmpt436chat_client.Text.{Text, has_prefix}
use cmpt436chat_client.Sleepers.{watched, sleeper_at, without_at, sleeper-cases}
use cmpt436chat_client.Goroutine.{done, ◌>>=◌, send, close_out}
use cmpt436chat_client.Goroutine.Safety.{
  unreliable, reliable, Network, MayFail, good, SameGood, NoPanic, NoPanic-map, Safe, done-Safe,
  Safe-bind, Safe-then, send-Safe,
}
use cmpt436chat_client.LobbyServer.Types.{
  cmd_quit, client_listen, State, Server, Message, max_clients, msg_connect,
}
use cmpt436chat_client.LobbyServer.ChatRooms
use cmpt436chat_client.LobbyServer.ChatRooms.{
  add_client, at_state, remembered, move_to, move_out, drop_client,
}
use cmpt436chat_client.LobbyServer.Lobby.{
  room_of, welcome, relay, join, forget, leave, parse, delete_chat_room,
}
use cmpt436chat_client.LobbyServer.Events.{construct, end_relay, wake_sleeper}
use cmpt436chat_client.LobbyServer.Effects.{left_current, parsed, deleted, woken}
use cmpt436chat_client.LobbyServer.Invariant.{Inv, left_current-facts, sleepers-Inv}
use cmpt436chat_client.LobbyServer.Expiry.{IsWatched, left_current-IsWatched, parsed-IsWatched}
use cmpt436chat_client.LobbyServer.Lines.{parsed-Inv}
use cmpt436chat_client.LobbyServer.Deletion.{woken-keeps, sleeper_there}
use cmpt436chat_client.LobbyServer.RoomSafety.{
  Ready, leave-Safe, members-AllGood, delete_chat_room-Safe,
}
use cmpt436chat_client.LobbyServer.Safety.{parse-Safe}
use cmpt436chat_client.LobbyServer.Relayed.{deleted-relayed, parsed-relayed}
use cmpt436chat_client.LobbyServer.Arrival.{
  Books, Safe-Books, born, construct_lem, born-Inv, relay-Inv, gone-Inv, born-IsWatched,
  relay-IsWatched, gone-IsWatched, close_conn-Books, relay-Ready, left_current-end_relay,
  gone-Ready, gone_unheard, close-Books,
}

fresh-good : (net : Network) → good net client_listen ≡ true
unfolding good
fresh-good unreliable = refl
fresh-good reliable = refl

module _ (net : Network) (w : Server) (b : Books net w) where
  born-Ready : Ready net (born w.state) (construct w).wires
  unfolding born construct
  born-Ready c h = ground (arith, b.ready c, b.inv.known c)

  born-Books : Books net (construct w)
  born-Books = record {
    inv = subst Inv (sym (construct_lem w)) (born-Inv w.state b.inv);
    watched = subst IsWatched (sym (construct_lem w)) (born-IsWatched w.state b.watched);
    ready = subst (λ s. Ready net s (construct w).wires) (sym (construct_lem w)) born-Ready;
  }

  fresh-open : good net ((construct w).wires w.state.next_client) ≡ true
  unfolding construct
  fresh-open = ground (arith, fresh-good net)

  fresh-lt : w.state.next_client < (construct w).state.next_client
  unfolding construct
  fresh-lt = omega arith

  fresh_unheard : count w.state.next_client (construct w).state.relayed ≡ 0
  unfolding construct
  fresh_unheard = b.inv.known w.state.next_client (omega arith)

  welcomed-Safe :
      let c = w.state.next_client in
      let w1 = construct w in
      Safe net
        (relay c (welcome c w1.state))
        w1.wires
        (do w2 ← send c msg_connect (at_state (welcome c) w1); done (at_state (relay c) w2))
  welcomed-Safe =
      let c = w.state.next_client in
      Safe-then (relay c) (welcome c (construct w).state) (construct w).wires _ _
        (send-Safe c msg_connect (at_state (welcome c) (construct w)) fresh-open)
        (λ v e same. done-Safe (at_state (relay c) v))

  welcomed-Books :
      let c = w.state.next_client in
      let w1 = construct w in
      NoPanic net
        (Books net)
        (do w2 ← send c msg_connect (at_state (welcome c) w1); done (at_state (relay c) w2))
  welcomed-Books =
      let c = w.state.next_client in
      let w1 = construct w in
      let s = relay c (welcome c w1.state) in
      NoPanic-map net _ (Books net) _ welcomed-Safe.ending (λ u p. record {
        inv = subst Inv (sym p.0) (relay-Inv c w1.state fresh-lt fresh_unheard born-Books.inv);
        watched = subst IsWatched (sym p.0) (relay-IsWatched c w1.state born-Books.watched);
        ready =
            subst (λ t. Ready net t u.wires) (sym p.0)
              (λ d q. p.1 d ∙ relay-Ready net c w1.state w1.wires fresh-open born-Books.ready d q);
      })

  pub accept-Books : NoPanic net (Books net) (join w.state.next_client (construct w))
  unfolding join
  accept-Books = elim (Bool-cases (leb max_clients (length (construct w).state.lobby.clients))) [
    | inl full ↦ rw full (
        close_conn-Books net w.state.next_client (construct w)
          (λ on. ground (arith, fresh_unheard, on)) born-Books)
    | inr room ↦ rw room welcomed-Books
  ]

  module _ (c : ℕ) (on : 0 < count c w.state.relayed) where
    end_left-Safe :
        let w1 = at_state (end_relay c) w in
        Safe net
          (left_current c w1.state)
          w.wires
          (elim (room_of c w1.state) [ none ↦ done w1 | some r ↦ ChatRooms.leave r c w1 ])
    end_left-Safe = elim (Option-cases (room_of c w.state)) [
      | inl e ↦
          unfold end_relay left_current in
          rw (e, left_current) (done-Safe (at_state (end_relay c) w))
      | inr (r, e) ↦
          unfold end_relay left_current in
          rw (e, left_current)
            (leave-Safe r c (at_state (end_relay c) w)
              (members-AllGood net r w.state w.wires (b.inv.located c r e) b.inv b.ready))
    ]

    closing :
        (v : Server)
        → v.state ≡ left_current c (end_relay c w.state)
        → SameGood net w.wires v.wires
        → NoPanic net (Books net) (close_out c (at_state (forget c) v))
    closing v e same =
        let t = left_current c w.state in
        let (inv, out, _, relayed) = left_current-facts c w.state b.inv in
        let f : v.state ≡ end_relay c t = e ∙ left_current-end_relay c w.state in
        close-Books net c (at_state (forget c) v) (same c ∙ b.ready c on)
          (ap (λ s. count c (forget c s).relayed) f ∙ gone_unheard c t inv)
          (subst (λ s. Inv (forget c s)) (sym f) (gone-Inv c t out inv))
          (subst (λ s. IsWatched (forget c s)) (sym f)
            (gone-IsWatched c t (left_current-IsWatched c w.state b.watched)))
          (subst (λ s. Ready net (forget c s) v.wires) (sym f)
            (gone-Ready net c w.state t v.wires relayed (λ d p. same d ∙ b.ready d p)))

    pub eof-Books : NoPanic net (Books net) (leave c (at_state (end_relay c) w))
    unfolding leave
    eof-Books =
        let w1 = at_state (end_relay c) w in
        Safe-bind (Books net) (left_current c w1.state) w.wires _ _ end_left-Safe
          (λ v e same. closing v e same)

  due-Books :
      (i t r : ℕ)
      → sleeper_at i w.state.sleepers ≡ some (t, r)
      → leb t w.state.now ≡ true
      → NoPanic net
          (Books net)
          (delete_chat_room r (at_state (λ s. record s { sleepers = without_at i s.sleepers }) w))
  due-Books i t r e due =
      let s = record (w.state) { sleepers = without_at i w.state.sleepers } in
      let now : woken i w.state ≡ deleted r s = unfold woken in rw (e, woken, due) refl in
      let (inv, watched) = woken-keeps i w.state b.inv b.watched in
      Safe-Books net (deleted r s) w _
        (delete_chat_room-Safe r (record w { state = s })
          (members-AllGood net r s w.wires (sleeper_there i t r w.state b.watched e)
            (sleepers-Inv _ w.state b.inv) b.ready))
        (λ c. ap (count c) (deleted-relayed r s)) b.ready (subst Inv now inv)
        (subst IsWatched now watched)

  pub wake-Books : (i : ℕ) → NoPanic net (Books net) (wake_sleeper i w)
  unfolding wake_sleeper
  wake-Books i = elim (sleeper-cases i w.state.sleepers) [
    | inl e ↦ rw (e, wake_sleeper) b
    | inr (t, r, e) ↦ elim (Bool-cases (leb t w.state.now)) [
      | inr early ↦ rw (e, wake_sleeper, early) b
      | inl due ↦ rw (e, wake_sleeper, due) (due-Books i t r e due)
    ]
  ]

  pub line-Books :
      (order : List Text → List Text) (m : Message)
      → 0 < count m.client w.state.relayed
      → (has_prefix m.text cmd_quit ≡ true → MayFail net)
      → NoPanic net (Books net) (parse order m w)
  line-Books order m on may =
      Safe-Books net (parsed m w.state) w _ (parse-Safe order m w on b.inv b.ready may)
        (λ c. ap (count c) (parsed-relayed m w.state)) b.ready (parsed-Inv m w.state on b.inv)
        (parsed-IsWatched m w.state b.inv b.watched)

now-Inv : (d : ℕ) (s : State) → Inv s → Inv (record s { now = s.now + d })
now-Inv d s i = record {
  titled = i.titled;
  allocated = i.allocated;
  located = i.located;
  placed = i.placed;
  heard = i.heard;
  once = i.once;
  known = i.known;
  counted = i.counted;
}

pub tick-Books :
    (net : Network) (d : ℕ) (w : Server)
    → Books net w
    → Books net (at_state (λ s. record s { now = s.now + d }) w)
tick-Books net d w b = record {
  inv = now-Inv d w.state b.inv;
  watched = b.watched;
  ready = b.ready;
}
