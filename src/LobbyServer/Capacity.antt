-- ===== src/LobbyServer/Capacity.antt =====
-- How many clients the lobby of ken/server.go counts.
use cmpt436chat_client.Prelude.{
  ℕ, suc, Bool, true, false, Bool-cases, inl, inr, ◌≤◌, ◌<◌, ◌≡◌, refl, ap, ◌∙◌, List, [], ◌∷◌,
  Option, none, some, arith, ◌==◌, leb, if◌then◌else◌, length, count, remove_first, length-append,
  length-remove_first_of_count,
}
use cmpt436chat_client.Sleepers.{sleeper_at, without_at}
use cmpt436chat_client.Text.{Text}
use cmpt436chat_client.Goroutine.{Outcome, done, send, close_out, close_conn}
use cmpt436chat_client.Goroutine.Laws.{
  IfDone, IfDone-bind, IfDone-map, IfDone-eq, send-Leads, close_out-Leads,
}
use cmpt436chat_client.LobbyServer.Types.{State, Server, msg_connect, max_clients}
use cmpt436chat_client.LobbyServer.ChatRooms
use cmpt436chat_client.LobbyServer.ChatRooms.{at_state}
use cmpt436chat_client.LobbyServer.Lobby.{room_of, join, leave, welcome, relay, forget}
use cmpt436chat_client.LobbyServer.Events.{
  Event, accept, line, eof, wake, fail, tick, step, run, start, construct, end_relay, wake_sleeper,
  awake,
}
use cmpt436chat_client.LobbyServer.Keeps.{
  Keeps, kept, done-Keeps, Keeps-if, room_leave-Keeps, delete_chat_room-Keeps, parse-Keeps,
}

abbrev pub listed : Server → List ℕ
listed w = w.state.lobby.clients

abbrev pub IsFit : Server → Type 0
IsFit w = length (listed w) ≤ 10

length-remove_first : (c : ℕ) (xs : List ℕ) → length (remove_first c xs) ≤ length xs
unfolding remove_first
length-remove_first c [] = omega arith
length-remove_first c (x ∷ xs) = ground (arith, length-remove_first c xs)

out_of_room :
    (o : Option ℕ) (c : ℕ) (w : Server)
    → Keeps (listed w) (elim o [ none ↦ done w | some r ↦ ChatRooms.leave r c w ])
out_of_room none c w = done-Keeps (listed w) w refl
out_of_room (some r) c w = room_leave-Keeps (listed w) r c w refl

left : (c : ℕ) (w : Server) → IfDone (leave c w) (λ v. listed v ≡ remove_first c (listed w))
unfolding leave forget
left c w =
    IfDone-bind _ _ (λ v. listed v ≡ listed w) _
      (kept (listed w) _ (out_of_room (room_of c w.state) c w))
      λ v e.
        IfDone-map (close_out c (at_state (forget c) v)) (λ u. u.state ≡ forget c v.state) _
          (close_out-Leads c (at_state (forget c) v) refl)
          (λ u p. ap (λ (s : State). s.lobby.clients) p ∙ ap (remove_first c) e)

-- When the lobby handles the end of the input of a client that it counts, and gets through, it
-- counts one client fewer: the place is free again.
pub leave_frees_place :
    (c : ℕ) (w v : Server)
    → 0 < count c (listed w)
    → leave c w ≡ done v
    → suc (length (listed v)) ≡ length (listed w)
leave_frees_place c w v h e =
    let gone = IfDone-eq (λ u. listed u ≡ remove_first c (listed w)) (leave c w) (left c w) e in
    ap (λ (xs : List ℕ). suc (length xs)) gone ∙ length-remove_first_of_count c (listed w) h

joined : (c : ℕ) (w : Server) → IsFit w → IfDone (join c w) IsFit
unfolding join welcome relay close_conn
joined c w h =
    let w1 = at_state (welcome c) w in
    elim (Bool-cases (leb 10 (length (listed w)))) [
      | inl e ↦ rw (e, join) h
      | inr e ↦
          let grown : length (listed w1) ≤ 10 =
            ground (arith, length-append (listed w) (c ∷ []), e) in
          rw (e, join)
            (IfDone-bind (send c msg_connect w1) (λ v. done (at_state (relay c) v))
              (λ v. v.state ≡ w1.state) IsFit (send-Leads c msg_connect w1 refl)
              (λ v p. rw (ap (λ (s : State). length s.lobby.clients) p) grown))
    ]

kept-IsFit : (w : Server) (o : Outcome Server) → IsFit w → Keeps (listed w) o → IfDone o IsFit
kept-IsFit w o h k =
    IfDone-map o (λ v. listed v ≡ listed w) IsFit (kept (listed w) o k) (λ v e. rw e h)

fit-if :
    (b : Bool) (o p : Outcome Server)
    → IfDone o IsFit
    → IfDone p IsFit
    → IfDone (if b then o else p) IsFit
fit-if true o p h k = h
fit-if false o p h k = k

awake-Keeps : (o : Option (ℕ × ℕ)) (i : ℕ) (w : Server) → Keeps (listed w) (awake o i w)
awake-Keeps none i w = done-Keeps (listed w) w refl
awake-Keeps (some (t, r)) i w =
    let w1 = at_state (λ (s : State). record s { sleepers = without_at i s.sleepers }) w in
    Keeps-if (listed w) (leb t w.state.now) _ _ (delete_chat_room-Keeps (listed w) r w1 refl)
      (done-Keeps (listed w) w refl)

step-IsFit :
    (order : List Text → List Text) (e : Event) (w : Server)
    → IsFit w
    → IfDone (step order e w) IsFit
unfolding step construct end_relay wake_sleeper close_conn
step-IsFit order accept w h = joined w.state.next_client (construct w) h
step-IsFit order (line c t text) w h = kept-IsFit w _ h (
    Keeps-if (listed w) (count c w.state.relayed == 0) _ _ (done-Keeps (listed w) w refl)
      (parse-Keeps (listed w) order _ w refl))
step-IsFit order (eof c) w h =
    fit-if (count c w.state.relayed == 0) (done w) (leave c (at_state (end_relay c) w)) h (
      IfDone-map (leave c (at_state (end_relay c) w)) (λ v. listed v ≡ remove_first c (listed w))
        IsFit (left c (at_state (end_relay c) w))
        (λ v p. rw p (omega (arith, h, length-remove_first c (listed w)))))
step-IsFit order (wake i) w h = kept-IsFit w _ h (awake-Keeps (sleeper_at i w.state.sleepers) i w)
step-IsFit order (fail c) w h = h
step-IsFit order (tick d) w h = h

run-IsFit :
    (order : List Text → List Text) (es : List Event) (w : Server)
    → IsFit w
    → IfDone (run order es w) IsFit
unfolding run
run-IsFit order [] w h = h
run-IsFit order (e ∷ es) w h =
    IfDone-bind (step order e w) (run order es) IsFit IsFit (step-IsFit order e w h)
      (run-IsFit order es)

-- After any history that the server gets through, the lobby counts at most MAX_CLIENTS clients.
pub history_fits :
    (order : List Text → List Text) (now : ℕ) (es : List Event) (v : Server)
    → run order es (start now) ≡ done v
    → length (listed v) ≤ max_clients
history_fits order now es v e =
    IfDone-eq IsFit (run order es (start now))
      (run-IsFit order es (start now) (unfold start in omega arith)) e
