-- ===== src/RoomServer/Panics.antt =====
-- Panics in the histories of newServer.go: sends on channels that are closed, and methods called on
-- a room that is not there.
use cmpt436chat_client.Prelude.{
  ap, sym, ◌∙◌, ℕ, true, List, [], ◌∷◌, ◌==◌, leb, length, ◌≡◌, refl, arith, count, ◌≢◌,
}
use cmpt436chat_client.Text.{Text, has_prefix}
use cmpt436chat_client.Goroutine.{Outcome, done, blocked, panicked}
use cmpt436chat_client.Goroutine.Safety.{Network, MayFail, unreliable, reliable, good}
use cmpt436chat_client.RoomServer.Types.{
  new_wire, Lobby, Msg, Server, comm_createroom, comm_enterroom, comm_leaveroom, comm_listrooms,
  comm_helpchat, comm_changename, comm_quitchat, clientmax, new_msg,
}
use cmpt436chat_client.RoomServer.Rooms.{at_state}
use cmpt436chat_client.RoomServer.Lobby.{join_room, parse_msg, welcome_to}
use cmpt436chat_client.RoomServer.Events.{
  Event, accept, line, eof, wake, fail, tick, construct, end_relay, step, run, start, chomp,
}
use cmpt436chat_client.RoomServer.Calm.{
  Calm, Calm-bind, Calm-done, Calm-if, Calm-if_known, send-Calm, leave_c_room-Calm, IsOpen, Ending,
  Any, enter_c_room-Calm, create_c_room-Calm, send_msg-Calm, change_username-Calm,
  list_c_rooms-Calm, close_conn-IsOpen, help-Calm,
}

parse_msg-Calm :
    {net : Network} (order : List Text → List Text) (msg : Msg) (w : Server)
    → (has_prefix msg.txt comm_quitchat ≡ true → MayFail net)
    → IsOpen net w.wires
    → Calm net Any (parse_msg order msg w)
unfolding parse_msg
parse_msg-Calm {net = net} order msg w may h =
    Calm-if Any (has_prefix msg.txt comm_createroom) _ _ (create_c_room-Calm _ _ w h) (
      Calm-if Any (has_prefix msg.txt comm_enterroom) _ _ (enter_c_room-Calm _ _ w h) (
        Calm-if Any (has_prefix msg.txt comm_leaveroom) _ _ (leave_c_room-Calm Any _ w h tt) (
          Calm-if Any (has_prefix msg.txt comm_listrooms) _ _ (list_c_rooms-Calm order _ w h) (
            Calm-if Any (has_prefix msg.txt comm_helpchat) _ _ (help-Calm _ w h) (
              Calm-if Any (has_prefix msg.txt comm_changename) _ _ (change_username-Calm _ _ w h) (
                Calm-if_known Any (has_prefix msg.txt comm_quitchat) _ _
                  (λ q. Calm-done Any _ (close_conn-IsOpen net _ w (may q) h) tt)
                  (send_msg-Calm msg w h)))))))

join_room-Calm :
    {net : Network} (c : ℕ) (w : Server)
    → (leb clientmax (length w.state.lobby.cur_clients) ≡ true → MayFail net)
    → IsOpen net w.wires
    → Calm net Any (join_room c w)
unfolding join_room
join_room-Calm {net = net} c w may h =
    Calm-if_known Any (leb clientmax (length w.state.lobby.cur_clients)) _ _
      (λ full. Calm-done Any _ (close_conn-IsOpen net c w (may full) h) tt)
      (Calm-bind {L = Any} {K = Any} _ _ (send-Calm Any c _ (at_state (welcome_to c) w) h tt)
        λ v h' l. Calm-done Any _ h' tt)

fresh-good : (net : Network) → good net new_wire ≡ true
unfolding good
fresh-good unreliable = refl
fresh-good reliable = refl

construct-IsOpen :
    (net : Network) (w : Server) → IsOpen net w.wires → IsOpen net (construct w).wires
unfolding construct
construct-IsOpen net w h d = ground (arith, h d, fresh-good net)

pub start-IsOpen : (net : Network) (now : ℕ) → IsOpen net (start now).wires
unfolding start
start-IsOpen net now d = fresh-good net

-- The event cuts no connection, where none may be cut.
abbrev pub Spares : Network → Event → Server → Type 0
Spares net accept w = leb clientmax (length w.state.lobby.cur_clients) ≡ true → MayFail net
Spares net (line c t txt) w = has_prefix (chomp txt) comm_quitchat ≡ true → MayFail net
Spares net (eof c) w = Unit
Spares net (wake i) w = Unit
Spares net (fail c) w = MayFail net
Spares net (tick d) w = Unit

constructed-roster : (w : Server) → (construct w).state.lobby ≡ w.state.lobby
unfolding construct
constructed-roster w = refl

pub step-Calm :
    (net : Network) (order : List Text → List Text) (e : Event) (w : Server)
    → Spares net e w
    → IsOpen net w.wires
    → Calm net Any (step order e w)
unfolding step
step-Calm net order accept w may h =
    join_room-Calm _ (construct w)
      (λ full.
        may (ap (λ l. leb clientmax (length l.cur_clients)) (sym (constructed-roster w)) ∙ full))
      (construct-IsOpen net w h)
step-Calm net order (line c t txt) w may h =
    Calm-if Any (count c w.state.relayed == 0) _ _ (Calm-done Any _ h tt)
      (parse_msg-Calm order (new_msg t c (chomp txt)) w (unfold new_msg in may) h)
step-Calm net order (eof c) w may h =
    Calm-if Any (count c w.state.relayed == 0) _ _ (Calm-done Any _ h tt)
      (leave_c_room-Calm Any c (at_state (end_relay c) w) h tt)
step-Calm net order (wake i) w may h = Calm-done Any _ h tt
step-Calm net order (fail c) w may h = Calm-done Any _ (close_conn-IsOpen net c w may h) tt
step-Calm net order (tick d) w may h = Calm-done Any _ h tt

Spares-unreliable : (e : Event) (w : Server) → Spares unreliable e w
Spares-unreliable accept w = λ full. tt
Spares-unreliable (line c t txt) w = λ q. tt
Spares-unreliable (eof c) w = tt
Spares-unreliable (wake i) w = tt
Spares-unreliable (fail c) w = tt
Spares-unreliable (tick d) w = tt

run-Calm :
    (order : List Text → List Text) (es : List Event) (w : Server)
    → IsOpen unreliable w.wires
    → Calm unreliable Any (run order es w)
unfolding run
run-Calm order [] w h = Calm-done Any _ h tt
run-Calm order (e ∷ es) w h =
    Calm-bind {L = Any} {K = Any} (step order e w) (run order es)
      (step-Calm unreliable order e w (Spares-unreliable e w) h) λ v h' l. run-Calm order es v h'

not-panicked :
    (L : Lobby → Type 0) (o : Outcome Server) (v : Server) → Ending unreliable L o → o ≢ panicked v
not-panicked L (done w) v h e = cc
not-panicked L (blocked w) v h e = cc
not-panicked L (panicked w) v h e = h

-- No history from the start ends in a panic: no message is sent on a closed channel, and no method
-- is called on a room that is not in the map.
pub run-start-ne-panicked :
    (order : List Text → List Text) (now : ℕ) (es : List Event) (v : Server)
    → run order es (start now) ≢ panicked v
run-start-ne-panicked order now es v =
    not-panicked Any (run order es (start now)) v
      (run-Calm order es (start now) (start-IsOpen unreliable now)).ending
