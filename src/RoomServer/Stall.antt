-- ===== src/RoomServer/Stall.antt =====
-- A client whose connection has broken stops the lobby's goroutine.
use cmpt436chat_client.Prelude.{
  ℕ, ◌<◌, false, List, [], ◌∷◌, some, ◌≡◌, refl, arith, ◌≢◌, count, sym, ◌∙◌,
}
use cmpt436chat_client.Text.{Text}
use cmpt436chat_client.Goroutine.{done, send, send_all, write_round}
use cmpt436chat_client.Goroutine.Laws.{IfDone, IfDone-bind, IfDone-map, IfDone-eq}
use cmpt436chat_client.RoomServer.Types.{State, Server, Msg, to_string}
use cmpt436chat_client.RoomServer.Rooms.{logged, broadcast, at_state}
use cmpt436chat_client.RoomServer.Lobby.{room_of, send_msg}
use cmpt436chat_client.RoomServer.Invariant.{Inv, members}
use cmpt436chat_client.RoomServer.Effects.{said, send_msg-Leads}

-- A writer that has left its loop never starts again, and a failing connection never recovers.
module _ (c : ℕ) where
  abbrev IsCut : Server → Type 0
  IsCut w = (w.wires c).conn_open ≡ false

  abbrev IsStopped : Server → Type 0
  IsStopped w = (w.wires c).writing ≡ false

  send-IsCut :
      (d : ℕ) (msg : Text) (w : Server)
      → IsCut w
      → IfDone
          (send d msg w)
          (λ v. IsCut v × (c ≡ d → IsStopped v) × (IsStopped w → IsStopped v × (c ≢ d)))
  unfolding send write_round
  send-IsCut d msg w h = ground arith

  send_all-IsCut :
      (ds : List ℕ) (msg : Text) (w : Server)
      → IsCut w
      → IfDone (send_all ds msg w) (λ v.
        IsCut v × (0 < count c ds → IsStopped v) × (IsStopped w → IsStopped v × (count c ds ≡ 0)))
  unfolding send_all count
  send_all-IsCut [] msg w h = (h, λ p. absurd (omega arith), λ s. (s, refl))
  send_all-IsCut (d ∷ ds) msg w h =
      IfDone-bind (send d msg w) (send_all ds msg)
        (λ v. IsCut v × (c ≡ d → IsStopped v) × (IsStopped w → IsStopped v × (c ≢ d))) _
        (send-IsCut d msg w h)
        λ v (cut, hit, still).
          IfDone-map (send_all ds msg v) _ _ (send_all-IsCut ds msg v cut) λ u (cut', hit', still').
            (cut', λ p. ground (arith, hit, hit', still'), λ s. ground (arith, still s, still'))

  broadcast-IsCut :
      (r : ℕ) (msg : Text) (w : Server)
      → IsCut w
      → 0 < count c (members r w.state)
      → IfDone (broadcast r msg w) (λ v. IsCut v × IsStopped v)
  unfolding broadcast
  broadcast-IsCut r msg w h m =
      IfDone-map (send_all (members r w.state) msg (at_state (logged r msg) w)) _ _
        (send_all-IsCut (members r w.state) msg (at_state (logged r msg) w) (unfold logged in h))
        λ v (cut, hit, still). (cut, hit m)

  broadcast-stopped :
      (r : ℕ) (msg : Text) (w : Server)
      → IsCut w
      → IsStopped w
      → 0 < count c (members r w.state)
      → IfDone (broadcast r msg w) (λ v. ⊥)
  unfolding broadcast
  broadcast-stopped r msg w h s m =
      IfDone-map (send_all (members r w.state) msg (at_state (logged r msg) w)) _ _
        (send_all-IsCut (members r w.state) msg (at_state (logged r msg) w) (unfold logged in h))
        λ v (cut, hit, still). ground (arith, still s)

send_msg_in_room :
    (r : ℕ) (msg : Msg) (w : Server)
    → room_of msg.client w.state ≡ some r
    → send_msg msg w ≡ broadcast r (to_string w.state msg) w
unfolding send_msg
send_msg_in_room r msg w e = rw (e, send_msg)

-- A message leaves everybody where they are.
said-stays :
    (msg : Msg) (s : State) (c r : ℕ)
    → (room_of c (said msg s) ≡ room_of c s) × (members r (said msg s) ≡ members r s)
unfolding said logged
said-stays msg s c r = ground arith

-- When the connection of a client in a room has broken, two messages in the room never both get
-- through to the end of their handling: if the first does, the second does not.
pub cut_member_stalls :
    (r c : ℕ) (a b : Msg) (w v u : Server)
    → Inv w.state
    → room_of c w.state ≡ some r
    → (w.wires c).conn_open ≡ false
    → room_of a.client w.state ≡ some r
    → room_of b.client w.state ≡ some r
    → send_msg a w ≡ done v
    → send_msg b v ≢ done u
cut_member_stalls r c a b w v u i at cut from to first second =
    let moved : v.state ≡ said a w.state =
      IfDone-eq (λ (x : Server). x.state ≡ said a w.state) (send_msg a w) (send_msg-Leads a w)
        first in
    let (rooms, same) = said-stays a w.state b.client r in
    let member : 0 < count c (members r w.state) =
      ground (arith, i.placed c r (i.located c r at)) in
    let (cut', stopped) =
      IfDone-eq (λ x. IsCut c x × IsStopped c x) (broadcast r (to_string w.state a) w)
        (broadcast-IsCut c r (to_string w.state a) w cut member)
        (sym (send_msg_in_room r a w from) ∙ first) in
    IfDone-eq (λ x. ⊥) (broadcast r (to_string v.state b) v)
      (broadcast-stopped c r (to_string v.state b) v cut' stopped (rw (moved, same) member))
      (sym (send_msg_in_room r b v (rw (moved, rooms) to)) ∙ second)
