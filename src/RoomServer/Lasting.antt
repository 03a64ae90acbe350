-- ===== src/RoomServer/Lasting.antt =====
-- The histories of newServer.go in which no connection is cut.
use cmpt436chat_client.Prelude.{ℕ, ◌+◌, ◌≤◌, false, List, [], ◌∷◌, length, ◌≡◌, refl, ap, arith}
use cmpt436chat_client.Text.{Text, has_prefix}
use cmpt436chat_client.Goroutine.{Outcome, done, blocked, panicked, ◌>>=◌}
use cmpt436chat_client.Goroutine.Laws.{IfDone}
use cmpt436chat_client.Goroutine.Safety.{reliable}
use cmpt436chat_client.RoomServer.Types.{Server, clientmax, comm_quitchat, new_lobby}
use cmpt436chat_client.RoomServer.Events.{
  Event, accept, line, eof, wake, fail, tick, step, run, start, chomp,
}
use cmpt436chat_client.RoomServer.Reach.{Books, run-start-Books, stepped, step-Leads}
use cmpt436chat_client.RoomServer.Capacity.{roster, accepts, stepped-length}
use cmpt436chat_client.RoomServer.Calm.{IsOpen, Ending, Any}
use cmpt436chat_client.RoomServer.Panics.{Spares, start-IsOpen, step-Calm}

-- No connection fails, and no client quits.
abbrev pub IsGentle : Event → Type 0
IsGentle accept = Unit
IsGentle (line c t txt) = has_prefix (chomp txt) comm_quitchat ≡ false
IsGentle (eof c) = Unit
IsGentle (wake i) = Unit
IsGentle (fail c) = ⊥
IsGentle (tick d) = Unit

abbrev pub AllGentle : List Event → Type 0
AllGentle [] = Unit
AllGentle (e ∷ es) = IsGentle e × AllGentle es

Spares-gentle :
    (e : Event) (es : List Event) (w : Server)
    → IsGentle e
    → length (roster w.state) + accepts (e ∷ es) ≤ clientmax
    → Spares reliable e w
Spares-gentle accept es w g room = λ full. ground (arith, room, full)
Spares-gentle (line c t txt) es w g room = λ q. ground (arith, g, q)
Spares-gentle (eof c) es w g room = tt
Spares-gentle (wake i) es w g room = tt
Spares-gentle (fail c) es w g room = g
Spares-gentle (tick d) es w g room = tt

Ending-next :
    (P : Server → Type 0) (o : Outcome Server) (f : Server → Outcome Server)
    → Ending reliable Any o
    → IfDone o P
    → ((v : Server) → P v → IsOpen reliable v.wires → Ending reliable Any (f v))
    → Ending reliable Any (o >>= f)
Ending-next P (done v) f h p k = k v p h.0
Ending-next P (blocked v) f h p k = h
Ending-next P (panicked v) f h p k = h

run-Ending :
    (order : List Text → List Text) (es : List Event) (w : Server)
    → AllGentle es
    → length (roster w.state) + accepts es ≤ clientmax
    → IsOpen reliable w.wires
    → Ending reliable Any (run order es w)
unfolding run
run-Ending order [] w g room h = (h, tt)
run-Ending order (e ∷ es) w g room h =
    Ending-next (λ v. v.state ≡ stepped e w) (step order e w) (run order es)
      (step-Calm reliable order e w (Spares-gentle e es w g.0 room) h).ending (step-Leads order e w)
      (λ v same. run-Ending order es v g.1 (fits v same))
  where
    fits : (v : Server) → v.state ≡ stepped e w → length (roster v.state) + accepts es ≤ clientmax
    fits v same = ground (arith, ap (λ s. length (roster s)) same, stepped-length e es w, room)

-- If no connection fails, no client quits and at most CLIENTMAX connections come in, the server
-- gets through the whole history: no send waits for ever and nothing panics. In the end the lobby's
-- books are in order, and every client's channel is open, its writer runs and its writes reach the
-- connection.
pub run-start_goes_on :
    (order : List Text → List Text) (now : ℕ) (es : List Event)
    → AllGentle es
    → accepts es ≤ clientmax
    → (w : Server) × (run order es (start now) ≡ done w) × Books w.state × IsOpen reliable w.wires
run-start_goes_on order now es g room = through (run order es (start now)) refl (
    run-Ending order es (start now) g (unfold start new_lobby in omega (arith, room))
      (start-IsOpen reliable now))
  where
    through :
        (o : Outcome Server)
        → run order es (start now) ≡ o
        → Ending reliable Any o
        → (w : Server) × (run order es (start now) ≡ done w)
          × Books w.state
          × IsOpen reliable w.wires
    through (done w) e h = (w, e, run-start-Books order now es w e, h.0)
    through (blocked w) e h = absurd h
    through (panicked w) e h = absurd h
