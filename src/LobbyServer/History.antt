-- ===== src/LobbyServer/History.antt =====
-- The histories of ken/server.go.
use cmpt436chat_client.Prelude.{
  true, ℕ, ◌≤◌, List, [], ◌∷◌, ◌==◌, ◌≡◌, ◌≢◌, refl, subst, arith, Bool-cases, inl, inr, count,
  length,
}
use cmpt436chat_client.Text.{Text, has_prefix}
use cmpt436chat_client.Table.{lookup}
use cmpt436chat_client.Goroutine.{Outcome, done, blocked, panicked}
use cmpt436chat_client.Goroutine.Safety.{
  unreliable, reliable, Network, MayFail, NoPanic, NoPanic-bind,
}
use cmpt436chat_client.LobbyServer.Types.{
  cmd_quit, Server, max_clients, new_client, new_lobby, new_message,
}
use cmpt436chat_client.LobbyServer.Events.{
  Event, accept, line, eof, wake, fail, tick, chomp, step, run, start,
}
use cmpt436chat_client.LobbyServer.Capacity.{history_fits, listed}
use cmpt436chat_client.LobbyServer.Arrival.{Books, close_conn-Books}
use cmpt436chat_client.LobbyServer.Reach.{
  tick-Books, accept-Books, eof-Books, wake-Books, line-Books,
}

-- The events of a network on which no connection fails: no connection is cut, and no client quits.
abbrev pub Spares : Network → Event → Type 0
Spares net accept = Unit
Spares net (line c t text) = has_prefix (chomp text) cmd_quit ≡ true → MayFail net
Spares net (eof c) = Unit
Spares net (wake i) = Unit
Spares net (fail c) = MayFail net
Spares net (tick d) = Unit

abbrev pub AllSpare : Network → List Event → Type 0
AllSpare net [] = Unit
AllSpare net (e ∷ es) = Spares net e × AllSpare net es

step-Books :
    (net : Network) (order : List Text → List Text) (e : Event) (w : Server)
    → Spares net e
    → Books net w
    → NoPanic net (Books net) (step order e w)
unfolding step new_message
step-Books net order accept w may b = accept-Books net w b
step-Books net order (line c t text) w may b = elim (Bool-cases (count c w.state.relayed == 0)) [
  | inl e ↦ rw e b
  | inr e ↦ rw e (line-Books net w b order (new_message t c (chomp text)) (ground (arith, e)) may)
]
step-Books net order (eof c) w may b = elim (Bool-cases (count c w.state.relayed == 0)) [
  | inl e ↦ rw e b
  | inr e ↦ rw e (eof-Books net w b c (ground (arith, e)))
]
step-Books net order (wake i) w may b = wake-Books net w b i
step-Books net order (fail c) w may b = close_conn-Books net c w (λ on. may) b
step-Books net order (tick d) w may b = tick-Books net d w b

run-Books :
    (net : Network) (order : List Text → List Text) (es : List Event) (w : Server)
    → AllSpare net es
    → Books net w
    → NoPanic net (Books net) (run order es w)
unfolding run
run-Books net order [] w may b = b
run-Books net order (e ∷ es) w may b =
    NoPanic-bind net (Books net) (Books net) (step order e w) (run order es)
      (step-Books net order e w may.0 b) (λ v c. run-Books net order es v may.1 c)

start-Books : (net : Network) (now : ℕ) → Books net (start now)
unfolding start new_client new_lobby lookup count
start-Books net now = record {
  inv = record {
    titled = λ name r h. ground (arith, h);
    allocated = λ name r h. ground (arith, h);
    located = λ c r h. ground (arith, h);
    placed = λ c r h. ground (arith, h);
    heard = λ c r h. ground (arith, h);
    once = λ c. ground arith;
    known = λ c h. refl;
    counted = λ c. refl;
  };
  watched = λ r. refl;
  ready = λ c h. ground (arith, h);
}

-- Where connections may fail, every event is spared.
Spares-unreliable : (e : Event) → Spares unreliable e
Spares-unreliable accept = tt
Spares-unreliable (line c t text) = λ q. tt
Spares-unreliable (eof c) = tt
Spares-unreliable (wake i) = tt
Spares-unreliable (fail c) = tt
Spares-unreliable (tick d) = tt

AllSpare-unreliable : (es : List Event) → AllSpare unreliable es
AllSpare-unreliable [] = tt
AllSpare-unreliable (e ∷ es) = (Spares-unreliable e, AllSpare-unreliable es)

any-Books :
    (order : List Text → List Text) (now : ℕ) (es : List Event)
    → NoPanic unreliable (Books unreliable) (run order es (start now))
any-Books order now es =
    run-Books unreliable order es (start now) (AllSpare-unreliable es) (start-Books unreliable now)

-- After any history that the server gets through, its books are in order and the lobby counts at
-- most MAX_CLIENTS clients. In order means: a room in the map stands under its own name and has
-- been made, and has one goroutine that sleeps for it, while other rooms have none; a client's room
-- is in the map; a room in the map lists exactly the clients whose room it is, each once; a client
-- for whom a goroutine relays has been made, has one such goroutine, stands on the lobby's list
-- once, and its channel is open; the lobby's list holds no other clients; and a client in a room is
-- relayed for.
pub history_in_order :
    (order : List Text → List Text) (now : ℕ) (es : List Event) (v : Server)
    → run order es (start now) ≡ done v
    → Books unreliable v × (length (listed v) ≤ max_clients)
history_in_order order now es v e = (
  subst (NoPanic unreliable (Books unreliable)) e (any-Books order now es),
  history_fits order now es v e,
)

-- Whatever the order in which the lobby meets the names in its map, and whatever happens, no
-- history ends in a panic: nothing is sent on a closed channel, no channel is closed twice, and no
-- nil room is joined.
pub history_never_panics :
    (order : List Text → List Text) (now : ℕ) (es : List Event) (v : Server)
    → run order es (start now) ≢ panicked v
history_never_panics order now es v e =
    subst (NoPanic unreliable (Books unreliable)) e (any-Books order now es)

-- Where no connection fails and no client quits, the server gets through every history, and its
-- books are then in order: no send waits for ever, and the writer of every client that is relayed
-- for runs and reaches its connection.
pub history_goes_on :
    (order : List Text → List Text) (now : ℕ) (es : List Event)
    → AllSpare reliable es
    → (v : Server) × (run order es (start now) ≡ done v) × Books reliable v
history_goes_on order now es may =
    through (run order es (start now))
      (run-Books reliable order es (start now) may (start-Books reliable now))
  where
    through :
        (o : Outcome Server)
        → NoPanic reliable (Books reliable) o
        → (v : Server) × (o ≡ done v) × Books reliable v
    through (done v) b = (v, refl, b)
    through (blocked v) h = absurd h
    through (panicked v) h = absurd h
