-- ===== src/RpcChat/Locks/Deadlock.antt =====
-- Two goroutines of `Evan's Work/Assign 2/server` that wait for each other: a call that sends to a
-- room under the read lock of its client (receiver.go, SendMsg, JoinCRoom and LeaveCRoom), and the
-- room, which waits for that lock (cRoom.go, AddClient and removeClient).
use cmpt436chat_client.Prelude.{ℕ, List, [], ◌∷◌, Option, none, some, ◌≡◌, refl, subst, ap, ◌==◌}
use cmpt436chat_client.RpcChat.Types.{Tid, loop}
use cmpt436chat_client.RpcChat.Program.{Program, Signal, acquire, offer, take, tell, listen}
use cmpt436chat_client.RpcChat.Rooms.{on_signal}
use cmpt436chat_client.RpcChat.Receiver.{served}
use cmpt436chat_client.RpcChat.System.{
  System, Event, arrive, go, meet, reach, tick, hand, signal, room_of_signal, happen, step, run,
  start,
}
use cmpt436chat_client.RpcChat.Locks.Discipline.{Mode, reading, waiting, Obeys}
use cmpt436chat_client.RpcChat.Locks.Modes.{mode_of}
use cmpt436chat_client.RpcChat.Locks.Steps.{modes, Inv, IfSome, IfSome-if, IfSome-unless}
use cmpt436chat_client.RpcChat.Locks.History.{step-Inv, IfSome-bind, IfSome-eq, run-start-Inv}
use cmpt436chat_client.RpcChat.Locks.Waiting.{
  waiting_announced, reading_times, Stuck, Waits, apart, started-Waits, advance-Waits, both-Waits,
}

IfSome-both :
    (P Q : System → Type 0) (o : Option System)
    → IfSome o P
    → IfSome o Q
    → IfSome o (λ s. P s × Q s)
IfSome-both P Q none h k = tt
IfSome-both P Q (some s) h k = (h, k)

module _ (t : Tid) (r c : ℕ) (sig : Signal) (sending waiting_for : Program) where
  abbrev Waiting : System → Type 0
  Waiting = Waits t r c sig sending waiting_for

  hand-Waits :
      (s : System) (u w : Tid) (x y : Program)
      → Waiting s
      → s.programs u ≡ x
      → s.programs w ≡ y
      → IfSome (hand u w x y s) Waiting
  hand-Waits s u w (offer d msg rest) (take d' receive) k e f = IfSome-if (d == d') _ Waiting λ g.
      both-Waits t r c sig sending waiting_for s u w rest (receive msg) k
        (apart t r c sig sending waiting_for s w u (rw (e, f) (λ z. cc))) (rw e (λ z. cc))
        (rw e (λ z. cc)) (rw f (λ z. cc)) (rw f (λ z. cc))
  hand-Waits s u w x y k e f = tt

  signal-Waits :
      (s : System) (u : Tid) (x y : Program)
      → Waiting s
      → s.programs u ≡ x
      → s.programs (loop (room_of_signal x)) ≡ y
      → IfSome (signal u x y s) Waiting
  signal-Waits s u (tell d told rest) (listen d') k e f = IfSome-if (d == d') _ Waiting λ g.
      both-Waits t r c sig sending waiting_for s u (loop d) rest (on_signal d told) k
        (apart t r c sig sending waiting_for s (loop d) u (rw (e, f) (λ z. cc)))
        (rw e (λ y. cc (ap room_of_signal y))) (rw e (λ z. cc)) (rw f (λ z. cc)) (rw f (λ z. cc))
  signal-Waits s u x y k e f = tt

  happen-Waits : (e : Event) (s : System) → Inv s → Waiting s → IfSome (happen e s) Waiting
  unfolding happen
  happen-Waits (arrive x) s v k = started-Waits t r c sig sending waiting_for s (served x) v k
  happen-Waits (go u) s v k =
      advance-Waits t r c sig sending waiting_for s u (s.programs u) v k refl (v.obeys u)
  happen-Waits (meet u w) s v k = hand-Waits s u w (s.programs u) (s.programs w) k refl refl
  happen-Waits (reach u) s v k =
      signal-Waits s u (s.programs u) (s.programs (loop (room_of_signal (s.programs u)))) k refl
        refl
  happen-Waits (tick d) s v k = record {
    sends = k.sends;
    waits = k.waits;
    reads = k.reads;
    bars = k.bars;
  }

  abbrev Both : System → Type 0
  Both s = Inv s × Waiting s

  run-Waits : (es : List Event) (s : System) → Both s → IfSome (run es s) Both
  unfolding run step
  run-Waits [] s b = b
  run-Waits (e ∷ es) s b =
      IfSome-bind (step e s) (run es) Both
        (IfSome-both Inv Waiting (step e s) (step-Inv e s b.0)
          (IfSome-unless s.crashed (happen e s) Waiting (happen-Waits e s b.0 b.1)))
        (run-Waits es)

acquire_waits :
    (ms : ℕ → Mode) (x : Program) (c : ℕ) (rest : Program)
    → x ≡ acquire c rest
    → Obeys ms x
    → ms c ≡ waiting
acquire_waits ms x c rest e o = (subst (Obeys ms) e o).0

-- In a state that the server comes to, a call or another goroutine sends to a room while it reads a
-- client, and the room waits for that client's lock. Then, whatever happens afterwards, neither of
-- the two ever goes on.
pub stuck_for_ever :
    (es fs : List Event) (now : ℕ) (s u : System) (t : Tid) (r c : ℕ) (sig : Signal)
    (rest behind : Program)
    → run es (start now) ≡ some s
    → s.programs t ≡ tell r sig rest
    → mode_of t (s.mutexes c) ≡ reading
    → s.programs (loop r) ≡ acquire c behind
    → run fs s ≡ some u
    → (u.programs t ≡ tell r sig rest) × (u.programs (loop r) ≡ acquire c behind)
stuck_for_ever es fs now s u t r c sig rest behind e sends reads waits later =
    let v = run-start-Inv es now s e in
    let k : Stuck t r c (tell r sig rest) (acquire c behind) s = record {
      sends = sends;
      waits = waits;
      reads = reading_times t (s.mutexes c) reads;
      bars = waiting_announced (loop r) (s.mutexes c) (
          acquire_waits (modes s (loop r)) (s.programs (loop r)) c behind waits (v.obeys (loop r)));
    } in
    let both =
      IfSome-eq (Both t r c sig rest behind) (run fs s)
        (run-Waits t r c sig rest behind fs s (v, k)) later in
    (both.1.sends, both.1.waits)
