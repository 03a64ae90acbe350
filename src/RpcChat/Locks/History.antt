-- ===== src/RpcChat/Locks/History.antt =====
-- Every history of the server keeps the goroutines' obligations and the locks in agreement.
use cmpt436chat_client.Prelude.{
  ℕ, Bool, true, false, List, [], ◌∷◌, Option, none, some, ◌≡◌, ◌≢◌, refl, sym, subst, arith, ◌==◌,
}
use cmpt436chat_client.RpcChat.Registry.{ok}
use cmpt436chat_client.RpcChat.Types.{Tid, call, loop, same_tid}
use cmpt436chat_client.RpcChat.Program.{Program, finish, offer, take, tell, listen}
use cmpt436chat_client.RpcChat.Rooms.{on_signal}
use cmpt436chat_client.RpcChat.Receiver.{served}
use cmpt436chat_client.RpcChat.System.{
  System, Event, arrive, go, meet, reach, tick, hand, signal, room_of_signal, happen, step, run,
  start, at_start, ◌>>=◌, put,
}
use cmpt436chat_client.RpcChat.Locks.Discipline.{
  Mode, idle, all_idle, Obeys, Obeys-eq, on_signal-Obeys,
}
use cmpt436chat_client.RpcChat.Locks.Calls.{served-Obeys}
use cmpt436chat_client.RpcChat.Locks.Modes.{same_tid_iff, times, mode_of}
use cmpt436chat_client.RpcChat.Locks.Steps.{
  modes, Inv, went_on, started, advance-Inv, IfSome, IfSome-if, IfSome-unless,
}

-- Two goroutines go on together.
both-Inv :
    (s : System) (t u : Tid) (p q : Program)
    → Inv s
    → s.programs t ≢ finish (ok [])
    → s.programs u ≢ finish (ok [])
    → same_tid t u ≡ false
    → Obeys (modes s t) p
    → Obeys (modes s u) q
    → Inv (put t p (put u q s))
both-Inv s t u p q v busy_t busy_u apart o k =
    went_on (put u q s) t p s.memory (went_on s u q s.memory v busy_u k) (rw apart busy_t) o

hand-Inv :
    (s : System) (t u : Tid) (p q : Program)
    → Inv s
    → s.programs t ≡ p
    → s.programs u ≡ q
    → Obeys (modes s t) p
    → Obeys (modes s u) q
    → IfSome (hand t u p q s) Inv
hand-Inv s t u (offer c msg rest) (take d receive) v e k o h = IfSome-if (c == d) _ Inv λ f.
    both-Inv s t u rest (receive msg) v (λ x. cc) (λ x. cc) (ground (arith, same_tid_iff t u)) o
      (h msg)
hand-Inv s t u p q v e k o h = tt

signal-Inv :
    (s : System) (t : Tid) (p q : Program) (r : ℕ)
    → room_of_signal p ≡ r
    → Inv s
    → s.programs t ≡ p
    → s.programs (loop r) ≡ q
    → Obeys (modes s t) p
    → Obeys (modes s (loop r)) q
    → IfSome (signal t p q s) Inv
signal-Inv s t (tell r sig rest) (listen x) y g v e k o h = IfSome-if (r == x) _ Inv λ f.
    both-Inv s t (loop r) rest (on_signal r sig) v (λ z. cc) (λ z. ground arith)
      (ground (arith, same_tid_iff t (loop r))) o
      (Obeys-eq all_idle (modes s (loop r)) (on_signal r sig)
        (λ d. subst (λ z. idle ≡ modes s (loop z) d) (sym g) (sym (h d))) (on_signal-Obeys r sig))
signal-Inv s t p q y g v e k o h = tt

happen-Inv : (e : Event) (s : System) → Inv s → IfSome (happen e s) Inv
unfolding happen
happen-Inv (arrive q) s v = started s (served q) v (served-Obeys q)
happen-Inv (go t) s v = advance-Inv s t (s.programs t) v refl (v.obeys t)
happen-Inv (meet t u) s v =
    hand-Inv s t u (s.programs t) (s.programs u) v refl refl (v.obeys t) (v.obeys u)
happen-Inv (reach t) s v =
    let r = room_of_signal (s.programs t) in
    signal-Inv s t (s.programs t) (s.programs (loop r)) r refl v refl refl (v.obeys t)
      (v.obeys (loop r))
happen-Inv (tick d) s v = record { obeys = v.obeys; sound = v.sound; unused = v.unused }

pub step-Inv : (e : Event) (s : System) → Inv s → IfSome (step e s) Inv
unfolding step
step-Inv e s v = IfSome-unless s.crashed (happen e s) Inv (happen-Inv e s v)

pub IfSome-bind :
    (o : Option System) (f : System → Option System) (P : System → Type 0)
    → IfSome o P
    → ((s : System) → P s → IfSome (f s) P)
    → IfSome (o >>= f) P
IfSome-bind none f P h k = tt
IfSome-bind (some s) f P h k = k s h

pub run-Inv : (es : List Event) (s : System) → Inv s → IfSome (run es s) Inv
unfolding run
run-Inv [] s v = v
run-Inv (e ∷ es) s v = IfSome-bind (step e s) (run es) Inv (step-Inv e s v) (run-Inv es)

start-Inv : (now : ℕ) → Inv (start now)
unfolding start times
start-Inv now = record {
  obeys = fresh;
  sound = λ c. record { once = λ t. omega arith; alone = λ t e. refl };
  unused = λ n h. refl;
}
  where
    fresh : (t : Tid) → Obeys (modes (start now) t) (at_start t)
    fresh (call n) = λ c. refl
    fresh (loop r) = λ c. refl

pub IfSome-eq :
    (P : System → Type 0) {s : System} (o : Option System) → IfSome o P → o ≡ some s → P s
IfSome-eq P none h e = cc
IfSome-eq P (some t) h e = subst P (cc) h

pub run-start-Inv : (es : List Event) (now : ℕ) (s : System) → run es (start now) ≡ some s → Inv s
run-start-Inv es now s e =
    IfSome-eq Inv (run es (start now)) (run-Inv es (start now) (start-Inv now)) e

-- A call that has returned, and a room's goroutine that waits for what comes.
abbrev pub at_rest : Program → Bool
at_rest (finish reply) = true
at_rest (listen r) = true
at_rest p = false

rest-idle : (ms : ℕ → Mode) (p : Program) (c : ℕ) → at_rest p ≡ true → Obeys ms p → ms c ≡ idle
rest-idle ms (finish reply) c r o = o c
rest-idle ms (listen x) c r o = o c
rest-idle ms p c r o = cc

-- After any history of calls and steps, whatever their order: a call that has returned, and a
-- room's goroutine that waits for a signal, holds no client's lock, for reading or for writing, and
-- does not wait for one.
pub locks_released :
    (es : List Event) (now : ℕ) (s : System) (t : Tid) (c : ℕ)
    → run es (start now) ≡ some s
    → at_rest (s.programs t) ≡ true
    → mode_of t (s.mutexes c) ≡ idle
locks_released es now s t c e rest =
    rest-idle (modes s t) (s.programs t) c rest ((run-start-Inv es now s e).obeys t)
