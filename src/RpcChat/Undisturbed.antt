-- ===== src/RpcChat/Undisturbed.antt =====
-- A goroutine of `Evan's Work/Assign 2/server` that runs while the others only take the texts it
-- sends.
use cmpt436chat_client.Prelude.{
  &&_split, ℕ, Bool, true, false, ◌&&◌, List, [], ◌∷◌, ◌++◌, Option, none, some, ◌≡◌, refl, sym,
  subst, ap, ◌∙◌, if◌then◌else◌, ◌==◌, append_assoc, append-nil,
}
use cmpt436chat_client.Text.{Text}
use cmpt436chat_client.RpcChat.Types.{Memory, Tid, loop, same_tid}
use cmpt436chat_client.RpcChat.Program.{Program, Signal, offer, take, listen}
use cmpt436chat_client.RpcChat.Rooms.{on_signal}
use cmpt436chat_client.RpcChat.System.{
  System, Event, arrive, go, meet, reach, tick, advance, hand, happen, step, run, ◌>>=◌, put,
}
use cmpt436chat_client.RpcChat.Locks.{same_tid_iff}
use cmpt436chat_client.RpcChat.Outcomes.{Signalled, signal_comes_to}
use cmpt436chat_client.RpcChat.Alone.{settle, before, advance-settle, put_if-settle}

-- The steps of a goroutine by itself, and those in which another one takes its text.
abbrev pub is_own : Tid → Event → Bool
is_own t (arrive q) = false
is_own t (go u) = same_tid t u
is_own t (meet u w) = same_tid t u
is_own t (reach u) = false
is_own t (tick d) = false

abbrev pub all_own : Tid → List Event → Bool
all_own t [] = true
all_own t (e ∷ es) = is_own t e && all_own t es

abbrev pub text_of : Program → List (ℕ × Text)
text_of (offer c msg rest) = (c, msg) ∷ []
text_of p = []

-- The text that a step hands over.
abbrev pub given : Tid → Event → System → List (ℕ × Text)
given t (meet u w) s = text_of (s.programs t)
given t e s = []

-- The texts that a goroutine hands over in a history, each with its client.
unfoldable pub handed : Tid → List Event → System → List (ℕ × Text)
handed t [] s = []
handed t (e ∷ es) s = given t e s ++ (elim (step e s) [ none ↦ [] | some u ↦ handed t es u ])

hand-settle :
    (s u : System) (t w : Tid) (p q : Program)
    → s.programs t ≡ p
    → s.programs w ≡ q
    → hand t w p q s ≡ some u
    → settle p s.memory ≡ before (text_of p) (settle (u.programs t) u.memory)
unfolding settle
hand-settle s u t w (offer c msg rest) (take d receive) e f h =
    ap (before ((c, msg) ∷ [])) (sym (put_if-settle (c == d) (put w (receive msg) s) u t rest h))
hand-settle s u t w p q e f h = cc

-- A step of a process that has not crashed.
step-happen : (e : Event) (s u : System) → step e s ≡ some u → happen e s ≡ some u
unfolding step
step-happen e s u h = unless s.crashed (happen e s) h
  where
    unless : (b : Bool) (o : Option System) → (if b then none else o) ≡ some u → o ≡ some u
    unless true o h = cc
    unless false o h = h

happen-settle :
    (e : Event) (s u : System) (t : Tid)
    → is_own t e ≡ true
    → happen e s ≡ some u
    → settle (s.programs t) s.memory ≡ before (given t e s) (settle (u.programs t) u.memory)
unfolding happen
happen-settle (arrive q) s u t o h = cc
happen-settle (go x) s u t o h =
    let same = (same_tid_iff t x).0 o in
    sym (
      advance-settle s u t (s.programs t) refl
        (subst (λ y. advance y (s.programs y) s ≡ some u) (sym same) h))
happen-settle (meet x w) s u t o h =
    let same = (same_tid_iff t x).0 o in
    hand-settle s u t w (s.programs t) (s.programs w) refl refl
      (subst (λ y. hand y w (s.programs y) (s.programs w) s ≡ some u) (sym same) h)
happen-settle (reach x) s u t o h = cc
happen-settle (tick d) s u t o h = cc

before-before :
    (xs ys : List (ℕ × Text)) (out : Memory × List (ℕ × Text))
    → before xs (before ys out) ≡ before (xs ++ ys) out
before-before xs ys out = ap (λ zs. (out.0, zs)) (sym (append_assoc xs ys out.1))

abbrev onward : Tid → List Event → Option System → List (ℕ × Text)
onward t es o = elim o [ none ↦ [] | some u ↦ handed t es u ]

-- While a goroutine takes its own steps, what it comes to stays what it was, but for what it has
-- handed over.
run-settle :
    (es : List Event) (s u : System) (t : Tid)
    → all_own t es ≡ true
    → run es s ≡ some u
    → settle (s.programs t) s.memory ≡ before (handed t es s) (settle (u.programs t) u.memory)
unfolding run handed
run-settle [] s u t o h = let e : s ≡ u = cc in ap (λ x. settle (x.programs t) x.memory) e
run-settle (e ∷ es) s u t o h = by_step (λ v k. run-settle es v u t own.1 k) (step e s) refl h
  where
    own : (is_own t e ≡ true) × (all_own t es ≡ true)
    own = &&_split (is_own t e) (all_own t es) o

    by_step :
        ((v : System)
          → run es v ≡ some u
          → settle (v.programs t) v.memory
            ≡ before (handed t es v) (settle (u.programs t) u.memory))
        → (x : Option System) → step e s ≡ x
        → (x >>= run es) ≡ some u
        → settle (s.programs t) s.memory
          ≡ before (given t e s ++ onward t es (step e s)) (settle (u.programs t) u.memory)
    by_step again none k h = cc
    by_step again (some v) k h =
        happen-settle e s v t own.0 (step-happen e s v k)
        ∙ ap (before (given t e s)) (again v h)
        ∙ before-before (given t e s) (handed t es v) (settle (u.programs t) u.memory)
        ∙ ap (λ y. before (given t e s ++ onward t es y) (settle (u.programs t) u.memory)) (sym k)

module _ (es : List Event) (s u : System) (r q : ℕ) (sig : Signal)
    (here : s.programs (loop r) ≡ on_signal r sig) (own : all_own (loop r) es ≡ true)
    (h : run es s ≡ some u) (there : u.programs (loop r) ≡ listen q) where
  undisturbed-settle : (u.memory, handed (loop r) es s) ≡ settle (on_signal r sig) s.memory
  unfolding settle
  undisturbed-settle =
      let t = loop r in
      sym (
        ap (λ p. settle p s.memory) (sym here)
        ∙ run-settle es s u t own h
        ∙ ap (λ p. before (handed t es s) (settle p u.memory)) there
        ∙ ap (λ out. (u.memory, out)) (append-nil _))

-- A room's goroutine takes a signal, and goes on, step by step, until it listens again, while the
-- others only take the texts that it sends. Then every text has gone to the client it was for, in
-- order, and the memory is as follows. A newcomer has been announced to the room's clients and been
-- sent everything that was said in the room, the announcement included; it stands behind the others
-- among the room's clients, and is in the room. A client that leaves has been announced to all of
-- them, is off their list once, and is in no room. A text has gone to all. Each of the three texts
-- is the room's last message, and makes the room expire EXTIME from now. A timer that came early
-- has changed and sent nothing; one that came when the room had expired has told its clients of the
-- deletion, set them to be in no room, and taken the room's name out of the map. No other room,
-- client or name is touched.
pub undisturbed :
    (es : List Event) (s u : System) (r q : ℕ) (sig : Signal)
    → s.programs (loop r) ≡ on_signal r sig
    → all_own (loop r) es ≡ true
    → run es s ≡ some u
    → u.programs (loop r) ≡ listen q
    → Signalled r sig s.memory u.memory (handed (loop r) es s)
undisturbed es s u r q sig here own h there =
    subst (λ (out : Memory × List (ℕ × Text)). Signalled r sig s.memory out.0 out.1)
      (sym (undisturbed-settle es s u r q sig here own h there)) (signal_comes_to r sig s.memory)
