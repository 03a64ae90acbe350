-- ===== src/RpcChat/Alone.antt =====
-- What a goroutine of `Evan's Work/Assign 2/server` comes to while no other one writes the memory
-- and every text it sends is taken.
use cmpt436chat_client.Prelude.{
  ℕ, Bool, true, false, List, [], ◌∷◌, ◌++◌, map, none, some, ◌≡◌, refl, subst, ap, if◌then◌else◌,
  is_empty, leb,
}
use cmpt436chat_client.Text.{Text}
use cmpt436chat_client.RpcChat.Types.{Memory, Tid}
use cmpt436chat_client.RpcChat.Program.{
  Program, finish, act, rlock, runlock, lock, acquire, unlock, spawn, sleep, offer, take, tell,
  listen, crash, offer_all, offer_each,
}
use cmpt436chat_client.RpcChat.Rooms.{remembered, broadcast}
use cmpt436chat_client.RpcChat.System.{System, advance, is_free, put}
use cmpt436chat_client.RpcChat.Locks.{same_tid_refl}

-- The memory in the end, and the texts sent, each with the client whose outMsg it goes to.
unfoldable pub settle : Program → Memory → Memory × List (ℕ × Text)
settle (finish reply) m = (m, [])
settle (act effect rest) m = settle (rest m) (effect m)
settle (rlock c rest) m = settle rest m
settle (runlock c rest) m = settle rest m
settle (lock c rest) m = settle rest m
settle (acquire c rest) m = settle rest m
settle (unlock c rest) m = settle rest m
settle (spawn child rest) m = settle rest m
settle (sleep until rest) m = settle rest m
settle (offer c msg rest) m = let out = settle rest m in (out.0, (c, msg) ∷ out.1)
settle (take c receive) m = (m, [])
settle (tell r signal rest) m = settle rest m
settle (listen r) m = (m, [])
settle crash m = (m, [])

-- Texts sent first.
abbrev pub before : List (ℕ × Text) → Memory × List (ℕ × Text) → Memory × List (ℕ × Text)
before sent out = (out.0, sent ++ out.1)

offer_all-settle :
    (cs : List ℕ) (msg : Text) (rest : Program) (m : Memory)
    → settle (offer_all cs msg rest) m ≡ before (map (λ c. (c, msg)) cs) (settle rest m)
unfolding settle offer_all
offer_all-settle [] msg rest m = refl
offer_all-settle (c ∷ cs) msg rest m = ap (before ((c, msg) ∷ [])) (offer_all-settle cs msg rest m)

pub offer_each-settle :
    (c : ℕ) (msgs : List Text) (rest : Program) (m : Memory)
    → settle (offer_each c msgs rest) m ≡ before (map (λ msg. (c, msg)) msgs) (settle rest m)
unfolding settle offer_each
offer_each-settle c [] rest m = refl
offer_each-settle c (msg ∷ msgs) rest m =
    ap (before ((c, msg) ∷ [])) (offer_each-settle c msgs rest m)

pub broadcast-settle :
    (r : ℕ) (msg : Text) (rest : Program) (m : Memory)
    → settle (broadcast r msg rest) m
      ≡ before (map (λ c. (c, msg)) (m.rooms r).cur_clients) (settle rest (remembered r msg m))
unfolding settle broadcast
broadcast-settle r msg rest m =
    offer_all-settle (m.rooms r).cur_clients msg rest (remembered r msg m)

pub put-settle :
    (w u : System) (t : Tid) (q : Program)
    → some (put t q w) ≡ some u
    → settle (u.programs t) u.memory ≡ settle q w.memory
put-settle w u t q h =
    let e : put t q w ≡ u = cc in
    subst (λ x. settle (x.programs t) x.memory ≡ settle q w.memory) e
      (ap (λ b. settle (if b then q else w.programs t) w.memory) (same_tid_refl t))

pub put_if-settle :
    (b : Bool) (w u : System) (t : Tid) (q : Program)
    → (if b then some (put t q w) else none) ≡ some u
    → settle (u.programs t) u.memory ≡ settle q w.memory
put_if-settle true w u t q h = put-settle w u t q h
put_if-settle false w u t q h = cc

-- What a goroutine comes to does not change by its own steps.
pub advance-settle :
    (s u : System) (t : Tid) (p : Program)
    → s.programs t ≡ p
    → advance t p s ≡ some u
    → settle (u.programs t) u.memory ≡ settle p s.memory
unfolding settle advance
advance-settle s u t (finish reply) e h = cc
advance-settle s u t (act effect rest) e h = put-settle _ u t _ h
advance-settle s u t (rlock c rest) e h = put_if-settle (is_free (s.mutexes c).writer) _ u t _ h
advance-settle s u t (runlock c rest) e h = put-settle _ u t _ h
advance-settle s u t (lock c rest) e h = put_if-settle (is_free (s.mutexes c).writer) _ u t _ h
advance-settle s u t (acquire c rest) e h = put_if-settle (is_empty (s.mutexes c).readers) _ u t _ h
advance-settle s u t (unlock c rest) e h = put-settle _ u t _ h
advance-settle s u t (spawn child rest) e h = put-settle _ u t _ h
advance-settle s u t (sleep until rest) e h = put_if-settle (leb until s.memory.now) s u t rest h
advance-settle s u t (offer c msg rest) e h = cc
advance-settle s u t (take c receive) e h = cc
advance-settle s u t (tell r signal rest) e h = cc
advance-settle s u t (listen r) e h = cc
advance-settle s u t crash e h =
    let k : record s { crashed = true } ≡ u = cc in
    subst (λ x. settle (x.programs t) x.memory ≡ (s.memory, [])) k (ap (λ q. settle q s.memory) e)
