-- ===== src/RpcChat/Locks/Discipline.antt =====
-- The order in which a program takes and releases locks, and that every program of the server keeps
-- to it.
use cmpt436chat_client.Prelude.{
  ℕ, Bool, true, false, List, [], ◌∷◌, ◌≡◌, refl, sym, subst, fun_ext, arith, ltb, if◌then◌else◌,
  update,
}
use cmpt436chat_client.Text.{Text}
use cmpt436chat_client.RpcChat.Types.{Memory, note_room_deletion}
use cmpt436chat_client.RpcChat.Program.{
  Program, Signal, join, leave, incoming, expiry, finish, act, rlock, runlock, lock, acquire,
  unlock, spawn, sleep, offer, take, tell, listen, crash, offer_all, offer_each,
}
use cmpt436chat_client.RpcChat.Rooms
use cmpt436chat_client.RpcChat.Rooms.{
  broadcast, send_home, delete, new_c_room, clear_room, on_signal, timer,
}

-- What a goroutine has to do with a lock.
pub data Mode : Type 0 where
  idle reading waiting writing : Mode

abbrev pub all_idle : ℕ → Mode
all_idle c = idle

-- The program takes a lock only when it has nothing to do with it, releases what it holds, and
-- holds nothing when it is finished or listens; `ms` says what it has to do with each client's lock
-- now.
abbrev pub Obeys : (ℕ → Mode) → Program → Type 0
Obeys ms (finish reply) = (c : ℕ) → ms c ≡ idle
Obeys ms (act effect rest) = (m : Memory) → Obeys ms (rest m)
Obeys ms (rlock c rest) = (ms c ≡ idle) × Obeys (update ms c reading) rest
Obeys ms (runlock c rest) = (ms c ≡ reading) × Obeys (update ms c idle) rest
Obeys ms (lock c rest) = (ms c ≡ idle) × Obeys (update ms c writing) rest
Obeys ms (acquire c rest) = (ms c ≡ waiting) × Obeys (update ms c writing) rest
Obeys ms (unlock c rest) = (ms c ≡ writing) × Obeys (update ms c idle) rest
Obeys ms (spawn child rest) = Obeys all_idle child × Obeys ms rest
Obeys ms (sleep until rest) = Obeys ms rest
Obeys ms (offer c msg rest) = Obeys ms rest
Obeys ms (take c receive) = (msg : Text) → Obeys ms (receive msg)
Obeys ms (tell r signal rest) = Obeys ms rest
Obeys ms (listen r) = (c : ℕ) → ms c ≡ idle
Obeys ms crash = Unit

pub Obeys-eq : (ms ns : ℕ → Mode) (p : Program) → ((c : ℕ) → ms c ≡ ns c) → Obeys ms p → Obeys ns p
Obeys-eq ms ns p e h = subst (λ x. Obeys x p) (fun_ext e) h

abbrev IsIdle : (ℕ → Mode) → Type 0
IsIdle ms = (c : ℕ) → ms c ≡ idle

-- A lock taken and released again.
released :
    (ms : ℕ → Mode) (c : ℕ) (mode : Mode)
    → ms c ≡ idle
    → (d : ℕ) → update (update ms c mode) c idle d ≡ ms d
released ms c mode h d = ground (arith, h)

offer_all-Obeys :
    (ms : ℕ → Mode) (cs : List ℕ) (msg : Text) (rest : Program)
    → Obeys ms rest
    → Obeys ms (offer_all cs msg rest)
unfolding offer_all
offer_all-Obeys ms [] msg rest h = h
offer_all-Obeys ms (c ∷ cs) msg rest h = offer_all-Obeys ms cs msg rest h

offer_each-Obeys :
    (ms : ℕ → Mode) (c : ℕ) (msgs : List Text) (rest : Program)
    → Obeys ms rest
    → Obeys ms (offer_each c msgs rest)
unfolding offer_each
offer_each-Obeys ms c [] rest h = h
offer_each-Obeys ms c (msg ∷ msgs) rest h = offer_each-Obeys ms c msgs rest h

broadcast-Obeys :
    (ms : ℕ → Mode) (r : ℕ) (msg : Text) (rest : Program)
    → Obeys ms rest
    → Obeys ms (broadcast r msg rest)
unfolding broadcast
broadcast-Obeys ms r msg rest h m = offer_all-Obeys ms (m.rooms r).cur_clients msg rest h

-- Behind a section under one lock the modes are what they were.
pub section-Obeys :
    (ms : ℕ → Mode) (c : ℕ) (mode : Mode) (rest : Program)
    → ms c ≡ idle
    → Obeys ms rest
    → (update ms c mode c ≡ mode) × Obeys (update (update ms c mode) c idle) rest
section-Obeys ms c mode rest e h = (
  ground arith,
  Obeys-eq ms (update (update ms c mode) c idle) rest (λ d. sym (released ms c mode e d)) h,
)

clear_room-Obeys :
    (ms : ℕ → Mode) (c : ℕ) (rest : Program)
    → ms c ≡ idle
    → Obeys ms rest
    → Obeys ms (clear_room c rest)
unfolding clear_room
clear_room-Obeys ms c rest e h = (e, λ m. section-Obeys ms c writing rest e h)

add_client-Obeys :
    (ms : ℕ → Mode) (r c : ℕ) (rest : Program)
    → ms c ≡ idle
    → Obeys ms rest
    → Obeys ms (Rooms.add_client r c rest)
unfolding Rooms.add_client
add_client-Obeys ms r c rest e h = (
  e,
  λ m. broadcast-Obeys (update ms c writing) r _ _ (λ n.
      offer_each-Obeys (update ms c writing) c _ _ (λ o. section-Obeys ms c writing rest e h)),
)

remove_client-Obeys :
    (ms : ℕ → Mode) (r c : ℕ) (rest : Program)
    → ms c ≡ idle
    → Obeys ms rest
    → Obeys ms (Rooms.remove_client r c rest)
unfolding Rooms.remove_client
remove_client-Obeys ms r c rest e h =
    let rest_of = act (Rooms.drop_client r c) (λ n. clear_room c rest) in
    (
      e,
      λ m.
          broadcast-Obeys (update ms c reading) r _ (runlock c rest_of)
            (section-Obeys ms c reading rest_of e (λ n. clear_room-Obeys ms c rest e h)),
    )

-- The rest of the programs run while their goroutine has nothing to do with any lock.
send_home-Obeys :
    (cs : List ℕ) (rest : Program) → Obeys all_idle rest → Obeys all_idle (send_home cs rest)
unfolding send_home
send_home-Obeys [] rest h = h
send_home-Obeys (c ∷ cs) rest h = (
  refl,
  λ m. section-Obeys all_idle c writing (send_home cs rest) refl (send_home-Obeys cs rest h),
)

-- Either branch of a test.
Obeys-if :
    (ms : ℕ → Mode) (b : Bool) (p q : Program)
    → Obeys ms p
    → Obeys ms q
    → Obeys ms (if b then p else q)
Obeys-if ms true p q h k = h
Obeys-if ms false p q h k = k

delete-Obeys : (r : ℕ) (rest : Program) → Obeys all_idle rest → Obeys all_idle (delete r rest)
unfolding delete
delete-Obeys r rest h m =
    Obeys-if all_idle (ltb m.now (m.rooms r).expire) _ _ ((λ m c. refl), h)
      (broadcast-Obeys all_idle r note_room_deletion _ (λ n. send_home-Obeys _ _ (λ o. h)))

pub new_c_room-Obeys :
    (c_name : Text) (rest : ℕ → Program)
    → ((r : ℕ) → Obeys all_idle (rest r))
    → Obeys all_idle (new_c_room c_name rest)
unfolding new_c_room
new_c_room-Obeys c_name rest h m = delete-Obeys m.next_room (rest m.next_room) (h m.next_room)

pub on_signal-Obeys : (r : ℕ) (signal : Signal) → Obeys all_idle (on_signal r signal)
unfolding on_signal
on_signal-Obeys r (join c) = add_client-Obeys all_idle r c (listen r) refl (λ d. refl)
on_signal-Obeys r (leave c) = remove_client-Obeys all_idle r c (listen r) refl (λ d. refl)
on_signal-Obeys r (incoming msg) = broadcast-Obeys all_idle r msg (listen r) (λ d. refl)
on_signal-Obeys r expiry = delete-Obeys r (listen r) (λ d. refl)
