-- ===== src/RpcChat/System.antt =====
-- The goroutines of the server side by side: one step at a time, in any order.
use cmpt436chat_client.Prelude.{
  ℕ, suc, ◌+◌, Bool, true, false, List, [], ◌∷◌, Option, none, some, if◌then◌else◌, leb, is_empty,
  update, ◌==◌,
}
use cmpt436chat_client.RpcChat.Registry.{ok}
use cmpt436chat_client.RpcChat.Types.{
  Memory, Tid, call, loop, same_tid, RwMutex, Writer, free, announced, held, unlocked,
}
use cmpt436chat_client.RpcChat.Program.{
  Program, finish, act, rlock, runlock, lock, acquire, unlock, spawn, sleep, offer, take, tell,
  listen, crash,
}
use cmpt436chat_client.RpcChat.Rooms.{on_signal}
use cmpt436chat_client.RpcChat.Receiver.{Request, served}

-- What every goroutine has yet to do, the clients' locks, and whether a panic has ended the
-- process.
pub record System : Type 0 where
  pub memory : Memory
  pub programs : Tid → Program
  pub mutexes : ℕ → RwMutex
  pub next_call : ℕ
  pub crashed : Bool

-- One reader less.
unfoldable pub without : Tid → List Tid → List Tid
without t [] = []
without t (u ∷ us) = if same_tid t u then us else u ∷ without t us

abbrev pub put : Tid → Program → System → System
put t p s = record s { programs = λ u. if same_tid u t then p else s.programs u }

abbrev pub set_mutex : ℕ → RwMutex → System → System
set_mutex c l s = record s { mutexes = update s.mutexes c l }

abbrev pub is_free : Writer → Bool
is_free free = true
is_free (announced t) = false
is_free (held t) = false

-- The next step of a goroutine by itself. RLock gets through if no writer holds the lock or waits
-- for it; Lock first keeps new readers and writers out, and gets through once the readers have
-- gone.
unfoldable pub advance : Tid → Program → System → Option System
unfolding without
advance t (finish reply) s = none
advance t (act effect rest) s = some (put t (rest s.memory) (record s { memory = effect s.memory }))
advance t (rlock c rest) s =
    let l = s.mutexes c in
    if is_free l.writer
    then some (put t rest (set_mutex c (record l { readers = t ∷ l.readers }) s))
    else none
advance t (runlock c rest) s =
    let l = s.mutexes c in
    some (put t rest (set_mutex c (record l { readers = without t l.readers }) s))
advance t (lock c rest) s =
    let l = s.mutexes c in
    if is_free l.writer
    then some (put t (acquire c rest) (set_mutex c (record l { writer = announced t }) s))
    else none
advance t (acquire c rest) s =
    let l = s.mutexes c in
    if is_empty l.readers
    then some (put t rest (set_mutex c (record l { writer = held t }) s))
    else none
advance t (unlock c rest) s =
    let l = s.mutexes c in some (put t rest (set_mutex c (record l { writer = free }) s))
advance t (spawn child rest) s =
    some (put t rest (put (call s.next_call) child (record s { next_call = suc s.next_call })))
advance t (sleep until rest) s = if leb until s.memory.now then some (put t rest s) else none
advance t (offer c msg rest) s = none
advance t (take c rest) s = none
advance t (tell r signal rest) s = none
advance t (listen r) s = none
advance t crash s = some (record s { crashed = true })

-- A send on outMsg meets a receive from it, and a send on a room's channel meets its select.
abbrev pub hand : Tid → Tid → Program → Program → System → Option System
hand t u (offer c msg rest) (take d receive) s =
    if c == d then some (put t rest (put u (receive msg) s)) else none
hand t u p q s = none

abbrev pub signal : Tid → Program → Program → System → Option System
signal t (tell r sig rest) (listen q) s =
    if r == q then some (put t rest (put (loop r) (on_signal r sig) s)) else none
signal t p q s = none

abbrev pub room_of_signal : Program → ℕ
room_of_signal (tell r sig rest) = r
room_of_signal p = 0

-- What happens next: a call comes in, a goroutine goes on by itself, one hands a text to another,
-- one tells a room something, or time passes.
pub data Event : Type 0 where
  arrive : Request → Event
  go : Tid → Event
  meet : Tid → Tid → Event
  reach : Tid → Event
  tick : ℕ → Event

-- No event but those that can happen; none once the process has ended.
unfoldable pub happen : Event → System → Option System
unfolding advance
happen (arrive q) s =
    some (put (call s.next_call) (served q) (record s { next_call = suc s.next_call }))
happen (go t) s = advance t (s.programs t) s
happen (meet t u) s = hand t u (s.programs t) (s.programs u) s
happen (reach t) s = let p = s.programs t in signal t p (s.programs (loop (room_of_signal p))) s
happen (tick d) s = let m = s.memory in some (record s { memory = record m { now = m.now + d } })

unfoldable pub step : Event → System → Option System
unfolding happen
step e s = if s.crashed then none else happen e s

infixl 5 ◌>>=◌
abbrev pub ◌>>=◌ : Option System → (System → Option System) → Option System
none >>= f = none
some s >>= f = f s

unfoldable pub run : List Event → System → Option System
unfolding step
run [] s = some s
run (e ∷ es) s = step e s >>= run es

-- Before the first call, every number of a call is unused, and that of a room's goroutine stands
-- for the one that Listen will start for it.
abbrev pub at_start : Tid → Program
at_start (call n) = finish (ok [])
at_start (loop r) = listen r

-- The server before the first call.
unfoldable pub start : ℕ → System
start now = record {
  memory = record {
    clients = λ c. record { token = []; name = []; c_room = none };
    rooms = λ r. record { c_name = []; cur_clients = []; msgs = []; expire = 0 };
    next_client = 0;
    next_room = 0;
    cur_clients = [];
    c_rooms = [];
    now = now;
  };
  programs = at_start;
  mutexes = λ c. unlocked;
  next_call = 0;
  crashed = false;
}
