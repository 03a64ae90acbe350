-- ===== src/RpcChat/Faults.antt =====
-- Calls and timers that go wrong on the server of `Evan's Work/Assign 2/server` (receiver.go,
-- LeaveCRoom; cRoom.go, Delete).
use cmpt436chat_client.Prelude.{
  ==_refl, ℕ, suc, Bool, true, false, List, [], ◌∷◌, ◌++◌, Option, none, some, ◌≡◌, refl, ap, ◌∙◌,
  ltb, if◌then◌else◌,
}
use cmpt436chat_client.Text.{Text, text_eq}
use cmpt436chat_client.Table.{lookup, lookup-delete}
use cmpt436chat_client.RpcChat.Registry.{Registry, ok, get_client, delete_c_room}
use cmpt436chat_client.RpcChat.Types.{Memory, Tid, call, loop, note_room_deletion}
use cmpt436chat_client.RpcChat.Program.{
  Program, expiry, act, listen, rlock, look, spawn, crash, offer_all,
}
use cmpt436chat_client.RpcChat.Rooms.{
  on_signal, kept, delete, timer, remembered, unregister, send_home, broadcast,
}
use cmpt436chat_client.RpcChat.Receiver
use cmpt436chat_client.RpcChat.Receiver.{leaving, served, left, with_client}
use cmpt436chat_client.RpcChat.System.{
  System, Event, arrive, go, step, run, is_free, happen, advance, put, set_mutex, ◌>>=◌,
}
use cmpt436chat_client.RpcChat.Locks.{same_tid_refl}

-- The process has ended with a panic.
abbrev pub is_crashed : Option System → Bool
is_crashed none = false
is_crashed (some s) = s.crashed

-- One step of a goroutine whose program is known.
run-go :
    (s u : System) (t : Tid) (p : Program) (es : List Event)
    → s.crashed ≡ false
    → s.programs t ≡ p
    → advance t p s ≡ some u
    → run (go t ∷ es) s ≡ run es u
unfolding run step happen
run-go s u t p es alive here next =
    ap (λ b. (if b then none else happen (go t) s) >>= run es) alive
    ∙ ap (λ x. advance t x s >>= run es) here
    ∙ ap (λ o. o >>= run es) next

put_at : (s : System) (t : Tid) (p : Program) → (put t p s).programs t ≡ p
put_at s t p = rw (same_tid_refl t) refl

-- No step follows a panic.
run-crashed : (e : Event) (es : List Event) (s : System) → s.crashed ≡ true → run (e ∷ es) s ≡ none
unfolding run step
run-crashed e es s h = ap (λ b. (if b then none else happen e s) >>= run es) h

module _ (s : System) (tok : Text) (c : ℕ) where
  abbrev t : Tid
  t = call s.next_call

  -- The states after each step of the call.
  abbrev s1 : System
  s1 = put t (served (leaving tok)) (record s { next_call = suc s.next_call })

  abbrev reading_room : ℕ → Program
  reading_room d = rlock d (look λ m. left (m.clients d).c_room d)

  abbrev s2 : System
  s2 = put t (reading_room c) s1

  abbrev s3 : System
  s3 =
      let l = s.mutexes c in
      put t (look λ m. left (m.clients c).c_room c)
        (set_mutex c (record l { readers = t ∷ l.readers }) s2)

  abbrev s4 : System
  s4 = put t crash s3

  abbrev ended : System
  ended = record s4 { crashed = true }

  leave_nowhere :
      (es : List Event)
      → s.crashed ≡ false
      → get_client tok s.memory.cur_clients ≡ ok c
      → (s.memory.clients c).c_room ≡ none
      → is_free (s.mutexes c).writer ≡ true
      → run (arrive (leaving tok) ∷ go t ∷ go t ∷ go t ∷ go t ∷ es) s ≡ run es ended
  unfolding run step happen advance served Receiver.leave_c_room Receiver.authenticated
  leave_nowhere es alive known nowhere free =
      ap (λ b. (if b then none else some s1) >>= run (go t ∷ go t ∷ go t ∷ go t ∷ es)) alive
      ∙ run-go s1 s2 t _ (go t ∷ go t ∷ go t ∷ es) alive
          (put_at (record s { next_call = suc s.next_call }) t _)
          (ap (λ o. some (put t (with_client o reading_room) s1)) known)
      ∙ run-go s2 s3 t _ (go t ∷ go t ∷ es) alive (put_at s1 t (reading_room c))
          (ap (λ b. if b then some s3 else none) free)
      ∙ run-go s3 s4 t _ (go t ∷ es) alive
          (put_at (set_mutex c (record (s.mutexes c) { readers = t ∷ (s.mutexes c).readers }) s2) t
            _)
          (ap (λ x. some (put t (left x c) s3)) nowhere)
      ∙ run-go s4 ended t crash es alive (put_at s3 t crash) refl

-- A registered client that is in no room calls LeaveCRoom, and nobody writes its record: after four
-- steps of the call the whole server has crashed, and nothing happens any more.
pub leave_nowhere_crashes :
    (s : System) (tok : Text) (c : ℕ) (e : Event)
    → s.crashed ≡ false
    → get_client tok s.memory.cur_clients ≡ ok c
    → (s.memory.clients c).c_room ≡ none
    → is_free (s.mutexes c).writer ≡ true
    → let t = call s.next_call in
      let es = arrive (leaving tok) ∷ go t ∷ go t ∷ go t ∷ go t ∷ [] in
      (is_crashed (run es s) ≡ true) × (run (es ++ e ∷ []) s ≡ none)
unfolding run
leave_nowhere_crashes s tok c e alive known nowhere free = (
  ap is_crashed (leave_nowhere s tok c [] alive known nowhere free),
  leave_nowhere s tok c (e ∷ []) alive known nowhere free ∙ run-crashed e [] (ended s tok c) refl,
)

kept_deleted :
    (name key : Text) (q : ℕ) (m : Registry)
    → lookup name m ≡ some q
    → lookup key (kept m (delete_c_room name m)) ≡ (if text_eq name key then none else lookup key m)
unfolding delete_c_room
kept_deleted name key q m found = rw found (lookup-delete name key m)

module _ (s : System) (r : ℕ) where
  abbrev room_loop : Tid
  room_loop = loop r

  abbrev heard : Memory
  heard = remembered r note_room_deletion s.memory

  heard_room : (heard.rooms r).c_name ≡ (s.memory.rooms r).c_name
  unfolding remembered
  heard_room = rw (==_refl r) refl

  heard_clients : (heard.rooms r).cur_clients ≡ (s.memory.rooms r).cur_clients
  unfolding remembered
  heard_clients = rw (==_refl r) refl

  -- What Delete does behind its test, when the room has no clients.
  abbrev leaving_map : Program
  leaving_map = act (unregister r) (λ o. listen r)

  abbrev farewell : Memory → Program
  farewell n = send_home (n.rooms r).cur_clients leaving_map

  abbrev d1 : System
  d1 = put room_loop (broadcast r note_room_deletion (look farewell)) s

  abbrev d2 : System
  d2 = put room_loop (look farewell) (record d1 { memory = heard })

  abbrev d3 : System
  d3 = put room_loop leaving_map d2

  abbrev d4 : System
  d4 = put room_loop (listen r) (record d3 { memory = unregister r heard })

  delete_empty :
      (es : List Event)
      → s.crashed ≡ false
      → s.programs room_loop ≡ delete r (listen r)
      → ltb s.memory.now (s.memory.rooms r).expire ≡ false
      → (s.memory.rooms r).cur_clients ≡ []
      → run (go room_loop ∷ go room_loop ∷ go room_loop ∷ go room_loop ∷ es) s ≡ run es d4
  unfolding run step happen advance delete broadcast send_home offer_all remembered
  delete_empty es alive here late nobody =
      run-go s d1 room_loop _ (go room_loop ∷ go room_loop ∷ go room_loop ∷ es) alive here (
        ap
          (λ b. some (
            put room_loop
              (if b
                then spawn (timer r) (listen r)
                else broadcast r note_room_deletion (look farewell))
              s))
          late)
      ∙ run-go d1 d2 room_loop _ (go room_loop ∷ go room_loop ∷ es) alive (put_at s room_loop _) (
          ap
            (λ cs. some (
              put room_loop (offer_all cs note_room_deletion (look farewell))
                (record d1 { memory = heard })))
            nobody)
      ∙ run-go d2 d3 room_loop (look farewell) (go room_loop ∷ es) alive
          (put_at (record d1 { memory = heard }) room_loop (look farewell))
          (ap (λ cs. some (put room_loop (send_home cs leaving_map) d2)) (heard_clients ∙ nobody))
      ∙ run-go d3 d4 room_loop leaving_map es alive (put_at d2 room_loop leaving_map) refl

  lookup-unregister :
      (key : Text) (q : ℕ)
      → lookup (s.memory.rooms r).c_name s.memory.c_rooms ≡ some q
      → lookup key (unregister r heard).c_rooms
        ≡ (if text_eq (s.memory.rooms r).c_name key then none else lookup key s.memory.c_rooms)
  unfolding unregister remembered
  lookup-unregister key q found =
      ap (λ n. lookup key (kept s.memory.c_rooms (delete_c_room n s.memory.c_rooms))) heard_room
      ∙ kept_deleted (s.memory.rooms r).c_name key q s.memory.c_rooms found

-- What the map of rooms answers for a name afterwards.
abbrev pub found_room : Text → Option System → Option (Option ℕ)
found_room key none = none
found_room key (some s) = some (lookup key s.memory.c_rooms)

-- The timer of a room has run out that has no clients, and the map has some room under its name:
-- the room itself, or another one that was created under the same name, as CreateCRoom leaves
-- behind when it refuses a name. After four steps of its goroutine the name is out of the map, and
-- every other name is answered as before.
pub expiry_takes_name :
    (s : System) (r q : ℕ) (key : Text)
    → s.crashed ≡ false
    → s.programs (loop r) ≡ on_signal r expiry
    → ltb s.memory.now (s.memory.rooms r).expire ≡ false
    → (s.memory.rooms r).cur_clients ≡ []
    → lookup (s.memory.rooms r).c_name s.memory.c_rooms ≡ some q
    → found_room key (run (go (loop r) ∷ go (loop r) ∷ go (loop r) ∷ go (loop r) ∷ []) s)
      ≡ some (if text_eq (s.memory.rooms r).c_name key then none else lookup key s.memory.c_rooms)
unfolding run on_signal
expiry_takes_name s r q key alive here late nobody found =
    ap (found_room key) (delete_empty s r [] alive here late nobody)
    ∙ ap some (lookup-unregister s r key q found)
