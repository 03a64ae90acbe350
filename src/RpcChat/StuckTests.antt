-- ===== src/RpcChat/StuckTests.antt =====
-- A history of the server in which a client joins the room it is in (receiver.go, JoinCRoom).
use cmpt436chat_client.Prelude.{true, List, [], ◌∷◌, ◌++◌, Option, none, some, ◌≡◌, refl}
use cmpt436chat_client.Text.{Text, codes, text_eq}
use cmpt436chat_client.Table.{lookup, insert}
use cmpt436chat_client.RpcChat.Registry
use cmpt436chat_client.RpcChat.Types.{call, loop}
use cmpt436chat_client.RpcChat.Program.{
  Program, join, act, acquire, unlock, runlock, tell, listen, offer_all, offer_each,
}
use cmpt436chat_client.RpcChat.Rooms.{
  point_at, on_signal, new_c_room, delete, broadcast, remembered, alloc_room, add_client,
  remove_client, seat, drop_client, clear_room,
}
use cmpt436chat_client.RpcChat.Receiver.{
  connecting, creating, joining, receiving, done, served, authenticated, alloc_client, enroll,
  connect, create_c_room, join_c_room, rec_msg, publish,
}
use cmpt436chat_client.RpcChat.System.{
  System, Event, arrive, go, meet, reach, tick, run, start, step, happen, advance, without,
}
use cmpt436chat_client.RpcChat.Locks.{
  idle, reading, mode_of, times, stuck_for_ever, locks_released, at_rest,
}

abbrev k : Text
k = codes "k"

abbrev den : Text
den = codes "den"

-- A client connects, creates a room and joins it.
abbrev settling : List Event
settling =
    arrive (connecting k)
    ∷ go (call 0)
    ∷ go (call 0)
    ∷ go (call 0)
    ∷ arrive (creating k den)
    ∷ go (call 2)
    ∷ go (call 2)
    ∷ go (call 2)
    ∷ go (call 2)
    ∷ go (call 2)
    ∷ arrive (joining k den)
    ∷ go (call 4)
    ∷ go (call 4)
    ∷ go (call 4)
    ∷ go (call 4)
    ∷ reach (call 4)
    ∷ go (call 4)
    ∷ go (loop 0)
    ∷ go (loop 0)
    ∷ go (loop 0)
    ∷ go (loop 0)
    ∷ go (loop 0)
    ∷ arrive (receiving k)
    ∷ go (call 5)
    ∷ meet (loop 0) (call 5)
    ∷ go (loop 0)
    ∷ go (loop 0)
    ∷ []

-- It joins the same room again, whose goroutine takes the message that it leaves.
abbrev again : List Event
again =
    arrive (joining k den)
    ∷ go (call 6)
    ∷ go (call 6)
    ∷ go (call 6)
    ∷ go (call 6)
    ∷ reach (call 6)
    ∷ go (loop 0)
    ∷ go (loop 0)
    ∷ go (loop 0)
    ∷ arrive (receiving k)
    ∷ go (call 7)
    ∷ meet (loop 0) (call 7)
    ∷ go (loop 0)
    ∷ go (loop 0)
    ∷ go (loop 0)
    ∷ []

abbrev history : List Event
history = settling ++ again

abbrev reached : Option System → System
reached none = start 0
reached (some s) = s

abbrev stuck : System
stuck = reached (run history (start 0))

abbrev later : System
later = reached (run (tick 1 ∷ []) stuck)

abbrev sending : Program
sending = runlock 0 done

abbrev behind : Program
behind = act (point_at none 0) (λ m. unlock 0 (listen 0))

stuck_facts :
    (run history (start 0) ≡ some stuck)
    × (stuck.programs (call 6) ≡ tell 0 (join 0) sending)
    × (mode_of (call 6) (stuck.mutexes 0) ≡ reading)
    × (stuck.programs (loop 0) ≡ acquire 0 behind)
    × (run (tick 1 ∷ []) stuck ≡ some later)
unfolding run start step happen advance without served authenticated connect alloc_client enroll
    create_c_room new_c_room delete alloc_room publish join_c_room rec_msg on_signal add_client
    remove_client broadcast remembered seat drop_client clear_room offer_all offer_each
    Registry.add_client Registry.get_client Registry.add_c_room Registry.get_c_room lookup insert
    text_eq times
stuck_facts = (refl, refl, refl, refl, refl)

stuck_for_ever_example :
    (later.programs (call 6) ≡ tell 0 (join 0) sending)
    × (later.programs (loop 0) ≡ acquire 0 behind)
stuck_for_ever_example =
    stuck_for_ever history (tick 1 ∷ []) 0 stuck later (call 6) 0 0 (join 0) sending behind
      (stuck_facts.0) (stuck_facts.1) (stuck_facts.2) (stuck_facts.3) (stuck_facts.4)

call_4_rests : at_rest (stuck.programs (call 4)) ≡ true
unfolding run start step happen advance without served authenticated connect alloc_client enroll
    create_c_room new_c_room delete alloc_room publish join_c_room rec_msg on_signal add_client
    remove_client broadcast remembered seat drop_client clear_room offer_all offer_each
    Registry.add_client Registry.get_client Registry.add_c_room Registry.get_c_room lookup insert
    text_eq
call_4_rests = refl

locks_released_example : mode_of (call 4) (stuck.mutexes 0) ≡ idle
locks_released_example = locks_released history 0 stuck (call 4) 0 (stuck_facts.0) call_4_rests
