-- ===== src/RpcChat/Rooms.antt =====
-- The methods of CRoom (cRoom.go, lines 30 to 118), as programs of the goroutine that runs them.
-- Log output is left out.
use cmpt436chat_client.Prelude.{
  ℕ, suc, ◌+◌, ◌-◌, List, [], ◌∷◌, ◌++◌, Option, none, some, if◌then◌else◌, ltb, remove_first,
  update,
}
use cmpt436chat_client.Text.{Text, sprintf}
use cmpt436chat_client.RpcChat.Registry.{Registry, Result, ok, failed, delete_c_room}
use cmpt436chat_client.RpcChat.Types.{
  Memory, extime, note_room_enter, note_room_leave, note_room_deletion, new_room, set_client,
  set_room,
}
use cmpt436chat_client.RpcChat.Program.{
  Program, Signal, join, leave, incoming, expiry, finish, act, rlock, runlock, lock, unlock, spawn,
  sleep, tell, listen, look, offer_all, offer_each,
}

-- What Broadcast does to the room before it sends.
unfoldable pub remembered : ℕ → Text → Memory → Memory
remembered r msg m =
    let room = m.rooms r in
    set_room r (record room { expire = m.now + extime; msgs = room.msgs ++ msg ∷ [] }) m

unfoldable pub broadcast : ℕ → Text → Program → Program
broadcast r msg rest = act (remembered r msg) (λ m. offer_all (m.rooms r).cur_clients msg rest)

-- `client.CRoom = …`.
unfoldable pub point_at : Option ℕ → ℕ → Memory → Memory
point_at room c m = set_client c (record (m.clients c) { c_room = room }) m

-- The loop of Delete over the room's clients.
unfoldable pub send_home : List ℕ → Program → Program
send_home [] rest = rest
send_home (c ∷ cs) rest = lock c (act (point_at none c) (λ m. unlock c (send_home cs rest)))

-- What a registry holds after a change that may fail.
abbrev pub kept : Registry → Result Registry → Registry
kept old (ok new) = new
kept old (failed err) = old

unfoldable pub unregister : ℕ → Memory → Memory
unfolding delete_c_room
unregister r m = record m { c_rooms = kept m.c_rooms (delete_c_room (m.rooms r).c_name m.c_rooms) }

-- The goroutine that sleeps until the room may have expired.
abbrev pub timer : ℕ → Program
timer r = look λ m. sleep (m.now + ((m.rooms r).expire - m.now)) (tell r expiry (finish (ok [])))

unfoldable pub delete : ℕ → Program → Program
delete r rest = look λ m.
    if ltb m.now (m.rooms r).expire
    then spawn (timer r) rest
    else broadcast r note_room_deletion
        (look λ n. send_home (n.rooms r).cur_clients (act (unregister r) (λ o. rest)))

unfoldable pub alloc_room : Text → Memory → Memory
unfolding new_room
alloc_room c_name m = record m {
  rooms = update m.rooms m.next_room (new_room m.now c_name);
  next_room = suc m.next_room;
}

-- The goroutine of Listen is the one that is named `loop` of the room's number.
unfoldable pub new_c_room : Text → (ℕ → Program) → Program
new_c_room c_name rest = act (alloc_room c_name) (λ m. delete m.next_room (rest m.next_room))

unfoldable pub seat : ℕ → ℕ → Memory → Memory
unfolding point_at
seat r c m =
    let room = m.rooms r in
    point_at (some r) c (set_room r (record room { cur_clients = room.cur_clients ++ c ∷ [] }) m)

unfoldable pub add_client : ℕ → ℕ → Program → Program
unfolding sprintf
add_client r c rest = lock c (
    look λ m.
      broadcast r (sprintf note_room_enter ((m.clients c).name ∷ []))
        (look λ n. offer_each c (n.rooms r).msgs (act (seat r c) (λ o. unlock c rest))))

unfoldable pub drop_client : ℕ → ℕ → Memory → Memory
unfolding remove_first
drop_client r c m =
    let room = m.rooms r in
    set_room r (record room { cur_clients = remove_first c room.cur_clients }) m

-- The end of removeClient, behind the loop over the room's clients.
unfoldable pub clear_room : ℕ → Program → Program
clear_room c rest = lock c (act (point_at none c) (λ m. unlock c rest))

unfoldable pub remove_client : ℕ → ℕ → Program → Program
unfolding sprintf
remove_client r c rest = rlock c (
    look λ m.
      broadcast r (sprintf note_room_leave ((m.clients c).name ∷ []))
        (runlock c (act (drop_client r c) (λ n. clear_room c rest))))

-- The select of Listen.
unfoldable pub on_signal : ℕ → Signal → Program
on_signal r (join c) = add_client r c (listen r)
on_signal r (leave c) = remove_client r c (listen r)
on_signal r (incoming msg) = broadcast r msg (listen r)
on_signal r expiry = delete r (listen r)
