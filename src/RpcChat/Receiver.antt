-- ===== src/RpcChat/Receiver.antt =====
-- The calls that the server answers (receiver.go). Log output is left out.
use cmpt436chat_client.Prelude.{ℕ, suc, List, [], ◌∷◌, ◌++◌, Option, none, some, update}
use cmpt436chat_client.Text.{Text, codes, sprintf}
use cmpt436chat_client.Text.Clock.{kitchen}
use cmpt436chat_client.RpcChat.Registry.{
  Result, ok, failed, add_client, remove_client, get_client, add_c_room, get_c_room,
  get_c_room_name,
}
use cmpt436chat_client.RpcChat.Types.{
  Memory, new_client, set_client, err_send, note_room_create, sconnect,
}
use cmpt436chat_client.RpcChat.Program.{
  Program, join, leave, incoming, finish, act, rlock, runlock, lock, unlock, spawn, offer, take,
  tell, crash, look,
}
use cmpt436chat_client.RpcChat.Rooms.{kept, new_c_room}

abbrev pub done : Program
done = finish (ok [])

-- The client of a token, or the error of GetClient.
abbrev pub with_client : Result ℕ → (ℕ → Program) → Program
with_client (failed err) rest = finish (failed err)
with_client (ok c) rest = rest c

unfoldable pub authenticated : Text → (ℕ → Program) → Program
unfolding get_client
authenticated tok rest = look λ m. with_client (get_client tok m.cur_clients) rest

unfoldable pub alloc_client : Text → Memory → Memory
unfolding new_client
alloc_client tok m = record m {
  clients = update m.clients m.next_client (new_client tok);
  next_client = suc m.next_client;
}

unfoldable pub enroll : Text → ℕ → Memory → Memory
unfolding add_client
enroll tok c m = record m { cur_clients = kept m.cur_clients (add_client tok c m.cur_clients) }

abbrev pub greeted : Result (List (Text × ℕ)) → Text → ℕ → Program
greeted (failed err) tok c = finish (failed err)
greeted (ok n) tok c = spawn (offer c sconnect done) (finish (ok tok))

-- `tok` is what randString made.
unfoldable pub connect : Text → Program
unfolding alloc_client enroll
connect tok = act (alloc_client tok) λ m.
    act (enroll tok m.next_client)
      λ n. greeted (add_client tok m.next_client n.cur_clients) tok m.next_client

unfoldable pub rec_msg : Text → Program
rec_msg tok = authenticated tok λ c. take c (λ msg. finish (ok msg))

abbrev pub said : Option ℕ → ℕ → Text → Program
said none c line = offer c err_send (runlock c done)
said (some r) c line = tell r (incoming line) (runlock c done)

unfoldable pub send_msg : Text → Text → Program
unfolding kitchen sprintf
send_msg tok string = authenticated tok λ c. rlock c (
    look λ m.
      said (m.clients c).c_room c
        (sprintf (codes "[%s] - %s: %s") (kitchen m.now ∷ (m.clients c).name ∷ string ∷ [])))

unfoldable pub dismiss : Text → Memory → Memory
unfolding remove_client
dismiss tok m = record m { cur_clients = kept m.cur_clients (remove_client tok m.cur_clients) }

abbrev pub report : Result (List (Text × ℕ)) → Program
report (failed err) = finish (failed err)
report (ok n) = done

unfoldable pub quit : Text → Program
unfolding dismiss
quit tok = act (dismiss tok) λ m. report (remove_client tok m.cur_clients)

unfoldable pub publish : Text → ℕ → Memory → Memory
unfolding add_c_room
publish c_name r m = record m { c_rooms = kept m.c_rooms (add_c_room c_name r m.c_rooms) }

abbrev pub published : Result (List (Text × ℕ)) → ℕ → Text → Program
published (failed err) c c_name = offer c err (finish (failed err))
published (ok n) c c_name = offer c (sprintf note_room_create (c_name ∷ [])) done

unfoldable pub create_c_room : Text → Text → Program
unfolding sprintf
create_c_room tok c_name = authenticated tok λ c.
    new_c_room c_name
      λ r. act (publish c_name r) λ m. published (add_c_room c_name r m.c_rooms) c c_name

abbrev pub moved : Option ℕ → ℕ → ℕ → Program
moved none r c = tell r (join c) (runlock c done)
moved (some old) r c = tell old (leave c) (tell r (join c) (runlock c done))

abbrev pub joined : Result ℕ → ℕ → Program
joined (failed err) c = offer c err (finish (failed err))
joined (ok r) c = rlock c (look λ m. moved (m.clients c).c_room r c)

unfoldable pub join_c_room : Text → Text → Program
unfolding get_c_room
join_c_room tok c_name = authenticated tok λ c. look λ m. joined (get_c_room c_name m.c_rooms) c

-- The channel of a nil room is a nil dereference, which net/rpc does not recover from.
abbrev pub left : Option ℕ → ℕ → Program
left none c = crash
left (some r) c = tell r (leave c) (runlock c done)

unfoldable pub leave_c_room : Text → Program
leave_c_room tok = authenticated tok λ c. rlock c (look λ m. left (m.clients c).c_room c)

unfoldable pub lines : List Text → Text
lines [] = []
lines (name ∷ names) = name ++ (codes "\n" ++ lines names)

-- `order` is the order in which the range loop meets the keys of the map.
unfoldable pub list_c_rooms : (List Text → List Text) → Text → Program
unfolding get_c_room_name lines
list_c_rooms order tok = authenticated tok λ c. look λ m.
    offer c
      (codes "\n=====Chat Rooms======\n" ++ (lines (get_c_room_name order m.c_rooms) ++ codes "\n"))
      done

unfoldable pub rename : ℕ → Text → Memory → Memory
rename c name m = set_client c (record (m.clients c) { name = name }) m

unfoldable pub change_name : Text → Text → Program
unfolding rename
change_name tok name = authenticated tok λ c. lock c (act (rename c name) λ m. unlock c done)

-- The methods that package rpc serves. What a random token is, and the order of a range loop, come
-- with the call.
pub data Request : Type 0 where
  connecting receiving quitting leaving : Text → Request
  sending creating joining renaming : Text → Text → Request
  listing : (List Text → List Text) → Text → Request

unfoldable pub served : Request → Program
served (connecting tok) = connect tok
served (receiving tok) = rec_msg tok
served (quitting tok) = quit tok
served (leaving tok) = leave_c_room tok
served (sending tok string) = send_msg tok string
served (creating tok c_name) = create_c_room tok c_name
served (joining tok c_name) = join_c_room tok c_name
served (renaming tok name) = change_name tok name
served (listing order tok) = list_c_rooms order tok
