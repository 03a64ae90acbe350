-- ===== src/RpcChat/Locks/Calls.antt =====
-- Every call of the server keeps to the order in which locks are taken and released.
use cmpt436chat_client.Prelude.{ℕ, List, Option, none, some, ◌≡◌, refl, arith, update}
use cmpt436chat_client.Text.{Text}
use cmpt436chat_client.RpcChat.Registry
use cmpt436chat_client.RpcChat.Registry.{Result, ok, failed}
use cmpt436chat_client.RpcChat.Program.{Program}
use cmpt436chat_client.RpcChat.Receiver
use cmpt436chat_client.RpcChat.Receiver.{
  authenticated, Request, connecting, receiving, quitting, leaving, sending, creating, joining,
  renaming, listing, served, said, moved, joined, left, report, published, greeted, with_client,
}
use cmpt436chat_client.RpcChat.Locks.Discipline.{
  idle, reading, writing, all_idle, Obeys, section-Obeys, new_c_room-Obeys,
}

-- A call that ends under the read lock of its client, which it releases.
read-Obeys :
    (c : ℕ)
    → (update all_idle c reading c ≡ reading)
      × ((d : ℕ) → update (update all_idle c reading) c idle d ≡ idle)
read-Obeys c = (ground arith, λ d. ground arith)

authenticated-Obeys :
    (tok : Text) (rest : ℕ → Program)
    → ((c : ℕ) → Obeys all_idle (rest c))
    → Obeys all_idle (authenticated tok rest)
unfolding authenticated
authenticated-Obeys tok rest h m = known (Registry.get_client tok m.cur_clients)
  where
    known : (o : Result ℕ) → Obeys all_idle (with_client o rest)
    known (failed err) = λ d. refl
    known (ok c) = h c

said-Obeys :
    (o : Option ℕ) (c : ℕ) (text : Text) → Obeys (update all_idle c reading) (said o c text)
said-Obeys none c text = read-Obeys c
said-Obeys (some r) c text = read-Obeys c

moved-Obeys : (o : Option ℕ) (r c : ℕ) → Obeys (update all_idle c reading) (moved o r c)
moved-Obeys none r c = read-Obeys c
moved-Obeys (some old) r c = read-Obeys c

left-Obeys : (o : Option ℕ) (c : ℕ) → Obeys (update all_idle c reading) (left o c)
left-Obeys none c = tt
left-Obeys (some r) c = read-Obeys c

joined-Obeys : (o : Result ℕ) (c : ℕ) → Obeys all_idle (joined o c)
joined-Obeys (failed err) c = λ d. refl
joined-Obeys (ok r) c = (refl, λ m. moved-Obeys (m.clients c).c_room r c)

greeted-Obeys :
    (o : Result (List (Text × ℕ))) (tok : Text) (c : ℕ) → Obeys all_idle (greeted o tok c)
greeted-Obeys (failed err) tok c = λ d. refl
greeted-Obeys (ok n) tok c = ((λ d. refl), (λ d. refl))

published-Obeys :
    (o : Result (List (Text × ℕ))) (c : ℕ) (c_name : Text) → Obeys all_idle (published o c c_name)
published-Obeys (failed err) c c_name = λ d. refl
published-Obeys (ok n) c c_name = λ d. refl

report-Obeys : (o : Result (List (Text × ℕ))) → Obeys all_idle (report o)
report-Obeys (failed err) = λ d. refl
report-Obeys (ok n) = λ d. refl

pub served-Obeys : (q : Request) → Obeys all_idle (served q)
unfolding served Receiver.connect Receiver.rec_msg Receiver.send_msg Receiver.quit
    Receiver.create_c_room Receiver.join_c_room Receiver.leave_c_room Receiver.list_c_rooms
    Receiver.change_name
served-Obeys (connecting tok) =
    λ m n. greeted-Obeys (Registry.add_client tok m.next_client n.cur_clients) tok m.next_client
served-Obeys (receiving tok) = authenticated-Obeys tok _ (λ c msg d. refl)
served-Obeys (quitting tok) = λ m. report-Obeys (Registry.remove_client tok m.cur_clients)
served-Obeys (leaving tok) =
    authenticated-Obeys tok _ (λ c. (refl, λ m. left-Obeys (m.clients c).c_room c))
served-Obeys (sending tok text) =
    authenticated-Obeys tok _ (λ c. (refl, λ m. said-Obeys (m.clients c).c_room c _))
served-Obeys (creating tok c_name) = authenticated-Obeys tok _ (λ c.
    new_c_room-Obeys c_name _
      (λ r m. published-Obeys (Registry.add_c_room c_name r m.c_rooms) c c_name))
served-Obeys (joining tok c_name) =
    authenticated-Obeys tok _ (λ c m. joined-Obeys (Registry.get_c_room c_name m.c_rooms) c)
served-Obeys (renaming tok name) =
    authenticated-Obeys tok _
      (λ c. (refl, λ m. section-Obeys all_idle c writing Receiver.done refl (λ d. refl)))
served-Obeys (listing order tok) = authenticated-Obeys tok _ (λ c m d. refl)
