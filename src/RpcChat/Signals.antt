-- ===== src/RpcChat/Signals.antt =====
-- What the signals of `Evan's Work/Assign 2/server/cRoom.go` do to a room while nobody interferes.
use cmpt436chat_client.Prelude.{
  ltb, ==_refl, ℕ, Bool, true, false, List, [], ◌∷◌, ◌++◌, map, none, ◌≡◌, refl, sym, subst, ap,
  ◌∙◌, arith, if◌then◌else◌, append_assoc, append-nil, remove_first, count,
}
use cmpt436chat_client.Text.{Text, sprintf}
use cmpt436chat_client.RpcChat.Types.{Memory, note_room_enter, note_room_leave, note_room_deletion}
use cmpt436chat_client.RpcChat.Program.{
  Program, join, leave, incoming, expiry, act, unlock, spawn, listen, look, offer_each,
}
use cmpt436chat_client.RpcChat.Rooms.{
  send_home, unregister, delete, timer, on_signal, remembered, broadcast, point_at, seat,
  add_client, drop_client, clear_room, remove_client,
}
use cmpt436chat_client.RpcChat.Alone.{settle, before, offer_each-settle, broadcast-settle}

-- What a client's name is announced with.
abbrev pub enters : ℕ → Memory → Text
enters c m = sprintf note_room_enter ((m.clients c).name ∷ [])

abbrev pub leaves : ℕ → Memory → Text
leaves c m = sprintf note_room_leave ((m.clients c).name ∷ [])

remembered_msgs :
    (r : ℕ) (msg : Text) (m : Memory)
    → ((remembered r msg m).rooms r).msgs ≡ (m.rooms r).msgs ++ msg ∷ []
unfolding remembered
remembered_msgs r msg m = rw (==_refl r) refl

newcomer-settle :
    (r c : ℕ) (msg : Text) (m : Memory)
    → settle
        (broadcast r msg
          (look (λ n. offer_each c (n.rooms r).msgs (act (seat r c) (λ o. unlock c (listen r))))))
        m
      ≡ (
        seat r c (remembered r msg m),
        map (λ d. (d, msg)) (m.rooms r).cur_clients
            ++ map (λ text. (c, text)) ((m.rooms r).msgs ++ msg ∷ []),
      )
unfolding settle
newcomer-settle r c msg m =
    let n = remembered r msg m in
    let greeting = map (λ d. (d, msg)) (m.rooms r).cur_clients in
    broadcast-settle r msg _ m
    ∙ ap (before greeting)
        (offer_each-settle c (n.rooms r).msgs (act (seat r c) (λ o. unlock c (listen r))) n)
    ∙ ap (λ texts. (seat r c n, greeting ++ texts)) (append-nil _)
    ∙ ap (λ msgs. (seat r c n, greeting ++ map (λ text. (c, text)) msgs)) (remembered_msgs r msg m)

-- A room that is told of a newcomer announces it to its clients; the newcomer is sent everything
-- that was said in the room, the announcement included, and then stands behind the others among the
-- room's clients.
pub join_settles :
    (r c : ℕ) (m : Memory)
    → settle (on_signal r (join c)) m ≡ (
      seat r c (remembered r (enters c m) m),
      map (λ d. (d, enters c m)) (m.rooms r).cur_clients
          ++ map (λ msg. (c, msg)) ((m.rooms r).msgs ++ enters c m ∷ []),
    )
unfolding settle on_signal add_client
join_settles r c m = newcomer-settle r c (enters c m) m

-- A room that is told of a client that leaves announces it to all its clients, the leaving one
-- included, and then takes it off them and out of the room.
pub leave_settles :
    (r c : ℕ) (m : Memory)
    → settle (on_signal r (leave c)) m ≡ (
      point_at none c (drop_client r c (remembered r (leaves c m) m)),
      map (λ d. (d, leaves c m)) (m.rooms r).cur_clients,
    )
unfolding settle on_signal remove_client clear_room
leave_settles r c m =
    broadcast-settle r (leaves c m) _ m
    ∙ ap (λ texts. (point_at none c (drop_client r c (remembered r (leaves c m) m)), texts))
        (append-nil _)

-- Clients sent out of their rooms, one after the other.
unfoldable pub sent_home : List ℕ → Memory → Memory
sent_home [] m = m
sent_home (c ∷ cs) m = sent_home cs (point_at none c m)

send_home-settle :
    (cs : List ℕ) (rest : Program) (m : Memory)
    → settle (send_home cs rest) m ≡ settle rest (sent_home cs m)
unfolding settle send_home sent_home
send_home-settle [] rest m = refl
send_home-settle (c ∷ cs) rest m = send_home-settle cs rest (point_at none c m)

remembered_clients :
    (r : ℕ) (msg : Text) (m : Memory)
    → ((remembered r msg m).rooms r).cur_clients ≡ (m.rooms r).cur_clients
unfolding remembered
remembered_clients r msg m = rw (==_refl r) refl

settle-if :
    (b : Bool) (p q : Program) (m : Memory)
    → settle (if b then p else q) m ≡ (if b then settle p m else settle q m)
settle-if true p q m = refl
settle-if false p q m = refl

-- What is left of a room that has expired.
abbrev pub closed : ℕ → Memory → Memory × List (ℕ × Text)
closed r m =
    let cs = (m.rooms r).cur_clients in
    (
      unregister r (sent_home cs (remembered r note_room_deletion m)),
      map (λ d. (d, note_room_deletion)) cs,
    )

closing-settle :
    (r : ℕ) (m : Memory)
    → settle
        (broadcast r note_room_deletion
          (look (λ n. send_home (n.rooms r).cur_clients (act (unregister r) (λ o. listen r)))))
        m
      ≡ closed r m
unfolding settle
closing-settle r m =
    let n = remembered r note_room_deletion m in
    let told = map (λ d. (d, note_room_deletion)) (m.rooms r).cur_clients in
    broadcast-settle r note_room_deletion _ m
    ∙ ap (before told)
        (send_home-settle (n.rooms r).cur_clients (act (unregister r) (λ o. listen r)) n)
    ∙ ap (λ texts. (unregister r (sent_home (n.rooms r).cur_clients n), texts)) (append-nil _)
    ∙ ap (λ cs. (unregister r (sent_home cs n), told)) (remembered_clients r note_room_deletion m)

pub expiry_settles :
    (r : ℕ) (m : Memory)
    → settle (on_signal r expiry) m ≡ (if ltb m.now (m.rooms r).expire then (m, []) else closed r m)
unfolding settle on_signal delete
expiry_settles r m =
    settle-if (ltb m.now (m.rooms r).expire) (spawn (timer r) (listen r)) _ m
    ∙ ap (λ out. if ltb m.now (m.rooms r).expire then (m, []) else out) (closing-settle r m)

pub incoming_settles :
    (r : ℕ) (msg : Text) (m : Memory)
    → settle (on_signal r (incoming msg)) m
      ≡ (remembered r msg m, map (λ d. (d, msg)) (m.rooms r).cur_clients)
unfolding settle on_signal
incoming_settles r msg m =
    broadcast-settle r msg (listen r) m ∙ ap (λ texts. (remembered r msg m, texts)) (append-nil _)

remove-append : (c : ℕ) (xs : List ℕ) → count c xs ≡ 0 → remove_first c (xs ++ c ∷ []) ≡ xs
unfolding remove_first count
remove-append c [] h = ground (arith, ==_refl c)
remove-append c (x ∷ xs) h = ground (arith, remove-append c xs)

abbrev joined_memory : ℕ → ℕ → Memory → Memory
joined_memory r c m = seat r c (remembered r (enters c m) m)

abbrev Visited : ℕ → ℕ → Memory → Memory → Type 0
Visited r c m n =
    ((n.rooms r).cur_clients ≡ (m.rooms r).cur_clients)
    × ((n.clients c).c_room ≡ none)
    × ((n.rooms r).msgs ≡ (m.rooms r).msgs ++ enters c m ∷ leaves c m ∷ [])

visited :
    (r c : ℕ) (m : Memory)
    → count c (m.rooms r).cur_clients ≡ 0
    → let j = joined_memory r c m in
      Visited r c m (point_at none c (drop_client r c (remembered r (leaves c j) j)))
unfolding seat remembered drop_client point_at
visited r c m h = (
  rw (==_refl r) (remove-append c _ h),
  rw (==_refl c) refl,
  rw (==_refl r, ==_refl c) (append_assoc (m.rooms r).msgs (enters c m ∷ []) (leaves c m ∷ [])),
)

-- A client that is not among a room's clients joins it and leaves it again, with nothing between:
-- the room has the clients it had, in their order, the client is in no room, and the room remembers
-- both announcements behind what it remembered before.
pub visit_settles :
    (r c : ℕ) (m : Memory)
    → count c (m.rooms r).cur_clients ≡ 0
    → let n = (settle (on_signal r (leave c)) (settle (on_signal r (join c)) m).0).0 in
      ((n.rooms r).cur_clients ≡ (m.rooms r).cur_clients)
      × ((n.clients c).c_room ≡ none)
      × ((n.rooms r).msgs ≡ (m.rooms r).msgs ++ enters c m ∷ leaves c m ∷ [])
visit_settles r c m h =
    subst (λ j. Visited r c m (settle (on_signal r (leave c)) j.0).0) (sym (join_settles r c m))
      (subst (λ l. Visited r c m l.0) (sym (leave_settles r c (joined_memory r c m)))
        (visited r c m h))
