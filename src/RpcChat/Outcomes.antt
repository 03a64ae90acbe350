-- ===== src/RpcChat/Outcomes.antt =====
-- What becomes of the memory when a room of `Evan's Work/Assign 2/server/cRoom.go` handles a
-- signal.
use cmpt436chat_client.Prelude.{
  true, false, ℕ, ◌+◌, List, [], ◌∷◌, ◌++◌, map, none, some, ◌==◌, ltb, if◌then◌else◌, ◌≡◌, refl,
  sym, subst, ap, ◌∙◌, arith, count, remove_first, Bool-cases, Option-cases, inl, inr,
}
use cmpt436chat_client.Text.{Text, text_eq}
use cmpt436chat_client.Text.Laws.{text_eq_iff}
use cmpt436chat_client.Table.{lookup, lookup-delete}
use cmpt436chat_client.RpcChat.Types.{Memory, Client, CRoom, extime, note_room_deletion}
use cmpt436chat_client.RpcChat.Registry.{Registry, delete_c_room}
use cmpt436chat_client.RpcChat.Program.{Signal, join, leave, incoming, expiry}
use cmpt436chat_client.RpcChat.Rooms.{
  on_signal, remembered, seat, drop_client, point_at, kept, unregister,
}
use cmpt436chat_client.RpcChat.Alone.{settle}
use cmpt436chat_client.RpcChat.Signals.{
  enters, leaves, join_settles, leave_settles, incoming_settles, expiry_settles, closed, sent_home,
}

-- The room as it is with other clients and one more message, which renews its expiry.
abbrev pub noted : ℕ → List ℕ → Text → Memory → CRoom
noted r cs msg m = record (m.rooms r) {
  cur_clients = cs;
  msgs = (m.rooms r).msgs ++ msg ∷ [];
  expire = m.now + extime;
}

-- One room and one client may be others, and nothing else.
abbrev pub Alters : ℕ → CRoom → (ℕ → Client) → Memory → Memory → Type 0
Alters r room clients m n =
    ((q : ℕ) → n.rooms q ≡ (if q == r then room else m.rooms q))
    × ((d : ℕ) → n.clients d ≡ clients d)
    × ((name : Text) → lookup name n.c_rooms ≡ lookup name m.c_rooms)
    × (n.next_room ≡ m.next_room)
    × (n.now ≡ m.now)

-- From the memory `m` and on the signal to the room, the memory `n` and the texts, each with the
-- client that it is for.
abbrev pub Signalled : ℕ → Signal → Memory → Memory → List (ℕ × Text) → Type 0
Signalled r (join c) m n texts =
    Alters r (noted r ((m.rooms r).cur_clients ++ c ∷ []) (enters c m) m)
      (λ d. if d == c then record (m.clients c) { c_room = some r } else m.clients d) m n
    × (texts
        ≡ map (λ d. (d, enters c m)) (m.rooms r).cur_clients
          ++ map (λ text. (c, text)) ((m.rooms r).msgs ++ enters c m ∷ []))
Signalled r (leave c) m n texts =
    Alters r (noted r (remove_first c (m.rooms r).cur_clients) (leaves c m) m)
      (λ d. if d == c then record (m.clients c) { c_room = none } else m.clients d) m n
    × (texts ≡ map (λ d. (d, leaves c m)) (m.rooms r).cur_clients)
Signalled r (incoming msg) m n texts =
    Alters r (noted r (m.rooms r).cur_clients msg m) m.clients m n
    × (texts ≡ map (λ d. (d, msg)) (m.rooms r).cur_clients)
Signalled r expiry m n texts =
    let cs = (m.rooms r).cur_clients in
    let early = ltb m.now (m.rooms r).expire in
    ((q : ℕ)
      → n.rooms q ≡ (
          if early
          then m.rooms q
          else if q == r
          then noted r cs note_room_deletion m
          else m.rooms q))
    × ((d : ℕ)
        → n.clients d ≡ (
            if early
            then m.clients d
            else if count d cs == 0
            then m.clients d
            else record (m.clients d) { c_room = none }))
    × ((name : Text)
        → lookup name n.c_rooms ≡ (
            if early
            then lookup name m.c_rooms
            else if text_eq (m.rooms r).c_name name
            then none
            else lookup name m.c_rooms))
    × (n.next_room ≡ m.next_room)
    × (n.now ≡ m.now)
    × (texts ≡ (if early then [] else map (λ d. (d, note_room_deletion)) cs))

joined_lem :
    (r c : ℕ) (m : Memory)
    → Alters r
        (noted r ((m.rooms r).cur_clients ++ c ∷ []) (enters c m) m)
        (λ d. if d == c then record (m.clients c) { c_room = some r } else m.clients d)
        m
        (seat r c (remembered r (enters c m) m))
unfolding seat remembered point_at
joined_lem r c m = (λ q. ground arith, λ d. ground arith, λ name. refl, refl, refl)

left_lem :
    (r c : ℕ) (m : Memory)
    → Alters r
        (noted r (remove_first c (m.rooms r).cur_clients) (leaves c m) m)
        (λ d. if d == c then record (m.clients c) { c_room = none } else m.clients d)
        m
        (point_at none c (drop_client r c (remembered r (leaves c m) m)))
unfolding drop_client remembered point_at
left_lem r c m = (λ q. ground arith, λ d. ground arith, λ name. refl, refl, refl)

heard_lem :
    (r : ℕ) (msg : Text) (m : Memory)
    → Alters r (noted r (m.rooms r).cur_clients msg m) m.clients m (remembered r msg m)
unfolding remembered
heard_lem r msg m = (λ q. ground arith, λ d. refl, λ name. refl, refl, refl)

sent_home_lem :
    (cs : List ℕ) (m : Memory)
    → let n = sent_home cs m in
      ((d : ℕ)
        → n.clients d
          ≡ (if count d cs == 0 then m.clients d else record (m.clients d) { c_room = none }))
      × (n.rooms ≡ m.rooms)
      × (n.c_rooms ≡ m.c_rooms)
      × (n.next_room ≡ m.next_room)
      × (n.now ≡ m.now)
unfolding sent_home point_at count
sent_home_lem [] m = (λ d. refl, refl, refl, refl, refl)
sent_home_lem (c ∷ cs) m =
    let (moved, rooms, c_rooms, next, now) = sent_home_lem cs (point_at none c m) in
    (λ d. ground (arith, moved d), rooms, c_rooms, next, now)

-- A name that is not in the map is not found before or after.
kept-lookup :
    (key name : Text) (m : Registry)
    → lookup name (kept m (delete_c_room key m))
      ≡ (if text_eq key name then none else lookup name m)
unfolding delete_c_room
kept-lookup key name m = elim (Option-cases (lookup key m)) [
  | inl e ↦ rw e (ground (arith, e, text_eq_iff key name))
  | inr (q, e) ↦ rw e (lookup-delete key name m)
]

abbrev Out : ℕ → Signal → Memory → Memory × List (ℕ × Text) → Type 0
Out r sig m out = Signalled r sig m out.0 out.1

closed_lem :
    (r : ℕ) (m : Memory) → ltb m.now (m.rooms r).expire ≡ false → Out r expiry m (closed r m)
unfolding unregister
closed_lem r m late =
    let cs = (m.rooms r).cur_clients in
    let n = remembered r note_room_deletion m in
    let (moved, rooms, c_rooms, next, now) = sent_home_lem cs n in
    let (heard, same, lookups, next', now') = heard_lem r note_room_deletion m in
    let title : ((sent_home cs n).rooms r).c_name ≡ (m.rooms r).c_name =
      ap (λ (f : ℕ → CRoom). (f r).c_name) rooms ∙ unfold remembered in ground arith in
    rw late (
      λ q. ap (λ (f : ℕ → CRoom). f q) rooms ∙ heard q,
      λ d. ground (arith, moved d, same d),
      λ name.
          ap
            (λ t.
              lookup name
                (kept (sent_home cs n).c_rooms (delete_c_room t (sent_home cs n).c_rooms)))
            title
          ∙ kept-lookup (m.rooms r).c_name name (sent_home cs n).c_rooms
          ∙ ap (λ rs. if text_eq (m.rooms r).c_name name then none else lookup name rs) c_rooms
          ∙ ap (λ o. if text_eq (m.rooms r).c_name name then none else o) (lookups name),
      next ∙ next',
      now ∙ now',
      refl,
    )

early_lem : (r : ℕ) (m : Memory) → ltb m.now (m.rooms r).expire ≡ true → Out r expiry m (m, [])
early_lem r m early = rw early (λ q. refl, λ d. refl, λ name. refl, refl, refl, refl)

-- What a room's goroutine comes to on each signal, when nobody interferes. A newcomer is announced
-- to the room's clients; it is then sent everything that was said in the room, the announcement
-- included, stands behind the others among the room's clients, and is in the room. A client that
-- leaves is announced to all the clients, itself included if it is one of them, and is then off
-- their list once and in no room. A text is sent to all. Each of the three texts is the room's last
-- message, and makes the room expire EXTIME from now. A timer that comes early changes nothing in
-- the memory and sends nothing; one that comes when the room has expired has the deletion told to
-- all its clients, sets each of them to be in no room, and takes the room's name out of the map. No
-- other room, client or name is touched.
pub signal_comes_to :
    (r : ℕ) (sig : Signal) (m : Memory)
    → let out = settle (on_signal r sig) m in Signalled r sig m out.0 out.1
signal_comes_to r (join c) m =
    subst (Out r (join c) m) (sym (join_settles r c m)) (joined_lem r c m, refl)
signal_comes_to r (leave c) m =
    subst (Out r (leave c) m) (sym (leave_settles r c m)) (left_lem r c m, refl)
signal_comes_to r (incoming msg) m =
    subst (Out r (incoming msg) m) (sym (incoming_settles r msg m)) (heard_lem r msg m, refl)
signal_comes_to r expiry m = elim (Bool-cases (ltb m.now (m.rooms r).expire)) [
  | inl early ↦
      let same : settle (on_signal r expiry) m ≡ (m, []) = expiry_settles r m ∙ rw early refl in
      subst (Out r expiry m) (sym same) (early_lem r m early)
  | inr late ↦
      let same : settle (on_signal r expiry) m ≡ closed r m = expiry_settles r m ∙ rw late refl in
      subst (Out r expiry m) (sym same) (closed_lem r m late)
]
