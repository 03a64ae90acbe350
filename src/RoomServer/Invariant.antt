-- ===== src/RoomServer/Invariant.antt =====
-- Clients, rooms and the lobby's map agree with one another.
use cmpt436chat_client.Prelude.{
  ℕ, ◌≤◌, ◌<◌, Bool, true, false, List, [], ◌∷◌, Option, none, some, if◌then◌else◌, is_nil, ◌≡◌,
  refl, arith, Option-cases, Bool-cases, inl, inr, same_pointer, count, count-append,
  count-remove_first, count-single,
}
use cmpt436chat_client.Text.{Text, has_prefix}
use cmpt436chat_client.Text.Laws.{text_eq_iff}
use cmpt436chat_client.Table.{lookup-insert}
use cmpt436chat_client.RoomServer.Types.{
  State, Msg, new_c_room, comm_createroom, comm_enterroom, comm_leaveroom, comm_listrooms,
  comm_helpchat, comm_changename, comm_quitchat,
}
use cmpt436chat_client.RoomServer.Rooms.{logged, point_at, add_member, drop_member, point_at_lobby}
use cmpt436chat_client.RoomServer.Lobby.{room_of, find_room, register_room, sleep_until, rename}
use cmpt436chat_client.RoomServer.Effects.{
  left, joined, left_current, moved_to, entered, created, said, renamed, parsed,
}

-- The members of a room, and the room that the map holds under a room's own name.
abbrev pub members : ℕ → State → List ℕ
members r s = (s.rooms r).cur_clients

abbrev pub title : ℕ → State → Text
title r s = (s.rooms r).c_name

pub record Inv (s : State) : Type 0 where
  -- A room is in the map under its own name.
  pub titled : (name : Text) (r : ℕ) → find_room name s ≡ some r → title r s ≡ name
  pub allocated : (name : Text) (r : ℕ) → find_room name s ≡ some r → r < s.next_room
  -- The room of a client is in the map.
  pub located : (c r : ℕ) → room_of c s ≡ some r → find_room (title r s) s ≡ some r
  -- A room that is in the map lists exactly the clients whose room it is, each once.
  pub placed :
      (c r : ℕ)
      → find_room (title r s) s ≡ some r
      → count c (members r s) ≡ (if same_pointer (room_of c s) (some r) then 1 else 0)
  -- Clients that have not been constructed are in no room, and nothing is relayed for them.
  pub unborn : (c : ℕ) → s.next_client ≤ c → room_of c s ≡ none
  pub known : (c : ℕ) → s.next_client ≤ c → count c s.relayed ≡ 0

logged-Inv : (r : ℕ) (msg : Text) (s : State) → Inv s → Inv (logged r msg s)
unfolding logged
logged-Inv r msg s v = record {
  titled = λ name q h. ground (arith, v.titled name q h);
  allocated = v.allocated;
  located = λ c q h. ground (arith, v.located c q h);
  placed = λ c q h. ground (arith, v.placed c q);
  unborn = v.unborn;
  known = v.known;
}

left-Inv : (c r : ℕ) (s : State) → room_of c s ≡ some r → Inv s → Inv (left c r s)
unfolding left logged drop_member point_at_lobby
left-Inv c r s at v = record {
  titled = λ name q h. ground (arith, v.titled name q h);
  allocated = v.allocated;
  located = λ d q h. ground (arith, v.located d q);
  placed = λ d q h. ground (arith, v.placed d q, count-remove_first d c (members q s));
  unborn = λ d h. ground (arith, v.unborn d h);
  known = v.known;
}

joined-Inv :
    (c r : ℕ) (s : State)
    → room_of c s ≡ none
    → find_room (title r s) s ≡ some r
    → c < s.next_client
    → Inv s
    → Inv (joined c r s)
unfolding joined logged add_member point_at
joined-Inv c r s out there born v = record {
  titled = λ name q h. ground (arith, v.titled name q h);
  allocated = v.allocated;
  located = λ d q h. ground (arith, v.located d q);
  placed = λ d q h.
      ground (arith, v.placed d q, count-append d (members q s) (c ∷ []), count-single d c);
  unborn = λ d h. ground (arith, v.unborn d h);
  known = v.known;
}

left-same : (c r : ℕ) (s : State) → (left c r s).lobby ≡ s.lobby
unfolding left logged drop_member point_at_lobby
left-same c r s = refl

-- Whatever room the client was in, it is in none after leaving.
left-out : (c r : ℕ) (s : State) → room_of c (left c r s) ≡ none
unfolding left logged drop_member point_at_lobby
left-out c r s = ground arith

left-next : (c r : ℕ) (s : State) → (left c r s).next_client ≡ s.next_client
unfolding left logged drop_member point_at_lobby
left-next c r s = refl

pub left_current-facts :
    (c : ℕ) (s : State)
    → Inv s
    → Inv (left_current c s)
      × (room_of c (left_current c s) ≡ none)
      × ((left_current c s).lobby ≡ s.lobby)
      × ((left_current c s).next_client ≡ s.next_client)
left_current-facts c s v = elim (Option-cases (room_of c s)) [
  | inl e ↦ unfold left_current in rw (e, left_current) (v, e, refl, refl)
  | inr (r, e) ↦
      unfold left_current in
      rw (e, left_current) (left-Inv c r s e v, left-out c r s, left-same c r s, left-next c r s)
]

moved_to-Inv :
    (o : Option ℕ) (c : ℕ) (s : State)
    → ((r : ℕ) → o ≡ some r → find_room (title r s) s ≡ some r)
    → room_of c s ≡ none
    → c < s.next_client
    → Inv s
    → Inv (moved_to o c s)
unfolding moved_to
moved_to-Inv none c s there out born v = v
moved_to-Inv (some r) c s there out born v = joined-Inv c r s out (there r refl) born v

pub entered-Inv :
    (c : ℕ) (name : Text) (s : State) → c < s.next_client → Inv s → Inv (entered c name s)
unfolding entered
entered-Inv c name s born v =
    let (v', out, same, next) = left_current-facts c s v in
    elim (Bool-cases (is_nil (find_room name s))) [
      | inl e ↦ rw e v
      | inr e ↦ rw e (
          moved_to-Inv (find_room name (left_current c s)) c (left_current c s)
            (λ r h. ground (arith, v'.titled name r h)) out (ground arith) v')
    ]

pub register_room-Inv :
    (name : Text) (s : State) → find_room name s ≡ none → Inv s → Inv (register_room name s)
unfolding register_room new_c_room count
register_room-Inv name s new v = record {
  titled = λ n r h. ground (
    arith,
    v.titled n r,
    v.allocated n r,
    lookup-insert name n s.next_room s.lobby.c_room,
    text_eq_iff name n,
  );
  allocated =
      λ n r h. ground (arith, v.allocated n r, lookup-insert name n s.next_room s.lobby.c_room);
  located = λ c r h. ground (
    arith,
    v.located c r,
    v.allocated (title r s) r,
    lookup-insert name (title r s) s.next_room s.lobby.c_room,
    text_eq_iff name (title r s),
  );
  placed = λ c r h. ground (
    arith,
    v.placed c r,
    v.located c r,
    v.allocated (title r s) r,
    lookup-insert name (title r s) s.next_room s.lobby.c_room,
    text_eq_iff name (title r s),
  );
  unborn = v.unborn;
  known = v.known;
}

pub sleep_until-Inv : (t r : ℕ) (s : State) → Inv s → Inv (sleep_until t r s)
unfolding sleep_until
sleep_until-Inv t r s v = record {
  titled = v.titled;
  allocated = v.allocated;
  located = v.located;
  placed = v.placed;
  unborn = v.unborn;
  known = v.known;
}

pub created-Inv :
    (c : ℕ) (name : Text) (s : State) → c < s.next_client → Inv s → Inv (created c name s)
unfolding created
created-Inv c name s born v = elim (Option-cases (find_room name s)) [
  | inl e ↦ rw e (
      entered-Inv c name _ (unfold sleep_until register_room in born)
        (sleep_until-Inv _ s.next_room _ (register_room-Inv name s e v)))
  | inr (r, e) ↦ rw e v
]

said-Inv : (msg : Msg) (s : State) → Inv s → Inv (said msg s)
unfolding said
said-Inv msg s v = elim (Option-cases (room_of msg.client s)) [
  | inl e ↦ rw (e, said) v
  | inr (r, e) ↦ rw (e, said) (logged-Inv r _ s v)
]

rename-Inv : (c : ℕ) (username : Text) (s : State) → Inv s → Inv (rename c username s)
unfolding rename
rename-Inv c username s v = record {
  titled = v.titled;
  allocated = v.allocated;
  located = λ d r h. v.located d r (ground arith);
  placed = λ d r h. ground (arith, v.placed d r);
  unborn = λ d h. ground (arith, v.unborn d h);
  known = v.known;
}

renamed-Inv : (c : ℕ) (username : Text) (s : State) → Inv s → Inv (renamed c username s)
unfolding renamed
renamed-Inv c username s v = elim (Option-cases (room_of c s)) [
  | inl e ↦ rw (e, renamed) (rename-Inv c username s v)
  | inr (r, e) ↦ rw (e, renamed) (rename-Inv c username _ (logged-Inv r _ s v))
]

-- What holds after each kind of line holds after every line.
pub parsed_cases {ℓ} :
    (P : State → Type ℓ) (msg : Msg) (s : State)
    → ((name : Text) → P (created msg.client name s))
    → ((name : Text) → P (entered msg.client name s))
    → P (left_current msg.client s)
    → ((username : Text) → P (renamed msg.client username s))
    → P (said msg s)
    → P s
    → P (parsed msg s)
unfolding parsed
parsed_cases P msg s create enter leave rename say same =
    first (has_prefix msg.txt comm_createroom) (create _) (
      first (has_prefix msg.txt comm_enterroom) (enter _) (
        first (has_prefix msg.txt comm_leaveroom) leave (
          first (has_prefix msg.txt comm_listrooms) same (
            first (has_prefix msg.txt comm_helpchat) same (
              first (has_prefix msg.txt comm_changename) (rename _)
                (first (has_prefix msg.txt comm_quitchat) same say))))))
  where
    first : (b : Bool) {s t : State} → P s → P t → P (if b then s else t)
    first true h k = h
    first false h k = k

-- A line of a client keeps the agreement.
pub parsed-Inv : (msg : Msg) (s : State) → msg.client < s.next_client → Inv s → Inv (parsed msg s)
parsed-Inv msg s born v =
    parsed_cases Inv msg s (λ name. created-Inv msg.client name s born v)
      (λ name. entered-Inv msg.client name s born v) (left_current-facts msg.client s v).0
      (λ username. renamed-Inv msg.client username s v) (said-Inv msg s v) v
