-- ===== src/LobbyServer/Invariant.antt =====
-- Clients, rooms, the lobby's map and the goroutines that relay for clients agree with one another
-- (ken/server.go).
use cmpt436chat_client.Prelude.{
  ℕ, ◌≤◌, ◌<◌, List, [], ◌∷◌, none, some, if◌then◌else◌, ◌≡◌, refl, arith, Option-cases, inl, inr,
  same_pointer, count, count-append, count-remove_first, count-single,
}
use cmpt436chat_client.Text.{Text}
use cmpt436chat_client.LobbyServer.Types.{State}
use cmpt436chat_client.LobbyServer.ChatRooms.{remembered, move_to, add_client, drop_client}
use cmpt436chat_client.LobbyServer.Lobby.{room_of, find_room}
use cmpt436chat_client.LobbyServer.Effects.{left, joined, left_current}

-- The clients that a room lists, and the name it stands under.
abbrev pub members : ℕ → State → List ℕ
members r s = (s.chat_rooms r).clients

abbrev pub title : ℕ → State → Text
title r s = (s.chat_rooms r).name

pub record Inv (s : State) : Type 0 where
  -- A room is in the map under its own name.
  pub titled : (name : Text) (r : ℕ) → find_room name s ≡ some r → title r s ≡ name
  pub allocated : (name : Text) (r : ℕ) → find_room name s ≡ some r → r < s.next_room
  -- The room of a client is in the map.
  pub located : (c r : ℕ) → room_of c s ≡ some r → find_room (title r s) s ≡ some r
  -- A room that is in the map lists exactly the clients whose room it is, each once.
  pub placed :
      (c r : ℕ)
      → find_room (title r s) s ≡ some r
      → count c (members r s) ≡ (if same_pointer (room_of c s) (some r) then 1 else 0)
  -- The messages of a client that is in a room are relayed.
  pub heard : (c r : ℕ) → room_of c s ≡ some r → 0 < count c s.relayed
  -- One goroutine at most relays for a client, and none for a client that is not constructed.
  pub once : (c : ℕ) → count c s.relayed ≤ 1
  pub known : (c : ℕ) → s.next_client ≤ c → count c s.relayed ≡ 0
  -- The lobby's list holds the clients that are relayed for.
  pub counted : (c : ℕ) → count c s.lobby.clients ≡ count c s.relayed

pub remembered-Inv : (r : ℕ) (msg : Text) (s : State) → Inv s → Inv (remembered r msg s)
unfolding remembered
remembered-Inv r msg s v = record {
  titled = λ name q h. ground (arith, v.titled name q h);
  allocated = v.allocated;
  located = λ c q h. ground (arith, v.located c q h);
  placed = λ c q h. ground (arith, v.placed c q);
  heard = v.heard;
  once = v.once;
  known = v.known;
  counted = v.counted;
}

left-Inv : (c r : ℕ) (s : State) → room_of c s ≡ some r → Inv s → Inv (left c r s)
unfolding left remembered drop_client move_to
left-Inv c r s at v = record {
  titled = λ name q h. ground (arith, v.titled name q h);
  allocated = v.allocated;
  located = λ d q h. ground (arith, v.located d q);
  placed = λ d q h. ground (arith, v.placed d q, count-remove_first d c (members q s));
  heard = λ d q h. ground (arith, v.heard d q);
  once = v.once;
  known = v.known;
  counted = v.counted;
}

pub joined-Inv :
    (c r : ℕ) (s : State)
    → room_of c s ≡ none
    → find_room (title r s) s ≡ some r
    → 0 < count c s.relayed
    → Inv s
    → Inv (joined c r s)
unfolding joined remembered add_client move_to
joined-Inv c r s out there on v = record {
  titled = λ name q h. ground (arith, v.titled name q h);
  allocated = v.allocated;
  located = λ d q h. ground (arith, v.located d q);
  placed = λ d q h.
      ground (arith, v.placed d q, count-append d (members q s) (c ∷ []), count-single d c);
  heard = λ d q h. ground (arith, v.heard d q);
  once = v.once;
  known = v.known;
  counted = v.counted;
}

-- What leaving does not touch.
left-same :
    (c r : ℕ) (s : State)
    → ((left c r s).lobby ≡ s.lobby)
      × ((left c r s).relayed ≡ s.relayed)
      × (room_of c (left c r s) ≡ none)
unfolding left remembered drop_client move_to
left-same c r s = (refl, refl, ground arith)

pub left_current-facts :
    (c : ℕ) (s : State)
    → Inv s
    → Inv (left_current c s)
      × (room_of c (left_current c s) ≡ none)
      × ((left_current c s).lobby ≡ s.lobby)
      × ((left_current c s).relayed ≡ s.relayed)
left_current-facts c s v = elim (Option-cases (room_of c s)) [
  | inl e ↦ unfold left_current in rw (e, left_current) (v, e, refl, refl)
  | inr (r, e) ↦
      let (lobby, relayed, out) = left-same c r s in
      unfold left_current in rw (e, left_current) (left-Inv c r s e v, out, lobby, relayed)
]

-- The sleeping goroutines are not in it.
pub sleepers-Inv : (ss : List (ℕ × ℕ)) (s : State) → Inv s → Inv (record s { sleepers = ss })
sleepers-Inv ss s v = record {
  titled = v.titled;
  allocated = v.allocated;
  located = v.located;
  placed = v.placed;
  heard = v.heard;
  once = v.once;
  known = v.known;
  counted = v.counted;
}
