-- ===== src/RoomServer/Deletion.antt =====
-- Deleting rooms: DeleteCRoom and Delete keep the lobby's books in order.
use cmpt436chat_client.Prelude.{
  ℕ, ◌+◌, ◌-◌, List, [], ◌∷◌, none, some, ◌==◌, ltb, leb, if◌then◌else◌, ◌≡◌, refl, arith,
  Bool-cases, inl, inr, same_pointer, count,
}
use cmpt436chat_client.Text.Laws.{text_eq_iff}
use cmpt436chat_client.Table.{lookup-delete}
use cmpt436chat_client.RoomServer.Types.{State, Client}
use cmpt436chat_client.RoomServer.Rooms.{clear_rooms, delete, set_client}
use cmpt436chat_client.RoomServer.Lobby.{find_room, sleep_until, unregister, delete_c_room}
use cmpt436chat_client.RoomServer.Events.{wake_sleeper}
use cmpt436chat_client.Sleepers.{
  without_at, sleeper-cases, watched, watched-append, watched-without_at,
}
use cmpt436chat_client.RoomServer.Invariant.{Inv, members, title}
use cmpt436chat_client.RoomServer.Expiry.{IsWatched}

-- The clients that Delete leaves behind: those of the list are in no room, and all keep their
-- names.
abbrev pub Cleared : List ℕ → (ℕ → Client) → (ℕ → Client) → Type 0
Cleared cs old new =
    (c : ℕ)
    → ((new c).c_room ≡ (if count c cs == 0 then (old c).c_room else none))
      × ((new c).username ≡ (old c).username)

pub clear_rooms_lem :
    (cs : List ℕ) (s : State)
    → (new : ℕ → Client) × Cleared cs s.clients new
      × (clear_rooms cs s ≡ record s { clients = new })
unfolding clear_rooms count
clear_rooms_lem [] s = (s.clients, (λ c. (refl, refl)), refl)
clear_rooms_lem (d ∷ cs) s =
    let (new, cleared, same) =
      clear_rooms_lem cs (set_client d (record (s.clients d) { c_room = none }) s) in
    (new, (λ c. ground (arith, cleared c)), same)

module _ (r : ℕ) (s : State) (there : find_room (title r s) s ≡ some r) (i : Inv s) where
  unregister-Inv :
      (new : ℕ → Client)
      → Cleared (members r s) s.clients new
      → Inv (unregister (title r s) (record s { clients = new }))
  unfolding unregister
  unregister-Inv new cleared = record {
    titled =
        λ name q h. ground (arith, i.titled name q, lookup-delete (title r s) name s.lobby.c_room);
    allocated = λ name q h.
        ground (arith, i.allocated name q, lookup-delete (title r s) name s.lobby.c_room);
    located = λ c q h. ground (
      arith,
      cleared c,
      i.located c q,
      i.placed c r there,
      lookup-delete (title r s) (title q s) s.lobby.c_room,
      text_eq_iff (title r s) (title q s),
    );
    placed = λ c q h. ground (
      arith,
      cleared c,
      i.placed c q,
      i.placed c r there,
      lookup-delete (title r s) (title q s) s.lobby.c_room,
      text_eq_iff (title r s) (title q s),
    );
    unborn = λ c h. ground (arith, cleared c, i.unborn c h);
    known = i.known;
  }

  delete_c_room-Inv : Inv (delete_c_room r s)
  unfolding delete_c_room sleep_until delete
  delete_c_room-Inv = elim (Bool-cases (ltb s.now (s.rooms r).expire)) [
    | inl e ↦ rw e (record {
      titled = i.titled;
      allocated = i.allocated;
      located = i.located;
      placed = i.placed;
      unborn = i.unborn;
      known = i.known;
    })
    | inr e ↦
        let (new, cleared, same) = clear_rooms_lem (members r s) s in
        rw (e, same) (unregister-Inv new cleared)
  ]

  -- The goroutine that handed over the room is no longer among those that sleep.
  delete_c_room-IsWatched :
      ((q : ℕ)
        → count q (watched s.sleepers) + (if q == r then 1 else 0)
          ≡ (if same_pointer (find_room (title q s) s) (some q) then 1 else 0))
      → IsWatched (delete_c_room r s)
  unfolding delete_c_room sleep_until delete unregister
  delete_c_room-IsWatched v = elim (Bool-cases (ltb s.now (s.rooms r).expire)) [
    | inl e ↦ rw e (λ q.
        ground (arith, v q, watched-append q (s.now + ((s.rooms r).expire - s.now)) r s.sleepers))
    | inr e ↦
        let (new, cleared, same) = clear_rooms_lem (members r s) s in
        rw (e, same)
          (λ q. ground (
            arith,
            v q,
            there,
            lookup-delete (title r s) (title q s) s.lobby.c_room,
            text_eq_iff (title r s) (title q s),
          ))
  ]

without-Inv : (ss : List (ℕ × ℕ)) (s : State) → Inv s → Inv (record s { sleepers = ss })
without-Inv ss s v = record {
  titled = v.titled;
  allocated = v.allocated;
  located = v.located;
  placed = v.placed;
  unborn = v.unborn;
  known = v.known;
}

pub wake_sleeper-keeps :
    (i : ℕ) (s : State)
    → Inv s
    → IsWatched s
    → Inv (wake_sleeper i s) × IsWatched (wake_sleeper i s)
unfolding wake_sleeper
wake_sleeper-keeps i s v w = elim (sleeper-cases i s.sleepers) [
  | inl e ↦ rw (e, wake_sleeper) (v, w)
  | inr (t, r, e) ↦ elim (Bool-cases (leb t s.now)) [
    | inr early ↦ rw (e, wake_sleeper, early) (v, w)
    | inl due ↦
        let s' = record s { sleepers = without_at i s.sleepers } in
        let there : find_room (title r s) s ≡ some r =
          ground (arith, w r, watched-without_at r t r i s.sleepers e) in
        let v' = without-Inv (without_at i s.sleepers) s v in
        rw (e, wake_sleeper, due)
          (
            delete_c_room-Inv r s' there v',
            delete_c_room-IsWatched r s' there v'
                (λ q. ground (arith, w q, watched-without_at q t r i s.sleepers e)),
          )
  ]
]
