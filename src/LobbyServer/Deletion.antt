-- ===== src/LobbyServer/Deletion.antt =====
-- Deleting rooms: DeleteChatRoom and Delete of ken/server.go keep the lobby's books in order.
use cmpt436chat_client.Prelude.{
  ℕ, ◌+◌, ◌-◌, List, [], ◌∷◌, none, some, ◌==◌, ltb, leb, if◌then◌else◌, ◌≡◌, refl, arith,
  Bool-cases, inl, inr, same_pointer, count, ◌∙◌,
}
use cmpt436chat_client.Text.Laws.{text_eq_iff}
use cmpt436chat_client.Table.{lookup-delete}
use cmpt436chat_client.Sleepers.{
  sleeper_at, without_at, sleeper-cases, watched, watched-append, watched-without_at,
}
use cmpt436chat_client.LobbyServer.Types.{State, Client, notice_room_delete}
use cmpt436chat_client.LobbyServer.ChatRooms.{remembered, move_out, move_to}
use cmpt436chat_client.LobbyServer.Lobby.{find_room, sleep_until, unregister}
use cmpt436chat_client.LobbyServer.Effects.{deleted, woken}
use cmpt436chat_client.LobbyServer.Invariant.{Inv, members, title, remembered-Inv, sleepers-Inv}
use cmpt436chat_client.LobbyServer.Expiry.{IsWatched}

-- The clients that Delete leaves behind: those of the list are in no room.
abbrev Cleared : List ℕ → (ℕ → Client) → (ℕ → Client) → Type 0
Cleared cs old new =
    (c : ℕ) → (new c).chat_room ≡ (if count c cs == 0 then (old c).chat_room else none)

move_out_lem :
    (cs : List ℕ) (s : State)
    → (new : ℕ → Client) × Cleared cs s.clients new × (move_out cs s ≡ record s { clients = new })
unfolding move_out move_to count
move_out_lem [] s = (s.clients, (λ c. refl), refl)
move_out_lem (d ∷ cs) s =
    let (new, cleared, same) = move_out_lem cs (move_to none d s) in
    (new, (λ c. ground (arith, cleared c)), same)

module _ (r : ℕ) (s : State) (there : find_room (title r s) s ≡ some r) (i : Inv s) where
  unregister-Inv :
      (new : ℕ → Client)
      → Cleared (members r s) s.clients new
      → Inv (unregister (title r s) (record s { clients = new }))
  unfolding unregister
  unregister-Inv new cleared = record {
    titled = λ name q h.
        ground (arith, i.titled name q, lookup-delete (title r s) name s.lobby.chat_rooms);
    allocated = λ name q h.
        ground (arith, i.allocated name q, lookup-delete (title r s) name s.lobby.chat_rooms);
    located = λ c q h. ground (
      arith,
      cleared c,
      i.located c q,
      i.placed c r there,
      lookup-delete (title r s) (title q s) s.lobby.chat_rooms,
      text_eq_iff (title r s) (title q s),
    );
    placed = λ c q h. ground (
      arith,
      cleared c,
      i.placed c q,
      i.placed c r there,
      lookup-delete (title r s) (title q s) s.lobby.chat_rooms,
      text_eq_iff (title r s) (title q s),
    );
    heard = λ c q h. ground (arith, cleared c, i.heard c q);
    once = i.once;
    known = i.known;
    counted = i.counted;
  }

  unregister-IsWatched :
      (new : ℕ → Client)
      → ((q : ℕ)
          → count q (watched s.sleepers) + (if q == r then 1 else 0)
            ≡ (if same_pointer (find_room (title q s) s) (some q) then 1 else 0))
      → IsWatched (unregister (title r s) (record s { clients = new }))
  unfolding unregister
  unregister-IsWatched new v q = ground (
    arith,
    v q,
    there,
    lookup-delete (title r s) (title q s) s.lobby.chat_rooms,
    text_eq_iff (title r s) (title q s),
  )

-- What Delete's note leaves alone.
noted-same :
    (r : ℕ) (s : State)
    → let n = remembered r notice_room_delete s in
      (title r n ≡ title r s) × (members r n ≡ members r s)
unfolding remembered
noted-same r s = (ground arith, ground arith)

noted-find :
    (r : ℕ) (s : State)
    → let n = remembered r notice_room_delete s in find_room (title r n) n ≡ find_room (title r s) s
unfolding remembered
noted-find r s = ground arith

abbrev Counts : ℕ → State → Type 0
Counts r s =
    (q : ℕ)
    → count q (watched s.sleepers) + (if q == r then 1 else 0)
      ≡ (if same_pointer (find_room (title q s) s) (some q) then 1 else 0)

noted-Counts : (r : ℕ) (s : State) → Counts r s → Counts r (remembered r notice_room_delete s)
unfolding remembered
noted-Counts r s v q = ground (arith, v q)

-- The goroutine that handed over the room is no longer among those that sleep.
pub deleted-keeps :
    (r : ℕ) (s : State)
    → find_room (title r s) s ≡ some r
    → Inv s
    → Counts r s
    → Inv (deleted r s) × IsWatched (deleted r s)
unfolding deleted sleep_until
deleted-keeps r s there i v = elim (Bool-cases (ltb s.now (s.chat_rooms r).expiry)) [
  | inl e ↦ rw e (
    sleepers-Inv _ s i,
    λ q.
        ground
          (arith, v q, watched-append q (s.now + ((s.chat_rooms r).expiry - s.now)) r s.sleepers),
  )
  | inr e ↦
      let n = remembered r notice_room_delete s in
      let (new, cleared, same) = move_out_lem (members r n) n in
      let stays : find_room (title r n) n ≡ some r = noted-find r s ∙ there in
      rw (e, same)
        (
          unregister-Inv r n stays (remembered-Inv r notice_room_delete s i) new cleared,
          unregister-IsWatched r n stays (remembered-Inv r notice_room_delete s i) new
              (noted-Counts r s v),
        )
]

-- A room that a goroutine sleeps for is in the map under its name.
pub sleeper_there :
    (i t r : ℕ) (s : State)
    → IsWatched s
    → sleeper_at i s.sleepers ≡ some (t, r)
    → find_room (title r s) s ≡ some r
sleeper_there i t r s w e = ground (arith, w r, watched-without_at r t r i s.sleepers e)

pub woken-keeps :
    (i : ℕ) (s : State) → Inv s → IsWatched s → Inv (woken i s) × IsWatched (woken i s)
unfolding woken
woken-keeps i s v w = elim (sleeper-cases i s.sleepers) [
  | inl e ↦ rw (e, woken) (v, w)
  | inr (t, r, e) ↦ elim (Bool-cases (leb t s.now)) [
    | inr early ↦ rw (e, woken, early) (v, w)
    | inl due ↦
        let s' = record s { sleepers = without_at i s.sleepers } in
        rw (e, woken, due)
          (deleted-keeps r s' (sleeper_there i t r s w e)
            (sleepers-Inv (without_at i s.sleepers) s v)
            (λ q. ground (arith, w q, watched-without_at q t r i s.sleepers e)))
  ]
]
