-- ===== src/LobbyServer/Relayed.antt =====
-- The goroutines of ken/server.go that relay for clients, across the methods that handle a line or
-- a room.
use cmpt436chat_client.Prelude.{
  ℕ, List, [], ◌∷◌, none, ltb, ◌≡◌, refl, ◌∙◌, Option-cases, Bool-cases, inl, inr, is_nil,
}
use cmpt436chat_client.Text.{Text}
use cmpt436chat_client.LobbyServer.Types.{notice_room_delete, State, Message}
use cmpt436chat_client.LobbyServer.ChatRooms.{
  add_client, remembered, move_to, move_out, drop_client,
}
use cmpt436chat_client.LobbyServer.Lobby.{
  register, rename, sleep_until, unregister, room_of, find_room,
}
use cmpt436chat_client.LobbyServer.Lines.{parsed_cases}
use cmpt436chat_client.LobbyServer.Effects.{
  left_current, left, parsed, deleted, joined, entered, moved_to, created, said, renamed,
}
use cmpt436chat_client.LobbyServer.Invariant.{members}

move_out-relayed : (cs : List ℕ) (s : State) → (move_out cs s).relayed ≡ s.relayed
unfolding move_out move_to
move_out-relayed [] s = refl
move_out-relayed (c ∷ cs) s = move_out-relayed cs (move_to none c s)

pub deleted-relayed : (r : ℕ) (s : State) → (deleted r s).relayed ≡ s.relayed
unfolding deleted sleep_until unregister remembered
deleted-relayed r s = elim (Bool-cases (ltb s.now (s.chat_rooms r).expiry)) [
  | inl e ↦ rw (e, deleted) refl
  | inr e ↦
      rw (e, deleted)
        (move_out-relayed (members r (remembered r notice_room_delete s))
          (remembered r notice_room_delete s))
]

pub left_current-relayed : (c : ℕ) (s : State) → (left_current c s).relayed ≡ s.relayed
unfolding left_current left drop_client move_to remembered
left_current-relayed c s = elim (Option-cases (room_of c s)) [
  | inl e ↦ rw (e, left_current) refl
  | inr (r, e) ↦ rw (e, left_current) refl
]

joined-relayed : (c r : ℕ) (s : State) → (joined c r s).relayed ≡ s.relayed
unfolding joined remembered add_client move_to
joined-relayed c r s = refl

entered-relayed : (c : ℕ) (name : Text) (s : State) → (entered c name s).relayed ≡ s.relayed
unfolding entered moved_to
entered-relayed c name s = elim (Bool-cases (is_nil (find_room name s))) [
  | inl e ↦ rw e refl
  | inr e ↦ rw e (elim (Option-cases (find_room name (left_current c s))) [
    | inl f ↦ rw f (left_current-relayed c s)
    | inr (r, f) ↦ rw f (joined-relayed c r (left_current c s) ∙ left_current-relayed c s)
  ])
]

pub parsed-relayed : (m : Message) (s : State) → (parsed m s).relayed ≡ s.relayed
unfolding created sleep_until register said renamed rename remembered
parsed-relayed m s =
    parsed_cases (λ t. t.relayed ≡ s.relayed) m s
      (λ name. elim (Bool-cases (is_nil (find_room name s))) [
        | inl e ↦ rw e refl
        | inr e ↦ rw e refl
      ])
      (λ name. entered-relayed m.client name s) (left_current-relayed m.client s)
      (λ name. elim (Option-cases (room_of m.client s)) [
        | inl e ↦ rw (e, renamed) refl
        | inr (r, e) ↦ rw (e, renamed) refl
      ])
      (elim (Option-cases (room_of m.client s)) [
        | inl e ↦ rw (e, said) refl
        | inr (r, e) ↦ rw (e, said) refl
      ])
      refl
