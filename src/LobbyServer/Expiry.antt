-- ===== src/LobbyServer/Expiry.antt =====
-- The goroutines of ken/server.go that sleep until a room may have expired: which rooms they are
-- for.
use cmpt436chat_client.Prelude.{
  ℕ, Option, none, some, if◌then◌else◌, is_nil, ◌≡◌, arith, Option-cases, Bool-cases, inl, inr,
  same_pointer, count,
}
use cmpt436chat_client.Text.{Text}
use cmpt436chat_client.Text.Laws.{text_eq_iff}
use cmpt436chat_client.Table.{lookup-insert}
use cmpt436chat_client.Sleepers.{watched, watched-append}
use cmpt436chat_client.LobbyServer.Types.{State, Message, new_chat_room}
use cmpt436chat_client.LobbyServer.ChatRooms.{remembered, move_to, add_client, drop_client}
use cmpt436chat_client.LobbyServer.Lobby.{room_of, find_room, register, sleep_until, rename}
use cmpt436chat_client.LobbyServer.Effects.{
  left, joined, left_current, moved_to, entered, created, said, renamed, parsed,
}
use cmpt436chat_client.LobbyServer.Invariant.{Inv, title}
use cmpt436chat_client.LobbyServer.Lines.{parsed_cases}

-- Of the rooms in the map each has one goroutine that sleeps for it, and of the others none has.
abbrev pub IsWatched : State → Type 0
IsWatched s =
    (r : ℕ)
    → count r (watched s.sleepers)
      ≡ (if same_pointer (find_room (title r s) s) (some r) then 1 else 0)

pub remembered-IsWatched :
    (r : ℕ) (msg : Text) (s : State) → IsWatched s → IsWatched (remembered r msg s)
unfolding remembered
remembered-IsWatched r msg s v q = ground (arith, v q)

left-IsWatched : (c r : ℕ) (s : State) → IsWatched s → IsWatched (left c r s)
unfolding left remembered drop_client move_to
left-IsWatched c r s v q = ground (arith, v q)

joined-IsWatched : (c r : ℕ) (s : State) → IsWatched s → IsWatched (joined c r s)
unfolding joined remembered add_client move_to
joined-IsWatched c r s v q = ground (arith, v q)

pub left_current-IsWatched : (c : ℕ) (s : State) → IsWatched s → IsWatched (left_current c s)
unfolding left_current
left_current-IsWatched c s v = elim (Option-cases (room_of c s)) [
  | inl e ↦ rw (e, left_current) v
  | inr (r, e) ↦ rw (e, left_current) (left-IsWatched c r s v)
]

moved_to-IsWatched : (o : Option ℕ) (c : ℕ) (s : State) → IsWatched s → IsWatched (moved_to o c s)
unfolding moved_to
moved_to-IsWatched none c s v = v
moved_to-IsWatched (some r) c s v = joined-IsWatched c r s v

entered-IsWatched : (c : ℕ) (name : Text) (s : State) → IsWatched s → IsWatched (entered c name s)
unfolding entered
entered-IsWatched c name s v = elim (Bool-cases (is_nil (find_room name s))) [
  | inl e ↦ rw e v
  | inr e ↦ rw e (moved_to-IsWatched _ c _ (left_current-IsWatched c s v))
]

-- A new room gets its goroutine.
opened-IsWatched :
    (name : Text) (t : ℕ) (s : State)
    → find_room name s ≡ none
    → Inv s
    → IsWatched s
    → IsWatched (sleep_until t s.next_room (register name s))
unfolding sleep_until register new_chat_room
opened-IsWatched name t s new i v q = ground (
  arith,
  v q,
  watched-append q t s.next_room s.sleepers,
  i.allocated (title q s) q,
  lookup-insert name (title q s) s.next_room s.lobby.chat_rooms,
  lookup-insert name name s.next_room s.lobby.chat_rooms,
  text_eq_iff name name,
  text_eq_iff name (title q s),
)

created-IsWatched : (name : Text) (s : State) → Inv s → IsWatched s → IsWatched (created name s)
unfolding created
created-IsWatched name s i v = elim (Option-cases (find_room name s)) [
  | inl e ↦ rw e (opened-IsWatched name _ s e i v)
  | inr (r, e) ↦ rw e v
]

said-IsWatched : (m : Message) (s : State) → IsWatched s → IsWatched (said m s)
unfolding said
said-IsWatched m s v = elim (Option-cases (room_of m.client s)) [
  | inl e ↦ rw (e, said) v
  | inr (r, e) ↦ rw (e, said) (remembered-IsWatched r _ s v)
]

renamed-IsWatched : (c : ℕ) (name : Text) (s : State) → IsWatched s → IsWatched (renamed c name s)
unfolding renamed rename
renamed-IsWatched c name s v = elim (Option-cases (room_of c s)) [
  | inl e ↦ rw (e, renamed) v
  | inr (r, e) ↦ rw (e, renamed) (remembered-IsWatched r _ s v)
]

pub parsed-IsWatched : (m : Message) (s : State) → Inv s → IsWatched s → IsWatched (parsed m s)
parsed-IsWatched m s i v =
    parsed_cases IsWatched m s (λ name. created-IsWatched name s i v)
      (λ name. entered-IsWatched m.client name s v) (left_current-IsWatched m.client s v)
      (λ name. renamed-IsWatched m.client name s v) (said-IsWatched m s v) v
