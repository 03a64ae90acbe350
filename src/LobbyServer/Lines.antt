-- ===== src/LobbyServer/Lines.antt =====
-- The lines of clients of ken/server.go, as to the agreement of clients, rooms and map.
use cmpt436chat_client.Prelude.{
  ℕ, ◌<◌, Bool, true, false, Option, none, some, if◌then◌else◌, is_nil, ◌≡◌, refl, arith,
  Option-cases, Bool-cases, inl, inr, count,
}
use cmpt436chat_client.Text.{Text, has_prefix}
use cmpt436chat_client.Text.Laws.{text_eq_iff}
use cmpt436chat_client.Table.{lookup-insert}
use cmpt436chat_client.LobbyServer.Types.{
  State, Message, new_chat_room, cmd_create, cmd_list, cmd_join, cmd_leave, cmd_help, cmd_name,
  cmd_quit,
}
use cmpt436chat_client.LobbyServer.Lobby.{room_of, find_room, register, sleep_until, rename}
use cmpt436chat_client.LobbyServer.Effects.{
  left_current, moved_to, entered, created, said, renamed, parsed,
}
use cmpt436chat_client.LobbyServer.Invariant.{
  Inv, title, remembered-Inv, joined-Inv, left_current-facts, sleepers-Inv,
}

moved_to-Inv :
    (o : Option ℕ) (c : ℕ) (s : State)
    → ((r : ℕ) → o ≡ some r → find_room (title r s) s ≡ some r)
    → room_of c s ≡ none
    → 0 < count c s.relayed
    → Inv s
    → Inv (moved_to o c s)
unfolding moved_to
moved_to-Inv none c s there out on v = v
moved_to-Inv (some r) c s there out on v = joined-Inv c r s out (there r refl) on v

entered-Inv :
    (c : ℕ) (name : Text) (s : State) → 0 < count c s.relayed → Inv s → Inv (entered c name s)
unfolding entered
entered-Inv c name s on v =
    let (v', out, same, relayed) = left_current-facts c s v in
    elim (Bool-cases (is_nil (find_room name s))) [
      | inl e ↦ rw e v
      | inr e ↦ rw e (
          moved_to-Inv (find_room name (left_current c s)) c (left_current c s)
            (λ r h. ground (arith, v'.titled name r h)) out (rw relayed on) v')
    ]

register-Inv : (name : Text) (s : State) → find_room name s ≡ none → Inv s → Inv (register name s)
unfolding register new_chat_room count
register-Inv name s new v = record {
  titled = λ n r h. ground (
    arith,
    v.titled n r,
    v.allocated n r,
    lookup-insert name n s.next_room s.lobby.chat_rooms,
    text_eq_iff name n,
  );
  allocated =
      λ n r h. ground (arith, v.allocated n r, lookup-insert name n s.next_room s.lobby.chat_rooms);
  located = λ c r h. ground (
    arith,
    v.located c r,
    v.allocated (title r s) r,
    lookup-insert name (title r s) s.next_room s.lobby.chat_rooms,
    text_eq_iff name (title r s),
  );
  placed = λ c r h. ground (
    arith,
    v.placed c r,
    v.located c r,
    v.allocated (title r s) r,
    lookup-insert name (title r s) s.next_room s.lobby.chat_rooms,
    text_eq_iff name (title r s),
  );
  heard = v.heard;
  once = v.once;
  known = v.known;
  counted = v.counted;
}

created-Inv : (name : Text) (s : State) → Inv s → Inv (created name s)
unfolding created sleep_until
created-Inv name s v = elim (Option-cases (find_room name s)) [
  | inl e ↦ rw e (sleepers-Inv _ (register name s) (register-Inv name s e v))
  | inr (r, e) ↦ rw e v
]

said-Inv : (m : Message) (s : State) → Inv s → Inv (said m s)
unfolding said
said-Inv m s v = elim (Option-cases (room_of m.client s)) [
  | inl e ↦ rw (e, said) v
  | inr (r, e) ↦ rw (e, said) (remembered-Inv r _ s v)
]

rename-Inv : (c : ℕ) (name : Text) (s : State) → Inv s → Inv (rename c name s)
unfolding rename
rename-Inv c name s v = record {
  titled = v.titled;
  allocated = v.allocated;
  located = λ d r h. v.located d r (ground arith);
  placed = λ d r h. ground (arith, v.placed d r);
  heard = λ d r h. v.heard d r (ground arith);
  once = v.once;
  known = v.known;
  counted = v.counted;
}

renamed-Inv : (c : ℕ) (name : Text) (s : State) → Inv s → Inv (renamed c name s)
unfolding renamed
renamed-Inv c name s v = elim (Option-cases (room_of c s)) [
  | inl e ↦ rw (e, renamed) (rename-Inv c name s v)
  | inr (r, e) ↦ rw (e, renamed) (rename-Inv c name _ (remembered-Inv r _ s v))
]

-- What holds after each kind of line holds after every line.
pub parsed_cases {ℓ} :
    (P : State → Type ℓ) (m : Message) (s : State)
    → ((name : Text) → P (created name s))
    → ((name : Text) → P (entered m.client name s))
    → P (left_current m.client s)
    → ((name : Text) → P (renamed m.client name s))
    → P (said m s)
    → P s
    → P (parsed m s)
unfolding parsed
parsed_cases P m s create enter leave rename say same =
    first (has_prefix m.text cmd_create) (create _) (
      first (has_prefix m.text cmd_leave) leave (
        first (has_prefix m.text cmd_list) same (
          first (has_prefix m.text cmd_join) (enter _) (
            first (has_prefix m.text cmd_name) (rename _) (
              first (has_prefix m.text cmd_help) same
                (first (has_prefix m.text cmd_quit) same say))))))
  where
    first : (b : Bool) {s t : State} → P s → P t → P (if b then s else t)
    first true h k = h
    first false h k = k

-- A line of a client keeps the agreement.
pub parsed-Inv : (m : Message) (s : State) → 0 < count m.client s.relayed → Inv s → Inv (parsed m s)
parsed-Inv m s on v =
    parsed_cases Inv m s (λ name. created-Inv name s v) (λ name. entered-Inv m.client name s on v)
      (left_current-facts m.client s v).0 (λ name. renamed-Inv m.client name s v) (said-Inv m s v) v
