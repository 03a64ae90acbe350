-- ===== src/RoomServer/Outcomes.antt =====
-- What CreateCRoom, EnterCRoom and DeleteCRoom leave behind.
use cmpt436chat_client.Prelude.{
  ℕ, ◌+◌, [], ◌∷◌, ◌++◌, none, some, ◌==◌, if◌then◌else◌, ltb, ◌≡◌, refl, arith, ◌≢◌, same_pointer,
  Bool-cases, inl, inr, ap, ◌∙◌, ◌<◌, sym, subst,
}
use cmpt436chat_client.Text.{Text, text_eq}
use cmpt436chat_client.Text.Laws.{text_eq_iff}
use cmpt436chat_client.Table.{lookup-insert, lookup-delete}
use cmpt436chat_client.Goroutine.{Outcome, done, blocked, panicked}
use cmpt436chat_client.Goroutine.Laws.{Leads}
use cmpt436chat_client.Goroutine.Safety.{reliable}
use cmpt436chat_client.RoomServer.Calm.{IsOpen, Ending, Any, enter_c_room-Calm, create_c_room-Calm}
use cmpt436chat_client.RoomServer.Types.{State, Server, CRoom, extime, new_c_room}
use cmpt436chat_client.RoomServer.Rooms.{
  logged, point_at, add_member, drop_member, point_at_lobby, delete,
}
use cmpt436chat_client.RoomServer.Lobby.{
  room_of, name_of, find_room, register_room, sleep_until, unregister, delete_c_room, enter_c_room,
  create_c_room,
}
use cmpt436chat_client.RoomServer.Effects.{
  left, joined, left_current, moved_to, entered, created, enter_c_room-Leads, create_c_room-Leads,
}
use cmpt436chat_client.RoomServer.Invariant.{
  Inv, members, title, left_current-facts, register_room-Inv, sleep_until-Inv, entered-Inv,
  created-Inv,
}
use cmpt436chat_client.RoomServer.Deletion.{clear_rooms_lem}

joined-room :
    (c r d : ℕ) (s : State) → room_of d (joined c r s) ≡ (if d == c then some r else room_of d s)
unfolding joined logged add_member point_at
joined-room c r d s = ground arith

joined-lobby : (c r : ℕ) (s : State) → (joined c r s).lobby ≡ s.lobby
unfolding joined logged add_member point_at
joined-lobby c r s = refl

left_current-room :
    (c d : ℕ) (s : State) → room_of d (left_current c s) ≡ (if d == c then none else room_of d s)
unfolding left_current left logged drop_member point_at_lobby
left_current-room c d s = ground arith

entered_lem :
    (c r : ℕ) (name : Text) (s : State)
    → Inv s
    → find_room name s ≡ some r
    → ((d : ℕ) → room_of d (entered c name s) ≡ (if d == c then some r else room_of d s))
      × ((entered c name s).lobby ≡ s.lobby)
unfolding entered
entered_lem c r name s v there =
    let (v', out, same, next) = left_current-facts c s v in
    let found : find_room name (left_current c s) ≡ some r = rw same there in
    rw (there, found, moved_to)
      (
        λ d. ground (arith, joined-room c r d (left_current c s), left_current-room c d s),
        ground (arith, joined-lobby c r (left_current c s), same),
      )

left_current-other :
    (c q : ℕ) (s : State) → room_of c s ≢ some q → (left_current c s).rooms q ≡ s.rooms q
unfolding left_current left logged drop_member point_at_lobby
left_current-other c q s h = ground arith

joined_self :
    (c r : ℕ) (s : State)
    → (members r (joined c r s) ≡ members r s ++ c ∷ [])
      × (title r (joined c r s) ≡ title r s)
      × (((joined c r s).rooms r).expire ≡ s.now + extime)
unfolding joined logged add_member point_at
joined_self c r s = ground arith

opened-room :
    (name : Text) (t : ℕ) (s : State)
    → (sleep_until t s.next_room (register_room name s)).rooms s.next_room ≡ new_c_room s.now name
unfolding sleep_until register_room
opened-room name t s = ground arith

opened-map :
    (name n : Text) (t : ℕ) (s : State)
    → find_room n (sleep_until t s.next_room (register_room name s))
      ≡ (if text_eq name n then some s.next_room else find_room n s)
unfolding sleep_until register_room
opened-map name n t s = lookup-insert name n s.next_room s.lobby.c_room

left_current-now : (c : ℕ) (s : State) → (left_current c s).now ≡ s.now
unfolding left_current left logged drop_member point_at_lobby
left_current-now c s = ground arith

-- What entering makes of a room in which the client has not been.
entered_self :
    (c r : ℕ) (name : Text) (s : State)
    → Inv s
    → find_room name s ≡ some r
    → room_of c s ≢ some r
    → (members r (entered c name s) ≡ members r s ++ c ∷ [])
      × (title r (entered c name s) ≡ title r s)
      × (((entered c name s).rooms r).expire ≡ s.now + extime)
unfolding entered
entered_self c r name s v there away =
    let (v', out, same, next) = left_current-facts c s v in
    let found : find_room name (left_current c s) ≡ some r = rw same there in
    let same_room = left_current-other c r s away in
    let (listed, named, expires) = joined_self c r (left_current c s) in
    rw (there, found, moved_to)
      (
        listed ∙ ap (λ (q : CRoom). q.cur_clients ++ c ∷ []) same_room,
        named ∙ ap (λ (q : CRoom). q.c_name) same_room,
        expires ∙ ap (λ t. t + extime) (left_current-now c s),
      )

created_lem :
    (c : ℕ) (name : Text) (s : State)
    → Inv s
    → find_room name s ≡ none
    → ((n : Text)
        → find_room n (created c name s)
          ≡ (if text_eq name n then some s.next_room else find_room n s))
      × ((d : ℕ)
          → room_of d (created c name s) ≡ (if d == c then some s.next_room else room_of d s))
      × (members s.next_room (created c name s) ≡ c ∷ [])
      × (title s.next_room (created c name s) ≡ name)
      × (((created c name s).rooms s.next_room).expire ≡ s.now + extime)
unfolding created
created_lem c name s v free =
    let r = s.next_room in
    let s1 = sleep_until (s.now + extime) r (register_room name s) in
    let v1 =
      sleep_until-Inv (s.now + extime) r (register_room name s) (register_room-Inv name s free v) in
    let there : find_room name s1 ≡ some r =
      ground (arith, opened-map name name (s.now + extime) s, text_eq_iff name name) in
    let (rooms, lobby) = entered_lem c r name s1 v1 there in
    let away : room_of c s1 ≢ some r =
      λ at. ground (arith, v1.located c r at, v.located c r, v.allocated (title r s) r) in
    let room = opened-room name (s.now + extime) s in
    let self = entered_self c r name s1 v1 there away in
    rw free (
      λ n. rw lobby (opened-map name n (s.now + extime) s),
      λ d. unfold sleep_until register_room in rooms d,
      unfold new_c_room in (self.0 ∙ ap (λ (q : CRoom). q.cur_clients ++ c ∷ []) room),
      unfold new_c_room in (self.1 ∙ ap (λ (q : CRoom). q.c_name) room),
      unfold sleep_until register_room in self.2,
    )

-- Code that neither waits nor panics gets through, with its effect on the state.
reached :
    (o : Outcome Server) (s : State)
    → Ending reliable Any o
    → Leads o s
    → (v : Server) × (o ≡ done v) × (v.state ≡ s)
reached (done v) s h same = (v, refl, same)
reached (blocked v) s h same = absurd h
reached (panicked v) s h same = absurd h

-- A client that exists enters a room that is in the map, on a server whose clients, rooms and map
-- agree and whose clients can all be sent to and are all served by a writer. Then EnterCRoom gets
-- through. It takes the client into that room from wherever it was, leaves every other client
-- where it is, and changes nothing in the lobby's map or its list of clients; and clients, rooms
-- and map agree again, so that each room lists exactly those whose room it is.
pub entered_outcome :
    (c r : ℕ) (name : Text) (w : Server)
    → Inv w.state
    → IsOpen reliable w.wires
    → c < w.state.next_client
    → find_room name w.state ≡ some r
    → (v : Server) × (enter_c_room c name w ≡ done v)
      × Inv v.state
      × ((d : ℕ) → room_of d v.state ≡ (if d == c then some r else room_of d w.state))
      × (v.state.lobby ≡ w.state.lobby)
entered_outcome c r name w v on born there =
    let (u, through, same) =
      reached (enter_c_room c name w) (entered c name w.state)
        ((enter_c_room-Calm c name w on).ending) (enter_c_room-Leads c name w) in
    let ordered = subst Inv (sym same) (entered-Inv c name w.state born v) in
    let (moved, lobby) =
      subst
        (λ (s : State).
          ((d : ℕ) → room_of d s ≡ (if d == c then some r else room_of d w.state))
          × (s.lobby ≡ w.state.lobby))
        (sym same) (entered_lem c r name w.state v there) in
    (u, through, ordered, moved, lobby)

-- A client that exists creates a room under a name that is free, on a server whose clients, rooms
-- and map agree and whose clients can all be sent to and are all served by a writer. Then
-- CreateCRoom gets through. The new room, and nothing else, has come into the map, under that name;
-- the creator is in it, from wherever it was, and every other client is where it was. The creator
-- is the room's only client, and the room will expire EXTIME from now; and clients, rooms and map
-- agree again.
pub created_outcome :
    (c : ℕ) (name : Text) (w : Server)
    → Inv w.state
    → IsOpen reliable w.wires
    → c < w.state.next_client
    → find_room name w.state ≡ none
    → (v : Server) × (create_c_room c name w ≡ done v)
      × Inv v.state
      × ((n : Text)
          → find_room n v.state
            ≡ (if text_eq name n then some w.state.next_room else find_room n w.state))
      × ((d : ℕ)
          → room_of d v.state ≡ (if d == c then some w.state.next_room else room_of d w.state))
      × (members w.state.next_room v.state ≡ c ∷ [])
      × (title w.state.next_room v.state ≡ name)
      × ((v.state.rooms w.state.next_room).expire ≡ w.state.now + extime)
created_outcome c name w v on born free =
    let r = w.state.next_room in
    let (u, through, same) =
      reached (create_c_room c name w) (created c name w.state)
        ((create_c_room-Calm c name w on).ending) (create_c_room-Leads c name w) in
    let ordered = subst Inv (sym same) (created-Inv c name w.state born v) in
    let (named, moved, listed, titled, expires) =
      subst
        (λ (s : State).
          ((n : Text) → find_room n s ≡ (if text_eq name n then some r else find_room n w.state))
          × ((d : ℕ) → room_of d s ≡ (if d == c then some r else room_of d w.state))
          × (members r s ≡ c ∷ [])
          × (title r s ≡ name)
          × ((s.rooms r).expire ≡ w.state.now + extime))
        (sym same) (created_lem c name w.state v free) in
    (u, through, ordered, named, moved, listed, titled, expires)

-- Handing a room of the map to DeleteCRoom. If the room has expired, its name is free again, its
-- clients are in the lobby, and nothing else of the map or of the other clients changes; if it has
-- not, only another goroutine goes to sleep, until the time at which the room will have expired.
pub delete_outcome :
    (r : ℕ) (s : State)
    → Inv s
    → find_room (title r s) s ≡ some r
    → ((n : Text)
        → find_room n (delete_c_room r s) ≡ (
            if ltb s.now (s.rooms r).expire
            then find_room n s
            else if text_eq (title r s) n
            then none
            else find_room n s))
      × ((d : ℕ)
          → room_of d (delete_c_room r s) ≡ (
              if ltb s.now (s.rooms r).expire
              then room_of d s
              else if same_pointer (room_of d s) (some r)
              then none
              else room_of d s))
      × ((d : ℕ) → name_of d (delete_c_room r s) ≡ name_of d s)
      × ((delete_c_room r s).rooms ≡ s.rooms)
      × ((delete_c_room r s).sleepers ≡ (
          if ltb s.now (s.rooms r).expire
          then s.sleepers ++ ((s.rooms r).expire, r) ∷ []
          else s.sleepers))
unfolding delete_c_room delete unregister sleep_until
delete_outcome r s v there = elim (Bool-cases (ltb s.now (s.rooms r).expire)) [
  | inl early ↦
      rw early
        (λ n. refl, λ d. refl, λ d. refl, refl, ap (λ t. s.sleepers ++ (t, r) ∷ []) (ground arith))
  | inr late ↦
      let (new, cleared, same) = clear_rooms_lem (members r s) s in
      rw (late, same)
        (
          λ n. lookup-delete (title r s) n s.lobby.c_room,
          λ d. ground (arith, cleared d, v.placed d r there),
          λ d. (cleared d).1,
          refl,
          refl,
        )
]
