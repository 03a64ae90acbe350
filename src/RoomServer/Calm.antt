-- ===== src/RoomServer/Calm.antt =====
-- The handlers of newServer.go, as to panics and endless waits.
use cmpt436chat_client.Prelude.{
  sym, subst, ◌∙◌, ℕ, Bool, true, false, List, [], ◌∷◌, map, some, if◌then◌else◌, ◌≡◌, refl,
  Option-cases, inl, inr, is_nil, is_empty,
}
use cmpt436chat_client.Text.{Text, codes, sprintf}
use cmpt436chat_client.Table.{keys}
use cmpt436chat_client.Goroutine.{
  Wire, Outcome, done, blocked, panicked, ◌>>=◌, send, send_each, send_all, close_conn, write_round,
}
use cmpt436chat_client.Goroutine.Safety.{
  Network, MayFail, good, good-out_open, good-writing, good-update, cut-good, write_round-good,
  send-writing, send-idle,
}
use cmpt436chat_client.RoomServer.Types.{Lobby, Msg, Server, note_room_leave, err_leave}
use cmpt436chat_client.RoomServer.Rooms.{
  broadcast, point_at, add_member, show_log, join, leave, at_state, begin_log, end_log, logged,
  drop_member, point_at_lobby,
}
use cmpt436chat_client.RoomServer.Lobby.{
  room_of, name_of, find_room, join_found, leave_c_room, enter_c_room, create_c_room, send_msg,
  change_username, list_c_rooms, help, help_lines, room_line,
}

-- All clients can be sent to, as the network demands it.
abbrev pub IsOpen : Network → (ℕ → Wire) → Type 0
IsOpen net ks = (c : ℕ) → good net (ks c) ≡ true

abbrev pub Ending : Network → (Lobby → Type 0) → Outcome Server → Type 0
Ending net L (done w) = IsOpen net w.wires × L w.state.lobby
Ending net L (blocked w) = MayFail net
Ending net L (panicked w) = ⊥

-- The code does not panic, waits for ever at most where connections may fail, and otherwise leaves
-- the clients as they have to be and the lobby as `L` says.
pub record Calm (net : Network) (L : Lobby → Type 0) (o : Outcome Server) : Type 0 where
  pub ending : Ending net L o

abbrev pub Any : Lobby → Type 0
Any l = Unit

abbrev Same : Lobby → Lobby → Type 0
Same l k = k ≡ l

Ending-bind :
    (net : Network) (L K : Lobby → Type 0) (o : Outcome Server) (f : Server → Outcome Server)
    → Ending net L o
    → ((w : Server) → IsOpen net w.wires → L w.state.lobby → Calm net K (f w))
    → Ending net K (o >>= f)
Ending-bind net L K (done w) f h k = (k w h.0 h.1).ending
Ending-bind net L K (blocked w) f h k = h
Ending-bind net L K (panicked w) f h k = absurd h

module _ {net : Network} {L K : Lobby → Type 0} where
  pub Calm-bind :
      (o : Outcome Server) (f : Server → Outcome Server)
      → Calm net L o
      → ((w : Server) → IsOpen net w.wires → L w.state.lobby → Calm net K (f w))
      → Calm net K (o >>= f)
  Calm-bind o f h k = record { ending = Ending-bind net L K o f h.ending k }

module _ {net : Network} (L : Lobby → Type 0) where
  pub Calm-done : (w : Server) → IsOpen net w.wires → L w.state.lobby → Calm net L (done w)
  Calm-done w h l = record { ending = (h, l) }

  pub Calm-if :
      (b : Bool) (o p : Outcome Server)
      → Calm net L o
      → Calm net L p
      → Calm net L (if b then o else p)
  Calm-if true o p h k = h
  Calm-if false o p h k = k

  -- The same where the test is known behind it.
  pub Calm-if_known :
      (b : Bool) (o p : Outcome Server)
      → (b ≡ true → Calm net L o)
      → Calm net L p
      → Calm net L (if b then o else p)
  Calm-if_known true o p h k = h refl
  Calm-if_known false o p h k = k

  pub send-Calm :
      (c : ℕ) (msg : Text) (w : Server)
      → IsOpen net w.wires
      → L w.state.lobby
      → Calm net L (send c msg w)
  send-Calm c msg w h l =
      let k = w.wires c in
      let o = good-out_open net k (h c) in
      let kept = write_round-good net k msg (h c) ∙ sym (h c) in
      elim (good-writing net k (h c)) [
        | inl e ↦
            subst (Calm net L) (sym (send-writing c msg w o e))
              (Calm-done _ (λ d. good-update net c d w.wires (write_round k msg) kept ∙ h d) l)
        | inr (e, may) ↦ subst (Calm net L) (sym (send-idle c msg w o e)) (record { ending = may })
      ]

  send_all-Calm :
      (cs : List ℕ) (msg : Text) (w : Server)
      → IsOpen net w.wires
      → L w.state.lobby
      → Calm net L (send_all cs msg w)
  unfolding send_all
  send_all-Calm [] msg w h l = Calm-done w h l
  send_all-Calm (c ∷ cs) msg w h l =
      Calm-bind {L = L} {K = L} (send c msg w) (send_all cs msg) (send-Calm c msg w h l)
        (send_all-Calm cs msg)

  pub send_each-Calm :
      (c : ℕ) (msgs : List Text) (w : Server)
      → IsOpen net w.wires
      → L w.state.lobby
      → Calm net L (send_each c msgs w)
  unfolding send_each
  send_each-Calm c [] w h l = Calm-done w h l
  send_each-Calm c (msg ∷ msgs) w h l =
      Calm-bind {L = L} {K = L} (send c msg w) (send_each c msgs) (send-Calm c msg w h l)
        (send_each-Calm c msgs)

  broadcast-Calm :
      (r : ℕ) (msg : Text) (w : Server)
      → IsOpen net w.wires
      → L w.state.lobby
      → Calm net L (broadcast r msg w)
  unfolding broadcast
  broadcast-Calm r msg w h l =
      send_all-Calm _ msg (at_state (logged r msg) w) h (unfold logged in l)

  leave-Calm :
      (r c : ℕ) (w : Server) → IsOpen net w.wires → L w.state.lobby → Calm net L (leave r c w)
  unfolding leave
  leave-Calm r c w h l =
      Calm-bind {L = L} {K = L} (broadcast r (sprintf note_room_leave (name_of c w.state ∷ [])) w) _
        (broadcast-Calm r _ w h l)
        λ v h' l'. Calm-done _ h' (unfold drop_member point_at_lobby in l')

  if_send-Calm :
      (b : Bool) (c : ℕ) (msg : Text) (w : Server)
      → IsOpen net w.wires
      → L w.state.lobby
      → Calm net L (if b then done w else send c msg w)
  if_send-Calm b c msg w h l =
      Calm-if b (done w) (send c msg w) (Calm-done w h l) (send-Calm c msg w h l)

  show_log-Calm :
      (r c : ℕ) (w : Server) → IsOpen net w.wires → L w.state.lobby → Calm net L (show_log r c w)
  unfolding show_log
  show_log-Calm r c w h l =
      let closing =
        λ (v : Server). if is_empty (v.state.rooms r).msgs then done v else send c end_log v in
      let log = λ (v : Server). send_each c (v.state.rooms r).msgs v >>= closing in
      Calm-bind {L = L} {K = L} _ log
        (if_send-Calm (is_empty (w.state.rooms r).msgs) c begin_log w h l)
        λ w1 h1 l1.
          Calm-bind {L = L} {K = L} _ closing (send_each-Calm c (w1.state.rooms r).msgs w1 h1 l1)
            λ w2 h2 l2. if_send-Calm (is_empty (w2.state.rooms r).msgs) c end_log w2 h2 l2

  join-Calm :
      (r c : ℕ) (w : Server) → IsOpen net w.wires → L w.state.lobby → Calm net L (join r c w)
  unfolding join
  join-Calm r c w h l =
      Calm-bind {L = L} {K = L} _ _
        (show_log-Calm r c (at_state (point_at c r) w) h (unfold point_at in l))
        λ v h' l'. broadcast-Calm r _ (at_state (add_member c r) v) h' (unfold add_member in l')

  pub leave_c_room-Calm :
      (c : ℕ) (w : Server) → IsOpen net w.wires → L w.state.lobby → Calm net L (leave_c_room c w)
  unfolding leave_c_room
  leave_c_room-Calm c w h l = elim (Option-cases (room_of c w.state)) [
    | inl e ↦ rw (e, leave_c_room) (send-Calm c err_leave w h l)
    | inr (r, e) ↦ rw (e, leave_c_room) (leave-Calm r c w h l)
  ]

-- The room is still in the map when it is looked up again.
pub enter_c_room-Calm :
    {net : Network} (c : ℕ) (name : Text) (w : Server)
    → IsOpen net w.wires
    → Calm net Any (enter_c_room c name w)
unfolding enter_c_room
enter_c_room-Calm {net = net} c name w h = elim (Option-cases (find_room name w.state)) [
  | inl e ↦ rw e (send-Calm Any c _ w h tt)
  | inr (r, e) ↦ rw e (
      Calm-bind {L = Same w.state.lobby} {K = Any} _ _
        (Calm-if (Same w.state.lobby) _ _ _ (Calm-done (Same w.state.lobby) w h refl)
          (leave_c_room-Calm (Same w.state.lobby) c w h refl))
        λ v h' same. found {r = r} v h' (rw same e))
]
  where
    found :
        {r : ℕ} (v : Server)
        → IsOpen net v.wires
        → find_room name v.state ≡ some r
        → Calm net Any (join_found (find_room name v.state) c v)
    found {r} v h' e = rw e (join-Calm Any r c v h' tt)

pub create_c_room-Calm :
    {net : Network} (c : ℕ) (name : Text) (w : Server)
    → IsOpen net w.wires
    → Calm net Any (create_c_room c name w)
unfolding create_c_room
create_c_room-Calm c name w h =
    Calm-if Any (is_nil (find_room name w.state)) _ _
      (Calm-bind {L = Any} {K = Any} _ _ (send-Calm Any c _ _ h tt)
        λ v h' l. enter_c_room-Calm c name v h')
      (send-Calm Any c _ w h tt)

pub send_msg-Calm :
    {net : Network} (msg : Msg) (w : Server) → IsOpen net w.wires → Calm net Any (send_msg msg w)
unfolding send_msg
send_msg-Calm msg w h = elim (Option-cases (room_of msg.client w.state)) [
  | inl e ↦ rw (e, send_msg) (send-Calm Any msg.client _ w h tt)
  | inr (r, e) ↦ rw (e, send_msg) (broadcast-Calm Any r _ w h tt)
]

pub change_username-Calm :
    {net : Network} (c : ℕ) (username : Text) (w : Server)
    → IsOpen net w.wires
    → Calm net Any (change_username c username w)
unfolding change_username
change_username-Calm c username w h = elim (Option-cases (room_of c w.state)) [
  | inl e ↦
      rw (e, change_username)
        (Calm-bind {L = Any} {K = Any} _ _ (send-Calm Any c _ w h tt)
          λ v h' l. Calm-done Any _ h' tt)
  | inr (r, e) ↦
      rw (e, change_username)
        (Calm-bind {L = Any} {K = Any} _ _ (broadcast-Calm Any r _ w h tt)
          λ v h' l. Calm-done Any _ h' tt)
]

pub list_c_rooms-Calm :
    {net : Network} (order : List Text → List Text) (c : ℕ) (w : Server)
    → IsOpen net w.wires
    → Calm net Any (list_c_rooms order c w)
unfolding list_c_rooms
list_c_rooms-Calm order c w h =
    let closing = λ (v : Server). send c (codes "\n") v in
    let names = λ (v : Server).
      send_each c (map room_line (order (keys v.state.lobby.c_room))) v >>= closing in
    let title_line = λ (v : Server). send c (codes "Chat Rooms:\n") v >>= names in
    Calm-bind {L = Any} {K = Any} _ title_line (send-Calm Any c _ w h tt) λ w1 h1 l1.
      Calm-bind {L = Any} {K = Any} _ names (send-Calm Any c _ w1 h1 tt) λ w2 h2 l2.
        Calm-bind {L = Any} {K = Any} _ closing (send_each-Calm Any c _ w2 h2 tt)
          λ w3 h3 l3. send-Calm Any c _ w3 h3 tt

pub close_conn-IsOpen :
    (net : Network) (c : ℕ) (w : Server)
    → MayFail net
    → IsOpen net w.wires
    → IsOpen net (close_conn c w).wires
unfolding close_conn
close_conn-IsOpen net c w may h d =
    good-update net c d w.wires _ (cut-good net (w.wires c) may) ∙ h d

pub help-Calm : {net : Network} (c : ℕ) (w : Server) → IsOpen net w.wires → Calm net Any (help c w)
unfolding help
help-Calm c w h = send_each-Calm Any c help_lines w h tt
