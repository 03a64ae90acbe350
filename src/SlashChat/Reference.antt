-- ===== src/SlashChat/Reference.antt =====
-- The earlier server `Evan's Work/serverref.go` over the same util.go: handleInput has no list of
-- rooms and no action "list". Its steps are in Runs.
pub mod Runs
use cmpt436chat_client.Prelude.{
  ℕ, ◌≡◌, refl, false, true, [], ◌∷◌, if◌then◌else◌, is_empty, Bool-cases, inl, inr,
}
use cmpt436chat_client.Text.{Text, codes, text_eq}
use cmpt436chat_client.Text.Laws.{text_eq_sound}
use cmpt436chat_client.SlashChat.Action.{get_action, trim_space}
use cmpt436chat_client.SlashChat.Util.{
  State, Run, running, ◌>>=◌, set_client, send_client_message, close,
}
use cmpt436chat_client.SlashChat.Server.{
  act, enter, leave, name_user, list_each, list_room, set_room, mainlobby,
}

unfoldable pub enter_room : ℕ → Text → State → Run
enter_room c body s =
    if is_empty body
    then running s
    else send_client_message (codes "enter") body c false (s.clients c).prop (set_room c body s)

unfoldable pub leave_room : ℕ → State → Run
unfolding text_eq
leave_room c s = if text_eq (s.clients c).room mainlobby then running s else do
  t ← send_client_message (codes "leave") (s.clients c).room c false (s.clients c).prop s
  running (set_room c mainlobby t)

unfoldable pub connect_user : ℕ → Text → State → Run
connect_user c body s =
    send_client_message (codes "connect") [] c false (s.clients c).prop
      (set_client c (record (s.clients c) { user = body }) s)

-- The switch of handleInput.
unfoldable pub handle_action : ℕ → Text → Text → State → Run
unfolding text_eq
handle_action c action body s =
    if is_empty action
    then running s
    else if text_eq action (codes "message")
    then send_client_message (codes "message") body c false (s.clients c).prop s
    else if text_eq action (codes "user")
    then connect_user c body s
    else if text_eq action (codes "disconnect")
    then close c false s
    else if text_eq action (codes "enter")
    then enter_room c body s
    else if text_eq action (codes "leave")
    then leave_room c s
    else send_client_message (codes "unrecognized") action c true (s.clients c).prop s

-- One round of handleInput.
unfoldable pub handle_input : ℕ → Text → State → Run
handle_input c message s =
    let action = get_action (trim_space message) in
    if is_empty message then running s else handle_action c (action.0) (action.1) s

-- What server.go adds to the state that serverref.go leaves behind "enter": the room's entry in the
-- list.
abbrev pub listing : Text → State → Run
listing body t =
    if is_empty body then running t else running (record t { rooms = list_room body t.rooms })

enter_listed :
    (c : ℕ) (body : Text) (s : State) → enter c body s ≡ (enter_room c body s >>= listing body)
unfolding enter enter_room
enter_listed c [] s = refl
enter_listed c (d ∷ body) s = refl

same_act :
    (c : ℕ) (action body : Text) (s : State)
    → text_eq action (codes "enter") ≡ false
    → text_eq action (codes "list") ≡ false
    → act c action body s ≡ handle_action c action body s
unfolding act handle_action name_user connect_user leave leave_room
same_act c action body s e l = rw (e, l) refl

list_act :
    (c : ℕ) (body : Text) (s : State)
    → handle_action c (codes "list") body s
      ≡ send_client_message (codes "unrecognized") (codes "list") c true (s.clients c).prop s
unfolding handle_action text_eq
list_act c body s = refl

enter_act :
    (c : ℕ) (body : Text) (s : State)
    → act c (codes "enter") body s ≡ (handle_action c (codes "enter") body s >>= listing body)
unfolding act handle_action text_eq
enter_act c body s = enter_listed c body s

list_each-act :
    (c : ℕ) (body : Text) (s : State) → act c (codes "list") body s ≡ list_each c s.rooms s
unfolding act text_eq
list_each-act c body s = refl

-- The two servers handle every action but "enter" and "list" alike; for "enter" server.go does what
-- serverref.go does and then enters a room that has a name in its list of rooms; "list", which
-- server.go answers slot by slot, is unrecognized in serverref.go.
pub servers_agree :
    (c : ℕ) (action body : Text) (s : State)
    → (act c action body s ≡ (
        if text_eq action (codes "enter")
        then handle_action c action body s >>= listing body
        else if text_eq action (codes "list")
        then list_each c s.rooms s
        else handle_action c action body s))
      × (handle_action c (codes "list") body s
          ≡ send_client_message (codes "unrecognized") (codes "list") c true (s.clients c).prop s)
servers_agree c action body s = (
  elim (Bool-cases (text_eq action (codes "enter"))) [
    | inl e ↦ rw (text_eq_sound action (codes "enter") e) (unfold text_eq in enter_act c body s)
    | inr e ↦ rw e (elim (Bool-cases (text_eq action (codes "list"))) [
      | inl l ↦
          rw (text_eq_sound action (codes "list") l) (unfold text_eq in list_each-act c body s)
      | inr l ↦ rw l (same_act c action body s e l)
    ])
  ],
  list_act c body s,
)
