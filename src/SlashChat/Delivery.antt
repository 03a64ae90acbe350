-- ===== src/SlashChat/Delivery.antt =====
-- Who hears what in the slash protocol, and when the server's program ends.
use cmpt436chat_client.Prelude.{
  ℕ, ◌≡◌, false, ◌++◌, arith, if◌then◌else◌, count, replicate, is_empty,
}
use cmpt436chat_client.Text.{Text}
use cmpt436chat_client.SlashChat.Util.{
  State, running, Properties, log_action, payload, tell, send_client_message,
}
use cmpt436chat_client.SlashChat.Util.Laws.{
  IsKept, hears, ended, pass_on_all-written, pass_on_all-IsKept, IfRunning, IfRunning-bind,
  IfRunning-eq, IsLogged, log_action-IsLogged, logged-IsKept, IsKept-trans, hears-kept,
}

-- What everybody finds on the connection after an action of `c`.
abbrev pub IsHeard : Text → Text → ℕ → State → State → Type 0
IsHeard message_type message c s t =
    IsKept s t
    × ((d : ℕ)
        → (t.clients d).written ≡ (
            if hears message_type c d s
            then (s.clients d).written
              ++ replicate (count d s.cur_clients)
                  (ended (payload message_type (s.clients c).user message))
            else (s.clients d).written))

tell-IsHeard :
    (message_type message : Text) (c : ℕ) (props : Properties) (s : State)
    → IfRunning (tell message_type message c false props s) (IsHeard message_type message c s)
unfolding tell
tell-IsHeard message_type message c props s =
    IfRunning-bind (log_action message_type message c props s) _ (IsLogged s) _
      (log_action-IsLogged message_type message c props s)
      λ t h.
        let k = logged-IsKept s t h in
        let p = payload message_type (t.clients c).user message in
        (
          IsKept-trans s t _ k (pass_on_all-IsKept message_type p c t.cur_clients t),
          λ d. ground (
            arith,
            pass_on_all-written message_type p c t.cur_clients d t,
            hears-kept message_type p c d s t k,
            h.0,
            h.1,
          ),
        )

-- If a client with a name sends an action of some type and the server goes on, then every client d
-- finds the line for it on its connection as often as it is registered, if its connection is open,
-- it has a name, and, for the type "message", it is in the same room; no other client finds
-- anything new; and nobody's registration, room, name or connection, nor the list of rooms,
-- changes.
pub action_reaches :
    (message_type message : Text) (c : ℕ) (props : Properties) (s t : State)
    → is_empty (s.clients c).user ≡ false
    → send_client_message message_type message c false props s ≡ running t
    → IsHeard message_type message c s t
unfolding send_client_message
action_reaches message_type message c props s t named e =
    IfRunning-eq (IsHeard message_type message c s) (tell message_type message c false props s)
      (tell-IsHeard message_type message c props s) (rw named at e)
