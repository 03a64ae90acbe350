-- ===== src/SlashChat/Tests.antt =====
-- The slash protocol run on small histories, and its theorems at concrete inputs.
use cmpt436chat_client.Prelude.{
  ℕ, ◌≡◌, refl, true, false, List, [], ◌∷◌, ◌++◌, map, arith, if◌then◌else◌, count, replicate,
}
use cmpt436chat_client.Text.{Text, codes, text_eq, newline, replace_all, sprintf}
use cmpt436chat_client.SlashChat.Codec.{encode, collapse, encode_collapses, is_reserved}
use cmpt436chat_client.SlashChat.Action.{trim_space, get_action, contains}
use cmpt436chat_client.SlashChat.Util.{
  fprintln, State, Run, running, exited, ◌>>=◌, Client, default_config, send_client_message,
  payload, close, open_log,
}
use cmpt436chat_client.SlashChat.Server.{
  Event, accept, line, step, run, act, handle_user_input, enter, leave, name_user, list_each,
  first_rooms,
}
use cmpt436chat_client.SlashChat.Client.{
  watch_for_console_in, watch_for_server_in, sent, printed, client_config,
}
use cmpt436chat_client.SlashChat.Wire.{typed_message_arrives, announcement_shown}
use cmpt436chat_client.SlashChat.Delivery.{action_reaches}
use cmpt436chat_client.SlashChat.Registry.{Inv, run_lasts}
use cmpt436chat_client.SlashChat.Slots.{enter_all, list_after_rooms}
use cmpt436chat_client.SlashChat.Reference.{handle_action, listing, servers_agree}
use cmpt436chat_client.SlashChat.Reference.Runs
use cmpt436chat_client.SlashChat.Reference.Runs.{is_plain, histories_agree}
use cmpt436chat_client.SlashChat.Util.Laws.{IsKept, ended, hears}

abbrev nobody : Client
nobody = record {
  conn_open = false;
  addr = [];
  written = [];
  room = [];
  prop = default_config;
  user = [];
}

abbrev begin : State
begin = record {
  actions = [];
  cur_clients = [];
  config = default_config;
  rooms = first_rooms;
  clients = λ c. nobody;
  next_client = 0;
  disk = record { opens = false; creates = true; writes = true; lines = [] };
  stamp = codes "now";
}

abbrev history : List Event
history =
    accept (codes "a:1")
    ∷ accept (codes "b:2")
    ∷ line 0 (codes "/user ann\n")
    ∷ line 1 (codes "/user bo\n")
    ∷ line 0 (codes "/message hi\n")
    ∷ []

abbrev result : Run → State
result (running s) = s
result (exited s) = s

talk : State
unfolding run step act handle_user_input send_client_message name_user enter leave list_each close
    open_log get_action trim_space contains
talk = result (run history begin)

talk_runs : run history begin ≡ running talk
unfolding talk
talk_runs = refl

heard :
    (talk.clients 1).written
    ≡ codes "/ready\n" ∷ codes "/connect [bo] \n" ∷ codes "/message [ann] hi\n" ∷ []
unfolding talk
heard = refl

begin-Inv : Inv begin
unfolding count
begin-Inv = record {
  writable = (refl, refl);
  unique = λ c. omega arith;
  known = λ c h. absurd (omega arith);
  connected = λ c h. absurd (omega arith);
}

run_lasts_example : (t : State) × (run history begin ≡ running t) × Inv t
run_lasts_example = run_lasts history begin begin-Inv

encoded : encode (codes "a:b[c]") ≡ codes "a%b%c%"
unfolding encode replace_all
encoded = refl

typed_message_arrives_example :
    (watch_for_console_in (codes "a:b\n") ≡ sent (codes "/message a%b\n") ∷ [])
    × (get_action (trim_space (codes "/message a%b\n")) ≡ (codes "message", codes "a%b"))
unfolding collapse is_reserved contains
typed_message_arrives_example =
    typed_message_arrives (codes "a:b") ((omega arith, omega arith), (omega arith, omega arith))
      refl (omega arith)

-- Three rooms in a row, of two clients.
abbrev visits : List (ℕ × Text)
visits = (0, codes "go") ∷ (1, codes "c") ∷ (0, codes "go") ∷ []

list_after_rooms_example :
    (t : State) × (enter_all visits begin ≡ running t)
    × (t.rooms ≡ codes "go" ∷ [] ∷ [] ∷ [] ∷ [] ∷ [] ∷ [] ∷ [] ∷ [] ∷ [] ∷ [])
    × (act 1 (codes "list") [] t ≡ running (fprintln 1 (codes "/list") t))
    × (watch_for_server_in (codes "ann") client_config (codes "/list\n") ≡ [])
list_after_rooms_example =
    list_after_rooms visits 1 [] begin (codes "ann") client_config (refl, refl) refl
      (refl, (refl, (refl, tt))) (cc, (cc, (cc, tt)))

encode_collapses_example : encode (codes "[x]") ≡ map collapse (codes "[x]")
encode_collapses_example = encode_collapses (codes "[x]")

-- Two clients of the same name, and no log.
abbrev pair : State
pair = record begin {
  cur_clients = 0 ∷ 1 ∷ [];
  next_client = 2;
  clients = λ c. record nobody { conn_open = true; room = codes "lobby"; user = codes "ann" };
}

second : State
second = result (send_client_message (codes "message") (codes "yo") 0 false client_config pair)

second_sent :
    send_client_message (codes "message") (codes "yo") 0 false client_config pair ≡ running second
unfolding second send_client_message
second_sent = refl

action_reaches_example :
    IsKept pair second
    × ((d : ℕ)
        → (second.clients d).written ≡ (
            if hears (codes "message") 0 d pair
            then (pair.clients d).written
              ++ replicate
                  (count d pair.cur_clients)
                  (ended (payload (codes "message") (pair.clients 0).user (codes "yo")))
            else (pair.clients d).written))
action_reaches_example =
    action_reaches (codes "message") (codes "yo") 0 client_config pair second refl second_sent

announcement_shown_example :
    (watch_for_server_in
        (codes "ann")
        client_config
        (payload (codes "message") (codes "bo") (codes "hi") ++ newline ∷ [])
      ≡ (if text_eq (codes "bo") (codes "ann")
          then []
          else printed (sprintf (codes "[%s] says: %s\n") (codes "bo" ∷ codes "hi" ∷ [])) ∷ []))
    × (watch_for_server_in
          (codes "ann")
          client_config
          (payload (codes "enter") (codes "bo") (codes "hi") ++ newline ∷ [])
        ≡ printed
            (sprintf (codes "[%s] has entered the room \"%s\"\n") (codes "bo" ∷ codes "hi" ∷ []))
          ∷ [])
    × (watch_for_server_in
          (codes "ann")
          client_config
          (payload (codes "leave") (codes "bo") (codes "hi") ++ newline ∷ [])
        ≡ printed (sprintf (codes "[%s] has left the room \"%s\"\n") (codes "bo" ∷ codes "hi" ∷ []))
          ∷ [])
    × (watch_for_server_in
          (codes "ann")
          client_config
          (payload (codes "connect") (codes "bo") (codes "hi") ++ newline ∷ [])
        ≡ printed (sprintf (codes "[%s] has entered the lobby\n") (codes "bo" ∷ [])) ∷ [])
    × (watch_for_server_in
          (codes "ann")
          client_config
          (payload (codes "disconnected") (codes "bo") (codes "hi") ++ newline ∷ [])
        ≡ [])
unfolding contains
announcement_shown_example =
    announcement_shown (codes "ann") client_config (codes "bo") (codes "hi") (refl, refl, refl)
      (((omega arith, omega arith), (omega arith, omega arith)), refl, refl)

servers_agree_example :
    (act 0 (codes "enter") (codes "go") begin ≡ (
      if text_eq (codes "enter") (codes "enter")
      then handle_action 0 (codes "enter") (codes "go") begin >>= listing (codes "go")
      else if text_eq (codes "enter") (codes "list")
      then list_each 0 begin.rooms begin
      else handle_action 0 (codes "enter") (codes "go") begin))
    × (handle_action 0 (codes "list") (codes "go") begin
        ≡ send_client_message
            (codes "unrecognized")
            (codes "list")
            0
            true
            (begin.clients 0).prop
            begin)
servers_agree_example = servers_agree 0 (codes "enter") (codes "go") begin

abbrev plain_history : List Event
plain_history =
    accept (codes "a:1") ∷ line 0 (codes "/user ann\n") ∷ line 0 (codes "/message hi\n") ∷ []

spoken_plainly : is_plain plain_history ≡ true
unfolding get_action trim_space text_eq
spoken_plainly = refl

histories_agree_example : run plain_history begin ≡ Runs.run plain_history begin
histories_agree_example = histories_agree plain_history begin spoken_plainly
