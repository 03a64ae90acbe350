-- ===== src/SlashChat/Client.antt =====
-- The loops of client.go, as functions from a line read to what is sent and printed.
use cmpt436chat_client.Prelude.{List, [], ◌∷◌, ◌++◌, if◌then◌else◌, is_empty}
use cmpt436chat_client.Text.{Text, codes, text_eq, sprintf}
use cmpt436chat_client.SlashChat.Codec.{encode}
use cmpt436chat_client.SlashChat.Action.{Command, trim_space, parse_input, parse_command}
use cmpt436chat_client.SlashChat.Util.{Properties}

-- What the client does with a line: bytes for the server, or a line on the console.
pub data Effect : Type 0 where
  sent printed : Text → Effect

unfoldable pub send_command_to_serv : Text → Text → List Effect
unfolding sprintf encode
send_command_to_serv cmd body =
    sent (sprintf (codes "/%v %v\n") (encode cmd ∷ encode body ∷ [])) ∷ []

-- The switch of watchForConsoleIn.
unfoldable pub console_command : Text → Command → List Effect
unfolding text_eq send_command_to_serv
console_command msg command =
    if is_empty command.cmd
    then send_command_to_serv (codes "message") msg
    else if text_eq command.cmd (codes "disconnect")
    then send_command_to_serv (codes "disconnect") []
    else if text_eq command.cmd (codes "leave")
    then send_command_to_serv (codes "leave") []
    else if text_eq command.cmd (codes "enter")
    then send_command_to_serv (codes "enter") command.body
    else if text_eq command.cmd (codes "list")
    then send_command_to_serv (codes "list") []
    else printed (sprintf (codes "Unknown command: \"%s\"\n") (command.cmd ∷ [])) ∷ []

-- One round of watchForConsoleIn.
unfoldable pub watch_for_console_in : Text → List Effect
watch_for_console_in line =
    let msg = trim_space line in if is_empty msg then [] else console_command msg (parse_input msg)

-- The switch of watchForServerIn.
unfoldable pub server_command : Text → Properties → Command → List Effect
unfolding text_eq send_command_to_serv sprintf
server_command user props c =
    if text_eq c.cmd (codes "message")
    then (if text_eq c.user user
        then []
        else printed (sprintf (props.received_msg ++ codes "\n") (c.user ∷ c.body ∷ [])) ∷ [])
    else if text_eq c.cmd (codes "ready")
    then send_command_to_serv (codes "user") user
    else if text_eq c.cmd (codes "connect")
    then printed (sprintf (props.has_entered_lobby_msg ++ codes "\n") (c.user ∷ [])) ∷ []
    else if text_eq c.cmd (codes "disconnect")
    then printed (sprintf (props.has_left_lobby_msg ++ codes "\n") (c.user ∷ [])) ∷ []
    else if text_eq c.cmd (codes "enter")
    then printed (sprintf (props.has_entered_room_msg ++ codes "\n") (c.user ∷ c.body ∷ [])) ∷ []
    else if text_eq c.cmd (codes "leave")
    then printed (sprintf (props.has_left_room_msg ++ codes "\n") (c.user ∷ c.body ∷ [])) ∷ []
    else []

-- One round of watchForServerIn.
unfoldable pub watch_for_server_in : Text → Properties → Text → List Effect
watch_for_server_in user props line =
    let msg = trim_space line in
    if is_empty msg then [] else server_command user props (parse_command msg)

-- The properties that getConfig gives to a client.
abbrev pub client_config : Properties
client_config = record {
  host = codes "localhost";
  port = codes "5555";
  has_entered_room_msg = codes "[%s] has entered the room \"%s\"";
  has_left_room_msg = codes "[%s] has left the room \"%s\"";
  has_entered_lobby_msg = codes "[%s] has entered the lobby";
  has_left_lobby_msg = codes "[%s] has left the lobby";
  received_msg = codes "[%s] says: %s";
  log_file = [];
}
