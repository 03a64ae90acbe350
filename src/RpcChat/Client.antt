-- ===== src/RpcChat/Client.antt =====
-- What the client of `Evan's Work/Assign 2/client/main.go` makes of a line (lines 14 to 90).
use cmpt436chat_client.Prelude.{List, [], ◌∷◌, ◌++◌, ◌≡◌, ap, if◌then◌else◌}
use cmpt436chat_client.Text.{Text, codes, newline, has_prefix, trim_prefix, trim_suffix}
use cmpt436chat_client.Text.Laws.{trim_suffix-append}

abbrev pub comm_prefix : Text
comm_prefix = codes "!"

abbrev pub comm_createroom : Text
comm_createroom = comm_prefix ++ codes "create"

abbrev pub comm_enterroom : Text
comm_enterroom = comm_prefix ++ codes "enter"

abbrev pub comm_leaveroom : Text
comm_leaveroom = comm_prefix ++ codes "leave"

abbrev pub comm_listrooms : Text
comm_listrooms = comm_prefix ++ codes "list"

abbrev pub comm_changename : Text
comm_changename = comm_prefix ++ codes "name"

abbrev pub comm_quitchat : Text
comm_quitchat = comm_prefix ++ codes "quit"

abbrev pub comm_helpchat : Text
comm_helpchat = comm_prefix ++ codes "help"

abbrev pub mess_help : Text
mess_help =
    codes "\nCommands and Usage:\n"
    ++ (comm_helpchat ++ codes " - lists all commands.\n")
    ++ (comm_listrooms ++ codes " - lists all chat rooms that are active.\n")
    ++ (comm_changename ++ codes " - changes your name to param.\n")
    ++ (comm_createroom ++ codes " chan - creates a channel called chan.\n")
    ++ (comm_enterroom ++ codes " - enters a chat named chan.\n")
    ++ (comm_leaveroom ++ codes " - leaves the current channel.\n")
    ++ (comm_quitchat ++ codes " - quits the chat client.\n")

-- A call of the receiver's method with the client's token, or what else the client does; `finished`
-- is waitG.Done.
pub data Deed : Type 0 where
  send_msg create_c_room join_c_room change_name : Text → Deed
  leave_c_room list_c_rooms quit finished : Deed
  printed : Text → Deed

-- strings.TrimSuffix(strings.TrimPrefix(usrStr, command+" "), "\n").
unfoldable pub argument : Text → Text → Text
unfolding trim_prefix trim_suffix
argument usr_str command = trim_suffix (trim_prefix usr_str (command ++ codes " ")) (newline ∷ [])

unfoldable pub usr_parse : Text → List Deed
usr_parse usr_str =
    if has_prefix usr_str comm_createroom
    then create_c_room (argument usr_str comm_createroom) ∷ []
    else if has_prefix usr_str comm_enterroom
    then join_c_room (argument usr_str comm_enterroom) ∷ []
    else if has_prefix usr_str comm_leaveroom
    then leave_c_room ∷ []
    else if has_prefix usr_str comm_listrooms
    then list_c_rooms ∷ []
    else if has_prefix usr_str comm_helpchat
    then printed mess_help ∷ []
    else if has_prefix usr_str comm_changename
    then change_name (argument usr_str comm_changename) ∷ []
    else if has_prefix usr_str comm_quitchat
    then quit ∷ finished ∷ []
    else send_msg usr_str ∷ []

-- Whatever name is typed behind "!create ", "!enter " or "!name ", the client makes one call, of
-- the command's method, with exactly that name.
pub named_call :
    (name : Text)
    → (usr_parse (comm_createroom ++ b' ' ∷ (name ++ newline ∷ [])) ≡ create_c_room name ∷ [])
      × (usr_parse (comm_enterroom ++ b' ' ∷ (name ++ newline ∷ [])) ≡ join_c_room name ∷ [])
      × (usr_parse (comm_changename ++ b' ' ∷ (name ++ newline ∷ [])) ≡ change_name name ∷ [])
unfolding usr_parse argument has_prefix
named_call name =
    let chomped = trim_suffix-append name (newline ∷ []) in
    (
      ap (λ n. create_c_room n ∷ []) chomped,
      ap (λ n. join_c_room n ∷ []) chomped,
      ap (λ n. change_name n ∷ []) chomped,
    )
