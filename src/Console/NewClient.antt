-- ===== src/Console/NewClient.antt =====
-- `Evan's Work/newClient.go`.
use cmpt436chat_client.Text.{Text, codes}
use cmpt436chat_client.Console.Session.{World, Session, Client, server_round, user_round, wait}

abbrev pub disconnect_message : Text
disconnect_message = codes "You have disconnected from the server.\n"

module _ {W : Type 0} where
  unfoldable pub handle_user_in : World W → Session W → Session W
  unfolding user_round
  handle_user_in world s = user_round world s

  unfoldable pub handle_server_in : World W → Session W → Session W
  unfolding server_round
  handle_server_in world s = server_round disconnect_message world s

  abbrev pub new_client : Client W
  new_client = record { shows = handle_server_in; sends = handle_user_in; waits = wait }
