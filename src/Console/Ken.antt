-- ===== src/Console/Ken.antt =====
-- `ken/client.go`.
use cmpt436chat_client.Text.{Text, codes}
use cmpt436chat_client.Console.Session.{World, Session, Client, server_round, user_round, wait}

abbrev pub msg_disconnect : Text
msg_disconnect = codes "Disconnected.\n"

module _ {W : Type 0} where
  unfoldable pub read : World W → Session W → Session W
  unfolding server_round
  read world s = server_round msg_disconnect world s

  unfoldable pub write : World W → Session W → Session W
  unfolding user_round
  write world s = user_round world s

  abbrev pub client : Client W
  client = record { shows = read; sends = write; waits = wait }
