-- ===== src/RpcChat/ClientLoops.antt =====
-- The loops of the client of `Evan's Work/Assign 2/client/main.go` (lines 38 to 125): UserIn,
-- userOut and main, one round at a time, in any order. The server behind package rpc is a
-- parameter.
use cmpt436chat_client.Prelude.{
  ℕ, suc, ◌-◌, Bool, true, false, List, [], ◌∷◌, ◌++◌, Option, none, some, ◌≡◌, ap, ◌∙◌, ◌==◌,
  if◌then◌else◌,
}
use cmpt436chat_client.Text.{Text, codes, has_prefix}
use cmpt436chat_client.RpcChat.Client.{Deed, printed, finished, quit, usr_parse, comm_quitchat}

abbrev pub mess_disc : Text
mess_disc = codes "Goodbye, disconnect.\n"

-- What the call of RecMsg gives: a text, or an error by its text; with the server that is left.
pub data Received (S : Type 0) : Type 0 where
  got broken : Text → S → Received S

-- The server as the client sees it, whose answers to all calls but RecMsg the loops drop, and the
-- lines that the user types, until ReadString fails.
pub record World (S : Type 0) : Type 0 where
  pub call : Deed → S → S
  pub receive : S → Received S
  pub typed : ℕ → Option Text

pub data Status : Type 0 where
  running : Status
  exited : ℕ → Status
  panicked : Status

-- The console, the server, the number of lines read, whether UserIn and userOut still loop, the
-- counter of waitG, and the process.
pub record Session (S : Type 0) : Type 0 where
  pub shown : List Text
  pub server : S
  pub lines_read : ℕ
  pub user_in_loops : Bool
  pub user_out_loops : Bool
  pub counter : ℕ
  pub status : Status

module _ {S : Type 0} where
  abbrev pub print : Text → Session S → Session S
  print text s = record s { shown = s.shown ++ text ∷ [] }

  -- waitG.Done; below zero it panics.
  unfoldable pub done : Session S → Session S
  done s =
      if s.counter == 0
      then record s { status = panicked }
      else record s { counter = s.counter - 1 }

  abbrev pub deed : World S → Deed → Session S → Session S
  deed world (printed text) s = print text s
  deed world finished s = done s
  deed world d s = record s { server = world.call d s.server }

  unfoldable pub deeds : World S → List Deed → Session S → Session S
  deeds world [] s = s
  deeds world (d ∷ ds) s = deeds world ds (deed world d s)

  abbrev pub line_read : World S → Option Text → Session S → Session S
  line_read world none s = done (record s { user_in_loops = false })
  line_read world (some usr_str) s = deeds world (usr_parse usr_str) s

  unfoldable pub user_in : World S → Session S → Session S
  unfolding done deeds
  user_in world s =
      if s.user_in_loops
      then line_read world (world.typed s.lines_read) (record s { lines_read = suc s.lines_read })
      else s

  abbrev pub message_read : Received S → Session S → Session S
  message_read (got msg server) s = print msg (record s { server = server })
  message_read (broken err server) s =
      done (print err (record s { server = server; user_out_loops = false }))

  unfoldable pub user_out : World S → Session S → Session S
  unfolding done
  user_out world s = if s.user_out_loops then message_read (world.receive s.server) s else s

  -- The end of main.
  unfoldable pub wait : Session S → Session S
  wait s = if s.counter == 0 then record (print mess_disc s) { status = exited 0 } else s

  -- main: a refused dial is a panic, and a refused Connect ends the process with code 1.
  unfoldable pub begin : S → Bool → Option Text → Session S
  begin server dialled refusal = record {
    shown = [];
    server = server;
    lines_read = 0;
    user_in_loops = true;
    user_out_loops = true;
    counter = 1;
    status = entered dialled refusal;
  }
    where
      entered : Bool → Option Text → Status
      entered false refusal = panicked
      entered true none = running
      entered true (some err) = exited 1

module _ {S : Type 0} (world : World S) (s : Session S) (rest : Text) where
  -- The client after it has sent the Quit call.
  abbrev quitted : Session S
  quitted = record s {
    server = world.call quit s.server;
    lines_read = suc s.lines_read;
    counter = 0;
  }

  user_in-quit :
      s.counter ≡ 1
      → s.user_in_loops ≡ true
      → world.typed s.lines_read ≡ some (comm_quitchat ++ rest)
      → user_in world s ≡ quitted
  unfolding user_in deeds done usr_parse has_prefix
  user_in-quit c l t =
      let read = record s { lines_read = suc s.lines_read } in
      let called = record read { server = world.call quit s.server } in
      ap (λ b. if b then line_read world (world.typed s.lines_read) read else s) l
      ∙ ap (λ o. line_read world o read) t
      ∙ ap
          (λ n.
            if n == 0
            then record called { status = panicked }
            else record called { counter = n - 1 })
          c

  -- A user types "!quit" while both loops run. If main is next, the client says goodbye and ends
  -- with code 0; if the answer to RecMsg is next, and it is an error, as the server gives for a
  -- token that has gone, the client panics.
  pub quit_races :
      (err : Text) (server : S)
      → s.counter ≡ 1
      → s.user_in_loops ≡ true
      → s.user_out_loops ≡ true
      → world.typed s.lines_read ≡ some (comm_quitchat ++ rest)
      → world.receive (world.call quit s.server) ≡ broken err server
      → ((wait (user_in world s)).status ≡ exited 0)
        × ((wait (user_in world s)).shown ≡ s.shown ++ mess_disc ∷ [])
        × ((user_out world (user_in world s)).status ≡ panicked)
  unfolding wait user_out done
  quit_races err server c l o t r =
      let e = user_in-quit c l t in
      (
        ap (λ x. (wait x).status) e,
        ap (λ x. (wait x).shown) e,
        ap (λ x. (user_out world x).status) e
            ∙ ap
                (λ b.
                  (if b
                    then message_read (world.receive quitted.server) quitted
                    else quitted).status)
                o
            ∙ ap (λ x. (message_read x quitted).status) r,
      )
