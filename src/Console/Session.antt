-- ===== src/Console/Session.antt =====
-- The two goroutines and the WaitGroup of a console client, which `Evan's Work/newClient.go` and
-- `ken/client.go` write in the same words: one turn of a goroutine is one round of its loop.
use cmpt436chat_client.Prelude.{
  ℕ, suc, ◌-◌, Bool, true, false, List, [], ◌∷◌, ◌++◌, ◌==◌, if◌then◌else◌,
}
use cmpt436chat_client.Text.{Text, codes}

-- What ReadString gives: a line, or an error by its text.
pub data Input : Type 0 where
  line fault : Text → Input

-- How a call on the writer comes out, with the writer that is left.
pub data Outcome (W : Type 0) : Type 0 where
  fine : W → Outcome W
  fails : W → Text → Outcome W
  panics : Outcome W

-- What net.Dial gives: a connection, or an error, with nil for the connection.
pub data Dial : Type 0 where
  connected : Dial
  refused : Text → Dial

pub data Status : Type 0 where
  running : Status
  exited : ℕ → Status
  panicked : Status

-- The world of the client: what the console and the connection give to be read, one result after
-- the other, and the bufio.Writer on the connection, which is the library's.
pub record World (W : Type 0) : Type 0 where
  pub from_user : ℕ → Input
  pub from_server : ℕ → Input
  pub write_string : Text → W → Outcome W
  pub flush : W → Outcome W

-- What the console shows, how often each reader has been read, the writer, the connection, whether
-- the goroutine of the connection has returned, the WaitGroup's counter, and the process.
pub record Session (W : Type 0) : Type 0 where
  pub printed : List Text
  pub user_at : ℕ
  pub server_at : ℕ
  pub writer : W
  pub dial : Dial
  pub returned : Bool
  pub counter : ℕ
  pub status : Status

module _ {W : Type 0} where
  abbrev pub print : Text → Session W → Session W
  print text s = record s { printed = s.printed ++ text ∷ [] }

  abbrev pub ends : Status → Session W → Session W
  ends status s = record s { status = status }

  -- Done; a counter below zero is a panic.
  unfoldable pub done : Session W → Session W
  done s =
      if s.counter == 0
      then ends panicked s
      else record s { counter = s.counter - 1; returned = true }

  -- fmt.Println(err) and os.Exit(1).
  abbrev pub fail : Text → Session W → Session W
  fail err s = ends (exited 1) (print (err ++ codes "\n") s)

  abbrev pub received : Text → Input → Session W → Session W
  received goodbye (line msg) s = print msg s
  received goodbye (fault err) s = done (print goodbye s)

  -- A method of a nil connection is a nil dereference.
  abbrev pub read_server : Text → World W → Dial → Session W → Session W
  read_server goodbye world (refused err) s = ends panicked s
  read_server goodbye world connected s =
      received goodbye (world.from_server s.server_at) (record s { server_at = suc s.server_at })

  -- One round of the loop that shows what the server sends; none once the goroutine has returned.
  unfoldable pub server_round : Text → World W → Session W → Session W
  unfolding done
  server_round goodbye world s = if s.returned then s else read_server goodbye world s.dial s

  abbrev pub flushed : Outcome W → Session W → Session W
  flushed (fine w) s = record s { writer = w }
  flushed (fails w err) s = fail err (record s { writer = w })
  flushed panics s = ends panicked s

  abbrev pub written : World W → Outcome W → Session W → Session W
  written world (fine w) s = flushed (world.flush w) s
  written world (fails w err) s = fail err (record s { writer = w })
  written world panics s = ends panicked s

  abbrev pub typed : World W → Input → Session W → Session W
  typed world (line msg) s = written world (world.write_string msg s.writer) s
  typed world (fault err) s = fail err s

  -- One round of the loop that sends what the user types.
  unfoldable pub user_round : World W → Session W → Session W
  user_round world s =
      typed world (world.from_user s.user_at) (record s { user_at = suc s.user_at })

  -- The Wait of main, and its return.
  unfoldable pub wait : Session W → Session W
  wait s = if s.counter == 0 then ends (exited 0) s else s

  -- main before the goroutines start: a refused dial is printed, and main goes on.
  unfoldable pub begin : W → Dial → Session W
  begin w dial = record {
    printed = announced dial;
    user_at = 0;
    server_at = 0;
    writer = w;
    dial = dial;
    returned = false;
    counter = 1;
    status = running;
  }
    where
      announced : Dial → List Text
      announced connected = []
      announced (refused err) = (err ++ codes "\n") ∷ []

-- Whose turn it is.
pub data Turn : Type 0 where
  server user main : Turn

-- A console client: the round of each goroutine, and what main waits for.
pub record Client (W : Type 0) : Type 0 where
  pub shows : World W → Session W → Session W
  pub sends : World W → Session W → Session W
  pub waits : Session W → Session W

-- Nothing happens once the process has ended.
abbrev pub taken : {W : Type 0} → Status → Session W → Session W → Session W
taken running s next = next
taken (exited code) s next = s
taken panicked s next = s

module _ {W : Type 0} (client : Client W) (world : World W) where
  unfoldable pub round : Turn → Session W → Session W
  round server s = client.shows world s
  round user s = client.sends world s
  round main s = client.waits s

  unfoldable pub turn : Turn → Session W → Session W
  turn t s = taken s.status s (round t s)

  unfoldable pub run : List Turn → Session W → Session W
  run [] s = s
  run (t ∷ ts) s = run ts (turn t s)
