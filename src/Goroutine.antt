-- ===== src/Goroutine.antt =====
-- The client goroutines and channels that newServer.go and ken/server.go share in form: the socket
-- end of a client, the rendezvous of a sender with the writer goroutine, and what stops a sender.
pub mod Laws
pub mod Safety
use cmpt436chat_client.Prelude.{
  ℕ, Bool, true, false, not, List, [], ◌∷◌, ◌++◌, if◌then◌else◌, update,
}
use cmpt436chat_client.Text.{Text}

-- The part of a client that its writer goroutine owns: whether writes to the connection succeed,
-- whether the loop over the outgoing channel still runs, whether that channel is open, and what
-- was written to the connection so far.
pub record Wire : Type 0 where
  pub conn_open : Bool
  pub writing : Bool
  pub out_open : Bool
  pub written : List Text

-- How a goroutine comes out of a piece of code: it gets through, it waits on a channel from which
-- nobody will receive again, or it panics.
pub data Outcome (S : Type 0) : Type 0 where
  done blocked panicked : S → Outcome S

infixl 5 ◌>>=◌
abbrev pub ◌>>=◌ : {S : Type 0} → Outcome S → (S → Outcome S) → Outcome S
done s >>= f = f s
blocked s >>= f = blocked s
panicked s >>= f = panicked s

-- The memory: what the server's own goroutine works on, and the clients' socket ends.
pub record World (S : Type 0) : Type 0 where
  pub state : S
  pub wires : ℕ → Wire

-- One round of the writer: a failed write or flush ends its loop.
unfoldable pub write_round : Wire → Text → Wire
write_round k msg =
    if k.conn_open
    then record k { written = k.written ++ msg ∷ [] }
    else record k { writing = false }

module _ {S : Type 0} where
  -- `client.outgoing <- msg` on an unbuffered channel. The sender goes on when the writer has taken
  -- the message, and the writer does its round.
  unfoldable pub send : ℕ → Text → World S → Outcome (World S)
  unfolding write_round
  send c msg w =
      let k = w.wires c in
      if not k.out_open
      then panicked w
      else if not k.writing
      then blocked w
      else done (record w { wires = update w.wires c (write_round k msg) })

  -- Several messages to one client.
  unfoldable pub send_each : ℕ → List Text → World S → Outcome (World S)
  send_each c [] w = done w
  send_each c (msg ∷ msgs) w = do w' ← send c msg w; send_each c msgs w'

  -- One message to several clients.
  unfoldable pub send_all : List ℕ → Text → World S → Outcome (World S)
  send_all [] msg w = done w
  send_all (c ∷ cs) msg w = do w' ← send c msg w; send_all cs msg w'

  -- `close(client.outgoing)`: closing twice panics, and the writer's range loop ends.
  unfoldable pub close_out : ℕ → World S → Outcome (World S)
  close_out c w =
      let k = w.wires c in
      if not k.out_open
      then panicked w
      else done
          (record w { wires = update w.wires c (record k { out_open = false; writing = false }) })

  -- `client.conn.Close()`: from then on every write fails.
  unfoldable pub close_conn : ℕ → World S → World S
  close_conn c w = record w { wires = update w.wires c (record (w.wires c) { conn_open = false }) }
