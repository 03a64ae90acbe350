-- ===== src/RpcChat/Program.antt =====
-- Go code as a program: what a goroutine has yet to do, one interaction at a time.
use cmpt436chat_client.Prelude.{ℕ, List, [], ◌∷◌}
use cmpt436chat_client.Text.{Text}
use cmpt436chat_client.RpcChat.Types.{Memory}
use cmpt436chat_client.RpcChat.Registry.{Result}

-- What a room's goroutine receives, by channel.
pub data Signal : Type 0 where
  join leave : ℕ → Signal
  incoming : Text → Signal
  expiry : Signal

-- finish: the call returns. act: one step on the shared memory, from whose state before it the rest
-- is computed. rlock to unlock: a client's Mutex; acquire is the second half of Lock, the wait for
-- the readers. spawn: a `go` statement. sleep: until a time. offer: a send on a client's outMsg.
-- take: a receive from it. tell: a send on a channel of a room. listen: the select of a room's
-- Listen. crash: a panic.
pub data Program : Type 0 where
  finish : Result Text → Program
  act : (Memory → Memory) → (Memory → Program) → Program
  rlock runlock lock acquire unlock : ℕ → Program → Program
  spawn : Program → Program → Program
  sleep : ℕ → Program → Program
  offer : ℕ → Text → Program → Program
  take : ℕ → (Text → Program) → Program
  tell : ℕ → Signal → Program → Program
  listen : ℕ → Program
  crash : Program

-- A look at the memory.
abbrev pub look : (Memory → Program) → Program
look rest = act (λ m. m) rest

-- One text to several clients, and several to one.
unfoldable pub offer_all : List ℕ → Text → Program → Program
offer_all [] msg rest = rest
offer_all (c ∷ cs) msg rest = offer c msg (offer_all cs msg rest)

unfoldable pub offer_each : ℕ → List Text → Program → Program
offer_each c [] rest = rest
offer_each c (msg ∷ msgs) rest = offer c msg (offer_each c msgs rest)
