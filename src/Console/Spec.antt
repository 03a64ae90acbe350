-- ===== src/Console/Spec.antt =====
-- What a console client has to show and to send, without the order in which its goroutines run.
use cmpt436chat_client.Prelude.{
  ℕ, zero, suc, Bool, true, false, List, [], ◌∷◌, ◌++◌, Option, none, some, ◌≡◌, ◌≢◌, refl, inl,
  inr, ◌⊎◌, ◌==◌,
}
use cmpt436chat_client.Text.{Text}
use cmpt436chat_client.Console.Session.{
  Input, line, fault, Outcome, fine, fails, panics, Status, running, exited, panicked, World,
  Session, server_round, user_round, wait, Turn, server, user, main, Client, taken,
}

-- The line, or what is said in place of an error.
abbrev pub shown : Text → Input → Text
shown goodbye (line msg) = msg
shown goodbye (fault err) = goodbye

-- What the first inputs come to on the console.
unfoldable pub transcript : Text → (ℕ → Input) → ℕ → List Text
transcript goodbye inputs zero = []
transcript goodbye inputs (suc n) = transcript goodbye inputs n ++ shown goodbye (inputs n) ∷ []

-- The process runs, or has ended well.
abbrev pub is_up : Status → Bool
is_up running = true
is_up (exited code) = code == 0
is_up panicked = false

module _ {W : Type 0} where
  abbrev pub settled : Outcome W → Option W
  settled (fine w) = some w
  settled (fails w err) = none
  settled panics = none

  abbrev pub flushed_line : World W → Outcome W → Option W
  flushed_line world (fine w) = settled (world.flush w)
  flushed_line world (fails w err) = none
  flushed_line world panics = none

  abbrev pub relay : World W → Input → Option W → Option W
  relay world (line msg) (some w) = flushed_line world (world.write_string msg w)
  relay world (line msg) none = none
  relay world (fault err) o = none

  -- The writer after the first inputs of the user, each written and flushed.
  unfoldable pub relayed : World W → W → ℕ → Option W
  relayed world w zero = some w
  relayed world w (suc n) = relay world (world.from_user n) (relayed world w n)

  -- The client of both programs, by what it says in the end.
  abbrev pub console : Text → Client W
  console goodbye = record { shows = server_round goodbye; sends = user_round; waits = wait }

-- How many rounds the goroutine that reads the connection has had.
abbrev pub server_turns : ℕ → List Turn → ℕ
server_turns k [] = k
server_turns k (server ∷ ts) = server_turns (suc k) ts
server_turns k (user ∷ ts) = server_turns k ts
server_turns k (main ∷ ts) = server_turns k ts

pub Status-cases : (x : Status) → (x ≡ running) ⊎ (x ≢ running)
Status-cases running = inl refl
Status-cases (exited code) = inr (λ e. cc)
Status-cases panicked = inr (λ e. cc)

pub taken_over : {W : Type 0} (x : Status) (s next : Session W) → x ≢ running → taken x s next ≡ s
taken_over running s next h = absurd (h refl)
taken_over (exited code) s next h = refl
taken_over panicked s next h = refl
