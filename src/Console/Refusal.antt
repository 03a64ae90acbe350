-- ===== src/Console/Refusal.antt =====
-- A console client whose connection was refused: main prints the error and starts the goroutines on
-- a nil connection.
use cmpt436chat_client.Prelude.{
  ℕ, suc, ◌<◌, false, List, [], ◌∷◌, ◌≡◌, ◌≢◌, refl, sym, ap, ◌∙◌, subst, inl, inr, arith, ◌==◌,
  if◌then◌else◌,
}
use cmpt436chat_client.Text.{Text}
use cmpt436chat_client.Console.Session.{
  Input, line, fault, Outcome, fine, fails, panics, refused, running, exited, panicked, World,
  Session, server_round, user_round, read_server, flushed, written, typed, wait, begin, Turn,
  server, user, main, taken, round, turn, run,
}
use cmpt436chat_client.Console.Session.{ends}
use cmpt436chat_client.Console.Spec.{is_up, console, server_turns, Status-cases, taken_over}

-- After `k` rounds on a connection that was refused.
pub record Refused {W : Type 0} (k : ℕ) (err : Text) (s : Session W) : Type 0 where
  dialled : s.dial ≡ refused err
  waiting : s.counter ≡ 1
  stays : s.returned ≡ false
  early : s.status ≡ running → k ≡ 0
  badly : s.status ≢ running → is_up s.status ≡ false

module _ {W : Type 0} (goodbye : Text) (world : World W) (err : Text) where
  module _ (k : ℕ) (s : Session W) (v : Refused k err s) (e : s.status ≡ running) where
    flushed-Refused :
        (o : Outcome W) → Refused k err (flushed o (record s { user_at = suc s.user_at }))
    flushed-Refused (fine x) = record {
      dialled = v.dialled;
      waiting = v.waiting;
      stays = v.stays;
      early = v.early;
      badly = v.badly;
    }
    flushed-Refused (fails x text) = record {
      dialled = v.dialled;
      waiting = v.waiting;
      stays = v.stays;
      early = λ r. cc;
      badly = λ r. refl;
    }
    flushed-Refused panics = record {
      dialled = v.dialled;
      waiting = v.waiting;
      stays = v.stays;
      early = λ r. cc;
      badly = λ r. refl;
    }

    written-Refused :
        (o : Outcome W) → Refused k err (written world o (record s { user_at = suc s.user_at }))
    written-Refused (fine x) = flushed-Refused (world.flush x)
    written-Refused (fails x text) = flushed-Refused (fails x text)
    written-Refused panics = flushed-Refused panics

    user-Refused : Refused k err (user_round world s)
    unfolding user_round
    user-Refused = typed-Refused (world.from_user s.user_at)
      where
        typed-Refused :
            (i : Input) → Refused k err (typed world i (record s { user_at = suc s.user_at }))
        typed-Refused (line msg) = written-Refused (world.write_string msg s.writer)
        typed-Refused (fault text) = flushed-Refused (fails s.writer text)

    server-Refused : Refused (suc k) err (server_round goodbye world s)
    unfolding server_round
    server-Refused = subst (Refused (suc k) err) (sym panic) (record {
      dialled = v.dialled;
      waiting = v.waiting;
      stays = v.stays;
      early = λ r. cc;
      badly = λ r. refl;
    })
      where
        panic : server_round goodbye world s ≡ ends panicked s
        panic =
            ap (λ b. if b then s else read_server goodbye world s.dial s) v.stays
            ∙ ap (λ d. read_server goodbye world d s) v.dialled

    wait-Refused : Refused k err (wait s)
    unfolding wait
    wait-Refused =
        subst (Refused k err) (sym (ap (λ n. if n == 0 then ends (exited 0) s else s) v.waiting)) v

  turn-Refused :
      (t : Turn) (k : ℕ) (s : Session W)
      → Refused k err s
      → Refused (server_turns k (t ∷ [])) err (turn (console goodbye) world t s)
  unfolding turn round
  turn-Refused t k s v = elim (Status-cases s.status) [
    | inl r ↦
        subst (Refused (server_turns k (t ∷ [])) err)
          (sym (ap (λ x. taken x s (round (console goodbye) world t s)) r)) (goes t r)
    | inr d ↦
        subst (Refused (server_turns k (t ∷ [])) err)
          (sym (taken_over s.status s (round (console goodbye) world t s) d)) (stopped t d)
  ]
    where
      goes :
          (t : Turn)
          → s.status ≡ running
          → Refused (server_turns k (t ∷ [])) err (round (console goodbye) world t s)
      goes server e = server-Refused k s v e
      goes user e = user-Refused k s v e
      goes main e = wait-Refused k s v e

      stopped : (t : Turn) → s.status ≢ running → Refused (server_turns k (t ∷ [])) err s
      stopped server d = record {
        dialled = v.dialled;
        waiting = v.waiting;
        stays = v.stays;
        early = λ r. absurd (d r);
        badly = v.badly;
      }
      stopped user d = v
      stopped main d = v

  pub run-Refused :
      (ts : List Turn) (k : ℕ) (s : Session W)
      → Refused k err s
      → Refused (server_turns k ts) err (run (console goodbye) world ts s)
  unfolding run
  run-Refused [] k s v = v
  run-Refused (server ∷ ts) k s v = run-Refused ts (suc k) _ (turn-Refused server k s v)
  run-Refused (user ∷ ts) k s v = run-Refused ts k _ (turn-Refused user k s v)
  run-Refused (main ∷ ts) k s v = run-Refused ts k _ (turn-Refused main k s v)

  pub begin-Refused : (w : W) → Refused 0 err (begin w (refused err))
  unfolding begin
  begin-Refused w = record {
    dialled = refl;
    waiting = refl;
    stays = refl;
    early = λ r. refl;
    badly = λ r. absurd (r refl);
  }

  pub Refused-over : (k : ℕ) (s : Session W) → Refused k err s → 0 < k → is_up s.status ≡ false
  Refused-over k s v h = v.badly (λ r. positive k (v.early r) h)
    where
      positive : (k : ℕ) → k ≡ 0 → 0 < k → ⊥
      positive k e h = omega arith
