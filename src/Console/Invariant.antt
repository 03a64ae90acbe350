-- ===== src/Console/Invariant.antt =====
-- What holds of a console client whatever the order in which its goroutines run.
use cmpt436chat_client.Prelude.{
  ℕ, suc, ◌<◌, Bool, true, false, List, [], ◌∷◌, some, ◌≡◌, ◌≢◌, refl, sym, ap, inl, inr, arith,
  ◌==◌, Bool-cases, ==_iff, if◌then◌else◌,
}
use cmpt436chat_client.Text.{Text}
use cmpt436chat_client.Console.Session.{
  Input, line, fault, Outcome, fine, fails, panics, Dial, connected, refused, Status, running,
  exited, panicked, World, Session, done, server_round, user_round, read_server, received, flushed,
  written, typed, wait, begin, Turn, server, user, main, taken, round, turn, run,
}
use cmpt436chat_client.Console.Spec.{
  transcript, is_up, settled, flushed_line, relay, relayed, console, server_turns,
}

module _ {W : Type 0} (goodbye : Text) (world : World W) (w : W) where
  -- After `k` rounds of the goroutine that reads the connection.
  pub record Relays (k : ℕ) (s : Session W) : Type 0 where
    pub shows : s.printed ≡ transcript goodbye world.from_server s.server_at
    pub sends : relayed world w s.user_at ≡ some s.writer
    pub dialled : s.dial ≡ connected
    pub waiting : s.returned ≡ false → s.counter ≡ 1
    pub pace : s.returned ≡ false → s.server_at ≡ k
    pub lines : s.returned ≡ false → (i : ℕ) (err : Text) → i < k → world.from_server i ≢ fault err
    pub over :
        s.returned ≡ true
        → (s.counter ≡ 0)
          × ((n : ℕ) × (err : Text) × (s.server_at ≡ suc n) × (world.from_server n ≡ fault err))

  pub record Good (k : ℕ) (s : Session W) : Type 0 where
    pub relays : is_up s.status ≡ true → Relays k s
    pub left : s.status ≢ running → is_up s.status ≡ true → s.returned ≡ true

  -- A process that runs, and one that is down.
  Good-running : (k : ℕ) (s : Session W) → s.status ≡ running → Relays k s → Good k s
  Good-running k s e v = record { relays = λ u. v; left = λ h u. absurd (h e) }

  Good-down : (k : ℕ) (s : Session W) → is_up s.status ≡ false → Good k s
  Good-down k s e = record { relays = λ u. cc; left = λ h u. cc }

  Good-if :
      (b : Bool) (k : ℕ) (x y : Session W)
      → (b ≡ true → Good k x)
      → (b ≡ false → Good k y)
      → Good k (if b then x else y)
  Good-if true k x y h i = h refl
  Good-if false k x y h i = i refl

  -- One more line read.
  read_line :
      (k n : ℕ) (msg : Text)
      → world.from_server n ≡ line msg
      → n ≡ k
      → ((i : ℕ) (err : Text) → i < k → world.from_server i ≢ fault err)
      → (i : ℕ) (err : Text) → i < suc k
      → world.from_server i ≢ fault err
  read_line k n msg f p h i err l e = elim (Bool-cases (i == k)) [
    | inl q ↦ apart (world.from_server n) msg err f (rw (p, sym ((==_iff i k).0 q)) e)
    | inr q ↦ h i err (ground arith) e
  ]
    where
      apart : (x : Input) (msg err : Text) → x ≡ line msg → x ≢ fault err
      apart x msg err f e = cc

  module _ (k : ℕ) (s : Session W) (v : Relays k s) (e : s.status ≡ running) where
    flushed-Good :
        (o : Outcome W)
        → settled o ≡ relayed world w (suc s.user_at)
        → Good k (flushed o (record s { user_at = suc s.user_at }))
    flushed-Good (fine x) h = Good-running k _ e (record {
      shows = v.shows;
      sends = sym h;
      dialled = v.dialled;
      waiting = v.waiting;
      pace = v.pace;
      lines = v.lines;
      over = v.over;
    })
    flushed-Good (fails x err) h = Good-down k _ refl
    flushed-Good panics h = Good-down k _ refl

    written-Good :
        (o : Outcome W)
        → flushed_line world o ≡ relayed world w (suc s.user_at)
        → Good k (written world o (record s { user_at = suc s.user_at }))
    written-Good (fine x) h = flushed-Good (world.flush x) h
    written-Good (fails x err) h = Good-down k _ refl
    written-Good panics h = Good-down k _ refl

    typed-Good :
        (i : Input)
        → relay world i (some s.writer) ≡ relayed world w (suc s.user_at)
        → Good k (typed world i (record s { user_at = suc s.user_at }))
    typed-Good (line msg) h = written-Good (world.write_string msg s.writer) h
    typed-Good (fault err) h = Good-down k _ refl

    user-Good : Good k (user_round world s)
    unfolding user_round relayed
    user-Good =
        typed-Good (world.from_user s.user_at)
          (ap (relay world (world.from_user s.user_at)) (sym v.sends))

    received-Good :
        (i : Input)
        → world.from_server s.server_at ≡ i
        → s.returned ≡ false
        → Good (suc k) (received goodbye i (record s { server_at = suc s.server_at }))
    unfolding transcript done
    received-Good (line msg) f stays = Good-running (suc k) _ e (record {
      shows = rw (f, v.shows) refl;
      sends = v.sends;
      dialled = v.dialled;
      waiting = v.waiting;
      pace = λ r. ap suc (v.pace r);
      lines = λ r i err h. read_line k s.server_at msg f (v.pace r) (v.lines r) i err h;
      over = λ r. cc;
    })
    received-Good (fault err) f stays = rw (v.waiting stays) (
        Good-running (suc k) _ e (record {
          shows = rw (f, v.shows) refl;
          sends = v.sends;
          dialled = v.dialled;
          waiting = λ r. cc;
          pace = λ r. cc;
          lines = λ r. cc;
          over = λ r. (refl, (s.server_at, err, refl, f));
        }))

    read-Good :
        (d : Dial) → s.dial ≡ d → s.returned ≡ false → Good (suc k) (read_server goodbye world d s)
    read-Good connected f stays = received-Good (world.from_server s.server_at) refl stays
    read-Good (refused err) f stays = absurd (cc v.dialled)

    server-Good : Good (suc k) (server_round goodbye world s)
    unfolding server_round
    server-Good =
        Good-if s.returned (suc k) s _
          (λ r. Good-running (suc k) s e (record {
            shows = v.shows;
            sends = v.sends;
            dialled = v.dialled;
            waiting = v.waiting;
            pace = λ x. cc;
            lines = λ x. cc;
            over = v.over;
          }))
          (λ r. read-Good s.dial refl r)

    wait-Good : Good k (wait s)
    unfolding wait
    wait-Good =
        Good-if (s.counter == 0) k _ s
          (λ c. record {
            relays = λ u. record {
              shows = v.shows;
              sends = v.sends;
              dialled = v.dialled;
              waiting = v.waiting;
              pace = v.pace;
              lines = v.lines;
              over = v.over;
            };
            left = λ h u. elim (Bool-cases s.returned) [
              | inl r ↦ r
              | inr r ↦ cc (ap (λ n. n == 0) (v.waiting r))
            ];
          })
          (λ c. Good-running k s e v)

  Good-stopped : (k : ℕ) (s : Session W) → s.status ≢ running → Good k s → Good (suc k) s
  Good-stopped k s h g = record {
    relays = λ u.
        let v = g.relays u in
        record {
          shows = v.shows;
          sends = v.sends;
          dialled = v.dialled;
          waiting = v.waiting;
          pace = λ r. absurd (shut (g.left h u) r);
          lines = λ r. absurd (shut (g.left h u) r);
          over = v.over;
        };
    left = g.left;
  }
    where
      shut : {b : Bool} → b ≡ true → b ≢ false
      shut e f = cc

  turn-Good :
      (t : Turn) (k : ℕ) (s : Session W)
      → Good k s
      → Good (server_turns k (t ∷ [])) (turn (console goodbye) world t s)
  unfolding turn round
  turn-Good t k s g = by_status s.status refl
    where
      stopped : (t : Turn) → s.status ≢ running → Good (server_turns k (t ∷ [])) s
      stopped server h = Good-stopped k s h g
      stopped user h = g
      stopped main h = g

      goes :
          (t : Turn)
          → s.status ≡ running
          → Good (server_turns k (t ∷ [])) (round (console goodbye) world t s)
      goes server e = server-Good k s (g.relays (rw e refl)) e
      goes user e = user-Good k s (g.relays (rw e refl)) e
      goes main e = wait-Good k s (g.relays (rw e refl)) e

      by_status :
          (x : Status)
          → s.status ≡ x
          → Good (server_turns k (t ∷ [])) (taken x s (round (console goodbye) world t s))
      by_status running e = goes t e
      by_status (exited code) e = stopped t (λ r. cc)
      by_status panicked e = stopped t (λ r. cc)

  pub run-Good :
      (ts : List Turn) (k : ℕ) (s : Session W)
      → Good k s
      → Good (server_turns k ts) (run (console goodbye) world ts s)
  unfolding run
  run-Good [] k s g = g
  run-Good (server ∷ ts) k s g = run-Good ts (suc k) _ (turn-Good server k s g)
  run-Good (user ∷ ts) k s g = run-Good ts k _ (turn-Good user k s g)
  run-Good (main ∷ ts) k s g = run-Good ts k _ (turn-Good main k s g)

  pub begin-Good : Good 0 (begin w connected)
  unfolding begin transcript relayed
  begin-Good = Good-running 0 _ refl (record {
    shows = refl;
    sends = refl;
    dialled = refl;
    waiting = λ r. refl;
    pace = λ r. refl;
    lines = λ r i err h. omega arith;
    over = λ r. cc;
  })
