-- ===== src/Console/Runs.antt =====
-- The two console clients, from their start to their end.
use cmpt436chat_client.Prelude.{
  ◌⊎◌, inl, inr, ℕ, ◌<◌, true, false, List, [], ◌∷◌, ◌++◌, some, ◌≡◌, ◌≢◌, refl, sym, ap, ◌∙◌,
  subst, inl, inr, ◌==◌, Bool-cases, if◌then◌else◌,
}
use cmpt436chat_client.Text.{Text}
use cmpt436chat_client.Console.Session.{
  fault, connected, refused, running, exited, World, Session, wait, begin, Turn, main, Client,
  taken, round, turn, run,
}
use cmpt436chat_client.Console.Spec.{
  shown, transcript, is_up, relayed, console, server_turns, Status-cases, taken_over,
}
use cmpt436chat_client.Console.Invariant.{Good, run-Good, begin-Good}
use cmpt436chat_client.Console.Refusal.{run-Refused, begin-Refused, Refused-over}
use cmpt436chat_client.Console.NewClient
use cmpt436chat_client.Console.Ken

module _ {W : Type 0} (goodbye : Text) (world : World W) where
  run-main :
      (ts : List Turn) (s : Session W)
      → run (console goodbye) world (ts ++ main ∷ []) s
        ≡ turn (console goodbye) world main (run (console goodbye) world ts s)
  unfolding run
  run-main [] s = refl
  run-main (t ∷ ts) s = run-main ts (turn (console goodbye) world t s)

  wait_over : (s : Session W) → s.counter ≡ 0 → (wait s).status ≡ exited 0
  unfolding wait
  wait_over s e = ap (λ n. (if n == 0 then record s { status = exited 0 } else s).status) e

  not_both : (s : Session W) → s.status ≡ exited 0 → s.status ≢ running
  not_both s e f = cc

  main_ends :
      (w : W) (k n : ℕ) (err : Text) (s : Session W)
      → Good goodbye world w k s
      → n < k
      → world.from_server n ≡ fault err
      → (turn (console goodbye) world main s).status ≢ running
  unfolding turn round
  main_ends w k n err s g h f e = elim (Status-cases s.status) [
    | inr d ↦ d (sym (ap (λ x. x.status) (taken_over s.status s (wait s) d)) ∙ e)
    | inl r ↦
        let v = g.relays (ap is_up r) in
        elim (Bool-cases s.returned) [
          | inl o ↦
              not_both (wait s) (wait_over s (v.over o).0)
                (ap (λ x. (taken x s (wait s)).status) (sym r) ∙ e)
          | inr o ↦ v.lines o n err h f
        ]
  ]

pub data Program : Type 0 where
  new_client ken : Program

abbrev pub goodbye_of : Program → Text
goodbye_of new_client = NewClient.disconnect_message
goodbye_of ken = Ken.msg_disconnect

abbrev pub client_of : {W : Type 0} → Program → Client W
client_of new_client = NewClient.new_client
client_of ken = Ken.client

module _ {W : Type 0} (p : Program) (world : World W) (w : W) where
  client_of_eq : client_of {W = W} p ≡ console (goodbye_of p)
  unfolding NewClient.handle_server_in NewClient.handle_user_in Ken.read Ken.write
  client_of_eq = by_program p
    where
      by_program : (p : Program) → client_of {W = W} p ≡ console (goodbye_of p)
      by_program new_client = refl
      by_program ken = refl

  -- The client after the turns `ts`, with a connection.
  abbrev pub after : List Turn → Session W
  after ts = run (client_of p) world ts (begin w connected)

  after-Good : (ts : List Turn) → Good (goodbye_of p) world w (server_turns 0 ts) (after ts)
  after-Good ts =
      subst
        (λ c. Good (goodbye_of p) world w (server_turns 0 ts) (run c world ts (begin w connected)))
        (sym client_of_eq)
        (run-Good (goodbye_of p) world w ts 0 (begin w connected)
          (begin-Good (goodbye_of p) world w))

  -- In whatever order the goroutines of a console client run, as long as the process runs or has
  -- ended with code 0: the console shows what the server sent, line by line in order, with the last
  -- message in place of the error that ends the connection, and each line that the user typed was
  -- written and flushed, in order. A process that has ended with code 0 was told of the end of the
  -- connection, and the last message stands on its console behind everything that the server sent
  -- before.
  pub relays_in_order :
      (ts : List Turn)
      → is_up (after ts).status ≡ true
      → ((after ts).printed ≡ transcript (goodbye_of p) world.from_server (after ts).server_at)
        × (relayed world w (after ts).user_at ≡ some (after ts).writer)
        × (((after ts).status ≡ running)
            ⊎ ((n : ℕ) × (err : Text) × (world.from_server n ≡ fault err)
                × ((after ts).printed
                    ≡ transcript (goodbye_of p) world.from_server n ++ goodbye_of p ∷ [])))
  unfolding transcript
  relays_in_order ts up =
      let g = after-Good ts in
      let v = g.relays up in
      (
        v.shows,
        v.sends,
        elim (Status-cases (after ts).status) [
          | inl r ↦ inl r
          | inr d ↦
              let (c, (n, err, at, f)) = v.over (g.left d up) in
              inr (
                n,
                err,
                f,
                v.shows
                    ∙ ap (transcript (goodbye_of p) world.from_server) at
                    ∙ ap
                        (λ i.
                          transcript (goodbye_of p) world.from_server n
                          ++ shown (goodbye_of p) i ∷ [])
                        f,
              )
        ],
      )

  -- Once the connection has failed and its goroutine has had a turn for every line and one for the
  -- failure, the next turn of main ends the process, if nothing has ended it before.
  pub ends_after_fault :
      (ts : List Turn) (n : ℕ) (err : Text)
      → world.from_server n ≡ fault err
      → n < server_turns 0 ts
      → (after (ts ++ main ∷ [])).status ≢ running
  ends_after_fault ts n err f h e =
      let g = goodbye_of p in
      main_ends g world w _ n err (run (console g) world ts (begin w connected))
        (run-Good g world w ts 0 (begin w connected) (begin-Good g world w)) h f
        (ap (λ x. x.status)
            (sym (run-main g world ts (begin w connected))
              ∙ ap (λ c. run c world (ts ++ main ∷ []) (begin w connected)) (sym client_of_eq))
          ∙ e)

  -- When the connection was refused, neither console client ends well: once the goroutine that
  -- reads the nil connection has had a turn, the process no longer runs and has not ended with code
  -- 0.
  pub refused_ends_badly :
      (ts : List Turn) (err : Text)
      → 0 < server_turns 0 ts
      → is_up (run (client_of p) world ts (begin w (refused err))).status ≡ false
  refused_ends_badly ts err h =
      ap (λ c. is_up (run c world ts (begin w (refused err))).status) client_of_eq
      ∙ Refused-over (goodbye_of p) world err (server_turns 0 ts) _
          (run-Refused (goodbye_of p) world err ts 0 (begin w (refused err))
            (begin-Refused (goodbye_of p) world err w))
          h
