-- ===== src/Console/Tests.antt =====
-- The theorems on the console clients, with a server that says one line and a user who types one.
use cmpt436chat_client.Prelude.{
  ◌⊎◌, ℕ, zero, suc, true, false, List, [], ◌∷◌, ◌++◌, some, ◌≡◌, ◌≢◌, refl, arith,
}
use cmpt436chat_client.Text.{Text, codes}
use cmpt436chat_client.Console.Session.{
  Input, line, fault, fine, refused, running, World, begin, Turn, server, user, main, run, turn,
  round, server_round, user_round, wait, done,
}
use cmpt436chat_client.Console.Spec.{transcript, is_up, relayed}
use cmpt436chat_client.Console.NewClient
use cmpt436chat_client.Console.Runs.{
  new_client, ken, goodbye_of, client_of, after, relays_in_order, ends_after_fault,
  refused_ends_badly,
}

abbrev one_line : Text → ℕ → Input
one_line text zero = line text
one_line text (suc n) = fault (codes "EOF")

abbrev hello : World (List Text)
hello = record {
  from_user = one_line (codes "yo\n");
  from_server = one_line (codes "hi\n");
  write_string = λ text w. fine (w ++ text ∷ []);
  flush = λ w. fine w;
}

abbrev talk : List Turn
talk = server ∷ user ∷ main ∷ server ∷ []

abbrev whole : List Turn
whole = talk ++ main ∷ []

whole_up : is_up (after new_client hello [] whole).status ≡ true
unfolding run turn round begin server_round user_round wait done NewClient.handle_server_in
    NewClient.handle_user_in
whole_up = refl

relays_in_order_example :
    ((after new_client hello [] whole).printed
      ≡ transcript
          (goodbye_of new_client)
          hello.from_server
          (after new_client hello [] whole).server_at)
    × (relayed hello [] (after new_client hello [] whole).user_at
        ≡ some (after new_client hello [] whole).writer)
    × (((after new_client hello [] whole).status ≡ running)
        ⊎ ((n : ℕ) × (err : Text) × (hello.from_server n ≡ fault err)
            × ((after new_client hello [] whole).printed
                ≡ transcript (goodbye_of new_client) hello.from_server n
                  ++ goodbye_of new_client ∷ [])))
relays_in_order_example = relays_in_order new_client hello [] whole whole_up

ends_after_fault_example : (after ken hello [] (talk ++ main ∷ [])).status ≢ running
ends_after_fault_example = ends_after_fault ken hello [] talk 1 (codes "EOF") refl (omega arith)

refused_ends_badly_example :
    is_up
      (run
        (client_of new_client)
        hello
        (user ∷ server ∷ [])
        (begin [] (refused (codes "no")))).status
    ≡ false
refused_ends_badly_example =
    refused_ends_badly new_client hello [] (user ∷ server ∷ []) (codes "no") (omega arith)
