-- ===== src/ConnectToDb/Tests.antt =====
-- main/testConnections.go with a small store, and its theorems there.
use cmpt436chat_client.Prelude.{
  true, List, [], ◌∷◌, ◌++◌, none, some, if◌then◌else◌, ◌≡◌, refl, arith,
}
use cmpt436chat_client.Text.{codes, text_eq}
use cmpt436chat_client.ConnectToDb.Types.{Contact, Driver, user, nil, push_contact}
use cmpt436chat_client.ConnectToDb.Program.{
  World, Run, got, panics, call, println, this_panic, index,
}
use cmpt436chat_client.ConnectToDb.Connections.{
  no_contact, connect_to_db, drop_old, insert_user, insert_contact, find_contact, find_jrock,
  add_contact, main_connected, closing, main,
}
use cmpt436chat_client.ConnectToDb.Quiet.{Ends}
use cmpt436chat_client.ConnectToDb.Errors.{is_eclo, unheard, NeverFails, lost_error, main_ends}

abbrev ale : Contact
ale = record no_contact { name = codes "Ale"; phone = codes "+922" }

-- A store of Jrock's contacts, which knows the contact "Ale" and fails when it looks up "Eclo".
abbrev small : Driver (List Contact)
small = record {
  dial = λ host d. (none, d);
  close = λ d. d;
  set_mode = λ d. d;
  drop_database = λ name d. (none, []);
  ensure_index = λ c i d. (none, d);
  insert_user = λ c u d. (none, d);
  insert_contact = λ c x d. (none, d);
  one_contact = λ c q v d.
      (if is_eclo q then some (codes "not found") else none, if is_eclo q then v else ale, d);
  one_user = λ c q fields v d. (none, user (codes "7") (codes "Jrock") [] [] true nil d 0, d);
  update = λ c q x d. (none, elim x [ push_contact y ↦ d ++ y ∷ [] ]);
  now = λ d. (0, d);
  hex = λ id. id;
}

abbrev before : World (List Contact)
before = record { store = []; printed = [] }

abbrev store_of : Run (List Contact) Unit → List Contact
store_of (got a w) = w.store
store_of (panics p w) = []

-- A contact without a name is added in the place of "Eclo".
nameless : store_of (main small before) ≡ ale ∷ no_contact ∷ []
unfolding main main_connected connect_to_db drop_old insert_user insert_contact find_contact
    find_jrock add_contact closing println this_panic index call text_eq
nameless = refl

small-NeverFails : NeverFails (unheard small)
unfolding unheard text_eq
small-NeverFails = record {
  dial = λ host d. refl;
  drop_database = λ name d. refl;
  ensure_index = λ c i d. refl;
  insert_user = λ c u d. refl;
  insert_contact = λ c x d. refl;
  one_contact = λ c q v d. ground arith;
  one_user = λ c q fields v d. refl;
  update = λ c q x d. refl;
}

lost_error_example : main small before ≡ main (unheard small) before
lost_error_example = lost_error small before

main_ends_example : Ends (main small before)
main_ends_example = main_ends small before small-NeverFails
