-- ===== src/ConnectToDb/Connections.antt =====
-- main/testConnections.go: connectToDB and main (lines 48 and 59 to 187). The variable
-- `collection`, which is set and not used, is left out.
use cmpt436chat_client.Prelude.{ℕ, Bool, true, false, [], ◌∷◌, if◌then◌else◌, Option, none}
use cmpt436chat_client.Text.{Text, codes}
use cmpt436chat_client.ConnectToDb.Types.{
  Contact, User, user, nil, id_of, contacts_of, Query, by_name, by_id, push_contact, whole, id_only,
  Index, Driver, text, contact, whole_user, query, change, Error,
}
use cmpt436chat_client.ConnectToDb.Program.{
  Run, got, panics, Act, ◌>>=◌, ◌>>◌, then_run, call, println, this_panic, index,
}

abbrev pub is_drop : Bool
is_drop = true

abbrev pub no_contact : Contact
no_contact = record {
  id = [];
  name = [];
  phone = [];
  email = [];
  is_real_user = false;
  timestamp = 0;
}

abbrev pub no_user : User
no_user = user [] [] [] [] false nil [] 0

abbrev pub named_index : Index
named_index = record {
  key = codes "name" ∷ codes "phone" ∷ [];
  unique = true;
  drop_dups = true;
  background = true;
  sparse = true;
}

module _ {D : Type 0} (driver : Driver D) where
  unfoldable pub connect_to_db : Act D Unit
  unfolding this_panic
  connect_to_db = do err ← call (driver.dial (codes "127.0.0.1")); this_panic err

  abbrev pub set_mode : Act D Unit
  set_mode = call (λ d. (tt, driver.set_mode d))

  unfoldable pub drop_old : Act D Unit
  unfolding this_panic
  drop_old w =
      if is_drop
      then (do err ← call (driver.drop_database (codes "test")); this_panic err) w
      else got tt w

  unfoldable pub insert_user : Text → Text → Text → Act D Unit
  unfolding this_panic
  insert_user name phone email = do
    t ← call driver.now
    err ← call (driver.insert_user (codes "User") (user [] name phone email true nil [] t))
    this_panic err

  unfoldable pub insert_contact : Text → Text → Text → Act D Unit
  unfolding this_panic
  insert_contact name phone email = do
    t ← call driver.now
    err ← call (
        driver.insert_contact (codes "Contact") (record {
          id = [];
          name = name;
          phone = phone;
          email = email;
          is_real_user = true;
          timestamp = t;
        }))
    this_panic err

  -- The lookup of a contact by name: its error, and the contact.
  unfoldable pub find_contact : Text → Act D (Option Error × Contact)
  find_contact name = call (λ d.
      let (err, result, d') = driver.one_contact (codes "Contact") (by_name name) no_contact d in
      ((err, result), d'))

  unfoldable pub find_jrock :
      (Query → User → D → Option Error × User × D) → Act D (Option Error × User)
  find_jrock one =
      call
        (λ d. let (err, found, d') = one (by_name (codes "Jrock")) no_user d in ((err, found), d'))

  -- The contact is pushed to Jrock's contacts, and the one at the given index is printed.
  unfoldable pub add_contact : ℕ → Contact → Act D Unit
  unfolding find_jrock println this_panic index
  add_contact i result = do
    (err, found) ← find_jrock (λ q v. driver.one_user (codes "User") q id_only v)
    println (whole_user found)
    this_panic err
    println (text (codes "\nHexID of JRock\n"))
    println (text (driver.hex (id_of found)))
    println (text (codes "\nResult Object\n"))
    println (contact result)
    println (text (codes "\nQuery\n"))
    println (query (by_id (id_of found)))
    println (text (codes "\nUpdate Params\n"))
    println (change (push_contact result))
    err2 ← call (driver.update (codes "User") (by_id (id_of found)) (push_contact result))
    this_panic err2
    (err3, again) ← find_jrock (λ q v. driver.one_user (codes "User") q whole v)
    this_panic err3
    println (text (codes "\nContacts of JRock\n"))
    c ← index (contacts_of again) i
    println (contact c)

  -- What main does once it is connected.
  unfoldable pub main_connected : Act D Unit
  unfolding drop_old insert_user insert_contact find_contact add_contact println this_panic
  main_connected = do
    set_mode
    drop_old
    indexed ← call (driver.ensure_index (codes "User") named_index)
    this_panic indexed
    insert_user (codes "Ale") (codes "+922") (codes "abc@gmail.com")
    insert_user (codes "Jrock") (codes "+911") (codes "jcl@gmail.com")
    insert_contact (codes "Ale") (codes "+922") (codes "abc@gmail.com")
    (err, ale) ← find_contact (codes "Ale")
    this_panic err
    println (text (codes "\n"))
    println (contact ale)
    println (text (codes "\n"))
    add_contact 0 ale
    insert_contact (codes "Eclo") (codes "+306") (codes "eclo@gmail.com")
    (unread, eclo) ← find_contact (codes "Eclo")
    add_contact 1 eclo

  -- A deferred call of session.Close: it runs behind a panic too.
  unfoldable pub closing : Run D Unit → Run D Unit
  closing (got a w) = got a (record w { store = driver.close w.store })
  closing (panics p w) = panics p (record w { store = driver.close w.store })

  -- main's own `err` is nil when it is tested.
  unfoldable pub main : Act D Unit
  unfolding connect_to_db main_connected closing this_panic
  main w = then_run ((connect_to_db >> this_panic none) w) (λ a v. closing (main_connected v))
