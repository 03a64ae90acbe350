-- ===== src/ConnectToDb/Errors.antt =====
-- Which errors of the store main/testConnections.go notices.
use cmpt436chat_client.Prelude.{
  ap, fun_ext, subst, sym, ℕ, Bool, true, false, Option, none, if◌then◌else◌, ◌≡◌, refl, [],
}
use cmpt436chat_client.Text.{Text, codes, text_eq}
use cmpt436chat_client.ConnectToDb.Types.{
  Fields, push_contact, id_of, user, nil, Contact, User, Query, by_name, by_id, Driver, Error,
  contact, contacts_of, whole, id_only,
}
use cmpt436chat_client.ConnectToDb.Program.{
  World, Run, got, panics, error, out_of_range, Act, ◌>>=◌, ◌>>◌, then_run, call, this_panic,
}
use cmpt436chat_client.ConnectToDb.Connections.{
  named_index, no_contact, no_user, connect_to_db, drop_old, insert_user, insert_contact,
  find_contact, find_jrock, add_contact, main_connected, closing, main,
}
use cmpt436chat_client.ConnectToDb.Quiet.{
  Ends, Quiet, Quiet-bind, Quiet-call, Quiet-answer, Quiet-this_panic, Quiet-println, Quiet-say,
  Quiet-check, Quiet-index, Quiet-tested, Quiet-last,
}

abbrev pub is_eclo : Query → Bool
is_eclo (by_name name) = text_eq name (codes "Eclo")
is_eclo (by_id id) = false

-- The same driver, but that a lookup of the contact "Eclo" reports no error.
unfoldable pub unheard : {D : Type 0} → Driver D → Driver D
unfolding text_eq
unheard driver = record driver {
  one_contact = λ c q v d.
      let (err, result, d') = driver.one_contact c q v d in
      (if is_eclo q then none else err, result, d');
}

-- No call reports an error.
pub record NeverFails {D : Type 0} (driver : Driver D) : Type 0 where
  pub dial : (host : Text) (d : D) → (driver.dial host d).0 ≡ none
  pub drop_database : (name : Text) (d : D) → (driver.drop_database name d).0 ≡ none
  pub ensure_index : (c : Text) (i : _) (d : D) → (driver.ensure_index c i d).0 ≡ none
  pub insert_user : (c : Text) (u : User) (d : D) → (driver.insert_user c u d).0 ≡ none
  pub insert_contact : (c : Text) (x : Contact) (d : D) → (driver.insert_contact c x d).0 ≡ none
  pub one_contact :
      (c : Text) (q : Query) (v : Contact) (d : D) → (driver.one_contact c q v d).0 ≡ none
  pub one_user :
      (c : Text) (q : Query) (f : _) (v : User) (d : D) → (driver.one_user c q f v d).0 ≡ none
  pub update : (c : Text) (q : Query) (x : _) (d : D) → (driver.update c q x d).0 ≡ none

module _ {D : Type 0} where
  module _ (driver : Driver D) (h : NeverFails (unheard driver)) where
    Quiet-insert_user : (name phone email : Text) → Quiet (insert_user driver name phone email)
    unfolding insert_user unheard
    Quiet-insert_user name phone email = Quiet-bind (Quiet-call driver.now) (λ t.
        let u = user [] name phone email true nil [] t in
        Quiet-last (driver.insert_user (codes "User") u) (h.insert_user (codes "User") u))

    Quiet-insert_contact :
        (name phone email : Text) → Quiet (insert_contact driver name phone email)
    unfolding insert_contact unheard
    Quiet-insert_contact name phone email = Quiet-bind (Quiet-call driver.now) (λ t.
        Quiet-last (driver.insert_contact (codes "Contact") _)
          (h.insert_contact (codes "Contact") _))

    Quiet-find_jrock :
        {B : Type 0} (fields : Fields) (k : Option Error × User → Act D B)
        → ((found : User) → Quiet (k (none, found)))
        → Quiet (find_jrock driver (λ q v. driver.one_user (codes "User") q fields v) >>= k)
    unfolding find_jrock unheard
    Quiet-find_jrock fields k q =
        Quiet-answer (λ p. p.0 ≡ none) _ k
          (h.one_user (codes "User") (by_name (codes "Jrock")) fields no_user)
          (λ p e. subst (λ err. Quiet (k (err, p.1))) (sym e) (q p.1))

    Quiet-add_contact : (i : ℕ) (result : Contact) → Quiet (add_contact driver i result)
    unfolding add_contact unheard
    Quiet-add_contact i result = Quiet-find_jrock id_only _ (λ found. Quiet-say _ (
        Quiet-check none refl (
          Quiet-say _ (
            Quiet-say _ (
              Quiet-say _ (
                Quiet-say _ (
                  Quiet-say _ (
                    Quiet-say _ (
                      Quiet-say _ (
                        Quiet-say _ (
                          Quiet-tested
                            (driver.update (codes "User") (by_id (id_of found))
                              (push_contact result))
                            _ (h.update _ _ _)
                            (Quiet-find_jrock whole _ (λ again. Quiet-check none refl (
                              Quiet-say _ (
                                Quiet-bind (Quiet-index (contacts_of again) i)
                                  (λ c. Quiet-println (contact c)))))))))))))))))

    Quiet-drop_old : Quiet (drop_old driver)
    unfolding drop_old unheard
    Quiet-drop_old = record {
      ending = λ w.
          (Quiet-last (driver.drop_database (codes "test")) (h.drop_database (codes "test"))).ending
            w;
    }

    -- The one lookup whose error counts.
    Quiet-find_ale :
        {B : Type 0} (k : Option Error × Contact → Act D B)
        → ((ale : Contact) → Quiet (k (none, ale)))
        → Quiet (find_contact driver (codes "Ale") >>= k)
    unfolding find_contact unheard text_eq
    Quiet-find_ale k q =
        Quiet-answer (λ p. p.0 ≡ none) _ k
          (h.one_contact (codes "Contact") (by_name (codes "Ale")) no_contact)
          (λ p e. subst (λ err. Quiet (k (err, p.1))) (sym e) (q p.1))

    Quiet-find_contact : (name : Text) → Quiet (find_contact driver name)
    unfolding find_contact
    Quiet-find_contact name = Quiet-call _

    Quiet-main_connected : Quiet (main_connected driver)
    unfolding main_connected unheard
    Quiet-main_connected = Quiet-bind (Quiet-call _) (λ a. Quiet-bind Quiet-drop_old (λ a.
        Quiet-tested (driver.ensure_index (codes "User") named_index) _ (h.ensure_index _ _) (
          Quiet-bind (Quiet-insert_user _ _ _) (λ a. Quiet-bind (Quiet-insert_user _ _ _) (λ a.
            Quiet-bind (Quiet-insert_contact _ _ _) (λ a. Quiet-find_ale _ (λ ale.
              Quiet-check none refl (
                Quiet-say _ (
                  Quiet-say _ (
                    Quiet-say _ (
                      Quiet-bind (Quiet-add_contact 0 ale) (λ a.
                        Quiet-bind (Quiet-insert_contact _ _ _) (λ a.
                          Quiet-bind (Quiet-find_contact (codes "Eclo"))
                            (λ p. Quiet-add_contact 1 p.1))))))))))))))

    closing-Ends : (r : Run D Unit) → Ends r → Ends (closing driver r)
    unfolding closing
    closing-Ends (got a v) p = tt
    closing-Ends (panics (error err) v) p = absurd p
    closing-Ends (panics (out_of_range i n) v) p = p

    connect-Quiet : Quiet (connect_to_db driver >> this_panic none)
    unfolding connect_to_db unheard
    connect-Quiet =
        Quiet-bind (Quiet-last (driver.dial (codes "127.0.0.1")) (h.dial (codes "127.0.0.1")))
          (λ a. Quiet-this_panic none refl)

    main-Ends : (w : World D) → Ends (main driver w)
    unfolding main
    main-Ends w = after _ (connect-Quiet.ending w)
      where
        after :
            (r : Run D Unit)
            → Ends r
            → Ends (then_run r (λ a v. closing driver (main_connected driver v)))
        after (got a v) p = closing-Ends (main_connected driver v) (Quiet-main_connected.ending v)
        after (panics (error err) v) p = absurd p
        after (panics (out_of_range i n) v) p = p

same_connected :
    {D : Type 0} (driver : Driver D) (w : World D)
    → main_connected driver w ≡ main_connected (unheard driver) w
unfolding main_connected unheard text_eq drop_old insert_user insert_contact find_contact find_jrock
    add_contact call
same_connected driver w = refl

-- The program does not notice an error of looking up the contact "Eclo": with any driver it does
-- what it would do if that lookup reported no error.
pub lost_error :
    {D : Type 0} (driver : Driver D) (w : World D) → main driver w ≡ main (unheard driver) w
unfolding main unheard connect_to_db
lost_error driver w =
    ap (λ f. then_run ((connect_to_db driver >> this_panic none) w) (λ a v. closing driver (f v)))
      (fun_ext (same_connected driver))

-- If no call of the driver reports an error, but for looking up the contact "Eclo", which may, then
-- the program gets to its end or stops at an index that is not below the length of its slice; it
-- does not panic with an error.
pub main_ends :
    {D : Type 0} (driver : Driver D) (w : World D)
    → NeverFails (unheard driver)
    → Ends (main driver w)
main_ends driver w h = main-Ends driver h w
