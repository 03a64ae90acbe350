-- ===== src/SlashChat/Registry.antt =====
-- The list of clients through every history of the slash protocol's server, which goes on as long
-- as its log can be written.
use cmpt436chat_client.Prelude.{
  Option, none, some, ℕ, ◌≤◌, ◌<◌, ◌≡◌, refl, ◌∙◌, Bool, true, false, List, [], ◌∷◌, arith,
  if◌then◌else◌, count, is_empty, ◌||◌, remove_first, count-remove_first, count-append,
  count-single,
}
use cmpt436chat_client.Text.{Text, codes, sprintf}
use cmpt436chat_client.SlashChat.Util.{
  State, Run, running, exited, ◌>>=◌, Properties, Disk, fprintln, log_action, payload, tell,
  pass_on_all, pass_on, send_client_message, open_log, write_log, check_for_error, close,
  close_connection, drop_entry, remove_entry, entry_index, copied, suc_index, register, set_client,
}
use cmpt436chat_client.SlashChat.Util.Laws.{
  IsKept, IsKept-refl, IsKept-trans, pass_on_all-IsKept, IsLogged, logged-IsKept, fprintln-IsKept,
}
use cmpt436chat_client.SlashChat.Server.{
  Event, accept, line, eof, step, run, act, handle_user_input, enter, leave, name_user, list_each,
  list_room, accepted, new_client, set_room,
}

-- removeEntry, which searches an index and copies the parts before and behind it, takes the first
-- occurrence out.
copied-suc : (x : ℕ) (xs : List ℕ) (o : Option ℕ) → copied (x ∷ xs) (suc_index o) ≡ x ∷ copied xs o
copied-suc x xs none = refl
copied-suc x xs (some i) = refl

remove_entry-remove_first : (c : ℕ) (xs : List ℕ) → remove_entry c xs ≡ remove_first c xs
unfolding remove_entry remove_first entry_index
remove_entry-remove_first c [] = refl
remove_entry-remove_first c (x ∷ xs) =
    ground (arith, remove_entry-remove_first c xs, copied-suc x xs (entry_index c xs))

-- The log file can be written, after creating it if need be.
abbrev pub IsWritable : Disk → Type 0
IsWritable d = ((d.opens || d.creates) ≡ true) × (d.writes ≡ true)

-- Every client is in the list at most once, and only while its connection is open.
pub record Inv (s : State) : Type 0 where
  pub writable : IsWritable s.disk
  pub unique : (c : ℕ) → count c s.cur_clients ≤ 1
  pub known : (c : ℕ) → 0 < count c s.cur_clients → c < s.next_client
  pub connected : (c : ℕ) → 0 < count c s.cur_clients → (s.clients c).conn_open ≡ true

-- The program goes on, and the condition holds.
abbrev pub Goes : Run → (State → Type 0) → Type 0
Goes (running s) P = P s
Goes (exited s) P = ⊥

Goes-bind :
    (o : Run) (f : State → Run) (P Q : State → Type 0)
    → Goes o P
    → ((s : State) → P s → Goes (f s) Q)
    → Goes (o >>= f) Q
Goes-bind (running s) f P Q h k = k s h
Goes-bind (exited s) f P Q h k = elim h [ ]

Goes-map : (o : Run) (P Q : State → Type 0) → Goes o P → ((s : State) → P s → Q s) → Goes o Q
Goes-map (running s) P Q h k = k s h
Goes-map (exited s) P Q h k = h

Goes-if :
    (b : Bool) (o p : Run) (P : State → Type 0) → Goes o P → Goes p P → Goes (if b then o else p) P
Goes-if true o p P h k = h
Goes-if false o p P h k = k

abbrev pub Sound : State → State → Type 0
Sound s t = IsKept s t × IsWritable t.disk

log_action-Goes :
    (action msg : Text) (c : ℕ) (property : Properties) (s : State)
    → IsWritable s.disk
    → Goes (log_action action msg c property s) (λ t. IsLogged s t × IsWritable t.disk)
unfolding log_action write_log open_log check_for_error
log_action-Goes action msg c property s h = ground arith

pass_on_all_disk :
    (message_type p_load : Text) (c : ℕ) (only : Bool) (ds : List ℕ) (s : State)
    → (pass_on_all message_type p_load c only ds s).disk ≡ s.disk
unfolding pass_on_all pass_on fprintln
pass_on_all_disk message_type p_load c only [] s = refl
pass_on_all_disk message_type p_load c only (d ∷ ds) s =
    pass_on_all_disk message_type p_load c only ds (pass_on message_type p_load c only d s)
    ∙ ground arith

fprintln_disk : (c : ℕ) (msg : Text) (s : State) → (fprintln c msg s).disk ≡ s.disk
unfolding fprintln
fprintln_disk c msg s = ground arith

tell-Goes :
    (message_type message : Text) (c : ℕ) (props : Properties) (s : State)
    → IsWritable s.disk
    → Goes (tell message_type message c false props s) (Sound s)
unfolding tell
tell-Goes message_type message c props s h =
    Goes-bind (log_action message_type message c props s) _ (λ t. IsLogged s t × IsWritable t.disk)
      (Sound s) (log_action-Goes message_type message c props s h)
      λ t k.
        let p = payload message_type (t.clients c).user message in
        (
          IsKept-trans s t _ (logged-IsKept s t (k.0))
              (pass_on_all-IsKept message_type p c t.cur_clients t),
          rw (pass_on_all_disk message_type p c false t.cur_clients t) (k.1),
        )

pub send-Goes :
    (message_type message : Text) (c : ℕ) (only : Bool) (props : Properties) (s : State)
    → IsWritable s.disk
    → Goes (send_client_message message_type message c only props s) (Sound s)
unfolding send_client_message
send-Goes message_type message c true props s h =
    let line = sprintf (codes "/%v") (message_type ∷ []) in
    (fprintln-IsKept c line s, rw (fprintln_disk c line s) h)
send-Goes message_type message c false props s h =
    Goes-if _ (tell message_type message c false props s) (running s) (Sound s)
      (tell-Goes message_type message c props s h) (IsKept-refl s, h)

kept-Inv : (s t : State) → Inv s → Sound s t → Inv t
kept-Inv s t i k = record {
  writable = k.1;
  unique = λ c. rw k.0.same_list (i.unique c);
  known = λ c. rw (k.0.same_list, k.0.same_next) (i.known c);
  connected = λ c. rw (k.0.same_list, k.0.same_conn c) (i.connected c);
}

send-Inv :
    (message_type message : Text) (c : ℕ) (only : Bool) (props : Properties) (s : State)
    → Inv s
    → Goes (send_client_message message_type message c only props s) Inv
send-Inv message_type message c only props s i =
    Goes-map (send_client_message message_type message c only props s) (Sound s) Inv
      (send-Goes message_type message c only props s i.writable) (λ t. kept-Inv s t i)

-- A change of a client's room or name.
room-Inv : (c : ℕ) (room : Text) (s : State) → Inv s → Inv (set_room c room s)
room-Inv c room s i = record {
  writable = i.writable;
  unique = i.unique;
  known = i.known;
  connected = λ d h. ground (arith, i.connected d h);
}

user-Inv :
    (c : ℕ) (user : Text) (s : State)
    → Inv s
    → Inv (set_client c (record (s.clients c) { user = user }) s)
user-Inv c user s i = record {
  writable = i.writable;
  unique = i.unique;
  known = i.known;
  connected = λ d h. ground (arith, i.connected d h);
}

rooms-Inv : (rooms : List Text) (s : State) → Inv s → Inv (record s { rooms = rooms })
rooms-Inv rooms s i = record {
  writable = i.writable;
  unique = i.unique;
  known = i.known;
  connected = i.connected;
}

closed-Inv : (c : ℕ) (s : State) → Inv s → Inv (drop_entry c (close_connection c s))
unfolding drop_entry close_connection
closed-Inv c s i = record {
  writable = i.writable;
  unique = λ d. ground (
    arith,
    i.unique d,
    count-remove_first d c s.cur_clients,
    remove_entry-remove_first c s.cur_clients,
  );
  known = λ d h. ground (
    arith,
    i.known d,
    count-remove_first d c s.cur_clients,
    remove_entry-remove_first c s.cur_clients,
  );
  connected = λ d h. ground (
    arith,
    i.connected d,
    i.unique d,
    count-remove_first d c s.cur_clients,
    remove_entry-remove_first c s.cur_clients,
  );
}

close-Inv : (c : ℕ) (send_message : Bool) (s : State) → Inv s → Goes (close c send_message s) Inv
unfolding close
close-Inv c send_message s i =
    Goes-bind _ _ Inv Inv
      (Goes-if send_message _ (running s) Inv (send-Inv (codes "disconnected") [] c false _ s i) i)
      (closed-Inv c)

list_each-Inv : (c : ℕ) (rs : List Text) (s : State) → Inv s → Goes (list_each c rs s) Inv
unfolding list_each
list_each-Inv c [] s i = i
list_each-Inv c (r ∷ rs) s i =
    Goes-bind _ (list_each c rs) Inv Inv
      (Goes-if (is_empty r) (running s) _ Inv i (send-Inv (codes "list") r c true _ s i))
      (list_each-Inv c rs)

enter-Inv : (c : ℕ) (body : Text) (s : State) → Inv s → Goes (enter c body s) Inv
unfolding enter
enter-Inv c body s i = Goes-if (is_empty body) (running s) _ Inv i (
    Goes-bind _ _ Inv Inv (send-Inv (codes "enter") body c false _ _ (room-Inv c body s i))
      (λ t k. rooms-Inv (list_room body t.rooms) t k))

leave-Inv : (c : ℕ) (s : State) → Inv s → Goes (leave c s) Inv
unfolding leave
leave-Inv c s i =
    Goes-if _ (running s) _ Inv i
      (Goes-bind _ _ Inv Inv (send-Inv (codes "leave") _ c false _ s i) (λ t k. room-Inv c _ t k))

-- The same as a data type, which a test cannot hide.
data Going (o : Run) : Type 0 where
  going : Goes o Inv → Going o

goes : (o : Run) → Going o → Goes o Inv
goes o (going h) = h

Going-if : (b : Bool) (o p : Run) → Going o → Going p → Going (if b then o else p)
Going-if true o p h k = h
Going-if false o p h k = k

act-Inv : (c : ℕ) (cur_action body : Text) (s : State) → Inv s → Goes (act c cur_action body s) Inv
unfolding act name_user
act-Inv c cur_action body s i =
    let props = (s.clients c).prop in
    goes (act c cur_action body s) (
      Going-if _ (running s) _ (going i) (
        Going-if _ _ _ (going (send-Inv (codes "message") body c false props s i)) (
          Going-if _ _ _
            (going (send-Inv (codes "connect") [] c false props _ (user-Inv c body s i)))
            (Going-if _ _ _ (going (close-Inv c false s i)) (
              Going-if _ _ _ (going (enter-Inv c body s i)) (
                Going-if _ _ _ (going (list_each-Inv c s.rooms s i)) (
                  Going-if _ _ _ (going (leave-Inv c s i))
                    (going (send-Inv (codes "unrecognized") cur_action c true props s i)))))))))

handle-Inv :
    (c : ℕ) (cur_message : Text) (s : State) → Inv s → Goes (handle_user_input c cur_message s) Inv
unfolding handle_user_input
handle-Inv c cur_message s i = Goes-if _ (running s) _ Inv i (act-Inv c _ _ s i)

accepted-Inv : (addr : Text) (s : State) → Inv s → Inv (accepted addr s)
unfolding accepted register new_client
accepted-Inv addr s i = record {
  writable = i.writable;
  unique = λ d. ground (
    arith,
    i.unique d,
    i.known d,
    count-append d s.cur_clients (s.next_client ∷ []),
    count-single d s.next_client,
  );
  known = λ d h. ground (
    arith,
    i.known d,
    count-append d s.cur_clients (s.next_client ∷ []),
    count-single d s.next_client,
  );
  connected = λ d h. ground (
    arith,
    i.connected d,
    i.known d,
    count-append d s.cur_clients (s.next_client ∷ []),
    count-single d s.next_client,
  );
}

step-Inv : (e : Event) (s : State) → Inv s → Goes (step e s) Inv
unfolding step
step-Inv (accept addr) s i = send-Inv (codes "ready") _ _ true _ _ (accepted-Inv addr s i)
step-Inv (line c txt) s i = Goes-if _ _ (running s) Inv (handle-Inv c txt s i) i
step-Inv (eof c) s i = Goes-if _ _ (running s) Inv (close-Inv c true s i) i

run-Inv : (es : List Event) (s : State) → Inv s → Goes (run es s) Inv
unfolding run
run-Inv [] s i = i
run-Inv (e ∷ es) s i = Goes-bind (step e s) (run es) Inv Inv (step-Inv e s i) (run-Inv es)

pub reached : (o : Run) (P : State → Type 0) → Goes o P → (t : State) × (o ≡ running t) × P t
reached (running s) P h = (s, refl, h)
reached (exited s) P h = elim h [ ]

-- From a state whose log file can be written, in which every client is in the list of clients at
-- most once and only with an open connection, every history of connections, lines and ends of input
-- runs to a state of that kind: the program does not exit, and whoever has left is in the list no
-- longer.
pub run_lasts : (es : List Event) (s : State) → Inv s → (t : State) × (run es s ≡ running t) × Inv t
run_lasts es s i = reached (run es s) Inv (run-Inv es s i)
