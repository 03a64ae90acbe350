-- ===== src/SlashChat/Util/Laws.antt =====
-- What the functions of util.go touch.
use cmpt436chat_client.Prelude.{
  ℕ, ◌≡◌, refl, ap, ◌∙◌, Bool, false, not, ◌&&◌, List, [], ◌∷◌, ◌++◌, append_assoc, append-nil,
  arith, ◌==◌, if◌then◌else◌, count, replicate, is_empty, subst,
}
use cmpt436chat_client.Text.{Text, codes, newline, text_eq}
use cmpt436chat_client.SlashChat.Util.{
  State, Client, Run, running, exited, ◌>>=◌, Properties, fprintln, pass_on, pass_on_all,
  log_action, write_log, open_log, check_for_error,
}

-- What sending leaves alone: who is in the list, in which room, under which name, on what
-- connection.
pub record IsKept (s t : State) : Type 0 where
  pub same_list : t.cur_clients ≡ s.cur_clients
  pub same_rooms : t.rooms ≡ s.rooms
  pub same_next : t.next_client ≡ s.next_client
  pub same_room : (d : ℕ) → (t.clients d).room ≡ (s.clients d).room
  pub same_user : (d : ℕ) → (t.clients d).user ≡ (s.clients d).user
  pub same_conn : (d : ℕ) → (t.clients d).conn_open ≡ (s.clients d).conn_open

-- Whether `d` hears an action of `c`.
unfoldable pub hears : Text → ℕ → ℕ → State → Bool
unfolding text_eq
hears message_type c d s =
    (s.clients d).conn_open
    && not (is_empty (s.clients d).user)
    && not (
        text_eq message_type (codes "message")
        && not (text_eq (s.clients c).room (s.clients d).room))

abbrev pub ended : Text → Text
ended msg = msg ++ newline ∷ []

module _ (message_type p_load : Text) (c : ℕ) where
  pub pass_on-written :
      (d q : ℕ) (s : State)
      → ((pass_on message_type p_load c false d s).clients q).written ≡ (
          if q == d && hears message_type c d s
          then (s.clients q).written ++ ended p_load ∷ []
          else (s.clients q).written)
  unfolding pass_on fprintln hears
  pass_on-written d q s = ground arith

  pub pass_on-IsKept : (d : ℕ) (s : State) → IsKept s (pass_on message_type p_load c false d s)
  unfolding pass_on fprintln
  pass_on-IsKept d s = record {
    same_list = ground arith;
    same_rooms = ground arith;
    same_next = ground arith;
    same_room = λ q. ground arith;
    same_user = λ q. ground arith;
    same_conn = λ q. ground arith;
  }

  pub hears-kept :
      (d : ℕ) (s t : State) → IsKept s t → hears message_type c d t ≡ hears message_type c d s
  unfolding hears
  hears-kept d s t k = rw (k.same_user d, k.same_conn d, k.same_room c, k.same_room d) refl

  told : (xs ys : List Text) → (xs ++ ended p_load ∷ []) ++ ys ≡ xs ++ ended p_load ∷ ys
  told xs ys = append_assoc xs (ended p_load ∷ []) ys

  pub pass_on_all-written :
      (ds : List ℕ) (q : ℕ) (s : State)
      → ((pass_on_all message_type p_load c false ds s).clients q).written ≡ (
          if hears message_type c q s
          then (s.clients q).written ++ replicate (count q ds) (ended p_load)
          else (s.clients q).written)
  unfolding pass_on_all count
  pass_on_all-written [] q s = ground (arith, append-nil (s.clients q).written)
  pass_on_all-written (d ∷ ds) q s =
      let t : State = pass_on message_type p_load c false d s in
      ground (
        arith,
        pass_on_all-written ds q t,
        pass_on-written d q s,
        hears-kept q s t (pass_on-IsKept d s),
        told (s.clients q).written (replicate (count q ds) (ended p_load)),
      )

pub IsKept-refl : (s : State) → IsKept s s
IsKept-refl s = record {
  same_list = refl;
  same_rooms = refl;
  same_next = refl;
  same_room = λ d. refl;
  same_user = λ d. refl;
  same_conn = λ d. refl;
}

pub IsKept-trans : (s t u : State) → IsKept s t → IsKept t u → IsKept s u
IsKept-trans s t u h k = record {
  same_list = k.same_list ∙ h.same_list;
  same_rooms = k.same_rooms ∙ h.same_rooms;
  same_next = k.same_next ∙ h.same_next;
  same_room = λ d. k.same_room d ∙ h.same_room d;
  same_user = λ d. k.same_user d ∙ h.same_user d;
  same_conn = λ d. k.same_conn d ∙ h.same_conn d;
}

pub pass_on_all-IsKept :
    (message_type p_load : Text) (c : ℕ) (ds : List ℕ) (s : State)
    → IsKept s (pass_on_all message_type p_load c false ds s)
unfolding pass_on_all
pass_on_all-IsKept message_type p_load c [] s = IsKept-refl s
pass_on_all-IsKept message_type p_load c (d ∷ ds) s =
    let t : State = pass_on message_type p_load c false d s in
    IsKept-trans s t _ (pass_on-IsKept message_type p_load c d s)
      (pass_on_all-IsKept message_type p_load c ds t)

-- The condition holds if the program goes on.
abbrev pub IfRunning : Run → (State → Type 0) → Type 0
IfRunning (running s) P = P s
IfRunning (exited s) P = Unit

pub IfRunning-bind :
    (o : Run) (f : State → Run) (P Q : State → Type 0)
    → IfRunning o P
    → ((s : State) → P s → IfRunning (f s) Q)
    → IfRunning (o >>= f) Q
IfRunning-bind (running s) f P Q h k = k s h
IfRunning-bind (exited s) f P Q h k = tt

pub IfRunning-eq : (P : State → Type 0) {s : State} (o : Run) → IfRunning o P → o ≡ running s → P s
IfRunning-eq P {s = t} (running s) h e = subst P (cc) h
IfRunning-eq P (exited s) h e = cc

-- The log touches no client and no list.
abbrev pub IsLogged : State → State → Type 0
IsLogged s t =
    (t.clients ≡ s.clients)
    × (t.cur_clients ≡ s.cur_clients)
    × (t.rooms ≡ s.rooms)
    × (t.next_client ≡ s.next_client)

pub log_action-IsLogged :
    (act msg : Text) (c : ℕ) (property : Properties) (s : State)
    → IfRunning (log_action act msg c property s) (IsLogged s)
unfolding log_action write_log open_log check_for_error
log_action-IsLogged act msg c property s = ground arith

pub logged-IsKept : (s t : State) → IsLogged s t → IsKept s t
logged-IsKept s t h = record {
  same_list = h.1;
  same_rooms = h.2;
  same_next = h.3;
  same_room = λ d. ap (λ (f : ℕ → Client). (f d).room) (h.0);
  same_user = λ d. ap (λ (f : ℕ → Client). (f d).user) (h.0);
  same_conn = λ d. ap (λ (f : ℕ → Client). (f d).conn_open) (h.0);
}

pub fprintln-IsKept : (c : ℕ) (msg : Text) (s : State) → IsKept s (fprintln c msg s)
unfolding fprintln
fprintln-IsKept c msg s = record {
  same_list = ground arith;
  same_rooms = ground arith;
  same_next = ground arith;
  same_room = λ q. ground arith;
  same_user = λ q. ground arith;
  same_conn = λ q. ground arith;
}
