-- ===== src/SlashChat/Slots.antt =====
-- The list of rooms of server.go (lines 18 and 110 to 128).
use cmpt436chat_client.Prelude.{
  map, false, ℕ, zero, suc, ◌≡◌, ◌≢◌, refl, ap, ◌∙◌, true, List, [], ◌∷◌, ◌++◌, arith,
  if◌then◌else◌, is_empty, drop,
}
use cmpt436chat_client.Text.{Text, codes, newline, text_eq, replace_all}
use cmpt436chat_client.Text.Laws.{text_eq_iff}
use cmpt436chat_client.SlashChat.Action.{parse_command, trim_space}
use cmpt436chat_client.SlashChat.Codec.{decode}
use cmpt436chat_client.SlashChat.Util.{
  State, Run, running, ◌>>=◌, Properties, fprintln, send_client_message,
}
use cmpt436chat_client.SlashChat.Server.{
  act, enter, set_room, list_room, list_each, first_rooms, mainlobby,
}
use cmpt436chat_client.SlashChat.Registry.{IsWritable, Sound, send-Goes, reached}
use cmpt436chat_client.SlashChat.Client.{watch_for_server_in, server_command}

-- No room is entered twice in a row, counting from one called `x`.
abbrev pub Alternates : Text → List Text → Type 0
Alternates x [] = Unit
Alternates x (r ∷ rs) = (x ≢ r) × Alternates r rs

abbrev pub last_room : Text → List Text → Text
last_room x [] = x
last_room x (r ∷ rs) = last_room r rs

overwritten : (x r : Text) (xs : List Text) → x ≢ r → list_room r (x ∷ xs) ≡ r ∷ xs
unfolding list_room
overwritten x r xs h = ground (arith, text_eq_iff x r)

-- Clients enter rooms one after the other: each has the handler of a line take the action "enter".
unfoldable pub enter_all : List (ℕ × Text) → State → Run
enter_all [] s = running s
enter_all ((c, r) ∷ es) s = do t ← act c (codes "enter") r s; enter_all es t

abbrev pub AllNamed : List (ℕ × Text) → Type 0
AllNamed [] = Unit
AllNamed ((c, r) ∷ es) = (is_empty r ≡ false) × AllNamed es

act-enter : (c : ℕ) (body : Text) (s : State) → act c (codes "enter") body s ≡ enter c body s
unfolding act text_eq
act-enter c body s = refl

act-list : (c : ℕ) (body : Text) (s : State) → act c (codes "list") body s ≡ list_each c s.rooms s
unfolding act text_eq
act-list c body s = refl

enter-named :
    (c : ℕ) (r : Text) (s : State)
    → is_empty r ≡ false
    → enter c r s ≡ (
        send_client_message (codes "enter") r c false (s.clients c).prop (set_room c r s) >>= λ t.
        running (record t { rooms = list_room r t.rooms }))
unfolding enter
enter-named c r s named = rw named refl

-- A room that is entered takes the first slot, whichever room had it.
enter_overwrites :
    (c : ℕ) (r x : Text) (xs : List Text) (s : State)
    → IsWritable s.disk
    → s.rooms ≡ x ∷ xs
    → x ≢ r
    → is_empty r ≡ false
    → (t : State) × (act c (codes "enter") r s ≡ running t) × (t.rooms ≡ r ∷ xs) × IsWritable t.disk
enter_overwrites c r x xs s can had other named =
    let (t, sent, sound) =
      reached (send_client_message (codes "enter") r c false (s.clients c).prop (set_room c r s))
        (Sound (set_room c r s)) (send-Goes (codes "enter") r c false _ (set_room c r s) can) in
    let after = record t { rooms = list_room r t.rooms } in
    (
      after,
      act-enter c r s
          ∙ enter-named c r s named
          ∙ ap (λ o. o >>= λ u. running (record u { rooms = list_room r u.rooms })) sent,
      ap (list_room r) (sound.0.same_rooms ∙ had) ∙ overwritten x r xs other,
      sound.1,
    )

all_overwritten :
    (es : List (ℕ × Text)) (x : Text) (xs : List Text) (s : State)
    → IsWritable s.disk
    → s.rooms ≡ x ∷ xs
    → is_empty x ≡ false
    → AllNamed es
    → Alternates x (map (λ e. e.1) es)
    → (t : State) × (enter_all es s ≡ running t)
      × (t.rooms ≡ last_room x (map (λ e. e.1) es) ∷ xs)
      × (is_empty (last_room x (map (λ e. e.1) es)) ≡ false)
unfolding enter_all
all_overwritten [] x xs s can had first named other = (s, refl, had, first)
all_overwritten ((c, r) ∷ es) x xs s can had first named other =
    let (t, entered, has, can') = enter_overwrites c r x xs s can had other.0 named.0 in
    let (u, through, rooms, taken) = all_overwritten es r xs t can' has named.0 named.1 other.1 in
    (u, rw entered through, rooms, taken)

-- How many slots are taken, and a line sent a number of times.
abbrev slots_taken : List Text → ℕ
slots_taken [] = 0
slots_taken (r ∷ rs) = if is_empty r then slots_taken rs else suc (slots_taken rs)

abbrev lines_sent : ℕ → ℕ → Text → State → State
lines_sent zero c msg s = s
lines_sent (suc n) c msg s = lines_sent n c msg (fprintln c msg s)

list_line :
    (c : ℕ) (r : Text) (props : Properties) (s : State)
    → send_client_message (codes "list") r c true props s ≡ running (fprintln c (codes "/list") s)
unfolding send_client_message
list_line c r props s = refl

list_each_sent :
    (c : ℕ) (rs : List Text) (s : State)
    → list_each c rs s ≡ running (lines_sent (slots_taken rs) c (codes "/list") s)
unfolding list_each
list_each_sent c [] s = refl
list_each_sent c ([] ∷ rs) s = list_each_sent c rs s
list_each_sent c ((d ∷ r) ∷ rs) s =
    ap (λ o. o >>= list_each c rs) (list_line c (d ∷ r) (s.clients c).prop s)
    ∙ list_each_sent c rs (fprintln c (codes "/list") s)

list_ignored :
    (me : Text) (props : Properties) → watch_for_server_in me props (codes "/list\n") ≡ []
unfolding watch_for_server_in trim_space parse_command decode server_command text_eq replace_all
list_ignored me props = refl

-- If the first slot is taken and no other, one line is sent.
one_line :
    (c : ℕ) (r : Text) (s : State)
    → is_empty r ≡ false
    → list_each c (r ∷ drop 1 first_rooms) s ≡ running (fprintln c (codes "/list") s)
one_line c [] s named = ground (arith, named)
one_line c (d ∷ r) s named = list_each_sent c ((d ∷ r) ∷ drop 1 first_rooms) s

-- From a state whose list of rooms is the one that the server starts with, and whose log file can
-- be written, clients enter rooms with non-empty names in any order, the first of them not the
-- lobby and none twice in a row. The server goes on, and then its list of rooms holds the last of
-- them and nothing else: each took the place of the one before, and the first that of the lobby. A
-- client that then asks for the list is answered with the one line "/list", without a room's name,
-- and a client shows nothing of such a line.
pub list_after_rooms :
    (es : List (ℕ × Text)) (c : ℕ) (body : Text) (s : State) (me : Text) (props : Properties)
    → IsWritable s.disk
    → s.rooms ≡ first_rooms
    → AllNamed es
    → Alternates mainlobby (map (λ e. e.1) es)
    → (t : State) × (enter_all es s ≡ running t)
      × (t.rooms ≡ last_room mainlobby (map (λ e. e.1) es) ∷ drop 1 first_rooms)
      × (act c (codes "list") body t ≡ running (fprintln c (codes "/list") t))
      × (watch_for_server_in me props (codes "/list" ++ newline ∷ []) ≡ [])
list_after_rooms es c body s me props can had named other =
    let (t, through, rooms, taken) =
      all_overwritten es mainlobby (drop 1 first_rooms) s can had refl named other in
    (
      t,
      through,
      rooms,
      act-list c body t
          ∙ ap (λ xs. list_each c xs t) rooms
          ∙ one_line c (last_room mainlobby (map (λ e. e.1) es)) t taken,
      list_ignored me props,
    )
