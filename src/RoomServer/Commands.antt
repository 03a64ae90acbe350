-- ===== src/RoomServer/Commands.antt =====
-- From the line that a client types to what the lobby does.
use mathlib.Core.List.{reverse-append, reverse-cons}
use cmpt436chat_client.Prelude.{
  ℕ, ◌<◌, false, List, [], ◌∷◌, ◌++◌, reverse, ◌==◌, if◌then◌else◌, ◌≡◌, refl, arith, ◌≢◌, count,
  ◌∙◌, ap, sym, Bool-cases, inl, inr,
}
use cmpt436chat_client.Text.{Text, codes, newline, has_prefix}
use cmpt436chat_client.Text.Laws.{trim_suffix-append, trim_suffix_plain}
use cmpt436chat_client.Goroutine.{done}
use cmpt436chat_client.RoomServer.Types.{
  Server, new_msg, comm_createroom, comm_enterroom, comm_changename,
}
use cmpt436chat_client.RoomServer.Lobby.{
  parse_msg, argument, create_c_room, enter_c_room, change_username,
}
use cmpt436chat_client.RoomServer.Events.{line, step, chomp}

-- What a client types in a line: a text and the line break.
abbrev pub typed : Text → Text
typed txt = txt ++ newline ∷ []

-- A text that does not end in a line break.
abbrev pub IsPlain : Text → Type 0
IsPlain s = has_prefix (reverse s) (newline ∷ []) ≡ false

chomp-typed : (txt : Text) → chomp (typed txt) ≡ txt
unfolding chomp
chomp-typed txt = trim_suffix-append txt (newline ∷ [])

step_line :
    (order : List Text → List Text) (c t : ℕ) (txt : Text) (w : Server)
    → step order (line c t txt) w ≡ (
        if count c w.state.relayed == 0
        then done w
        else parse_msg order (new_msg t c (chomp txt)) w)
unfolding step
step_line order c t txt w = refl

served : (c : ℕ) (w : Server) → 0 < count c w.state.relayed → (count c w.state.relayed == 0) ≡ false
served c w h = ground arith

line_parsed :
    (order : List Text → List Text) (c t : ℕ) (txt : Text) (w : Server)
    → 0 < count c w.state.relayed
    → step order (line c t (typed txt)) w ≡ parse_msg order (new_msg t c txt) w
line_parsed order c t txt w h =
    step_line order c t (typed txt) w ∙ rw (served c w h, chomp-typed txt)

parse_named :
    (order : List Text → List Text) (c t : ℕ) (name : Text) (w : Server)
    → IsPlain name
    → (parse_msg order (new_msg t c (comm_createroom ++ codes " " ++ name)) w
        ≡ create_c_room c name w)
      × (parse_msg order (new_msg t c (comm_enterroom ++ codes " " ++ name)) w
          ≡ enter_c_room c name w)
      × (parse_msg order (new_msg t c (comm_changename ++ codes " " ++ name)) w
          ≡ change_username c name w)
unfolding parse_msg new_msg has_prefix argument
parse_named order c t name w p = (
  ap (λ n. create_c_room c n w) (trim_suffix_plain name p),
  ap (λ n. enter_c_room c n w) (trim_suffix_plain name p),
  ap (λ n. change_username c n w) (trim_suffix_plain name p),
)

-- A client whose lines are relayed and who types "!create N", "!enter N" or "!name N", for a text N
-- that does not end in a line break, creates the room N, enters the room N or changes its name to
-- N.
pub line_named :
    (order : List Text → List Text) (c t : ℕ) (name : Text) (w : Server)
    → 0 < count c w.state.relayed
    → IsPlain name
    → (step order (line c t (typed (comm_createroom ++ codes " " ++ name))) w
        ≡ create_c_room c name w)
      × (step order (line c t (typed (comm_enterroom ++ codes " " ++ name))) w
          ≡ enter_c_room c name w)
      × (step order (line c t (typed (comm_changename ++ codes " " ++ name))) w
          ≡ change_username c name w)
line_named order c t name w h p =
    let (create, enter, rename) = parse_named order c t name w p in
    (
      line_parsed order c t (comm_createroom ++ codes " " ++ name) w h ∙ create,
      line_parsed order c t (comm_enterroom ++ codes " " ++ name) w h ∙ enter,
      line_parsed order c t (comm_changename ++ codes " " ++ name) w h ∙ rename,
    )

blank_prefix : (d : ℕ) → d ≢ b' ' → (d == b' ') ≡ false
blank_prefix d h = ground arith

tail-IsPlain :
    (xs ys : Text) (d : ℕ)
    → has_prefix ((xs ++ d ∷ []) ++ ys) (newline ∷ []) ≡ has_prefix (xs ++ d ∷ []) (newline ∷ [])
unfolding has_prefix
tail-IsPlain [] ys d = refl
tail-IsPlain (x ∷ xs) ys d = refl

-- A longer text ends as its tail does.
append-IsPlain :
    (command : Text) (d : ℕ) (name : Text) → IsPlain (d ∷ name) → IsPlain (command ++ d ∷ name)
append-IsPlain command d name p =
    rw
      (
        reverse-append command (d ∷ name),
        reverse-cons d name,
        tail-IsPlain (reverse name) (reverse command) d,
      )
      (rw reverse-cons at p)

module _ (d : ℕ) (name : Text) (ne : (d == b' ') ≡ false) (p : IsPlain (d ∷ name)) where
  argument_unspaced :
      (argument (comm_createroom ++ d ∷ name) comm_createroom ≡ comm_createroom ++ d ∷ name)
      × (argument (comm_enterroom ++ d ∷ name) comm_enterroom ≡ comm_enterroom ++ d ∷ name)
      × (argument (comm_changename ++ d ∷ name) comm_changename ≡ comm_changename ++ d ∷ name)
  unfolding argument has_prefix
  argument_unspaced = (
    rw ne (trim_suffix_plain _ (append-IsPlain comm_createroom d name p)),
    rw ne (trim_suffix_plain _ (append-IsPlain comm_enterroom d name p)),
    rw ne (trim_suffix_plain _ (append-IsPlain comm_changename d name p)),
  )

  parse_unspaced :
      (order : List Text → List Text) (c t : ℕ) (w : Server)
      → (parse_msg order (new_msg t c (comm_createroom ++ d ∷ name)) w
          ≡ create_c_room c (comm_createroom ++ d ∷ name) w)
        × (parse_msg order (new_msg t c (comm_enterroom ++ d ∷ name)) w
            ≡ enter_c_room c (comm_enterroom ++ d ∷ name) w)
        × (parse_msg order (new_msg t c (comm_changename ++ d ∷ name)) w
            ≡ change_username c (comm_changename ++ d ∷ name) w)
  unfolding parse_msg new_msg has_prefix
  parse_unspaced order c t w = (
    ap (λ n. create_c_room c n w) argument_unspaced.0,
    ap (λ n. enter_c_room c n w) argument_unspaced.1,
    ap (λ n. change_username c n w) argument_unspaced.2,
  )

-- With no blank behind the command, the whole line, command and all, is taken as the name:
-- "!createX" creates a room "!createX", and "!nameX" changes the client's name to "!nameX".
pub line_unspaced :
    (order : List Text → List Text) (c t d : ℕ) (name : Text) (w : Server)
    → 0 < count c w.state.relayed
    → d ≢ b' '
    → IsPlain (d ∷ name)
    → (step order (line c t (typed (comm_createroom ++ d ∷ name))) w
        ≡ create_c_room c (comm_createroom ++ d ∷ name) w)
      × (step order (line c t (typed (comm_enterroom ++ d ∷ name))) w
          ≡ enter_c_room c (comm_enterroom ++ d ∷ name) w)
      × (step order (line c t (typed (comm_changename ++ d ∷ name))) w
          ≡ change_username c (comm_changename ++ d ∷ name) w)
line_unspaced order c t d name w h ne p =
    let (create, enter, rename) = parse_unspaced d name (blank_prefix d ne) p order c t w in
    (
      line_parsed order c t (comm_createroom ++ d ∷ name) w h ∙ create,
      line_parsed order c t (comm_enterroom ++ d ∷ name) w h ∙ enter,
      line_parsed order c t (comm_changename ++ d ∷ name) w h ∙ rename,
    )

tail-IsPlain_rest : (d : ℕ) (name : Text) → IsPlain (d ∷ name) → IsPlain name
tail-IsPlain_rest d name p = rest (reverse name) (rw (sym (reverse-cons d name)) p)
  where
    rest :
        (xs : Text)
        → has_prefix (xs ++ d ∷ []) (newline ∷ []) ≡ false
        → has_prefix xs (newline ∷ []) ≡ false
    rest [] h = unfold has_prefix in refl
    rest (x ∷ xs) h = unfold has_prefix in h

-- A client whose lines are relayed types "!create", "!enter" or "!name" and behind it a text, of at
-- least one byte, that does not end in a line break. If that text begins with a blank, what follows
-- the blank is the name of the room to create, of the room to enter, or the client's new name. If
-- it does not, the whole line, command and all, is taken as the name: "!createX" creates a room
-- "!createX".
pub line_taken :
    (order : List Text → List Text) (c t d : ℕ) (rest : Text) (w : Server)
    → 0 < count c w.state.relayed
    → IsPlain (d ∷ rest)
    → (step order (line c t (typed (comm_createroom ++ d ∷ rest))) w
        ≡ create_c_room c (if d == b' ' then rest else comm_createroom ++ d ∷ rest) w)
      × (step order (line c t (typed (comm_enterroom ++ d ∷ rest))) w
          ≡ enter_c_room c (if d == b' ' then rest else comm_enterroom ++ d ∷ rest) w)
      × (step order (line c t (typed (comm_changename ++ d ∷ rest))) w
          ≡ change_username c (if d == b' ' then rest else comm_changename ++ d ∷ rest) w)
line_taken order c t d rest w h p = elim (Bool-cases (d == b' ')) [
  | inl e ↦
      let blank : d ≡ b' ' = ground (arith, e) in
      rw blank (line_named order c t rest w h (tail-IsPlain_rest d rest p))
  | inr e ↦ rw e (line_unspaced order c t d rest w h (λ same. ground (arith, e, same)) p)
]
