-- ===== src/SlashChat/Action.antt =====
-- The parsers of commands: strings.TrimSpace and the regular expressions of server.go and
-- client.go.
pub mod Laws
use cmpt436chat_client.Prelude.{
  ℕ, zero, suc, ◌+◌, ◌-◌, Bool, true, false, not, ◌&&◌, ◌||◌, List, [], ◌∷◌, ◌++◌, reverse, ◌==◌,
  leb, if◌then◌else◌, length, drop, is_empty,
}
use cmpt436chat_client.Text.{Text, codes, newline}
use cmpt436chat_client.SlashChat.Codec.{decode}

-- What the class \s of package regexp holds.
unfoldable pub is_blank : ℕ → Bool
is_blank c = c == 9 || c == 10 || c == 12 || c == 13 || c == b' '

-- The white space of strings.TrimSpace, that of Unicode, in UTF-8: of one byte, of two, of three.
unfoldable pub is_space1 : ℕ → Bool
unfolding is_blank
is_space1 a = is_blank a || a == 11

unfoldable pub is_space2 : ℕ → ℕ → Bool
is_space2 a b = a == 194 && (b == 133 || b == 160)

unfoldable pub is_space3 : ℕ → ℕ → ℕ → Bool
is_space3 a b c =
    (a == 225 && b == 154 && c == 128)
    || (a == 226 && b == 128 && ((leb 128 c && leb c 138) || c == 168 || c == 169 || c == 175))
    || (a == 226 && b == 129 && c == 159)
    || (a == 227 && b == 128 && c == 128)

-- How many bytes the white space at the head of a text takes; 0 where there is none.
unfoldable pub space_len : Text → ℕ
unfolding is_space1 is_space2 is_space3
space_len [] = 0
space_len (a ∷ []) = if is_space1 a then 1 else 0
space_len (a ∷ b ∷ []) = if is_space1 a then 1 else if is_space2 a b then 2 else 0
space_len (a ∷ b ∷ c ∷ s) =
    if is_space1 a then 1 else if is_space2 a b then 2 else if is_space3 a b c then 3 else 0

-- The same at the end of a text that is given from its last byte on.
unfoldable pub space_len_back : Text → ℕ
unfolding is_space1 is_space2 is_space3
space_len_back [] = 0
space_len_back (a ∷ []) = if is_space1 a then 1 else 0
space_len_back (a ∷ b ∷ []) = if is_space1 a then 1 else if is_space2 b a then 2 else 0
space_len_back (a ∷ b ∷ c ∷ s) =
    if is_space1 a then 1 else if is_space2 b a then 2 else if is_space3 c b a then 3 else 0

-- Dropping white space from the head on; the first argument counts the bytes still to be dropped.
unfoldable pub trim_by : (Text → ℕ) → ℕ → Text → Text
trim_by len skip [] = []
trim_by len (suc k) (c ∷ s) = trim_by len k s
trim_by len zero (c ∷ s) =
    let n = len (c ∷ s) in let rest = trim_by len (n - 1) s in if n == 0 then c ∷ s else rest

-- strings.TrimSpace.
unfoldable pub trim_space : Text → Text
unfolding space_len space_len_back trim_by
trim_space s = reverse (trim_by space_len_back 0 (reverse (trim_by space_len 0 s)))

-- The longest head of a text whose bytes pass a test, and what follows it.
unfoldable pub take_while : (ℕ → Bool) → Text → Text
take_while p [] = []
take_while p (c ∷ s) = let rest = take_while p s in if p c then c ∷ rest else []

unfoldable pub drop_while : (ℕ → Bool) → Text → Text
drop_while p [] = []
drop_while p (c ∷ s) = let rest = drop_while p s in if p c then rest else c ∷ s

unfoldable pub contains : ℕ → Text → Bool
contains c [] = false
contains c (d ∷ s) = c == d || contains c s

abbrev pub no_blank : ℕ → Bool
no_blank c = not (is_blank c)

-- The two groups of `^\/([^\s]*)\s*(.*)$`: the dot matches no line break, and giving bytes back to
-- the blanks or to the first group only moves them into the second.
abbrev pub word : Text → Text
word s = take_while no_blank s

abbrev pub body : Text → Text
body s = drop_while is_blank (drop_while no_blank s)

unfoldable pub slash_match : Text → List (Text × Text)
unfolding is_blank take_while drop_while contains
slash_match [] = []
slash_match (c ∷ s) =
    if c == b'/' && not (contains newline (body s)) then (word s, body s) ∷ [] else []

abbrev pub first_match : List (Text × Text) → Text × Text
first_match [] = ([], [])
first_match (m ∷ []) = m
first_match (m ∷ n ∷ ms) = ([], [])

unfoldable pub get_action : Text → Text × Text
unfolding slash_match
get_action message = first_match (slash_match message)

pub record Command : Type 0 where
  pub cmd : Text
  pub user : Text
  pub body : Text

abbrev pub input_command : Text → List (Text × Text) → Command
input_command msg [] = record { cmd = []; user = []; body = decode msg }
input_command msg ((c, b) ∷ []) = record { cmd = c; user = []; body = b }
input_command msg (m ∷ n ∷ ms) = record { cmd = []; user = []; body = decode msg }

unfoldable pub parse_input : Text → Command
unfolding slash_match
parse_input msg = input_command msg (slash_match msg)

-- What `\s?(?:\[([^\]]*)\])?\s*(.*)$` matches behind the first group, in a text with no line break:
-- one blank at most, a user between brackets if a closing bracket follows, and the rest.
abbrev pub drop_blank : Text → Text
drop_blank [] = []
drop_blank (c ∷ s) = if is_blank c then s else c ∷ s

abbrev pub inside : ℕ → Bool
inside d = not (d == b']')

unfoldable pub user_rest : Text → Text × Text
unfolding is_blank take_while drop_while contains
user_rest [] = ([], [])
user_rest (c ∷ s) =
    let plain : Text × Text = ([], drop_while is_blank (c ∷ s)) in
    let found : Text × Text =
      (take_while inside s, drop_while is_blank (drop 1 (drop_while inside s))) in
    if c == b'[' && contains b']' s then found else plain

-- The loop that calls parseCommand passes lines without their line break. (In a text with line
-- breaks the expression could match in further ways.)
unfoldable pub parse_command : Text → Command
unfolding user_rest contains
parse_command [] = record { cmd = []; user = []; body = [] }
parse_command (c ∷ s) =
    let (user, rest) = user_rest (drop_blank (drop_while no_blank s)) in
    if c == b'/' && not (contains newline rest)
    then record { cmd = decode (word s); user = decode user; body = decode rest }
    else record { cmd = []; user = []; body = [] }
