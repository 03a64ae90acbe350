-- ===== src/SlashChat/Wire.antt =====
-- What one side of the slash protocol writes, as the other side reads it.
use mathlib.Core.List.{reverse-append}
use cmpt436chat_client.Prelude.{
  true, false, List, [], ◌∷◌, ◌++◌, reverse, map, append-nil, append_assoc, ◌≡◌, refl, ap, ◌∙◌, ◌≢◌,
  arith, if◌then◌else◌,
}
use cmpt436chat_client.Text.{Text, codes, newline, text_eq, sprintf}
use cmpt436chat_client.SlashChat.Codec.{collapse, is_reserved, encode_collapses}
use cmpt436chat_client.SlashChat.Action.{
  trim_space, get_action, slash_match, parse_input, parse_command, user_rest, is_blank, no_blank,
  inside, contains, drop_blank, drop_while,
}
use cmpt436chat_client.SlashChat.Action.Laws.{
  IsHead, IsTight, IsHead-append, IsTight-append, trim_space_line, drop_blank_head, while_stop,
  contains_not, decode_plain, collapse-contains-newline, collapse-IsTight,
}
use cmpt436chat_client.SlashChat.Util.{Properties, payload}
use cmpt436chat_client.SlashChat.Client.{
  Effect, sent, printed, send_command_to_serv, console_command, watch_for_console_in,
  watch_for_server_in, server_command,
}

-- A text that a user may type as a message: it begins and ends with a printing character, has no
-- line break, and does not begin with a slash.
abbrev pub StartsUnslashed : Text → Type 0
StartsUnslashed [] = ⊥
StartsUnslashed (c ∷ s) = c ≢ b'/'

-- The line that the client writes for a command.
abbrev pub command_line : Text → Text → Text
command_line cmd s = b'/' ∷ cmd ++ b' ' ∷ map collapse s ++ newline ∷ []

console_message :
    (s : Text)
    → StartsUnslashed s
    → console_command s (parse_input s) ≡ send_command_to_serv (codes "message") s
unfolding console_command parse_input slash_match
console_message [] h = elim h [ ]
console_message (c ∷ s) h = ground arith

sent_line :
    (s : Text)
    → send_command_to_serv (codes "message") s ≡ sent (command_line (codes "message") s) ∷ []
unfolding send_command_to_serv sprintf
sent_line s =
    rw (encode_collapses s, encode_collapses (codes "message"))
      (unfold collapse is_reserved in refl)

-- What the server makes of a message's line without its line break.
message_action :
    (s : Text)
    → IsHead s
    → contains newline s ≡ false
    → get_action (codes "/message " ++ s) ≡ (codes "message", s)
unfolding get_action slash_match contains
message_action s h plain = rw (drop_blank_head s h, plain) refl

message_read :
    (s : Text)
    → IsTight s
    → contains newline s ≡ false
    → get_action (trim_space (codes "/message " ++ s ++ newline ∷ [])) ≡ (codes "message", s)
message_read s h plain =
    let line = IsTight-append (codes "/message ") s (omega arith, omega arith) (h.1) in
    ap get_action ((trim_space_line (codes "/message " ++ s) line).0) ∙ message_action s (h.0) plain

collapsed_plain :
    (s : Text) → contains newline s ≡ false → contains newline (map collapse s) ≡ false
collapsed_plain s h = collapse-contains-newline s ∙ h

console_read :
    (s : Text)
    → IsTight s
    → watch_for_console_in (s ++ newline ∷ []) ≡ console_command s (parse_input s)
unfolding watch_for_console_in
console_read [] h = elim (h.0) [ ]
console_read (c ∷ s) h = rw ((trim_space_line (c ∷ s) h).0) refl

-- A message that a user types, which begins and ends with a printing character of ASCII, has no
-- line break and does not begin with a slash, goes to the server as one line, and the server's
-- parser takes from that line the action "message" and the text with each reserved byte turned into
-- "%".
pub typed_message_arrives :
    (s : Text)
    → IsTight s
    → contains newline s ≡ false
    → StartsUnslashed s
    → (watch_for_console_in (s ++ newline ∷ [])
        ≡ sent (codes "/message " ++ map collapse s ++ newline ∷ []) ∷ [])
      × (get_action (trim_space (codes "/message " ++ map collapse s ++ newline ∷ []))
          ≡ (codes "message", map collapse s))
typed_message_arrives s h plain ns = (
  console_read s h ∙ console_message s ns ∙ sent_line s,
  message_read (map collapse s) (collapse-IsTight s h) (collapsed_plain s plain),
)

-- A user's name that fits between brackets, and the words of the protocol.
abbrev pub IsName : Text → Type 0
IsName u =
    (contains_not inside u ≡ false) × (contains b'%' u ≡ false) × (contains newline u ≡ false)

abbrev pub IsWord : Text → Type 0
IsWord a = (contains_not no_blank a ≡ false) × (contains b'%' a ≡ false)

abbrev behind : Text → Text → Text
behind u t = b'[' ∷ (u ++ b']' ∷ t)

abbrev whole : Text → Text → Text → Text
whole action u t = b'/' ∷ (action ++ b' ' ∷ behind u t)

payload_line : (action u s : Text) → payload action u s ≡ whole action u (b' ' ∷ s)
unfolding payload sprintf
payload_line action u s = rw (append-nil s) refl

has_bracket : (u t : Text) → contains b']' (u ++ b']' ∷ t) ≡ true
unfolding contains
has_bracket [] t = refl
has_bracket (c ∷ u) t = ground (arith, has_bracket u t)

user_read : (u t : Text) → IsName u → user_rest (behind u t) ≡ (u, drop_while is_blank t)
unfolding user_rest
user_read u t h =
    let (name, rest) = while_stop inside u t b']' (h.0) refl in
    rw (has_bracket u t, name, rest) refl

line_parsed :
    (action u t : Text)
    → IsWord action
    → IsName u
    → contains newline (drop_while is_blank t) ≡ false
    → contains b'%' (drop_while is_blank t) ≡ false
    → parse_command (whole action u t)
      ≡ record { cmd = action; user = u; body = drop_while is_blank t }
unfolding parse_command
line_parsed action u t a h plain e =
    let (word, rest) =
      while_stop no_blank action (behind u t) b' ' (a.0) (unfold is_blank in refl) in
    let read : user_rest (drop_blank (drop_while no_blank (action ++ b' ' ∷ behind u t)))
        ≡ (u, drop_while is_blank t) =
      ap (λ t. user_rest (drop_blank t)) rest ∙ unfold is_blank in user_read u t h in
    rw
      (
        word,
        read,
        plain,
        decode_plain action (a.1),
        decode_plain u (h.1),
        decode_plain (drop_while is_blank t) e,
      )
      refl

-- What follows the bracket: nothing, or a text that begins and ends with a printing character.
abbrev pub IsBody : Text → Type 0
IsBody [] = Unit
IsBody (c ∷ s) =
    IsTight (c ∷ s) × (contains newline (c ∷ s) ≡ false) × (contains b'%' (c ∷ s) ≡ false)

whole_split : (action u t : Text) → whole action u t ≡ whole action u [] ++ t
whole_split action u t = simp append_assoc refl

bare_split :
    (action u : Text) → whole action u [] ≡ (b'/' ∷ (action ++ b' ' ∷ b'[' ∷ u)) ++ b']' ∷ []
bare_split action u = simp append_assoc refl

whole-IsTight : (action u t : Text) → IsHead (reverse t) → IsTight (whole action u t)
whole-IsTight action u t h =
    rw (whole_split action u t) (IsTight-append (whole action u []) t (omega arith, omega arith) h)

bare-IsTight : (action u : Text) → IsTight (whole action u [])
bare-IsTight action u = rw (bare_split action u) (
    IsTight-append (b'/' ∷ (action ++ b' ' ∷ b'[' ∷ u)) (b']' ∷ []) (omega arith, omega arith)
      (omega arith, omega arith))

server_read :
    (action u s : Text)
    → IsWord action
    → IsName u
    → IsBody s
    → parse_command (trim_space (payload action u s ++ newline ∷ []))
      ≡ record { cmd = action; user = u; body = s }
server_read action u [] a h b =
    let line : payload action u [] ++ newline ∷ [] ≡ whole action u [] ++ b' ' ∷ newline ∷ [] =
      rw (payload_line action u []) (simp append_assoc refl) in
    ap (λ t. parse_command (trim_space t)) line
    ∙ ap parse_command ((trim_space_line (whole action u []) (bare-IsTight action u)).1)
    ∙ unfold drop_while contains in line_parsed action u [] a h refl refl
server_read action u (c ∷ s) a h b =
    let body : drop_while is_blank (b' ' ∷ c ∷ s) ≡ c ∷ s =
      unfold drop_while is_blank in drop_blank_head (c ∷ s) (b.0.0) in
    let tight = whole-IsTight action u (b' ' ∷ c ∷ s) (
      rw (reverse-append (b' ' ∷ []) (c ∷ s))
        (IsHead-append (reverse (c ∷ s)) (b' ' ∷ []) (b.0.1))) in
    ap (λ t. parse_command (trim_space (t ++ newline ∷ []))) (payload_line action u (c ∷ s))
    ∙ ap parse_command ((trim_space_line (whole action u (b' ' ∷ c ∷ s)) tight).0)
    ∙ line_parsed action u (b' ' ∷ c ∷ s) a h (rw body (b.1)) (rw body (b.2))
    ∙ rw body refl

watched :
    (me : Text) (props : Properties) (line msg : Text)
    → trim_space line ≡ msg
    → watch_for_server_in me props line ≡ server_command me props (parse_command msg)
unfolding watch_for_server_in
watched me props line [] e = rw e (unfold server_command parse_command text_eq in refl)
watched me props line (c ∷ s) e = rw e refl

heard :
    (me : Text) (props : Properties) (action u s : Text)
    → IsWord action
    → IsName u
    → IsBody s
    → watch_for_server_in me props (payload action u s ++ newline ∷ [])
      ≡ server_command me props (record { cmd = action; user = u; body = s })
heard me props action u s a h b =
    watched me props (payload action u s ++ newline ∷ []) _ refl
    ∙ ap (server_command me props) (server_read action u s a h b)

protocol-IsWord :
    IsWord (codes "message")
    × IsWord (codes "enter")
    × IsWord (codes "leave")
    × IsWord (codes "connect")
    × IsWord (codes "disconnected")
unfolding is_blank contains
protocol-IsWord = ((refl, refl), (refl, refl), (refl, refl), (refl, refl), (refl, refl))

abbrev shown : Text → List Text → List Effect
shown format args = printed (sprintf (format ++ codes "\n") args) ∷ []

-- For a user's name with no "]", "%" or line break, and a text that is empty or begins and ends
-- with a printing character of ASCII and has no "%" or line break, the client called `me` shows
-- what the server sends for a message, unless it comes from a user called `me`, for entering a
-- room, for leaving one, and for connecting, in the words of its configuration; it shows nothing
-- for a closed connection.
pub announcement_shown :
    (me : Text) (props : Properties) (u s : Text)
    → IsName u
    → IsBody s
    → (watch_for_server_in me props (payload (codes "message") u s ++ newline ∷ [])
        ≡ (if text_eq u me then [] else shown props.received_msg (u ∷ s ∷ [])))
      × (watch_for_server_in me props (payload (codes "enter") u s ++ newline ∷ [])
          ≡ shown props.has_entered_room_msg (u ∷ s ∷ []))
      × (watch_for_server_in me props (payload (codes "leave") u s ++ newline ∷ [])
          ≡ shown props.has_left_room_msg (u ∷ s ∷ []))
      × (watch_for_server_in me props (payload (codes "connect") u s ++ newline ∷ [])
          ≡ shown props.has_entered_lobby_msg (u ∷ []))
      × (watch_for_server_in me props (payload (codes "disconnected") u s ++ newline ∷ []) ≡ [])
announcement_shown me props u s h b =
    let (message, enter, leave, connect, disconnected) = protocol-IsWord in
    (
      heard me props (codes "message") u s message h b ∙ unfold server_command in refl,
      heard me props (codes "enter") u s enter h b ∙ unfold server_command text_eq in refl,
      heard me props (codes "leave") u s leave h b ∙ unfold server_command text_eq in refl,
      heard me props (codes "connect") u s connect h b ∙ unfold server_command text_eq in refl,
      heard me props (codes "disconnected") u s disconnected h b
          ∙ unfold server_command text_eq in refl,
    )
