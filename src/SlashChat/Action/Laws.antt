-- ===== src/SlashChat/Action/Laws.antt =====
-- Laws of the parsers of commands.
use mathlib.Core.List.{reverse-append, reverse-reverse, reverse_aux}
use cmpt436chat_client.Prelude.{
  ℕ, ◌<◌, Bool, true, false, not, ◌||◌, [], ◌∷◌, ◌++◌, reverse, map, ◌≡◌, refl, ap, ◌∙◌, arith,
}
use cmpt436chat_client.Text.{Text, codes, newline, replace_from, replace_all, has_prefix}
use cmpt436chat_client.SlashChat.Codec.{decode, replace, collapse, is_reserved}
use cmpt436chat_client.SlashChat.Action.{
  is_blank, is_space1, is_space2, is_space3, space_len, space_len_back, trim_by, trim_space,
  take_while, drop_while, contains,
}

-- A text that begins with a printing character of ASCII, or that begins and ends with one.
abbrev pub IsHead : Text → Type 0
IsHead [] = ⊥
IsHead (c ∷ s) = (32 < c) × (c < 127)

abbrev pub IsTight : Text → Type 0
IsTight s = IsHead s × IsHead (reverse s)

space_len-print : (c : ℕ) (s : Text) → IsHead (c ∷ s) → space_len (c ∷ s) ≡ 0
unfolding space_len is_space1 is_space2 is_space3 is_blank
space_len-print c [] h = ground arith
space_len-print c (d ∷ []) h = ground arith
space_len-print c (d ∷ e ∷ s) h = ground arith

space_len_back-print : (c : ℕ) (s : Text) → IsHead (c ∷ s) → space_len_back (c ∷ s) ≡ 0
unfolding space_len_back is_space1 is_space2 is_space3 is_blank
space_len_back-print c [] h = ground arith
space_len_back-print c (d ∷ []) h = ground arith
space_len_back-print c (d ∷ e ∷ s) h = ground arith

trim_by_head :
    (len : Text → ℕ)
    → ((c : ℕ) (s : Text) → IsHead (c ∷ s) → len (c ∷ s) ≡ 0)
    → (s : Text) → IsHead s
    → trim_by len 0 s ≡ s
unfolding trim_by
trim_by_head len zero_len [] h = refl
trim_by_head len zero_len (c ∷ s) h = rw (zero_len c s h)

-- TrimSpace leaves such a text alone.
pub trim_space_tight : (s : Text) → IsTight s → trim_space s ≡ s
unfolding trim_space
trim_space_tight s h =
    rw
      (
        trim_by_head space_len space_len-print s (h.0),
        trim_by_head space_len_back space_len_back-print (reverse s) (h.1),
      )
      (reverse-reverse s)

trim_back_blank :
    (c : ℕ) (s : Text)
    → is_blank c ≡ true
    → trim_by space_len_back 0 (c ∷ s) ≡ trim_by space_len_back 0 s
unfolding trim_by space_len_back is_space1
trim_back_blank c [] h = rw h
trim_back_blank c (d ∷ []) h = rw h
trim_back_blank c (d ∷ e ∷ s) h = rw h

pub IsHead-append : (s t : Text) → IsHead s → IsHead (s ++ t)
IsHead-append [] t h = elim h [ ]
IsHead-append (c ∷ s) t h = h

trim_back_line :
    (s : Text)
    → IsHead s
    → (trim_by space_len_back 0 (newline ∷ s) ≡ s)
      × (trim_by space_len_back 0 (newline ∷ b' ' ∷ s) ≡ s)
trim_back_line s h =
    let tight = trim_by_head space_len_back space_len_back-print s h in
    (
      trim_back_blank newline s (unfold is_blank in refl) ∙ tight,
      trim_back_blank newline (b' ' ∷ s) (unfold is_blank in refl)
          ∙ trim_back_blank b' ' s (unfold is_blank in refl)
          ∙ tight,
    )

pub IsTight-append : (p s : Text) → IsHead p → IsHead (reverse s) → IsTight (p ++ s)
IsTight-append p s h k =
    (IsHead-append p s h, rw (reverse-append p s) (IsHead-append (reverse s) (reverse p) k))

-- TrimSpace takes the line break off, and a blank before it.
pub trim_space_line :
    (s : Text)
    → IsTight s
    → (trim_space (s ++ newline ∷ []) ≡ s) × (trim_space (s ++ b' ' ∷ newline ∷ []) ≡ s)
unfolding trim_space
trim_space_line s h =
    let kept =
      λ (t : Text). trim_by_head space_len space_len-print (s ++ t) (IsHead-append s t (h.0)) in
    let (one, two) = trim_back_line (reverse s) (h.1) in
    (
      rw (kept (newline ∷ []), reverse-append s (newline ∷ []))
          (ap reverse one ∙ reverse-reverse s),
      rw (kept (b' ' ∷ newline ∷ []), reverse-append s (b' ' ∷ newline ∷ []))
          (ap reverse two ∙ reverse-reverse s),
    )

pub drop_blank_head : (s : Text) → IsHead s → drop_while is_blank s ≡ s
unfolding drop_while is_blank
drop_blank_head [] h = refl
drop_blank_head (c ∷ s) h = ground arith

abbrev pub contains_not : (ℕ → Bool) → Text → Bool
contains_not p [] = false
contains_not p (c ∷ s) = not (p c) || contains_not p s

-- What lies before and behind the first byte that fails a test.
pub while_stop :
    (p : ℕ → Bool) (s t : Text) (c : ℕ)
    → contains_not p s ≡ false
    → p c ≡ false
    → (take_while p (s ++ c ∷ t) ≡ s) × (drop_while p (s ++ c ∷ t) ≡ c ∷ t)
unfolding take_while drop_while
while_stop p [] t c h e = (rw e, rw e)
while_stop p (d ∷ s) t c h e =
    (ground (arith, (while_stop p s t c)), ground (arith, (while_stop p s t c)))

-- A text with none of the bytes that the tables are about, and one with no "%".
abbrev pub has_reserved : Text → Bool
has_reserved [] = false
has_reserved (c ∷ s) = is_reserved c || has_reserved s

replace_from_absent : (s p t : Text) → contains b'%' s ≡ false → replace_from 0 s (b'%' ∷ p) t ≡ s
unfolding replace_from contains has_prefix
replace_from_absent [] p t h = refl
replace_from_absent (c ∷ s) p t h = ground (arith, replace_from_absent s p t)

-- Decode leaves a text with no "%" alone.
pub decode_plain : (s : Text) → contains b'%' s ≡ false → decode s ≡ s
unfolding decode replace replace_all
decode_plain s h = rw (
  replace_from_absent s (codes "3A") (codes ":") h,
  replace_from_absent s (codes "5B") (codes "[") h,
  replace_from_absent s (codes "5D") (codes "]") h,
  replace_from_absent s (codes "2C") (codes ",") h,
  replace_from_absent s (codes "22") (codes "\"") h,
  replace_from_absent s (codes "25") (codes "%") h,
)

-- Encode keeps line breaks, blanks and printing characters what they are.
pub collapse-contains-newline : (s : Text) → contains newline (map collapse s) ≡ contains newline s
unfolding contains collapse is_reserved
collapse-contains-newline [] = refl
collapse-contains-newline (c ∷ s) = ground (arith, collapse-contains-newline s)

pub collapse-IsHead : (s : Text) → IsHead s → IsHead (map collapse s)
unfolding collapse is_reserved
collapse-IsHead [] h = h
collapse-IsHead (c ∷ s) h = ground arith

map-reverse_aux :
    (s acc : Text)
    → reverse_aux (map collapse s) (map collapse acc) ≡ map collapse (reverse_aux s acc)
map-reverse_aux [] acc = refl
map-reverse_aux (c ∷ s) acc = map-reverse_aux s (c ∷ acc)

pub collapse-IsTight : (s : Text) → IsTight s → IsTight (map collapse s)
collapse-IsTight s h =
    (collapse-IsHead s (h.0), rw (map-reverse_aux s []) (collapse-IsHead (reverse s) (h.1)))
