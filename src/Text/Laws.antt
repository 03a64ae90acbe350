-- ===== src/Text/Laws.antt =====
-- Laws of the string functions.
use mathlib.Core.List.{reverse-append}
use cmpt436chat_client.Prelude.{
  ℕ, ◌+◌, ◌-◌, true, false, [], ◌∷◌, ◌++◌, reverse, map, ◌≡◌, refl, ◌↔◌, arith, ◌==◌, if◌then◌else◌,
  length, drop, drop-append, take-append, length-append,
}
use cmpt436chat_client.Text.{
  Text, newline, text_eq, has_prefix, trim_prefix, trim_suffix, replace_from, replace_all,
}

pub text_eq_sound : (s t : Text) → text_eq s t ≡ true → s ≡ t
unfolding text_eq
text_eq_sound [] [] h = refl
text_eq_sound [] (d ∷ t) h = cc
text_eq_sound (c ∷ s) [] h = cc
text_eq_sound (c ∷ s) (d ∷ t) h = ground (arith, text_eq_sound s t)

pub text_eq_refl : (s : Text) → text_eq s s ≡ true
unfolding text_eq
text_eq_refl [] = refl
text_eq_refl (c ∷ s) = ground (arith, text_eq_refl s)

pub text_eq_iff : (s t : Text) → (text_eq s t ≡ true) ↔ (s ≡ t)
text_eq_iff s t = (text_eq_sound s t, λ e. rw e (text_eq_refl t))

pub has_prefix-append : (p s : Text) → has_prefix (p ++ s) p ≡ true
unfolding has_prefix
has_prefix-append [] s = refl
has_prefix-append (c ∷ p) s = ground (arith, has_prefix-append p s)

pub prefix_split : (s p : Text) → has_prefix s p ≡ true → s ≡ p ++ drop (length p) s
unfolding has_prefix
prefix_split s [] h = refl
prefix_split [] (d ∷ p) h = cc
prefix_split (c ∷ s) (d ∷ p) h = ground (arith, h, prefix_split s p)

pub trim_prefix-append : (p s : Text) → trim_prefix (p ++ s) p ≡ s
unfolding trim_prefix
trim_prefix-append p s = rw (has_prefix-append p s) (drop-append p s)

pub trim_prefix_absent : (p s : Text) → has_prefix s p ≡ false → trim_prefix s p ≡ s
unfolding trim_prefix
trim_prefix_absent p s h = rw h

pub trim_suffix-append : (s p : Text) → trim_suffix (s ++ p) p ≡ s
unfolding trim_suffix
trim_suffix-append s p =
    rw (reverse-append s p, has_prefix-append (reverse p) (reverse s), length-append s p)
      (rw added (take-append s p))
  where
    added : length s + length p - length p ≡ length s
    added = omega arith

-- A text with no line break keeps its last byte.
pub trim_suffix_plain :
    (s : Text) → has_prefix (reverse s) (newline ∷ []) ≡ false → trim_suffix s (newline ∷ []) ≡ s
unfolding trim_suffix
trim_suffix_plain s h = rw h

-- Replacing one byte by one byte is a map.
pub replace_all_byte :
    (s : Text) (a b : ℕ) → replace_all s (a ∷ []) (b ∷ []) ≡ map (λ c. if c == a then b else c) s
unfolding replace_all replace_from has_prefix
replace_all_byte [] a b = refl
replace_all_byte (c ∷ s) a b = ground (arith, replace_all_byte s a b)
