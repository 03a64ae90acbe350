-- ===== src/Text.antt =====
-- Go strings as lists of bytes, and the functions of packages strings and fmt that the programs
-- call.
pub mod Laws
pub mod Clock
use Prim.Native.Char.{code}
use Prim.Native.String.{String}
use cmpt436chat_client.Prelude.{
  ℕ, zero, suc, ◌+◌, ◌-◌, ◌%◌, ◌/◌, Bool, true, false, ◌&&◌, ◌||◌, List, [], ◌∷◌, ◌++◌, reverse,
  Option, none, some, ◌==◌, leb, ltb, if◌then◌else◌, length, take, drop, is_empty,
}

abbrev pub Text : Type 0
Text = List ℕ

-- The code points of a literal; these are its bytes, since every literal here is ASCII.
abbrev pub codes : String → Text
codes String.[] = []
codes (String.◌∷◌ c s) = code c ∷ codes s

abbrev pub newline : ℕ
newline = 10

-- Go's `==` on strings.
unfoldable pub text_eq : Text → Text → Bool
text_eq [] [] = true
text_eq [] (d ∷ t) = false
text_eq (c ∷ s) [] = false
text_eq (c ∷ s) (d ∷ t) = c == d && text_eq s t

-- strings.HasPrefix.
unfoldable pub has_prefix : Text → Text → Bool
has_prefix s [] = true
has_prefix [] (p ∷ ps) = false
has_prefix (c ∷ s) (p ∷ ps) = c == p && has_prefix s ps

-- strings.TrimPrefix.
unfoldable pub trim_prefix : Text → Text → Text
unfolding has_prefix
trim_prefix s p = if has_prefix s p then drop (length p) s else s

-- strings.TrimSuffix.
unfoldable pub trim_suffix : Text → Text → Text
unfolding has_prefix
trim_suffix s p = if has_prefix (reverse s) (reverse p) then take (length s - length p) s else s

-- strings.Replace(s, old, new, -1) for a non-empty `old`: the first argument counts the bytes of an
-- occurrence that are still to be passed over.
unfoldable pub replace_from : ℕ → Text → Text → Text → Text
unfolding has_prefix
replace_from skip [] old new = []
replace_from (suc k) (c ∷ s) old new = replace_from k s old new
replace_from zero (c ∷ s) old new =
    let found = new ++ replace_from (length old - 1) s old new in
    let copied = c ∷ replace_from zero s old new in if has_prefix (c ∷ s) old then found else copied

unfoldable pub replace_all : Text → Text → Text → Text
unfolding replace_from
replace_all s old new = replace_from zero s old new

-- What fmt writes in place of a verb with no argument left, and behind the text for each argument
-- that no verb takes. The formats of the programs hold the verbs `%s` and `%v`, and no other `%`.
unfoldable pub extras : List Text → Text
extras [] = []
extras (a ∷ []) = codes "string=" ++ a
extras (a ∷ b ∷ rest) = codes "string=" ++ a ++ codes ", " ++ extras (b ∷ rest)

abbrev pub extra_note : List Text → Text
extra_note [] = []
extra_note (a ∷ rest) = codes "%!(EXTRA " ++ extras (a ∷ rest) ++ codes ")"

abbrev pub is_verb : ℕ → Bool
is_verb c = c == b's' || c == b'v'

-- One verb: the argument, and the rest of the text by the arguments that are left.
abbrev pub put_verb : ℕ → List Text → (List Text → Text) → Text
put_verb c [] rest = codes "%!" ++ c ∷ codes "(MISSING)" ++ rest []
put_verb c (a ∷ more) rest = a ++ rest more

-- fmt.Sprintf with arguments that are strings.
unfoldable pub sprintf : Text → List Text → Text
unfolding extras
sprintf [] args = extra_note args
sprintf (c ∷ []) args = c ∷ extra_note args
sprintf (c ∷ d ∷ f) args =
    let verb = put_verb d args (sprintf f) in
    let copied = c ∷ sprintf (d ∷ f) args in if c == b'%' && is_verb d then verb else copied

-- The decimal digits of a number below 100, as `%d` and as `%02d`.
abbrev pub digits2 : ℕ → Text
digits2 n = (b'0' + n / 10) ∷ (b'0' + n % 10) ∷ []

abbrev pub digits : ℕ → Text
digits n = if ltb n 10 then (b'0' + n) ∷ [] else digits2 n
