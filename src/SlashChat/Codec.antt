-- ===== src/SlashChat/Codec.antt =====
-- The encoding of util.go (lines 15 to 19 and 176 to 197).
use cmpt436chat_client.Prelude.{
  ℕ, Bool, ◌||◌, List, [], ◌∷◌, map, ◌==◌, if◌then◌else◌, ◌≡◌, refl, arith, ap, ◌∙◌,
}
use cmpt436chat_client.Text.{Text, codes, replace_all}
use cmpt436chat_client.Text.Laws.{replace_all_byte}

abbrev pub encode_unencoded_token : List Text
encode_unencoded_token = codes "%" ∷ codes ":" ∷ codes "[" ∷ codes "]" ∷ codes "," ∷ codes "\"" ∷ []

abbrev pub encode_encoded_token : List Text
encode_encoded_token =
    codes "%25" ∷ codes "%3A" ∷ codes "%5B" ∷ codes "%5D" ∷ codes "%2C" ∷ codes "%22" ∷ []

abbrev pub decode_unencoded_token : List Text
decode_unencoded_token = codes ":" ∷ codes "[" ∷ codes "]" ∷ codes "," ∷ codes "\"" ∷ codes "%" ∷ []

abbrev pub decode_encoded_token : List Text
decode_encoded_token =
    codes "%3A" ∷ codes "%5B" ∷ codes "%5D" ∷ codes "%2C" ∷ codes "%22" ∷ codes "%25" ∷ []

-- The loop over both slices, which the callers pass with equal lengths; a shorter second slice
-- would be indexed out of range.
unfoldable pub replace : List Text → List Text → Text → Text
replace [] toks val = val
replace (a ∷ as_) [] val = val
replace (a ∷ as_) (b ∷ bs) val = replace as_ bs (replace_all val a b)

unfoldable pub encode_csv : Text → Text
encode_csv val = replace_all val (codes "\"") (codes "\"\"")

unfoldable pub encode : Text → Text
unfolding replace
encode val = replace encode_unencoded_token decode_unencoded_token val

unfoldable pub decode : Text → Text
unfolding replace
decode val = replace decode_encoded_token decode_unencoded_token val

-- The bytes that the tables are about.
unfoldable pub is_reserved : ℕ → Bool
is_reserved c = c == b'%' || c == b':' || c == b'[' || c == b']' || c == b',' || c == b'"'

unfoldable pub collapse : ℕ → ℕ
unfolding is_reserved
collapse c = if is_reserved c then b'%' else c

abbrev swap : ℕ → ℕ → Text → Text
swap a b s = map (λ c. if c == a then b else c) s

replaced : (a b : ℕ) (s t : Text) → s ≡ t → replace_all s (a ∷ []) (b ∷ []) ≡ swap a b t
replaced a b s t e = ap (λ u. replace_all u (a ∷ []) (b ∷ [])) e ∙ replace_all_byte t a b

swapped :
    (s : Text)
    → swap b'"' b'%'
        (swap b',' b'"' (swap b']' b',' (swap b'[' b']' (swap b':' b'[' (swap b'%' b':' s)))))
      ≡ map collapse s
unfolding collapse
swapped [] = refl
swapped (c ∷ s) = ground (arith, swapped s)

-- Encode turns every reserved byte, whichever it is, into "%", and leaves the others: it hands the
-- table of plain tokens to replace where the table of encoded ones is meant.
pub encode_collapses : (s : Text) → encode s ≡ map collapse s
unfolding encode
encode_collapses s =
    replaced b'"' b'%' _ _ (
      replaced b',' b'"' _ _ (
        replaced b']' b',' _ _
          (replaced b'[' b']' _ _ (replaced b':' b'[' _ _ (replaced b'%' b':' _ _ refl)))))
    ∙ swapped s
