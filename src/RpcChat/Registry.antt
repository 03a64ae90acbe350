-- ===== src/RpcChat/Registry.antt =====
-- The maps of clients and of rooms, each behind one lock (client.go, lines 28 to 61, and cRoom.go,
-- lines 120 to 164, of `Evan's Work/Assign 2/server`). A pointer is a number.
use cmpt436chat_client.Prelude.{
  ℕ, List, Option, none, some, ◌≡◌, refl, sym, arith, if◌then◌else◌, ap, ◌∙◌,
}
use cmpt436chat_client.Text.{Text, codes, text_eq}
use cmpt436chat_client.Text.Laws.{text_eq_iff, text_eq_refl}
use cmpt436chat_client.Table
use cmpt436chat_client.Table.{lookup, insert, keys, lookup-insert, lookup-delete}

abbrev pub Registry : Type 0
Registry = List (Text × ℕ)

-- An error's text, or a value; with the map that is left.
pub data Result (A : Type 0) : Type 0 where
  ok : A → Result A
  failed : Text → Result A

abbrev added : Text → ℕ → Text → Option ℕ → Registry → Result Registry
added key p err none m = ok (insert key p m)
added key p err (some q) m = failed err

abbrev removed : Text → Text → Option ℕ → Registry → Result Registry
removed key err none m = failed err
removed key err (some q) m = ok (Table.delete key m)

abbrev got : Text → Option ℕ → Result ℕ
got err none = failed err
got err (some p) = ok p

abbrev pub err_create : Text
err_create = codes "Error: There is a chat room with that name already.\n"

abbrev pub err_enter : Text
err_enter = codes "Error: Chat room does not exist, you cannot join.\n"

abbrev pub err_tok : Text
err_tok = codes "Error: User not found with this token!\n"

unfoldable pub add_client : Text → ℕ → Registry → Result Registry
add_client token client cur_clients =
    added token client err_tok (lookup token cur_clients) cur_clients

unfoldable pub remove_client : Text → Registry → Result Registry
remove_client tok cur_clients = removed tok err_tok (lookup tok cur_clients) cur_clients

unfoldable pub get_client : Text → Registry → Result ℕ
get_client tok cur_clients = got err_tok (lookup tok cur_clients)

unfoldable pub add_c_room : Text → ℕ → Registry → Result Registry
add_c_room c_name c_room c_rooms = added c_name c_room err_create (lookup c_name c_rooms) c_rooms

unfoldable pub delete_c_room : Text → Registry → Result Registry
delete_c_room c_name c_rooms = removed c_name err_enter (lookup c_name c_rooms) c_rooms

unfoldable pub get_c_room : Text → Registry → Result ℕ
get_c_room c_name c_rooms = got err_enter (lookup c_name c_rooms)

-- The keys in the order in which the range loop meets them.
unfoldable pub get_c_room_name : (List Text → List Text) → Registry → List Text
get_c_room_name order c_rooms = order (keys c_rooms)

module _ (key : Text) (p : ℕ) (err : Text) where
  added_new :
      (o : Option ℕ) (m n : Registry)
      → added key p err o m ≡ ok n
      → (o ≡ none) × (insert key p m ≡ n)
  added_new none m n e = (refl, cc)
  added_new (some q) m n e = cc

  -- The map with the entry, and the one with the entry taken out again.
  lookup-added :
      (m n : Registry)
      → added key p err (lookup key m) m ≡ ok n
      → (j : Text)
      → (lookup j n ≡ (if text_eq key j then some p else lookup j m))
        × (lookup j (Table.delete key n) ≡ lookup j m)
  lookup-added m n e j =
      let (absent, made) = added_new (lookup key m) m n e in
      (
        ap (lookup j) (sym made) ∙ lookup-insert key j p m,
        ground (
          arith,
          lookup-delete key j n,
          ap (lookup j) made,
          lookup-insert key j p m,
          absent,
          text_eq_iff key j,
        ),
      )

-- A client that AddClient takes under a token is found under it, and the others are found as
-- before; RemoveClient then succeeds, after which every token is answered as before the client
-- came.
pub client_comes_and_goes :
    (token : Text) (client : ℕ) (m n : Registry) (j : Text)
    → add_client token client m ≡ ok n
    → (get_client j n ≡ (if text_eq token j then ok client else get_client j m))
      × (remove_client token n ≡ ok (Table.delete token n))
      × (get_client j (Table.delete token n) ≡ get_client j m)
unfolding add_client remove_client get_client
client_comes_and_goes token client m n j e =
    let (found, back) = lookup-added token client err_tok m n e j in
    let here = (lookup-added token client err_tok m n e token).0 in
    (ground (arith, found), ground (arith, here, text_eq_refl token), ap (got err_tok) back)
