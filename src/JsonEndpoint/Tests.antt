-- ===== src/JsonEndpoint/Tests.antt =====
-- A request to `Evan's Work/endpoint/json/json.go` in a library that takes the first pattern that
-- matches.
use cmpt436chat_client.Prelude.{
  Bool, true, List, [], ◌∷◌, Option, none, some, if◌then◌else◌, ◌≡◌, refl, Bool-cases, inl, inr,
  reverse, arith,
}
use cmpt436chat_client.Text.{Text, codes, has_prefix, text_eq}
use cmpt436chat_client.Text.Laws.{text_eq_sound}
use cmpt436chat_client.JsonEndpoint.{
  Handler, search_messages, Response, served, Library, return_query, handle, registered, serve,
  start,
}
use cmpt436chat_client.JsonEndpoint.Requests.{Matches, IsMux, IsAnswered, request_makes_query}

abbrev matches : Text → Text → Bool
matches pattern path =
    if has_prefix (reverse pattern) (codes "/")
    then has_prefix path pattern
    else text_eq path pattern

first_match : List (Text × Handler) → Text → Option Handler
first_match [] path = none
first_match ((p, h) ∷ rs) path = if matches p path then some h else first_match rs path

matches-Matches : (pattern path : Text) → matches pattern path ≡ true → Matches pattern path
matches-Matches pattern path h = elim (Bool-cases (has_prefix (reverse pattern) (codes "/"))) [
  | inl e ↦ rw e (rw e at h)
  | inr e ↦ rw e (text_eq_sound path pattern (rw e at h))
]

first_match-IsMux : IsMux first_match
unfolding first_match
first_match-IsMux [] path h e = ground (arith, e)
first_match-IsMux ((p, g) ∷ rs) path h e = elim (Bool-cases (matches p path)) [
  | inl b ↦ (p, inl (refl, ground (arith, e, b)), matches-Matches p path b)
  | inr b ↦
      let (pattern, listed, found) = first_match-IsMux rs path h (rw b at e) in
      (pattern, inr listed, found)
]

-- It answers a query with the search term.
abbrev echo : Library Text
echo = record {
  query_messages = λ action search username. search;
  json_endpoint_port = codes "8080";
  marshal = λ actions. (actions, none);
  route = first_match;
  not_found = λ w. w;
  listen_and_serve = λ address. some address;
}

abbrev fresh : Response
fresh = record { content_type = none; body = [] }

abbrev path : Text
path = codes "/messages/search/hello"

routed : first_match registered path ≡ some search_messages
unfolding first_match has_prefix
routed = refl

searched :
    serve echo path fresh
    ≡ served (record { content_type = some (codes "text/json"); body = codes "hello" ∷ [] })
unfolding serve handle return_query first_match has_prefix
searched = refl

stopped : start echo ≡ some (codes "Can't create JSON endpoint", codes ":8080")
unfolding start
stopped = refl

request_makes_query_example : IsAnswered echo fresh path
request_makes_query_example =
    request_makes_query echo fresh path search_messages first_match-IsMux routed
