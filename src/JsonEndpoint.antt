-- ===== src/JsonEndpoint.antt =====
-- The HTTP server of `Evan's Work/endpoint/json/json.go`. What it takes from package util and from
-- the libraries net/http and encoding/json are parameters.
pub mod Requests
mod Tests
use cmpt436chat_client.Prelude.{
  ℕ, Bool, true, false, List, [], ◌∷◌, ◌++◌, Option, none, some, if◌then◌else◌, length, drop, ltb,
}
use cmpt436chat_client.Text.{Text, codes}

abbrev pub search_path : Text
search_path = codes "/messages/search/"

abbrev pub user_path : Text
user_path = codes "/messages/user/"

abbrev pub all_path : Text
all_path = codes "/messages/all"

pub data Handler : Type 0 where
  search_messages user_messages all_messages : Handler

abbrev pub Error : Type 0
Error = Text

-- What a handler writes to.
pub record Response : Type 0 where
  pub content_type : Option Text
  pub body : List Text

-- How a request comes out: with a response, in os.Exit behind CheckForError's message, or in a
-- panic.
pub data Served : Type 0 where
  served : Response → Served
  exits : Text → Error → Served
  out_of_range : ℕ → ℕ → Served

-- util.QueryMessages and the field JSONEndpointPort, json.Marshal, the choice that net/http makes
-- among the registered patterns, its answer when there is none, and the error that ListenAndServe
-- returns with.
pub record Library (Actions : Type 0) : Type 0 where
  pub query_messages : Text → Text → Text → Actions
  pub json_endpoint_port : Text
  pub marshal : Actions → Text × Option Error
  pub route : List (Text × Handler) → Text → Option Handler
  pub not_found : Response → Response
  pub listen_and_serve : Text → Option Error

-- The patterns in the order in which Start registers them.
abbrev pub registered : List (Text × Handler)
registered =
    (search_path, search_messages) ∷ (user_path, user_messages) ∷ (all_path, all_messages) ∷ []

-- `path[n:]` panics when the path is shorter.
abbrev pub sliced : ℕ → Text → (Text → Served) → Served
sliced n path f = if ltb (length path) n then out_of_range n (length path) else f (drop n path)

module _ {Actions : Type 0} (lib : Library Actions) where
  unfoldable pub return_query : Text → Text → Text → Response → Served
  return_query action_type search username w =
      let (payload, err) = lib.marshal (lib.query_messages action_type search username) in
      elim err [
        | some e ↦ exits (codes "Can't create JSON response") e
        | none ↦
            served
              (record w { content_type = some (codes "text/json"); body = w.body ++ payload ∷ [] })
      ]

  unfoldable pub handle : Handler → Text → Response → Served
  unfolding return_query
  handle search_messages path w =
      sliced (length search_path) path (λ term. return_query (codes "message") term [] w)
  handle user_messages path w =
      sliced (length user_path) path (λ username. return_query (codes "message") [] username w)
  handle all_messages path w = return_query (codes "message") [] [] w

  -- A request for a path, once Start has registered the handlers.
  unfoldable pub serve : Text → Response → Served
  unfolding handle
  serve path w = elim (lib.route registered path) [
    | none ↦ served (lib.not_found w)
    | some h ↦ handle h path w
  ]

  -- What Start comes to when it stops listening: it returns, or the program ends with a message.
  unfoldable pub start : Option (Text × Error)
  start = elim (lib.listen_and_serve (codes ":" ++ lib.json_endpoint_port)) [
    | none ↦ none
    | some e ↦ some (codes "Can't create JSON endpoint", e)
  ]
