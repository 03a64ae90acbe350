-- ===== src/JsonEndpoint/Requests.antt =====
-- Which query a request of `Evan's Work/endpoint/json/json.go` comes to.
use cmpt436chat_client.Prelude.{
  true, false, List, [], ◌∷◌, ◌++◌, Option, some, if◌then◌else◌, length, drop, ltb, ◌≡◌, refl, sym,
  ap, ◌∙◌, subst, arith, ◌⊎◌, inl, inr, reverse, length-append, drop-append,
}
use cmpt436chat_client.Text.{Text, codes, has_prefix}
use cmpt436chat_client.Text.Laws.{prefix_split}
use cmpt436chat_client.JsonEndpoint.{
  search_path, user_path, all_path, Handler, search_messages, user_messages, Response, Served,
  Library, return_query, sliced, handle, registered, serve,
}

-- Package net/http: a pattern that ends in a slash stands for all paths that begin with it, any
-- other for itself.
abbrev pub Matches : Text → Text → Type 0
Matches pattern path =
    if has_prefix (reverse pattern) (codes "/")
    then has_prefix path pattern ≡ true
    else path ≡ pattern

abbrev pub IsListed : Text → Handler → List (Text × Handler) → Type 0
IsListed pattern h [] = ⊥
IsListed pattern h ((p, g) ∷ rs) = ((p ≡ pattern) × (g ≡ h)) ⊎ IsListed pattern h rs

-- The handler of a path is one that was registered under a pattern that matches the path.
abbrev pub IsMux : (List (Text × Handler) → Text → Option Handler) → Type 0
IsMux route =
    (rs : List (Text × Handler)) (path : Text) (h : Handler)
    → route rs path ≡ some h
    → (pattern : Text) × IsListed pattern h rs × Matches pattern path

sliced-append : (p s : Text) (f : Text → Served) → sliced (length p) (p ++ s) f ≡ f s
sliced-append p s f =
    let long : ltb (length (p ++ s)) (length p) ≡ false = ground (arith, length-append p s) in
    rw (long, drop-append p s) refl

module _ {Actions : Type 0} (lib : Library Actions) (w : Response) where
  -- The three kinds of requests, with the query that each comes to.
  abbrev pub IsAnswered : Text → Type 0
  IsAnswered path =
      ((term : Text) × (path ≡ search_path ++ term)
        × (serve lib path w ≡ return_query lib (codes "message") term [] w))
      ⊎ ((username : Text) × (path ≡ user_path ++ username)
          × (serve lib path w ≡ return_query lib (codes "message") [] username w))
      ⊎ ((path ≡ all_path) × (serve lib path w ≡ return_query lib (codes "message") [] [] w))

  answered :
      (path pattern : Text) (h : Handler)
      → IsListed pattern h registered
      → Matches pattern path
      → serve lib path w ≡ handle lib h path w
      → IsAnswered path
  unfolding handle has_prefix
  answered path pattern h (inl (p, g)) q s =
      let split = prefix_split path search_path (subst (λ x. Matches x path) (sym p) q) in
      let term = drop (length search_path) path in
      inl (
        term,
        split,
        s
            ∙ ap (λ k. handle lib k path w) (sym g)
            ∙ ap (λ x. handle lib search_messages x w) split
            ∙ sliced-append search_path term (λ t. return_query lib (codes "message") t [] w),
      )
  answered path pattern h (inr (inl (p, g))) q s =
      let split = prefix_split path user_path (subst (λ x. Matches x path) (sym p) q) in
      let username = drop (length user_path) path in
      inr (
        inl (
          username,
          split,
          s
              ∙ ap (λ k. handle lib k path w) (sym g)
              ∙ ap (λ x. handle lib user_messages x w) split
              ∙ sliced-append user_path username (λ t. return_query lib (codes "message") [] t w),
        ))
  answered path pattern h (inr (inr (inl (p, g)))) q s =
      inr (inr (subst (λ x. Matches x path) (sym p) q, s ∙ ap (λ k. handle lib k path w) (sym g)))
  answered path pattern h (inr (inr (inr none_left))) q s = absurd none_left

  -- A request that is given to a handler is for a path under one of the three patterns. What
  -- follows "/messages/search/" is searched for, what follows "/messages/user/" is taken as the
  -- user's name, and "/messages/all" asks for all messages. No slice of a path is out of range.
  pub request_makes_query :
      (path : Text) (h : Handler)
      → IsMux lib.route
      → lib.route registered path ≡ some h
      → IsAnswered path
  unfolding serve
  request_makes_query path h m e =
      let (pattern, listed, matches) = m registered path h e in
      answered path pattern h listed matches (rw (e, serve) refl)
