-- ===== src/LobbyServer/Arrival.antt =====
-- The books of the server of ken/server.go when a client arrives, when it is gone, and when its
-- connection is closed.
use cmpt436chat_client.Prelude.{
  ℕ, suc, ◌<◌, true, [], ◌∷◌, none, some, ◌≡◌, refl, sym, ◌∙◌, ap, subst, arith, Option-cases,
  Bool-cases, ◌==◌, inl, inr, count, count-append, count-single, count-remove_first, update,
}
use cmpt436chat_client.Goroutine.{Wire, Outcome, close_out, close_conn}
use cmpt436chat_client.Goroutine.Safety.{
  good-update, cut-good, good-out_open, Network, MayFail, good, NoPanic, NoPanic-map, Safe,
}
use cmpt436chat_client.LobbyServer.Types.{State, Server, new_client}
use cmpt436chat_client.LobbyServer.ChatRooms.{remembered, move_to, drop_client}
use cmpt436chat_client.LobbyServer.Lobby.{room_of, welcome, relay, forget}
use cmpt436chat_client.LobbyServer.Events.{construct, end_relay}
use cmpt436chat_client.LobbyServer.Effects.{left_current, left}
use cmpt436chat_client.LobbyServer.Invariant.{Inv}
use cmpt436chat_client.LobbyServer.Expiry.{IsWatched}
use cmpt436chat_client.LobbyServer.RoomSafety.{Ready}

pub record Books (net : Network) (w : Server) : Type 0 where
  pub inv : Inv w.state
  pub watched : IsWatched w.state
  pub ready : Ready net w.state w.wires

-- Safe code that comes to a state in order keeps the books.
pub Safe-Books :
    (net : Network) (s : State) (w : Server) (o : Outcome Server)
    → Safe net s w.wires o
    → ((c : ℕ) → count c s.relayed ≡ count c w.state.relayed)
    → Ready net w.state w.wires
    → Inv s
    → IsWatched s
    → NoPanic net (Books net) o
Safe-Books net s w o h same r i v = NoPanic-map net _ (Books net) o h.ending (λ u p. record {
  inv = subst Inv (sym p.0) i;
  watched = subst IsWatched (sym p.0) v;
  ready = λ c q. p.1 c ∙ r c (subst (λ n. 0 < n) (ap (λ t. count c t.relayed) p.0 ∙ same c) q);
})

unfoldable pub born : State → State
unfolding new_client
born s = record s {
  clients = update s.clients s.next_client new_client;
  next_client = suc s.next_client;
}

pub construct_lem : (w : Server) → (construct w).state ≡ born w.state
unfolding construct born
construct_lem w = refl

-- A client that is not constructed yet is in no room.
pub born-Inv : (s : State) → Inv s → Inv (born s)
unfolding born new_client
born-Inv s i = record {
  titled = i.titled;
  allocated = i.allocated;
  located = λ c r h. i.located c r (ground arith);
  placed = λ c r h. ground (arith, i.placed c r h, i.heard c r, i.known c);
  heard = λ c r h. i.heard c r (ground arith);
  once = i.once;
  known = λ c h. i.known c (omega arith);
  counted = i.counted;
}

-- A client that the lobby welcomes is heard from then on.
pub relay-Inv :
    (c : ℕ) (s : State)
    → c < s.next_client
    → count c s.relayed ≡ 0
    → Inv s
    → Inv (relay c (welcome c s))
unfolding relay welcome
relay-Inv c s born new i = record {
  titled = i.titled;
  allocated = i.allocated;
  located = i.located;
  placed = i.placed;
  heard = λ d r h. ground (arith, i.heard d r h, count-append d s.relayed (c ∷ []));
  once = λ d. ground (arith, new, i.once d, count-append d s.relayed (c ∷ []), count-single d c);
  known = λ d h. ground (arith, i.known d h, count-append d s.relayed (c ∷ []), count-single d c);
  counted = λ d. ground (
    arith,
    i.counted d,
    count-append d s.relayed (c ∷ []),
    count-append d s.lobby.clients (c ∷ []),
  );
}

-- The end of a client that has left its room.
pub gone-Inv : (c : ℕ) (s : State) → room_of c s ≡ none → Inv s → Inv (forget c (end_relay c s))
unfolding forget end_relay
gone-Inv c s out i = record {
  titled = i.titled;
  allocated = i.allocated;
  located = i.located;
  placed = i.placed;
  heard = λ d r h. ground (arith, out, i.heard d r h, count-remove_first d c s.relayed);
  once = λ d. ground (arith, i.once d, count-remove_first d c s.relayed);
  known = λ d h. ground (arith, i.known d h, count-remove_first d c s.relayed);
  counted = λ d. ground (
    arith,
    i.counted d,
    count-remove_first d c s.relayed,
    count-remove_first d c s.lobby.clients,
  );
}

pub born-IsWatched : (s : State) → IsWatched s → IsWatched (born s)
unfolding born
born-IsWatched s v = v

pub relay-IsWatched : (c : ℕ) (s : State) → IsWatched s → IsWatched (relay c (welcome c s))
unfolding relay welcome
relay-IsWatched c s v = v

pub gone-IsWatched : (c : ℕ) (s : State) → IsWatched s → IsWatched (forget c (end_relay c s))
unfolding forget end_relay
gone-IsWatched c s v = v

-- A connection is closed, where connections may fail or of a client that is not relayed for.
pub close_conn-Books :
    (net : Network) (c : ℕ) (w : Server)
    → (0 < count c w.state.relayed → MayFail net)
    → Books net w
    → Books net (close_conn c w)
unfolding close_conn
close_conn-Books net c w may b = record {
  inv = b.inv;
  watched = b.watched;
  ready = λ d h. elim (Bool-cases (d == c)) [
    | inl e ↦
        let same : d ≡ c = ground (arith, e) in
        let on = subst (λ x. 0 < count x w.state.relayed) same h in
        good-update net c d w.wires _ (cut-good net (w.wires c) (may on)) ∙ b.ready d h
    | inr e ↦ ground (arith, e, b.ready d h)
  ];
}

pub relay-Ready :
    (net : Network) (c : ℕ) (s : State) (ks : ℕ → Wire)
    → good net (ks c) ≡ true
    → Ready net s ks
    → Ready net (relay c (welcome c s)) ks
unfolding relay welcome
relay-Ready net c s ks o h d p =
    ground (arith, o, h d, count-append d s.relayed (c ∷ []), count-single d c)

left-end_relay : (c r : ℕ) (s : State) → left c r (end_relay c s) ≡ end_relay c (left c r s)
unfolding left remembered drop_client move_to end_relay
left-end_relay c r s = refl

left_current-some : (c r : ℕ) (s : State) → room_of c s ≡ some r → left_current c s ≡ left c r s
unfolding left_current
left_current-some c r s e = rw (e, left_current) refl

pub left_current-end_relay :
    (c : ℕ) (s : State) → left_current c (end_relay c s) ≡ end_relay c (left_current c s)
left_current-end_relay c s = elim (Option-cases (room_of c s)) [
  | inl e ↦ unfold left_current end_relay in rw (e, left_current) refl
  | inr (r, e) ↦
      let there : room_of c (end_relay c s) ≡ some r = unfold end_relay in e in
      left_current-some c r (end_relay c s) there
      ∙ left-end_relay c r s
      ∙ ap (end_relay c) (sym (left_current-some c r s e))
]

pub gone-Ready :
    (net : Network) (c : ℕ) (s t : State) (ks : ℕ → Wire)
    → t.relayed ≡ s.relayed
    → Ready net s ks
    → Ready net (forget c (end_relay c t)) ks
unfolding forget end_relay
gone-Ready net c s t ks same h d p = h d (ground (arith, p, same, count-remove_first d c t.relayed))

pub gone_unheard : (c : ℕ) (t : State) → Inv t → count c (forget c (end_relay c t)).relayed ≡ 0
unfolding forget end_relay
gone_unheard c t i = ground (arith, i.once c, count-remove_first c c t.relayed)

pub close-Books :
    (net : Network) (c : ℕ) (v : Server)
    → good net (v.wires c) ≡ true
    → count c v.state.relayed ≡ 0
    → Inv v.state
    → IsWatched v.state
    → Ready net v.state v.wires
    → NoPanic net (Books net) (close_out c v)
unfolding close_out
close-Books net c v o unheard i h r =
    rw (good-out_open net (v.wires c) o)
      (record { inv = i; watched = h; ready = λ d p. ground (arith, r d p, unheard) })
