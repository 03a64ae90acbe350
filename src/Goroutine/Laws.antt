-- ===== src/Goroutine/Laws.antt =====
-- What sending does and does not touch.
use cmpt436chat_client.Prelude.{
  ℕ, ◌≡◌, refl, ap, ◌∙◌, Bool, true, false, List, [], ◌∷◌, ◌++◌, append_assoc, append-nil, subst,
  arith, ◌==◌, if◌then◌else◌, count, replicate, ◌<◌, fun_ext,
}
use cmpt436chat_client.Text.{Text}
use cmpt436chat_client.Goroutine.{
  Wire, Outcome, done, blocked, panicked, ◌>>=◌, World, write_round, send, send_each, send_all,
  close_out, close_conn,
}

-- The channel is open and the writer takes messages.
abbrev pub IsLive : Wire → Type 0
IsLive k = (k.conn_open ≡ true) × (k.writing ≡ true) × (k.out_open ≡ true)

abbrev pub receive : Wire → List Text → Wire
receive k msgs = record k { written = k.written ++ msgs }

abbrev pub handed : ℕ → List Text → (ℕ → Wire) → ℕ → Wire
handed c msgs ks q = if q == c then receive (ks q) msgs else ks q

pub handed-handed :
    (c : ℕ) (xs ys : List Text) (ks : ℕ → Wire) (q : ℕ)
    → handed c ys (handed c xs ks) q ≡ handed c (xs ++ ys) ks q
handed-handed c xs ys ks q = ground (arith, append_assoc (ks q).written xs ys)

module _ {S : Type 0} where
  pub bind-done : {s : S} (o : Outcome S) (f : S → Outcome S) → o ≡ done s → (o >>= f) ≡ f s
  bind-done o f e = rw e

  -- What stands in a finished outcome; nothing where there is none.
  abbrev pub Ends : Outcome S → (S → Type 0) → Type 0
  Ends (done s) P = P s
  Ends (blocked s) P = ⊥
  Ends (panicked s) P = ⊥

  -- The condition holds if the code gets through.
  abbrev pub IfDone : Outcome S → (S → Type 0) → Type 0
  IfDone (done s) P = P s
  IfDone (blocked s) P = Unit
  IfDone (panicked s) P = Unit

  pub IfDone-bind :
      (o : Outcome S) (f : S → Outcome S) (P Q : S → Type 0)
      → IfDone o P
      → ((s : S) → P s → IfDone (f s) Q)
      → IfDone (o >>= f) Q
  IfDone-bind (done s) f P Q h k = k s h
  IfDone-bind (blocked s) f P Q h k = tt
  IfDone-bind (panicked s) f P Q h k = tt

  pub IfDone-map :
      (o : Outcome S) (P Q : S → Type 0) → IfDone o P → ((s : S) → P s → Q s) → IfDone o Q
  IfDone-map (done s) P Q h k = k s h
  IfDone-map (blocked s) P Q h k = tt
  IfDone-map (panicked s) P Q h k = tt

  pub IfDone-eq : (P : S → Type 0) {s : S} (o : Outcome S) → IfDone o P → o ≡ done s → P s
  IfDone-eq P {s = t} (done s) h e = subst P (cc) h
  IfDone-eq P (blocked s) h e = cc
  IfDone-eq P (panicked s) h e = cc

module _ {S : Type 0} where
  -- The outcome, if it is one of getting through, has the state `s`.
  abbrev pub Leads : Outcome (World S) → S → Type 0
  Leads o s = IfDone o (λ v. v.state ≡ s)

  pub Leads-bind :
      (o : Outcome (World S)) (f : World S → Outcome (World S)) {s : S} (t : S)
      → Leads o s
      → ((v : World S) → v.state ≡ s → Leads (f v) t)
      → Leads (o >>= f) t
  Leads-bind o f {s} t = IfDone-bind o f (λ v. v.state ≡ s) (λ v. v.state ≡ t)

  -- A piece of code with the effect `F`, behind one that leads to `s`.
  pub Leads-then :
      (o : Outcome (World S)) (f : World S → Outcome (World S)) (F : S → S) (s : S)
      → Leads o s
      → ((v : World S) → Leads (f v) (F v.state))
      → Leads (o >>= f) (F s)
  Leads-then o f F s h k = Leads-bind o f (F s) h λ v e. subst (λ x. Leads (f v) (F x)) e (k v)

  pub Leads-if :
      (b : Bool) (o p : Outcome (World S)) (s t : S)
      → Leads o s
      → Leads p t
      → Leads (if b then o else p) (if b then s else t)
  Leads-if true o p s t h k = h
  Leads-if false o p s t h k = k

  -- Sending leaves the server's own state alone.
  pub send-Leads : {s : S} (c : ℕ) (msg : Text) (w : World S) → w.state ≡ s → Leads (send c msg w) s
  unfolding send
  send-Leads c msg w e = ground arith

  pub send_all-Leads :
      {s : S} (cs : List ℕ) (msg : Text) (w : World S) → w.state ≡ s → Leads (send_all cs msg w) s
  unfolding send_all
  send_all-Leads [] msg w e = e
  send_all-Leads (c ∷ cs) msg w e =
      Leads-bind (send c msg w) (send_all cs msg) _ (send-Leads c msg w e) (send_all-Leads cs msg)

  pub send_each-Leads :
      {s : S} (c : ℕ) (msgs : List Text) (w : World S) → w.state ≡ s → Leads (send_each c msgs w) s
  unfolding send_each
  send_each-Leads c [] w e = e
  send_each-Leads c (msg ∷ msgs) w e =
      Leads-bind (send c msg w) (send_each c msgs) _ (send-Leads c msg w e) (send_each-Leads c msgs)

  pub close_out-Leads : {s : S} (c : ℕ) (w : World S) → w.state ≡ s → Leads (close_out c w) s
  unfolding close_out
  close_out-Leads c w e = ground arith

  pub close_conn_state : (c : ℕ) (w : World S) → (close_conn c w).state ≡ w.state
  unfolding close_conn
  close_conn_state c w = refl

  -- A closed channel makes the sender panic.
  pub send_closed :
      (c : ℕ) (msg : Text) (w : World S) → (w.wires c).out_open ≡ false → send c msg w ≡ panicked w
  unfolding send
  send_closed c msg w h = ground arith

  -- A writer that has left its loop makes the sender wait for ever.
  pub send_stopped :
      (c : ℕ) (msg : Text) (w : World S)
      → (w.wires c).out_open ≡ true
      → (w.wires c).writing ≡ false
      → send c msg w ≡ blocked w
  unfolding send
  send_stopped c msg w h k = ground arith

  pub same_world :
      {ks ls : ℕ → Wire} (w : World S)
      → ((q : ℕ) → ks q ≡ ls q)
      → done (record w { wires = ks }) ≡ done (record w { wires = ls })
  same_world w h = ap (λ (f : ℕ → Wire). done (record w { wires = f })) (fun_ext h)

  -- A live client takes a message, and nothing else changes.
  pub send_live :
      (c : ℕ) (msg : Text) (w : World S)
      → IsLive (w.wires c)
      → send c msg w ≡ done (record w { wires = handed c (msg ∷ []) w.wires })
  unfolding send write_round
  send_live c msg w (h, k, l) = rw (l, k, h) (same_world w λ q. ground arith)

  -- Several messages reach a live client in their order.
  pub send_each_live :
      (c : ℕ) (msgs : List Text) (w : World S)
      → IsLive (w.wires c)
      → send_each c msgs w ≡ done (record w { wires = handed c msgs w.wires })
  unfolding send_each
  send_each_live c [] w h = same_world w λ q. ground (arith, append-nil (w.wires q).written)
  send_each_live c (msg ∷ msgs) w h = rw (send_live c msg w h) (
      send_each_live c msgs (record w { wires = handed c (msg ∷ []) w.wires }) (ground arith)
      ∙ same_world w λ q. ground (arith, append_assoc (w.wires q).written (msg ∷ []) msgs))

  -- A message to live clients reaches each as often as it is listed, and nobody else.
  pub send_all_live :
      (cs : List ℕ) (msg : Text) (w : World S)
      → ((d : ℕ) → 0 < count d cs → IsLive (w.wires d))
      → send_all cs msg w
        ≡ done (record w { wires = λ q. receive (w.wires q) (replicate (count q cs) msg) })
  unfolding send_all count
  send_all_live [] msg w h = same_world w λ q. ground (arith, append-nil (w.wires q).written)
  send_all_live (c ∷ cs) msg w h = rw (send_live c msg w (h c (ground arith))) (
      send_all_live cs msg (record w { wires = handed c (msg ∷ []) w.wires })
        (λ d p. ground (arith, h d))
      ∙ same_world w λ q.
        ground (arith, append_assoc (w.wires q).written (msg ∷ []) (replicate (count q cs) msg)))
