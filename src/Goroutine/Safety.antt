-- ===== src/Goroutine/Safety.antt =====
-- Code that sends to clients, as to panics and endless waits.
use cmpt436chat_client.Prelude.{
  ℕ, ◌<◌, Bool, true, false, List, [], ◌∷◌, ◌&&◌, ◌≡◌, refl, sym, subst, ◌∙◌, ap, arith,
  if◌then◌else◌, count, Bool-cases, inl, inr, ◌⊎◌, update,
}
use cmpt436chat_client.Text.{Text}
use cmpt436chat_client.Goroutine.{
  Wire, Outcome, done, blocked, panicked, ◌>>=◌, World, write_round, send, send_each, send_all,
}

-- Whether the connections may fail.
pub data Network : Type 0 where
  unreliable reliable : Network

abbrev pub MayFail : Network → Type 0
MayFail unreliable = Unit
MayFail reliable = ⊥

-- What code relies on of a client that it sends to: that its channel is open and, where connections
-- do not fail, that its writer goroutine runs and its writes succeed.
unfoldable pub good : Network → Wire → Bool
good unreliable k = k.out_open
good reliable k = k.out_open && (k.writing && k.conn_open)

pub good-out_open : (net : Network) (k : Wire) → good net k ≡ true → k.out_open ≡ true
unfolding good
good-out_open unreliable k h = h
good-out_open reliable k h = ground (arith, h)

pub good-writing :
    (net : Network) (k : Wire)
    → good net k ≡ true
    → (k.writing ≡ true) ⊎ ((k.writing ≡ false) × MayFail net)
unfolding good
good-writing unreliable k h = elim (Bool-cases k.writing) [ inl e ↦ inl e | inr e ↦ inr (e, tt) ]
good-writing reliable k h = inl (ground (arith, h))

pub write_round-good :
    (net : Network) (k : Wire) (msg : Text)
    → good net k ≡ true
    → good net (write_round k msg) ≡ true
unfolding good write_round
write_round-good unreliable k msg h = ground (arith, h)
write_round-good reliable k msg h = ground (arith, h)

-- A good wire in the place of a good one.
pub good-update :
    (net : Network) (c d : ℕ) (ks : ℕ → Wire) (k : Wire)
    → good net k ≡ good net (ks c)
    → good net (update ks c k d) ≡ good net (ks d)
good-update net c d ks k h = ground (arith, h)

-- Where connections may fail, a client stays good when its own does.
pub cut-good :
    (net : Network) (k : Wire)
    → MayFail net
    → good net (record k { conn_open = false }) ≡ good net k
unfolding good
cut-good unreliable k may = refl
cut-good reliable k may = absurd may

-- The same clients are good.
abbrev pub SameGood : Network → (ℕ → Wire) → (ℕ → Wire) → Type 0
SameGood net ks ls = (c : ℕ) → good net (ls c) ≡ good net (ks c)

abbrev pub AllGood : Network → List ℕ → (ℕ → Wire) → Type 0
AllGood net cs ks = (c : ℕ) → 0 < count c cs → good net (ks c) ≡ true

pub AllGood-same :
    (net : Network) (cs : List ℕ) (ks ls : ℕ → Wire)
    → SameGood net ks ls
    → AllGood net cs ks
    → AllGood net cs ls
AllGood-same net cs ks ls same h c p = same c ∙ h c p

module _ {S : Type 0} (net : Network) where
  -- The condition holds of what comes out, nothing panics, and nothing waits for ever unless
  -- connections may fail.
  abbrev pub NoPanic : (World S → Type 0) → Outcome (World S) → Type 0
  NoPanic P (done v) = P v
  NoPanic P (blocked v) = MayFail net
  NoPanic P (panicked v) = ⊥

  abbrev pub IsAfter : S → (ℕ → Wire) → World S → Type 0
  IsAfter s ks v = (v.state ≡ s) × SameGood net ks v.wires

  -- The code does not panic, and waits for ever at most if connections may fail; it makes no client
  -- good or bad, and leaves the state `s` if it gets through.
  pub record Safe (s : S) (ks : ℕ → Wire) (o : Outcome (World S)) : Type 0 where
    pub ending : NoPanic (IsAfter s ks) o

  pub NoPanic-bind :
      (P Q : World S → Type 0) (o : Outcome (World S)) (f : World S → Outcome (World S))
      → NoPanic P o
      → ((v : World S) → P v → NoPanic Q (f v))
      → NoPanic Q (o >>= f)
  NoPanic-bind P Q (done v) f h k = k v h
  NoPanic-bind P Q (blocked v) f h k = h
  NoPanic-bind P Q (panicked v) f h k = absurd h

  pub NoPanic-map :
      (P Q : World S → Type 0) (o : Outcome (World S))
      → NoPanic P o
      → ((v : World S) → P v → Q v)
      → NoPanic Q o
  NoPanic-map P Q (done v) h k = k v h
  NoPanic-map P Q (blocked v) h k = h
  NoPanic-map P Q (panicked v) h k = absurd h

module _ {S : Type 0} (c : ℕ) (msg : Text) (w : World S) (o : (w.wires c).out_open ≡ true) where
  pub send-writing :
      (w.wires c).writing ≡ true
      → send c msg w ≡ done (record w { wires = update w.wires c (write_round (w.wires c) msg) })
  unfolding send write_round
  send-writing e = rw (o, e) refl

  pub send-idle : (w.wires c).writing ≡ false → send c msg w ≡ blocked w
  unfolding send write_round
  send-idle e = rw (o, e) refl

module _ {S : Type 0} {net : Network} where
  pub done-Safe : (w : World S) → Safe net w.state w.wires (done w)
  done-Safe w = record { ending = (refl, λ c. refl) }

  -- A safe piece of code, and behind it one that comes to something.
  pub Safe-bind :
      (Q : World S → Type 0) (s : S) (ks : ℕ → Wire) (o : Outcome (World S))
      (f : World S → Outcome (World S))
      → Safe net s ks o
      → ((v : World S) → v.state ≡ s → SameGood net ks v.wires → NoPanic net Q (f v))
      → NoPanic net Q (o >>= f)
  Safe-bind Q s ks o f h k = NoPanic-bind net (IsAfter net s ks) Q o f h.ending (λ v p. k v p.0 p.1)

  -- A safe piece of code with the effect `F`, behind one that leads to `s`.
  pub Safe-then :
      (F : S → S) (s : S) (ks : ℕ → Wire) (o : Outcome (World S)) (f : World S → Outcome (World S))
      → Safe net s ks o
      → ((v : World S) → v.state ≡ s → SameGood net ks v.wires → Safe net (F v.state) v.wires (f v))
      → Safe net (F s) ks (o >>= f)
  Safe-then F s ks o f h k = record {
    ending = Safe-bind (IsAfter net (F s) ks) s ks o f h (λ v e same.
        NoPanic-map net (IsAfter net (F v.state) v.wires) (IsAfter net (F s) ks) (f v)
          (k v e same).ending (λ u p. (p.0 ∙ ap F e, λ c. p.1 c ∙ same c)));
  }

  pub Safe-if :
      (b : Bool) (s t : S) (ks : ℕ → Wire) (o p : Outcome (World S))
      → Safe net s ks o
      → Safe net t ks p
      → Safe net (if b then s else t) ks (if b then o else p)
  Safe-if true s t ks o p h k = h
  Safe-if false s t ks o p h k = k

  -- The same where the test is known behind it.
  pub Safe-if_known :
      (b : Bool) (s t : S) (ks : ℕ → Wire) (o p : Outcome (World S))
      → (b ≡ true → Safe net s ks o)
      → Safe net t ks p
      → Safe net (if b then s else t) ks (if b then o else p)
  Safe-if_known true s t ks o p h k = h refl
  Safe-if_known false s t ks o p h k = k

  pub send-Safe :
      (c : ℕ) (msg : Text) (w : World S)
      → good net (w.wires c) ≡ true
      → Safe net w.state w.wires (send c msg w)
  send-Safe c msg w h =
      let k = w.wires c in
      let o = good-out_open net k h in
      let kept = write_round-good net k msg h ∙ sym h in
      record {
        ending = elim (good-writing net k h) [
          | inl e ↦
              subst (NoPanic net (IsAfter net w.state w.wires)) (sym (send-writing c msg w o e))
                (refl, λ d. good-update net c d w.wires (write_round k msg) kept)
          | inr (e, may) ↦
              subst (NoPanic net (IsAfter net w.state w.wires)) (sym (send-idle c msg w o e)) may
        ];
      }

  pub send_each-Safe :
      (c : ℕ) (msgs : List Text) (w : World S)
      → good net (w.wires c) ≡ true
      → Safe net w.state w.wires (send_each c msgs w)
  unfolding send_each
  send_each-Safe c [] w h = done-Safe w
  send_each-Safe c (msg ∷ msgs) w h =
      Safe-then (λ s. s) w.state w.wires (send c msg w) (send_each c msgs) (send-Safe c msg w h)
        (λ v e same. send_each-Safe c msgs v (same c ∙ h))

  pub send_all-Safe :
      (cs : List ℕ) (msg : Text) (w : World S)
      → AllGood net cs w.wires
      → Safe net w.state w.wires (send_all cs msg w)
  unfolding send_all count
  send_all-Safe [] msg w h = done-Safe w
  send_all-Safe (c ∷ cs) msg w h =
      Safe-then (λ s. s) w.state w.wires (send c msg w) (send_all cs msg)
        (send-Safe c msg w (h c (ground arith)))
        (λ v e same. send_all-Safe cs msg v (λ d p. same d ∙ h d (ground arith)))
