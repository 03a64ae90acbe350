-- ===== src/ConnectToDb/Quiet.antt =====
-- Pieces of main/testConnections.go, as to panics with an error.
use cmpt436chat_client.Prelude.{
  ℕ, ◌≤◌, List, Option, none, some, ◌≡◌, length, get_elem?, Option-cases, inl, inr, arith, zero,
  suc, [], ◌∷◌,
}
use cmpt436chat_client.ConnectToDb.Types.{Error, Shown}
use cmpt436chat_client.ConnectToDb.Program.{
  World, Run, got, panics, error, out_of_range, Act, ◌>>=◌, ◌>>◌, then_run, call, println,
  this_panic, index,
}

get_elem?-none : {A : Type 0} (xs : List A) (i : ℕ) → get_elem? xs i ≡ none → length xs ≤ i
get_elem?-none [] i h = omega arith
get_elem?-none (x ∷ xs) zero h = ground (arith, h)
get_elem?-none (x ∷ xs) (suc i) h = omega (arith, get_elem?-none xs i h)

module _ {D : Type 0} where
  -- Either it gets through, or an index is beyond the end of a slice.
  abbrev pub Ends : {A : Type 0} → Run D A → Type 0
  Ends (got a w) = Unit
  Ends (panics (error err) w) = ⊥
  Ends (panics (out_of_range i n) w) = n ≤ i

  pub record Quiet {A : Type 0} (m : Act D A) : Type 0 where
    pub ending : (w : World D) → Ends (m w)

  pub Quiet-bind :
      {A B : Type 0} {m : Act D A} {f : A → Act D B}
      → Quiet m
      → ((a : A) → Quiet (f a))
      → Quiet (m >>= f)
  Quiet-bind {m = m} {f = f} h k = record { ending = λ w. after (m w) (h.ending w) }
    where
      after : (r : Run D _) → Ends r → Ends (then_run r f)
      after (got a v) p = (k a).ending v
      after (panics (error err) v) p = absurd p
      after (panics (out_of_range i n) v) p = p

  pub Quiet-call : {A : Type 0} (f : D → A × D) → Quiet (call f)
  unfolding call
  Quiet-call f = record { ending = λ w. tt }

  -- What a call answers, and behind it an act that may rely on it.
  pub Quiet-answer :
      {A B : Type 0} (P : A → Type 0) (f : D → A × D) (k : A → Act D B)
      → ((d : D) → P (f d).0)
      → ((a : A) → P a → Quiet (k a))
      → Quiet (call f >>= k)
  unfolding call
  Quiet-answer P f k h q = record {
    ending = λ w. (q (f w.store).0 (h w.store)).ending (record w { store = (f w.store).1 });
  }

  pub Quiet-this_panic : (err : Option Error) → err ≡ none → Quiet (this_panic err)
  unfolding this_panic
  Quiet-this_panic none h = record { ending = λ w. tt }
  Quiet-this_panic (some err) h = ground (arith, h)

  pub Quiet-println : (line : Shown) → Quiet (println line)
  unfolding println
  Quiet-println line = record { ending = λ w. tt }

  pub Quiet-say : {B : Type 0} (line : Shown) {k : Act D B} → Quiet k → Quiet (println line >> k)
  Quiet-say line h = Quiet-bind (Quiet-println line) (λ a. h)

  pub Quiet-check :
      {B : Type 0} (err : Option Error) {k : Act D B}
      → err ≡ none
      → Quiet k
      → Quiet (this_panic err >> k)
  Quiet-check err e h = Quiet-bind (Quiet-this_panic err e) (λ a. h)

  pub Quiet-index : {A : Type 0} (xs : List A) (i : ℕ) → Quiet (index xs i)
  unfolding index
  Quiet-index xs i = record {
    ending = λ w. elim (Option-cases (get_elem? xs i)) [
      | inl e ↦ rw (e, index) (get_elem?-none xs i e)
      | inr (x, e) ↦ rw (e, index) tt
    ];
  }

  -- An error that is tested.
  pub Quiet-tested :
      {B : Type 0} (f : D → Option Error × D) (k : Act D B)
      → ((d : D) → (f d).0 ≡ none)
      → Quiet k
      → Quiet (call f >>= λ err. this_panic err >> k)
  Quiet-tested f k h q = Quiet-answer (λ err. err ≡ none) f _ h (λ err e. Quiet-check err e q)

  pub Quiet-last :
      (f : D → Option Error × D) → ((d : D) → (f d).0 ≡ none) → Quiet (call f >>= this_panic)
  Quiet-last f h = Quiet-answer (λ err. err ≡ none) f _ h Quiet-this_panic
