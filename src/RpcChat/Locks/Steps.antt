-- ===== src/RpcChat/Locks/Steps.antt =====
-- Every step of the system keeps the goroutines' obligations and the locks in agreement.
use cmpt436chat_client.Prelude.{
  ℕ, suc, ◌≤◌, Bool, true, false, [], Option, none, some, ◌≡◌, ◌≢◌, refl, sym, subst, arith, leb,
  is_empty, Bool-cases, inl, inr, if◌then◌else◌, update, ◌==◌, ==_iff,
}
use cmpt436chat_client.RpcChat.Registry.{ok}
use cmpt436chat_client.RpcChat.Types.{Memory, Tid, call, same_tid, RwMutex}
use cmpt436chat_client.RpcChat.Program.{
  Program, finish, act, rlock, runlock, lock, acquire, unlock, spawn, sleep, offer, take, tell,
  listen, crash,
}
use cmpt436chat_client.RpcChat.System.{System, advance, put, set_mutex, is_free}
use cmpt436chat_client.RpcChat.Locks.Discipline.{
  Mode, idle, reading, waiting, writing, all_idle, Obeys, Obeys-eq,
}
use cmpt436chat_client.RpcChat.Locks.Modes.{
  same_tid_iff, mode_of, IsSound, Relocked, rlock-Relocked, runlock-Relocked, lock-Relocked,
  acquire-Relocked, unlock-Relocked,
}

abbrev pub modes : System → Tid → ℕ → Mode
modes s t c = mode_of t (s.mutexes c)

pub record Inv (s : System) : Type 0 where
  pub obeys : (t : Tid) → Obeys (modes s t) (s.programs t)
  pub sound : (c : ℕ) → IsSound (s.mutexes c)
  pub unused : (n : ℕ) → s.next_call ≤ n → s.programs (call n) ≡ finish (ok [])

-- One goroutine goes on, with no lock changed.
pub went_on :
    (s : System) (t : Tid) (p : Program) (m : Memory)
    → Inv s
    → s.programs t ≢ finish (ok [])
    → Obeys (modes s t) p
    → Inv (put t p (record s { memory = m }))
went_on s t p m v busy o = record {
  obeys = λ u. elim (Bool-cases (same_tid u t)) [
    | inl e ↦ rw (e, (same_tid_iff u t).0 e) o
    | inr e ↦ rw e (v.obeys u)
  ];
  sound = v.sound;
  unused = λ n h. elim (Bool-cases (same_tid (call n) t)) [
    | inl e ↦ absurd (busy (rw (sym ((same_tid_iff (call n) t).0 e)) (v.unused n h)))
    | inr e ↦ rw e (v.unused n h)
  ];
}

-- One goroutine goes on with another mode of one lock, which the others see no change of.
relocked :
    (s : System) (t : Tid) (p : Program) (c : ℕ) (l : RwMutex) (mode : Mode)
    → Inv s
    → s.programs t ≢ finish (ok [])
    → Obeys (update (modes s t) c mode) p
    → mode_of t l ≡ mode
    → ((u : Tid) → same_tid u t ≡ false → mode_of u l ≡ mode_of u (s.mutexes c))
    → IsSound l
    → Inv (put t p (set_mutex c l s))
relocked s t p c l mode v busy o mine others fine = record {
  obeys = λ u. elim (Bool-cases (same_tid u t)) [
    | inl e ↦
        rw (e, (same_tid_iff u t).0 e) (Obeys-eq (update (modes s t) c mode) _ p (λ d. own d) o)
    | inr e ↦ rw e (Obeys-eq (modes s u) _ (s.programs u) (λ d. other u e d) (v.obeys u))
  ];
  sound = λ d. elim (Bool-cases (d == c)) [ inl e ↦ rw e fine | inr e ↦ rw e (v.sound d) ];
  unused = λ n h. elim (Bool-cases (same_tid (call n) t)) [
    | inl e ↦ absurd (busy (rw (sym ((same_tid_iff (call n) t).0 e)) (v.unused n h)))
    | inr e ↦ rw e (v.unused n h)
  ];
}
  where
    own : (d : ℕ) → update (modes s t) c mode d ≡ mode_of t (update s.mutexes c l d)
    own d = elim (Bool-cases (d == c)) [ inl e ↦ rw e (sym mine) | inr e ↦ rw e ]

    other :
        (u : Tid)
        → same_tid u t ≡ false
        → (d : ℕ) → modes s u d ≡ mode_of u (update s.mutexes c l d)
    other u e d = elim (Bool-cases (d == c)) [
      | inl k ↦ rw (k, (==_iff d c).0 k) (sym (others u e))
      | inr k ↦ rw k
    ]

-- A goroutine that is started by a call or a `go` statement.
pub started :
    (s : System) (p : Program)
    → Inv s
    → Obeys all_idle p
    → Inv (put (call s.next_call) p (record s { next_call = suc s.next_call }))
started s p v o = record {
  obeys = λ u. elim (Bool-cases (same_tid u (call s.next_call))) [
    | inl e ↦
        rw (e, (same_tid_iff u (call s.next_call)).0 e)
          (Obeys-eq all_idle _ p (λ d. sym (rest d)) o)
    | inr e ↦ rw e (v.obeys u)
  ];
  sound = v.sound;
  unused = λ n h. ground (arith, v.unused n);
}
  where
    rest : (d : ℕ) → modes s (call s.next_call) d ≡ idle
    rest =
        subst (Obeys (modes s (call s.next_call))) (v.unused s.next_call (omega arith))
          (v.obeys (call s.next_call))

-- The condition holds of the state that comes out, if one does.
abbrev pub IfSome : Option System → (System → Type 0) → Type 0
IfSome none P = Unit
IfSome (some s) P = P s

pub IfSome-if :
    (b : Bool) (s : System) (P : System → Type 0)
    → (b ≡ true → P s)
    → IfSome (if b then some s else none) P
IfSome-if true s P h = h refl
IfSome-if false s P h = tt

pub IfSome-unless :
    (b : Bool) (o : Option System) (P : System → Type 0)
    → IfSome o P
    → IfSome (if b then none else o) P
IfSome-unless true o P h = tt
IfSome-unless false o P h = h

module _ (s : System) (t : Tid) (p : Program) (v : Inv s)
    (busy : s.programs t ≢ finish (ok [])) where
  relock-Inv :
      (c : ℕ) (l : RwMutex) (mode : Mode)
      → Relocked t (s.mutexes c) l mode
      → Obeys (update (modes s t) c mode) p
      → Inv (put t p (set_mutex c l s))
  relock-Inv c l mode r o = relocked s t p c l mode v busy o r.mine r.others r.fine

-- The next step of a goroutine by itself.
pub advance-Inv :
    (s : System) (t : Tid) (p : Program)
    → Inv s
    → s.programs t ≡ p
    → Obeys (modes s t) p
    → IfSome (advance t p s) Inv
unfolding advance
advance-Inv s t (finish reply) v e o = tt
advance-Inv s t (act effect rest) v e o =
    went_on s t (rest s.memory) (effect s.memory) v (λ q. cc) (o s.memory)
advance-Inv s t (rlock c rest) v e o =
    let l = s.mutexes c in
    IfSome-if (is_free l.writer) _ Inv λ f.
      relock-Inv s t rest v (λ q. cc) c _ reading
        (rlock-Relocked t l.readers l.writer (v.sound c) f (o.0)) (o.1)
advance-Inv s t (runlock c rest) v e o =
    let l = s.mutexes c in
    relock-Inv s t rest v (λ q. cc) c _ idle
      (runlock-Relocked t l.readers l.writer (v.sound c) (o.0)) (o.1)
advance-Inv s t (lock c rest) v e o =
    let l = s.mutexes c in
    IfSome-if (is_free l.writer) _ Inv λ f.
      relock-Inv s t (acquire c rest) v (λ q. cc) c _ waiting
        (lock-Relocked t l.readers l.writer (v.sound c) f)
        (ground arith, Obeys-eq _ _ rest (λ d. ground arith) (o.1))
advance-Inv s t (acquire c rest) v e o =
    let l = s.mutexes c in
    IfSome-if (is_empty l.readers) _ Inv λ f.
      relock-Inv s t rest v (λ q. cc) c _ writing
        (acquire-Relocked t l.readers l.writer (v.sound c) f (o.0)) (o.1)
advance-Inv s t (unlock c rest) v e o =
    let l = s.mutexes c in
    relock-Inv s t rest v (λ q. cc) c _ idle
      (unlock-Relocked t l.readers l.writer (v.sound c) (o.0)) (o.1)
advance-Inv s t (spawn child rest) v e o =
    went_on (put (call s.next_call) child (record s { next_call = suc s.next_call })) t rest
      s.memory (started s child v (o.0))
      (λ q. ground (arith, same_tid_iff t (call s.next_call), v.unused s.next_call)) (o.1)
advance-Inv s t (sleep until rest) v e o =
    IfSome-if (leb until s.memory.now) _ Inv (λ f. went_on s t rest s.memory v (λ q. cc) o)
advance-Inv s t (offer c msg rest) v e o = tt
advance-Inv s t (take c receive) v e o = tt
advance-Inv s t (tell r sig rest) v e o = tt
advance-Inv s t (listen r) v e o = tt
advance-Inv s t crash v e o = record { obeys = v.obeys; sound = v.sound; unused = v.unused }
