-- ===== src/RpcChat/Locks/Waiting.antt =====
-- A goroutine that sends to a room while it reads a client, whose lock the room waits for: neither
-- goes on by a step of any goroutine.
use cmpt436chat_client.Prelude.{
  ℕ, suc, ◌<◌, true, false, List, [], ◌∷◌, ◌≡◌, ◌≢◌, refl, sym, arith, leb, ltb, is_empty,
  Bool-cases, inl, inr, if◌then◌else◌, ◌==◌, ==_iff,
}
use cmpt436chat_client.RpcChat.Types.{
  Memory, Tid, call, loop, same_tid, RwMutex, Writer, announced, held, free,
}
use cmpt436chat_client.RpcChat.Program.{
  Program, Signal, finish, act, rlock, runlock, lock, acquire, unlock, spawn, sleep, offer, take,
  tell, listen, crash,
}
use cmpt436chat_client.RpcChat.System.{System, advance, signal, put, set_mutex, is_free}
use cmpt436chat_client.RpcChat.Locks.Discipline.{idle, reading, waiting, writing, Obeys}
use cmpt436chat_client.RpcChat.Locks.Modes.{same_tid_iff, times, times-without, by, mode_of}
use cmpt436chat_client.RpcChat.Locks.Steps.{modes, Inv, IfSome, IfSome-if}

-- Only a lock's writer is in the mode of a writer.
writing_held : (t : Tid) (l : RwMutex) → mode_of t l ≡ writing → l.writer ≡ held t
writing_held t l h = writer (l.writer) h
  where
    writer :
        (w : Writer)
        → by t w (if ltb 0 (times t l.readers) then reading else idle) ≡ writing
        → w ≡ held t
    writer free h = ground arith
    writer (announced u) h = ground arith
    writer (held u) h = ground (arith, same_tid_iff t u)

pub waiting_announced : (t : Tid) (l : RwMutex) → mode_of t l ≡ waiting → l.writer ≡ announced t
waiting_announced t l h = writer (l.writer) h
  where
    writer :
        (w : Writer)
        → by t w (if ltb 0 (times t l.readers) then reading else idle) ≡ waiting
        → w ≡ announced t
    writer free h = ground arith
    writer (announced u) h = ground (arith, same_tid_iff t u)
    writer (held u) h = ground arith

pub reading_times : (t : Tid) (l : RwMutex) → mode_of t l ≡ reading → 0 < times t l.readers
reading_times t l h = writer (l.writer) h
  where
    writer :
        (w : Writer)
        → by t w (if ltb 0 (times t l.readers) then reading else idle) ≡ reading
        → 0 < times t l.readers
    writer free h = ground arith
    writer (announced u) h = ground arith
    writer (held u) h = ground arith

shut : (w : Writer) (t : Tid) → w ≡ announced t → is_free w ≢ true
shut free t e f = cc
shut (announced u) t e f = cc
shut (held u) t e f = cc

not_both : (w : Writer) (t u : Tid) → w ≡ announced t → w ≢ held u
not_both w t u e f = cc

shut_empty : (t : Tid) (us : List Tid) → 0 < times t us → is_empty us ≢ true
unfolding times
shut_empty t [] h e = omega arith
shut_empty t (u ∷ us) h e = cc

-- `t` sends to room `r` and reads client `c`, for whose lock the room waits.
pub record Stuck (t : Tid) (r c : ℕ) (p q : Program) (s : System) : Type 0 where
  pub sends : s.programs t ≡ p
  pub waits : s.programs (loop r) ≡ q
  pub reads : 0 < times t (s.mutexes c).readers
  pub bars : (s.mutexes c).writer ≡ announced (loop r)

module _ (t : Tid) (r c : ℕ) (sig : Signal) (sending waiting_for : Program) where
  abbrev pub p : Program
  p = tell r sig sending

  abbrev pub q : Program
  q = acquire c waiting_for

  abbrev pub Waits : System → Type 0
  Waits s = Stuck t r c p q s

  -- A goroutine with another program is another one.
  pub apart : (s : System) (u w : Tid) → s.programs w ≢ s.programs u → same_tid w u ≡ false
  apart s u w h = elim (Bool-cases (same_tid w u)) [
    | inl e ↦ absurd (h (rw ((same_tid_iff w u).0 e) refl))
    | inr e ↦ e
  ]

  module _ (s : System) (u : Tid) (x : Program) (k : Waits s) (not_p : p ≢ s.programs u)
      (not_q : q ≢ s.programs u) where
    away_t : same_tid t u ≡ false
    away_t = apart s u t (rw k.sends not_p)

    away_loop : same_tid (loop r) u ≡ false
    away_loop = apart s u (loop r) (rw k.waits not_q)

    went_on-Waits : (m : Memory) → Waits (put u x (record s { memory = m }))
    went_on-Waits m = record {
      sends = rw away_t k.sends;
      waits = rw away_loop k.waits;
      reads = k.reads;
      bars = k.bars;
    }

    relocked-Waits :
        (d : ℕ) (l : RwMutex)
        → (c ≡ d → (0 < times t l.readers) × (l.writer ≡ announced (loop r)))
        → Waits (put u x (set_mutex d l s))
    relocked-Waits d l h = record {
      sends = rw away_t k.sends;
      waits = rw away_loop k.waits;
      reads = elim (Bool-cases (c == d)) [
        | inl e ↦ rw e (h ((==_iff c d).0 e)).0
        | inr e ↦ rw e k.reads
      ];
      bars = elim (Bool-cases (c == d)) [
        | inl e ↦ rw e (h ((==_iff c d).0 e)).1
        | inr e ↦ rw e k.bars
      ];
    }

  -- A goroutine that starts is neither of the two.
  pub started-Waits :
      (s : System) (x : Program)
      → Inv s
      → Waits s
      → Waits (put (call s.next_call) x (record s { next_call = suc s.next_call }))
  started-Waits s x v k =
      let new = call s.next_call in
      let fresh = v.unused s.next_call (omega arith) in
      record {
        sends = rw (apart s new t (rw (k.sends, fresh) (λ e. cc))) k.sends;
        waits = k.waits;
        reads = k.reads;
        bars = k.bars;
      }

  not_free : (s : System) (d : ℕ) → Waits s → is_free (s.mutexes d).writer ≡ true → c ≢ d
  not_free s d k f e = shut (s.mutexes c).writer (loop r) k.bars (rw e f)

  not_empty : (s : System) (d : ℕ) → Waits s → is_empty (s.mutexes d).readers ≡ true → c ≢ d
  not_empty s d k f e = shut_empty t (s.mutexes c).readers k.reads (rw e f)

  pub advance-Waits :
      (s : System) (u : Tid) (x : Program)
      → Inv s
      → Waits s
      → s.programs u ≡ x
      → Obeys (modes s u) x
      → IfSome (advance u x s) Waits
  unfolding advance
  advance-Waits s u (finish reply) v k e o = tt
  advance-Waits s u (act effect rest) v k e o =
      went_on-Waits s u (rest s.memory) k (λ z. cc) (λ z. cc) (effect s.memory)
  advance-Waits s u (rlock d rest) v k e o =
      IfSome-if (is_free (s.mutexes d).writer) _ Waits
        λ f. relocked-Waits s u rest k (λ z. cc) (λ z. cc) d _ (λ z. absurd (not_free s d k f z))
  advance-Waits s u (runlock d rest) v k e o =
      relocked-Waits s u rest k (λ z. cc) (λ z. cc) d _
        (λ z. (
          rw (sym z, times-without t u (s.mutexes c).readers, away_t s u rest k (λ y. cc) (λ y. cc))
              k.reads,
          rw (sym z) k.bars,
        ))
  advance-Waits s u (lock d rest) v k e o = IfSome-if (is_free (s.mutexes d).writer) _ Waits λ f.
      relocked-Waits s u (acquire d rest) k (λ z. cc) (λ z. cc) d _
        (λ z. absurd (not_free s d k f z))
  advance-Waits s u (acquire d rest) v k e o =
      IfSome-if (is_empty (s.mutexes d).readers) _ Waits λ f.
        relocked-Waits s u rest k (λ z. cc) (λ z. not_empty s d k f (cc z)) d _
          (λ z. absurd (not_empty s d k f z))
  advance-Waits s u (unlock d rest) v k e o =
      relocked-Waits s u rest k (λ z. cc) (λ z. cc) d _
        (λ z. absurd (
          not_both (s.mutexes c).writer (loop r) u k.bars
            (rw z (writing_held u (s.mutexes d) o.0))))
  advance-Waits s u (spawn child rest) v k e o =
      let new =
        apart s (call s.next_call) u (rw (e, v.unused s.next_call (omega arith)) (λ z. cc)) in
      went_on-Waits (put (call s.next_call) child (record s { next_call = suc s.next_call })) u rest
        (started-Waits s child v k) (rw (new, e) (λ z. cc)) (rw (new, e) (λ z. cc)) s.memory
  advance-Waits s u (sleep until rest) v k e o =
      IfSome-if (leb until s.memory.now) _ Waits
        λ f. went_on-Waits s u rest k (λ z. cc) (λ z. cc) s.memory
  advance-Waits s u (offer d msg rest) v k e o = tt
  advance-Waits s u (take d receive) v k e o = tt
  advance-Waits s u (tell d signal rest) v k e o = tt
  advance-Waits s u (listen d) v k e o = tt
  advance-Waits s u crash v k e o = record {
    sends = k.sends;
    waits = k.waits;
    reads = k.reads;
    bars = k.bars;
  }

  pub both-Waits :
      (s : System) (u w : Tid) (x y : Program)
      → Waits s
      → same_tid u w ≡ false
      → p ≢ s.programs u
      → q ≢ s.programs u
      → p ≢ s.programs w
      → q ≢ s.programs w
      → Waits (put u x (put w y s))
  both-Waits s u w x y k e a b f g =
      went_on-Waits (put w y s) u x (went_on-Waits s w y k f g s.memory) (rw e a) (rw e b) s.memory
