-- ===== src/RpcChat/Locks/Modes.antt =====
-- What a goroutine has to do with a lock, as the lock's state tells, and how each operation of an
-- RWMutex changes it.
use cmpt436chat_client.Prelude.{
  ℕ, suc, ◌-◌, ◌≤◌, true, false, List, [], ◌∷◌, ◌≡◌, refl, ap, ◌↔◌, arith, ltb, is_empty,
  if◌then◌else◌,
}
use cmpt436chat_client.RpcChat.Types.{
  Tid, call, loop, same_tid, RwMutex, Writer, free, announced, held,
}
use cmpt436chat_client.RpcChat.System.{without, is_free}
use cmpt436chat_client.RpcChat.Locks.Discipline.{Mode, idle, reading, waiting, writing}

pub same_tid_iff : (t u : Tid) → (same_tid t u ≡ true) ↔ (t ≡ u)
same_tid_iff (call a) (call b) = ground arith
same_tid_iff (call a) (loop b) = ground arith
same_tid_iff (loop a) (call b) = ground arith
same_tid_iff (loop a) (loop b) = ground arith

-- How often a goroutine stands among the readers.
unfoldable pub times : Tid → List Tid → ℕ
times t [] = 0
times t (u ∷ us) = let n = times t us in if same_tid t u then suc n else n

pub times-without :
    (u t : Tid) (ts : List Tid)
    → times u (without t ts) ≡ (if same_tid u t then times u ts - 1 else times u ts)
unfolding times without
times-without u t [] = ground arith
times-without u t (x ∷ xs) =
    ground (arith, times-without u t xs, same_tid_iff t x, same_tid_iff u x, same_tid_iff u t)

abbrev pub by : Tid → Writer → Mode → Mode
by t free mode = mode
by t (announced u) mode = if same_tid t u then waiting else mode
by t (held u) mode = if same_tid t u then writing else mode

-- What a goroutine has to do with a lock, as the lock tells.
abbrev pub mode_of : Tid → RwMutex → Mode
mode_of t l = by t l.writer (if ltb 0 (times t l.readers) then reading else idle)

-- A lock is held for writing only when nobody holds it for reading, and nobody reads twice.
pub record IsSound (l : RwMutex) : Type 0 where
  pub once : (t : Tid) → times t l.readers ≤ 1
  pub alone : (t : Tid) → l.writer ≡ held t → l.readers ≡ []

-- A lock that goes from `l` to `n` by a goroutine whose mode is then `mode`.
pub record Relocked (t : Tid) (l n : RwMutex) (mode : Mode) : Type 0 where
  pub mine : mode_of t n ≡ mode
  pub others : (u : Tid) → same_tid u t ≡ false → mode_of u n ≡ mode_of u l
  pub fine : IsSound n

abbrev mutex : List Tid → Writer → RwMutex
mutex ts w = record { readers = ts; writer = w }

pub same_tid_refl : (t : Tid) → same_tid t t ≡ true
same_tid_refl t = (same_tid_iff t t).1 refl

pub rlock-Relocked :
    (t : Tid) (ts : List Tid) (w : Writer)
    → IsSound (mutex ts w)
    → is_free w ≡ true
    → mode_of t (mutex ts w) ≡ idle
    → Relocked t (mutex ts w) (mutex (t ∷ ts) w) reading
unfolding times
rlock-Relocked t ts free s f m = record {
  mine = ground (arith, same_tid_refl t);
  others = λ u e. ground arith;
  fine = record { once = λ u. ground (arith, s.once u, same_tid_iff u t); alone = λ u e. cc };
}
rlock-Relocked t ts (announced x) s f m = cc
rlock-Relocked t ts (held x) s f m = cc

pub runlock-Relocked :
    (t : Tid) (ts : List Tid) (w : Writer)
    → IsSound (mutex ts w)
    → mode_of t (mutex ts w) ≡ reading
    → Relocked t (mutex ts w) (mutex (without t ts) w) idle
unfolding without
runlock-Relocked t ts w s m = record {
  mine = ground (arith, times-without t t ts, same_tid_refl t, s.once t);
  others = λ u e. ground (arith, times-without u t ts);
  fine = record {
    once = λ u. ground (arith, s.once u, times-without u t ts);
    alone = λ u e. rw (s.alone u e);
  };
}

pub lock-Relocked :
    (t : Tid) (ts : List Tid) (w : Writer)
    → IsSound (mutex ts w)
    → is_free w ≡ true
    → Relocked t (mutex ts w) (mutex ts (announced t)) waiting
lock-Relocked t ts free s f = record {
  mine = ground (arith, same_tid_refl t);
  others = λ u e. ground arith;
  fine = record { once = s.once; alone = λ u e. cc };
}
lock-Relocked t ts (announced x) s f = cc
lock-Relocked t ts (held x) s f = cc

pub acquire-Relocked :
    (t : Tid) (ts : List Tid) (w : Writer)
    → IsSound (mutex ts w)
    → is_empty ts ≡ true
    → mode_of t (mutex ts w) ≡ waiting
    → Relocked t (mutex ts w) (mutex ts (held t)) writing
unfolding times
acquire-Relocked t [] (announced x) s f m = record {
  mine = ground (arith, same_tid_refl t);
  others = λ u e. ground (arith, same_tid_iff t x, same_tid_iff u x);
  fine = record { once = s.once; alone = λ u e. refl };
}
acquire-Relocked t [] free s f m = cc
acquire-Relocked t [] (held x) s f m = ground arith
acquire-Relocked t (x ∷ ts) w s f m = cc

pub unlock-Relocked :
    (t : Tid) (ts : List Tid) (w : Writer)
    → IsSound (mutex ts w)
    → mode_of t (mutex ts w) ≡ writing
    → Relocked t (mutex ts w) (mutex ts free) idle
unfolding times
unlock-Relocked t ts (held x) s m = record {
  mine = ground (arith, ap (times t) (s.alone x refl));
  others = λ u e. ground (arith, same_tid_iff t x, same_tid_iff u x);
  fine = record { once = s.once; alone = λ u e. cc };
}
unlock-Relocked t ts free s m = ground arith
unlock-Relocked t ts (announced x) s m = ground arith
