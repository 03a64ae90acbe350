-- ===== src/Sleepers.antt =====
-- The goroutines that sleep until a room may have expired, as newServer.go and ken/server.go start
-- them: each with the time at which it wakes and its room.
use cmpt436chat_client.Prelude.{
  ℕ, zero, suc, ◌+◌, List, [], ◌∷◌, ◌++◌, Option, none, some, ◌==◌, if◌then◌else◌, ◌≡◌, ◌⊎◌, inl,
  inr, arith, Option-cases, count,
}

unfoldable pub sleeper_at : ℕ → List (ℕ × ℕ) → Option (ℕ × ℕ)
sleeper_at i [] = none
sleeper_at zero (x ∷ xs) = some x
sleeper_at (suc i) (x ∷ xs) = sleeper_at i xs

unfoldable pub without_at : ℕ → List (ℕ × ℕ) → List (ℕ × ℕ)
without_at i [] = []
without_at zero (x ∷ xs) = xs
without_at (suc i) (x ∷ xs) = x ∷ without_at i xs

-- The rooms that the sleeping goroutines will hand to the lobby.
abbrev pub watched : List (ℕ × ℕ) → List ℕ
watched [] = []
watched ((t, r) ∷ ss) = r ∷ watched ss

pub watched-append :
    (q t r : ℕ) (ss : List (ℕ × ℕ))
    → count q (watched (ss ++ (t, r) ∷ [])) ≡ count q (watched ss) + (if q == r then 1 else 0)
unfolding count
watched-append q t r [] = ground arith
watched-append q t r ((u, p) ∷ ss) = ground (arith, watched-append q t r ss)

pub watched-without_at :
    (q t r i : ℕ) (ss : List (ℕ × ℕ))
    → sleeper_at i ss ≡ some (t, r)
    → count q (watched ss) ≡ count q (watched (without_at i ss)) + (if q == r then 1 else 0)
unfolding sleeper_at without_at count
watched-without_at q t r i [] h = cc
watched-without_at q t r zero ((u, p) ∷ ss) h = ground arith
watched-without_at q t r (suc i) ((u, p) ∷ ss) h = ground (arith, watched-without_at q t r i ss)

pub sleeper-cases :
    (i : ℕ) (ss : List (ℕ × ℕ))
    → (sleeper_at i ss ≡ none) ⊎ ((t : ℕ) × (r : ℕ) × (sleeper_at i ss ≡ some (t, r)))
sleeper-cases i ss = elim (Option-cases (sleeper_at i ss)) [
  | inl e ↦ inl e
  | inr ((t, r), e) ↦ inr (t, r, e)
]
