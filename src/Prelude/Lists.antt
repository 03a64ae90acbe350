-- ===== src/Prelude/Lists.antt =====
-- Lists measured and indexed by native numbers, the slice idioms of the programs, and occurrences.
use Prim.Native.Nat.{ℕ, zero, suc, ◌+◌, ◌-◌, ◌≤◌, ◌<◌}
use mathlib.Core.Path.{◌≡◌, refl, ap}
use mathlib.Core.Logic.{inl, inr}
use mathlib.Core.Bool.{Bool, true, false}
use mathlib.Core.List.{List, [], ◌∷◌, ◌++◌}
use mathlib.Core.Option.{Option, none, some}
use native.Mathlib.Omega.{arith}
use cmpt436chat_client.Prelude.Tests.{◌==◌, if◌then◌else◌, Bool-cases}

module _ {ℓ} {A : Type ℓ} where
  abbrev pub length : List A → ℕ
  length [] = 0
  length (x ∷ xs) = suc (length xs)

  abbrev pub take : ℕ → List A → List A
  take zero xs = []
  take (suc n) [] = []
  take (suc n) (x ∷ xs) = x ∷ take n xs

  abbrev pub drop : ℕ → List A → List A
  drop zero xs = xs
  drop (suc n) [] = []
  drop (suc n) (x ∷ xs) = drop n xs

  abbrev pub get_elem? : List A → ℕ → Option A
  get_elem? [] n = none
  get_elem? (x ∷ xs) zero = some x
  get_elem? (x ∷ xs) (suc n) = get_elem? xs n

  abbrev pub is_empty : List A → Bool
  is_empty [] = true
  is_empty (x ∷ xs) = false

  abbrev pub replicate : ℕ → A → List A
  replicate zero a = []
  replicate (suc n) a = a ∷ replicate n a

  pub length-append : (xs ys : List A) → length (xs ++ ys) ≡ length xs + length ys
  length-append [] ys = omega arith
  length-append (x ∷ xs) ys = omega (arith, length-append xs ys)

  pub drop-append : (xs ys : List A) → drop (length xs) (xs ++ ys) ≡ ys
  drop-append [] ys = refl
  drop-append (x ∷ xs) ys = drop-append xs ys

  pub take-append : (xs ys : List A) → take (length xs) (xs ++ ys) ≡ xs
  take-append [] ys = refl
  take-append (x ∷ xs) ys = ap (◌∷◌ x) (take-append xs ys)

-- `append(xs[:k], xs[k+1:]...)` at the first `k` with `xs[k] == c`, and `xs` if there is none.
unfoldable pub remove_first : ℕ → List ℕ → List ℕ
remove_first c [] = []
remove_first c (x ∷ xs) = if c == x then xs else x ∷ remove_first c xs

-- How often `c` stands in a list.
unfoldable pub count : ℕ → List ℕ → ℕ
count c [] = 0
count c (x ∷ xs) = let n = count c xs in if c == x then suc n else n

pub count-append : (c : ℕ) (xs ys : List ℕ) → count c (xs ++ ys) ≡ count c xs + count c ys
unfolding count
count-append c [] ys = omega arith
count-append c (x ∷ xs) ys = ground (arith, count-append c xs ys)

pub count-remove_first :
    (d c : ℕ) (xs : List ℕ)
    → count d (remove_first c xs) ≡ (if d == c then count d xs - 1 else count d xs)
unfolding count remove_first
count-remove_first d c [] = ground arith
count-remove_first d c (x ∷ xs) = ground (arith, count-remove_first d c xs)

pub count-le-length : (c : ℕ) (xs : List ℕ) → count c xs ≤ length xs
unfolding count
count-le-length c [] = omega arith
count-le-length c (x ∷ xs) = ground (arith, count-le-length c xs)

pub length-remove_first_of_count :
    (c : ℕ) (xs : List ℕ) → 0 < count c xs → suc (length (remove_first c xs)) ≡ length xs
unfolding count remove_first
length-remove_first_of_count c [] h = absurd (omega arith)
length-remove_first_of_count c (x ∷ xs) h = elim (Bool-cases (c == x)) [
  | inl hit ↦ rw hit
  | inr miss ↦ rw miss (ap suc (length-remove_first_of_count c xs (ground arith)))
]

pub remove_first_of_absent : (c : ℕ) (xs : List ℕ) → count c xs ≡ 0 → remove_first c xs ≡ xs
unfolding count remove_first
remove_first_of_absent c [] h = refl
remove_first_of_absent c (x ∷ xs) h = ground (arith, remove_first_of_absent c xs)

pub count-single : (d c : ℕ) → count d (c ∷ []) ≡ (if d == c then 1 else 0)
unfolding count
count-single d c = ground arith

module _ {ℓ κ} {A : Type ℓ} (P : A → Type κ) where
  abbrev pub All : List A → Type κ
  All [] = Unit
  All (x ∷ xs) = P x × All xs

  pub All-append : (xs ys : List A) → All xs → All ys → All (xs ++ ys)
  All-append [] ys _ hy = hy
  All-append (x ∷ xs) ys (px, hx) hy = (px, All-append xs ys hx hy)
