-- ===== src/ConnectToDb/Program.antt =====
-- How a piece of main/testConnections.go comes out: with a value, or in a panic.
use cmpt436chat_client.Prelude.{ℕ, List, [], ◌∷◌, ◌++◌, Option, none, some, length, get_elem?}
use cmpt436chat_client.ConnectToDb.Types.{Shown, Error}

-- A panic with an error, or with an index and the length of the slice.
pub data Panic : Type 0 where
  error : Error → Panic
  out_of_range : ℕ → ℕ → Panic

-- What the driver works on, and what has been printed.
pub record World (D : Type 0) : Type 0 where
  pub store : D
  pub printed : List Shown

pub data Run (D A : Type 0) : Type 0 where
  got : A → World D → Run D A
  panics : Panic → World D → Run D A

abbrev pub Act : Type 0 → Type 0 → Type 0
Act D A = World D → Run D A

module _ {D : Type 0} where
  abbrev pub then_run : {A B : Type 0} → Run D A → (A → Act D B) → Run D B
  then_run (got a w) f = f a w
  then_run (panics p w) f = panics p w

  infixl 5 ◌>>=◌ ◌>>◌
  abbrev pub ◌>>=◌ : {A B : Type 0} → Act D A → (A → Act D B) → Act D B
  ◌>>=◌ m f w = then_run (m w) f

  abbrev pub ◌>>◌ : {A B : Type 0} → Act D A → Act D B → Act D B
  m >> k = m >>= λ a. k

  -- A call of the driver: its answer, and what it leaves.
  unfoldable pub call : {A : Type 0} → (D → A × D) → Act D A
  call f w = let (a, d) = f w.store in got a (record w { store = d })

  unfoldable pub println : Shown → Act D Unit
  println line w = got tt (record w { printed = w.printed ++ line ∷ [] })

  unfoldable pub this_panic : Option Error → Act D Unit
  this_panic none w = got tt w
  this_panic (some err) w = panics (error err) w

  -- An element of a slice.
  unfoldable pub index : {A : Type 0} → List A → ℕ → Act D A
  index xs i w = elim (get_elem? xs i) [
    | none ↦ panics (out_of_range i (length xs)) w
    | some x ↦ got x w
  ]
