-- ===== src/Base/Indices.antt =====
-- Lists by position: the index of what a search finds, and `Vec::swap_remove`.
use Prim.Native.Nat.{ℕ, zero, suc, ◌+◌, ◌<◌}
use mathlib.Core.Path.{◌≡◌, refl}
use mathlib.Core.Bool.{Bool}
use mathlib.Core.Option.{Option, none, some}
use mathlib.Core.List.{List, [], ◌∷◌}
use native.Mathlib.Omega.{arith}
use secretsd.Base.Tests.{if◌then◌else◌}
use secretsd.Base.Lists.{length, find, count}
use secretsd.Base.Updates.{map_option}

module _ {ℓ} {A : Type ℓ} where
  abbrev pub get_elem? : List A → ℕ → Option A
  get_elem? [] i = none
  get_elem? (x ∷ xs) zero = some x
  get_elem? (x ∷ xs) (suc i) = get_elem? xs i

  -- The index of the first element that fits.
  abbrev pub find_index : (A → Bool) → List A → Option ℕ
  find_index p [] = none
  find_index p (x ∷ xs) = if p x then some 0 else map_option suc (find_index p xs)

  -- A list without its last element, which comes behind `x`.
  abbrev pub front : A → List A → List A
  front x [] = []
  front x (y ∷ ys) = x ∷ front y ys

  abbrev pub last_of : A → List A → A
  last_of x [] = x
  last_of x (y ∷ ys) = last_of y ys

  -- `swap_remove(i)`: the last element moves to the index. Out of bounds nothing changes, where
  -- the Rust call panics.
  abbrev pub swap_remove : List A → ℕ → List A
  swap_remove [] i = []
  swap_remove (x ∷ []) zero = []
  swap_remove (x ∷ y ∷ ys) zero = last_of y ys ∷ front y ys
  swap_remove (x ∷ xs) (suc i) = x ∷ swap_remove xs i

  pub get_elem?-find_index :
      (p : A → Bool) (xs : List A) (k : ℕ)
      → find_index p xs ≡ some k
      → (get_elem? xs k ≡ find p xs) × (k < length xs)
  get_elem?-find_index p [] k e = absurd (cc)
  get_elem?-find_index p (x ∷ xs) zero e = ground arith
  get_elem?-find_index p (x ∷ xs) (suc k) e = ground (arith, get_elem?-find_index p xs k)

  pub find_index-none : (p : A → Bool) (xs : List A) → find_index p xs ≡ none → find p xs ≡ none
  find_index-none p [] e = refl
  find_index-none p (x ∷ xs) e = ground (arith, find_index-none p xs)

  count-front :
      (p : A → Bool) (x : A) (xs : List A) → count p (last_of x xs ∷ front x xs) ≡ count p (x ∷ xs)
  count-front p x [] = refl
  count-front p x (y ∷ ys) = ground (arith, count-front p y ys)

  -- `swap_remove` takes away the element at the index and keeps all others.
  pub count-swap_remove :
      (p : A → Bool) (xs : List A) (k : ℕ) (x : A)
      → get_elem? xs k ≡ some x
      → count p (swap_remove xs k) + (if p x then 1 else 0) ≡ count p xs
  count-swap_remove p [] k x e = absurd (cc)
  count-swap_remove p (y ∷ []) zero x e = ground arith
  count-swap_remove p (y ∷ z ∷ zs) zero x e = ground (arith, count-front p z zs)
  count-swap_remove p (y ∷ ys) (suc k) x e = ground (arith, count-swap_remove p ys k x)
