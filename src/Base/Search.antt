-- ===== src/Base/Search.antt =====
-- Laws of the searches over a list: what `find`, `any` and `count` see of `retain` and `++`.
use Prim.Native.Nat.{◌+◌, ◌≤◌}
use mathlib.Core.Path.{◌≡◌, refl, subst}
use mathlib.Core.Logic.{inl, inr}
use mathlib.Core.Bool.{Bool, true, false, ◌||◌}
use mathlib.Core.Option.{Option, none, some}
use mathlib.Core.List.{List, [], ◌∷◌, ◌++◌}
use native.Mathlib.Omega.{arith}
use secretsd.Base.Tests.{Bool-cases}
use secretsd.Base.Lists.{all, length, find, any, retain, count}

-- The first of two results.
abbrev pub or_else {ℓ} : {A : Type ℓ} → Option A → Option A → Option A
or_else none other = other
or_else (some a) other = some a

-- Every element has the property.
abbrev pub All {ℓ κ} : {A : Type ℓ} → (A → Type κ) → List A → Type κ
All P [] = Unit
All P (a ∷ rest) = P a × All P rest

module _ {ℓ} {A : Type ℓ} where
  pub find-append :
      (p : A → Bool) (xs ys : List A) → find p (xs ++ ys) ≡ or_else (find p xs) (find p ys)
  find-append p [] ys = refl
  find-append p (x ∷ xs) ys = ground (arith, find-append p xs ys)

  pub any-append : (p : A → Bool) (xs ys : List A) → any p (xs ++ ys) ≡ (any p xs || any p ys)
  any-append p [] ys = refl
  any-append p (x ∷ xs) ys = ground (arith, any-append p xs ys)

  pub count-append : (p : A → Bool) (xs ys : List A) → count p (xs ++ ys) ≡ count p xs + count p ys
  count-append p [] ys = omega arith
  count-append p (x ∷ xs) ys = ground (arith, count-append p xs ys)

  pub length-count : (xs : List A) → length xs ≡ count (λ _. true) xs
  length-count [] = refl
  length-count (x ∷ xs) = omega (arith, length-count xs)

  pub find_holds : (p : A → Bool) (xs : List A) (x : A) → find p xs ≡ some x → p x ≡ true
  find_holds p [] y h = cc
  find_holds p (x ∷ xs) y h = ground (arith, find_holds p xs y)

  pub find-none : (p : A → Bool) (xs : List A) → any p xs ≡ false → find p xs ≡ none
  find-none p [] h = refl
  find-none p (x ∷ xs) h = ground (arith, find-none p xs)

  pub any-none : (p : A → Bool) (xs : List A) → find p xs ≡ none → any p xs ≡ false
  any-none p [] h = refl
  any-none p (x ∷ xs) h = ground (arith, any-none p xs)

  pub any_of_find : (p : A → Bool) (xs : List A) (x : A) → find p xs ≡ some x → any p xs ≡ true
  any_of_find p [] y h = cc
  any_of_find p (x ∷ xs) y h = ground (arith, any_of_find p xs y)

  pub any_of_found :
      (p q : A → Bool) (xs : List A) (x : A) → find p xs ≡ some x → q x ≡ true → any q xs ≡ true
  any_of_found p q [] y e h = cc
  any_of_found p q (x ∷ xs) y e h = ground (arith, any_of_found p q xs y)

  pub find_of_any : (p : A → Bool) (xs : List A) → any p xs ≡ true → (x : A) × (find p xs ≡ some x)
  find_of_any p [] h = absurd (cc)
  find_of_any p (x ∷ xs) h = elim (Bool-cases (p x)) [
    | inl e ↦ (x, rw e)
    | inr e ↦ rw e (find_of_any p xs (ground arith))
  ]

  pub any_mono :
      (p q : A → Bool) (xs : List A)
      → ((x : A) → p x ≡ true → q x ≡ true)
      → any q xs ≡ false
      → any p xs ≡ false
  any_mono p q [] imp h = refl
  any_mono p q (x ∷ xs) imp h = ground (arith, any_mono p q xs imp, imp x)

  -- What `retain` keeps for certain is found as before.
  pub find-retain_kept :
      (p q : A → Bool) (xs : List A)
      → ((x : A) → p x ≡ true → q x ≡ true)
      → find p (retain q xs) ≡ find p xs
  find-retain_kept p q [] imp = refl
  find-retain_kept p q (x ∷ xs) imp = ground (arith, find-retain_kept p q xs imp, imp x)

  -- What `retain` drops for certain is not found.
  pub find-retain_dropped :
      (p q : A → Bool) (xs : List A)
      → ((x : A) → p x ≡ true → q x ≡ false)
      → find p (retain q xs) ≡ none
  find-retain_dropped p q [] imp = refl
  find-retain_dropped p q (x ∷ xs) imp = ground (arith, find-retain_dropped p q xs imp, imp x)

  -- What no element fits, no element that `retain` keeps fits either.
  pub any-retain : (p q : A → Bool) (xs : List A) → any p xs ≡ false → any p (retain q xs) ≡ false
  any-retain p q [] h = refl
  any-retain p q (x ∷ xs) h = ground (arith, any-retain p q xs)

  pub any-retain_dropped :
      (p q : A → Bool) (xs : List A)
      → ((x : A) → p x ≡ true → q x ≡ false)
      → any p (retain q xs) ≡ false
  any-retain_dropped p q [] imp = refl
  any-retain_dropped p q (x ∷ xs) imp = ground (arith, any-retain_dropped p q xs imp, imp x)

  pub count-retain-le : (p q : A → Bool) (xs : List A) → count p (retain q xs) ≤ count p xs
  count-retain-le p q [] = omega arith
  count-retain-le p q (x ∷ xs) = ground (arith, count-retain-le p q xs)

  pub find_All {κ} :
      (P : A → Type κ) (p : A → Bool) (xs : List A) (x : A) → All P xs → find p xs ≡ some x → P x
  find_All P p [] x h e = absurd (cc)
  find_All P p (y ∷ ys) x h e = elim (Bool-cases (p y)) [
    | inl t ↦ subst P (ground arith) h.0
    | inr f ↦ find_All P p ys x h.1 (ground arith)
  ]

  pub All-append {κ} :
      (P : A → Type κ) (front back : List A) → All P front → All P back → All P (front ++ back)
  All-append P [] back hold held = held
  All-append P (x ∷ front) back hold held = (hold.0, All-append P front back hold.1 held)

  pub All-retain {κ} :
      (P : A → Type κ) (p : A → Bool) (xs : List A) → All P xs → All P (retain p xs)
  All-retain P p [] h = tt
  All-retain P p (x ∷ xs) h = elim (Bool-cases (p x)) [
    | inl e ↦ rw e (h.0, All-retain P p xs h.1)
    | inr e ↦ rw e (All-retain P p xs h.1)
  ]

  pub All-mono {κ μ} :
      (P : A → Type κ) (Q : A → Type μ) (xs : List A) → ((x : A) → P x → Q x) → All P xs → All Q xs
  All-mono P Q [] imp h = tt
  All-mono P Q (x ∷ xs) imp h = (imp x h.0, All-mono P Q xs imp h.1)

  pub all-append_both :
      (p : A → Bool) (xs ys : List A) → all p xs ≡ true → all p ys ≡ true → all p (xs ++ ys) ≡ true
  all-append_both p [] ys h e = e
  all-append_both p (x ∷ xs) ys h e = ground (arith, all-append_both p xs ys)
