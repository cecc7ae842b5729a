-- ===== src/Base/Updates.antt =====
-- Laws of `update_first`, and lists of numbers that ascend within bounds.
use Prim.Native.Nat.{ℕ, suc, ◌≤◌}
use mathlib.Core.Path.{◌≡◌, refl, sym, subst}
use mathlib.Core.Logic.{inl, inr}
use mathlib.Core.Bool.{Bool, true, false}
use mathlib.Core.Option.{Option, none, some}
use mathlib.Core.List.{List, [], ◌∷◌, ◌++◌, map}
use native.Mathlib.Omega.{arith}
use secretsd.Base.Tests.{Bool-cases}
use secretsd.Base.Lists.{find, any, retain, count, update_first}

abbrev pub map_option {ℓ κ} : {A : Type ℓ} {B : Type κ} → (A → B) → Option A → Option B
map_option f none = none
map_option f (some a) = some (f a)

module _ {ℓ} {A : Type ℓ} where
  pub find-update_self :
      (p : A → Bool) (f : A → A) (xs : List A)
      → ((x : A) → p x ≡ true → p (f x) ≡ true)
      → find p (update_first p f xs) ≡ map_option f (find p xs)
  find-update_self p f [] keep = refl
  find-update_self p f (x ∷ xs) keep = ground (arith, keep x, find-update_self p f xs keep)

  pub find-update_other :
      (p q : A → Bool) (f : A → A) (xs : List A)
      → ((x : A) → p x ≡ true → q x ≡ false)
      → ((x : A) → p x ≡ true → q (f x) ≡ false)
      → find q (update_first p f xs) ≡ find q xs
  find-update_other p q f [] before after = refl
  find-update_other p q f (x ∷ xs) before after =
      ground (arith, before x, after x, find-update_other p q f xs before after)

  pub count-update-le :
      (p q : A → Bool) (f : A → A) (xs : List A)
      → ((x : A) → q (f x) ≡ true → q x ≡ true)
      → count q (update_first p f xs) ≤ count q xs
  count-update-le p q f [] imp = omega arith
  count-update-le p q f (x ∷ xs) imp = ground (arith, imp x, count-update-le p q f xs imp)

  pub count-update_found :
      (p q : A → Bool) (f : A → A) (xs : List A) (r : A)
      → find p xs ≡ some r
      → (q (f r) ≡ true → q r ≡ true)
      → count q (update_first p f xs) ≤ count q xs
  count-update_found p q f [] r e imp = absurd (cc)
  count-update_found p q f (x ∷ xs) r e imp = elim (Bool-cases (p x)) [
    | inl here ↦
        let same : x ≡ r = ground arith in
        rw here (ground (arith, subst (λ y. q (f y) ≡ true → q y ≡ true) (sym same) imp))
    | inr there ↦ ground (arith, count-update_found p q f xs r (ground arith) imp)
  ]

  pub any-update :
      (p q : A → Bool) (f : A → A) (xs : List A)
      → ((x : A) → p x ≡ true → q (f x) ≡ true → q x ≡ true)
      → any q xs ≡ false
      → any q (update_first p f xs) ≡ false
  any-update p q f [] imp h = refl
  any-update p q f (x ∷ xs) imp h = ground (arith, imp x, any-update p q f xs imp)

  pub any-map :
      (q : A → Bool) (f : A → A) (xs : List A)
      → ((x : A) → q (f x) ≡ true → q x ≡ true)
      → any q xs ≡ false
      → any q (map f xs) ≡ false
  any-map q f [] imp h = refl
  any-map q f (x ∷ xs) imp h = ground (arith, imp x, any-map q f xs imp)

  pub count-map-le :
      (q : A → Bool) (f : A → A) (xs : List A)
      → ((x : A) → q (f x) ≡ true → q x ≡ true)
      → count q (map f xs) ≤ count q xs
  count-map-le q f [] imp = omega arith
  count-map-le q f (x ∷ xs) imp = ground (arith, imp x, count-map-le q f xs imp)

  pub count_mono :
      (p q : A → Bool) (xs : List A) → ((x : A) → p x ≡ true → q x ≡ true) → count p xs ≤ count q xs
  count_mono p q [] imp = omega arith
  count_mono p q (x ∷ xs) imp = ground (arith, imp x, count_mono p q xs imp)

  pub count-any : (p : A → Bool) (xs : List A) → any p xs ≡ false → count p xs ≡ 0
  count-any p [] h = refl
  count-any p (x ∷ xs) h = ground (arith, count-any p xs)

  pub any-count : (p : A → Bool) (xs : List A) → count p xs ≡ 0 → any p xs ≡ false
  any-count p [] h = refl
  any-count p (x ∷ xs) h = ground (arith, any-count p xs)

  -- Where `f` keeps what `g` reads, so does an update of one element.
  pub map-update_first {κ} :
      {B : Type κ} (g : A → B) (p : A → Bool) (f : A → A) (xs : List A)
      → ((x : A) → g (f x) ≡ g x)
      → map g (update_first p f xs) ≡ map g xs
  map-update_first g p f [] keep = refl
  map-update_first g p f (x ∷ xs) keep = ground (arith, keep x, map-update_first g p f xs keep)

-- The numbers ascend, from `lo` on and below `hi`.
abbrev pub Ascends : ℕ → ℕ → List ℕ → Type 0
Ascends lo hi [] = lo ≤ hi
Ascends lo hi (n ∷ ns) = (lo ≤ n) × Ascends (suc n) hi ns

pub Ascends-le : (lo hi : ℕ) (ns : List ℕ) → Ascends lo hi ns → lo ≤ hi
Ascends-le lo hi [] h = h
Ascends-le lo hi (n ∷ ns) h = omega (arith, Ascends-le (suc n) hi ns h.1)

pub Ascends-mono : (lo lo' hi : ℕ) (ns : List ℕ) → lo' ≤ lo → Ascends lo hi ns → Ascends lo' hi ns
Ascends-mono lo lo' hi [] le h = omega arith
Ascends-mono lo lo' hi (n ∷ ns) le h = (omega arith, h.1)

-- The upper bound as a new last number.
pub Ascends-snoc :
    (lo hi : ℕ) (ns : List ℕ) → Ascends lo hi ns → Ascends lo (suc hi) (ns ++ hi ∷ [])
Ascends-snoc lo hi [] h = (h, omega arith)
Ascends-snoc lo hi (n ∷ ns) h = (h.0, Ascends-snoc (suc n) hi ns h.1)

pub Ascends-retain {ℓ} :
    {A : Type ℓ} (g : A → ℕ) (p : A → Bool) (lo hi : ℕ) (xs : List A)
    → Ascends lo hi (map g xs)
    → Ascends lo hi (map g (retain p xs))
Ascends-retain g p lo hi [] h = h
Ascends-retain g p lo hi (x ∷ xs) h = elim (Bool-cases (p x)) [
  | inl e ↦ rw e (h.0, Ascends-retain g p (suc (g x)) hi xs h.1)
  | inr e ↦ rw e (
      Ascends-mono (suc (g x)) lo hi _ (omega (arith, h.0))
        (Ascends-retain g p (suc (g x)) hi xs h.1))
]
