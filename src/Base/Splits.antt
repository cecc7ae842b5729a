-- ===== src/Base/Splits.antt =====
-- Laws of the splitting of texts: where the separator stands first, and where it does not.
use Prim.Native.Nat.{ℕ}
use mathlib.Core.Path.{◌≡◌, refl}
use mathlib.Core.Logic.{◌⊎◌, inl, inr}
use mathlib.Core.Bool.{Bool, true, false, not}
use mathlib.Core.Option.{none, some}
use mathlib.Core.List.{[], ◌∷◌, ◌++◌}
use native.Mathlib.Omega.{arith}
use secretsd.Base.Tests.{◌==◌, ℕ_eq, Bytes_eq, Bool-cases, Option-cases, eq_of_==, ==_refl}
use secretsd.Base.Lists.{all}
use secretsd.Base.Strings.{Text, split, split_once, strip_suffix}

-- The two ways in which a text that is not empty is split.
pub split_once-cases :
    (separator c : ℕ) (cs before after : Text)
    → split_once separator (c ∷ cs) ≡ some (before, after)
    → ((c ≡ separator) × (before ≡ []) × (after ≡ cs))
      ⊎ ((tail : Text) × ((c == separator) ≡ false)
          × (split_once separator cs ≡ some (tail, after))
          × (before ≡ c ∷ tail))
unfolding split_once
split_once-cases separator c cs before after h = elim (Bool-cases (c == separator)) [
  | inl e ↦ inl (eq_of_== c separator e, ground arith, ground arith)
  | inr e ↦ elim (Option-cases (split_once separator cs)) [
    | inl none_left ↦ absurd (ground arith)
    | inr ((tail, rest), found) ↦
        let same : rest ≡ after = ground arith in inr (tail, e, ground arith, ground arith)
  ]
]

pub strip_suffix-line : (line : Text) → strip_suffix (10 ∷ []) (line ++ 10 ∷ []) ≡ some line
unfolding strip_suffix
strip_suffix-line [] = ground arith
strip_suffix-line (c ∷ line) = ground (arith, strip_suffix-line line)

-- A separator that a text does not hold ends it.
pub split_once-append :
    (separator : ℕ) (before after : Text)
    → all (λ c. not (c == separator)) before ≡ true
    → split_once separator (before ++ separator ∷ after) ≡ some (before, after)
unfolding split_once
split_once-append separator [] after h = ground (arith, ==_refl separator)
split_once-append separator (c ∷ before) after h =
    ground (arith, split_once-append separator before after)

pub all_mono :
    (p q : ℕ → Bool) (text : Text)
    → ((c : ℕ) → p c ≡ true → q c ≡ true)
    → all p text ≡ true
    → all q text ≡ true
all_mono p q [] imp h = refl
all_mono p q (c ∷ cs) imp h = ground (arith, all_mono p q cs imp, imp c)

-- The parts of a text whose first part holds no separator.
pub split-append :
    (separator : ℕ) (first rest : Text)
    → all (λ c. not (c == separator)) first ≡ true
    → split separator (first ++ separator ∷ rest) ≡ first ∷ split separator rest
unfolding split
split-append separator [] rest h = ground (arith, ==_refl separator)
split-append separator (c ∷ first) rest h = ground (arith, split-append separator first rest)

pub split-single :
    (separator : ℕ) (text : Text)
    → all (λ c. not (c == separator)) text ≡ true
    → split separator text ≡ text ∷ []
unfolding split
split-single separator [] h = refl
split-single separator (c ∷ text) h = ground (arith, split-single separator text)

-- The first separator of two texts stands in the first one, or else in the second.
pub split_once_join :
    (separator : ℕ) (first second before after : Text)
    → split_once separator (first ++ second) ≡ some (before, after)
    → ((rest : Text) × (split_once separator first ≡ some (before, rest)))
      ⊎ ((tail : Text) × (split_once separator first ≡ none)
          × (split_once separator second ≡ some (tail, after))
          × (before ≡ first ++ tail))
unfolding split_once
split_once_join separator [] second before after h = inr (before, refl, h, refl)
split_once_join separator (c ∷ cs) second before after h =
    elim (split_once-cases separator c (cs ++ second) before after h) [
      | inl (e, none_before, same) ↦ inl (cs, ground (arith, ==_refl separator))
      | inr (tail, other, found, longer) ↦
          elim (split_once_join separator cs second tail after found) [
            | inl (rest, early) ↦ inl (rest, rw other (rw early (ground arith)))
            | inr (later, no_separator, late, same) ↦
                inr (later, rw other (rw no_separator), late, ground arith)
          ]
    ]
