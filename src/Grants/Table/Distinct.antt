-- ===== src/Grants/Table/Distinct.antt =====
-- At most one grant per scope and key, which every operation keeps, and expiry under it.
use secretsd.Base.{
  ℕ, ◌+◌, ◌≡◌, refl, Bool, true, false, List, [], ◌∷◌, ◌++◌, Option, none, some, Text,
  if◌then◌else◌, any, find, retain, length, length-retain-le, arith, any-append, any-retain,
  any-retain_dropped, inl, inr, Bool-cases, find-none, any_mono,
}
use secretsd.Names.SecretName.{SecretName, SecretName_eq}
use secretsd.Grants.Token.{SessionToken, SessionToken_eq, Scope, Scope_eq}
use secretsd.Grants.Table.{
  Grant, GrantOrigin, GrantTable, cached, is_for, lookup, insert, revoke, revoke_scope, revoke_all,
  revoke_tokens, is_fresh, revoke_expired, revoke_missing_ttys,
}

abbrev pub Distinct : List Grant → Type 0
Distinct [] = Unit
Distinct (g ∷ gs) = (any (is_for g.scope g.key) gs ≡ false) × Distinct gs

abbrev pub IsDistinct : GrantTable → Type 0
IsDistinct table = Distinct table.grants

pub retain-Distinct : (p : Grant → Bool) (gs : List Grant) → Distinct gs → Distinct (retain p gs)
retain-Distinct p [] d = tt
retain-Distinct p (g ∷ gs) d =
    ground (arith, retain-Distinct p gs d.1, any-retain (is_for g.scope g.key) p gs)

-- A new last grant, where none of its scope and key is there.
snoc-Distinct :
    (gs : List Grant) (new : Grant)
    → Distinct gs
    → any (is_for new.scope new.key) gs ≡ false
    → Distinct (gs ++ new ∷ [])
snoc-Distinct [] new d h = (refl, tt)
snoc-Distinct (g ∷ gs) new d h = (
  rw (any-append (is_for g.scope g.key) gs) (ground arith),
  snoc-Distinct gs new d.1 (ground arith),
)

-- `insert` keeps one grant per scope and key.
pub insert-IsDistinct :
    (table : GrantTable) (s : Scope) (k : SecretName) (value : List ℕ) (now : ℕ)
    (origin : GrantOrigin)
    → IsDistinct table
    → IsDistinct (insert table s k value now origin)
unfolding insert
insert-IsDistinct table s k value now origin d =
    snoc-Distinct _ _ (retain-Distinct _ table.grants d)
      (any-retain_dropped _ _ table.grants (λ g h. ground arith))

-- So do all the revocations.
pub revocations-IsDistinct :
    (table : GrantTable) (s : Scope) (k : SecretName) (tokens : List SessionToken) (now max_age : ℕ)
    (exists : Text → Bool)
    → IsDistinct table
    → IsDistinct (revoke table s k)
      × IsDistinct (revoke_scope table s)
      × IsDistinct (revoke_tokens table tokens)
      × IsDistinct (revoke_expired table now max_age).0
      × IsDistinct (revoke_missing_ttys exists table)
      × IsDistinct (revoke_all table)
unfolding revoke revoke_scope revoke_tokens revoke_expired revoke_missing_ttys revoke_all
revocations-IsDistinct table s k tokens now max_age exists d = (
  retain-Distinct _ table.grants d,
  retain-Distinct _ table.grants d,
  retain-Distinct _ table.grants d,
  retain-Distinct _ table.grants d,
  retain-Distinct _ table.grants d,
  tt,
)

-- What is found where a grant has aged.
abbrev pub unexpired : ℕ → ℕ → Option Grant → Option Grant
unexpired now max_age none = none
unexpired now max_age (some g) = if is_fresh now max_age g then some g else none

absent :
    (s : Scope) (k : SecretName) (g : Grant) (p : Grant → Bool) (gs : List Grant)
    → is_for s k g ≡ true
    → any (is_for g.scope g.key) gs ≡ false
    → find (is_for s k) (retain p gs) ≡ none
absent s k g p gs hit h = find-none (is_for s k) (retain p gs) (
    any-retain (is_for s k) p gs
      (any_mono (is_for s k) (is_for g.scope g.key) gs (λ x e. ground arith) h))

pub find-unexpired :
    (s : Scope) (k : SecretName) (now max_age : ℕ) (gs : List Grant)
    → Distinct gs
    → find (is_for s k) (retain (is_fresh now max_age) gs)
      ≡ unexpired now max_age (find (is_for s k) gs)
find-unexpired s k now max_age [] d = refl
find-unexpired s k now max_age (g ∷ gs) d = elim (Bool-cases (is_for s k g)) [
  | inl hit ↦
      ground (
        arith,
        absent s k g (is_fresh now max_age) gs hit d.0,
        find-unexpired s k now max_age gs d.1,
      )
  | inr miss ↦ ground (arith, find-unexpired s k now max_age gs d.1)
]

-- Under one grant per scope and key, expiry hides a grant exactly when its age has reached
-- `max_age`, and leaves every other lookup alone.
pub lookup-revoke_expired :
    (table : GrantTable) (now max_age : ℕ) (s : Scope) (k : SecretName)
    → IsDistinct table
    → lookup (revoke_expired table now max_age).0 s k
      ≡ cached (unexpired now max_age (find (is_for s k) table.grants))
unfolding lookup revoke_expired
lookup-revoke_expired table now max_age s k d = rw (find-unexpired s k now max_age table.grants d)

-- The count that expiry returns is of the grants removed.
pub length-revoke_expired :
    (table : GrantTable) (now max_age : ℕ)
    → length (revoke_expired table now max_age).0.grants + (revoke_expired table now max_age).1
      ≡ length table.grants
unfolding revoke_expired
length-revoke_expired table now max_age =
    omega (arith, length-retain-le (is_fresh now max_age) table.grants)
