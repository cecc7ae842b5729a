-- ===== src/Grants/Table/Lookup.antt =====
-- What each operation of the grant table leaves to be looked up.
use secretsd.Base.{
  ℕ, ◌≡◌, Bool, true, false, not, ◌&&◌, List, [], ◌∷◌, none, some, Text, ◌==◌, if◌then◌else◌, find,
  retain, arith, find-append, find-retain_kept, find-retain_dropped, inl, inr, Bool-cases,
}
use secretsd.Names.SecretName.{SecretName, SecretName_eq}
use secretsd.Grants.Token.{SessionToken, SessionToken_eq, Scope, Scope_eq}
use secretsd.Grants.Table.{
  Grant, GrantOrigin, GrantTable, is_for, lookup, insert, revoke, revoke_scope, outlives_tokens,
  revoke_tokens, has_terminal, revoke_missing_ttys,
}

-- Two tests for the same or for different owners.
is_for_ne :
    (s t : Scope) (k j : SecretName) (g : Grant)
    → (s == t && k == j) ≡ false
    → is_for s k g ≡ true
    → is_for t j g ≡ false
is_for_ne s t k j g h e = ground arith

pub find-drop :
    (s t : Scope) (k j : SecretName) (gs : List Grant)
    → find (is_for s k) (retain (λ g. not (is_for t j g)) gs)
      ≡ (if s == t && k == j then none else find (is_for s k) gs)
find-drop s t k j gs = elim (Bool-cases (s == t && k == j)) [
  | inl e ↦ rw e (find-retain_dropped _ _ gs (λ g h. ground arith))
  | inr e ↦ rw e (find-retain_kept _ _ gs (λ g h. ground (arith, is_for_ne s t k j g)))
]

-- After `insert` the new grant is found for its scope and key, and for any other scope or key
-- what was found before.
pub lookup-insert :
    (table : GrantTable) (s t : Scope) (k j : SecretName) (value : List ℕ) (now : ℕ)
    (origin : GrantOrigin)
    → lookup (insert table t j value now origin) s k ≡ (
        if s == t && k == j then some (value, origin.source, origin.identity) else lookup table s k)
unfolding lookup insert
lookup-insert table s t k j value now origin =
    rw (find-append (is_for s k)) (rw (find-drop s t k j table.grants) (ground arith))

-- After `revoke` nothing is found for the scope and key, and what was found before for others.
pub lookup-revoke :
    (table : GrantTable) (s t : Scope) (k j : SecretName)
    → lookup (revoke table t j) s k ≡ (if s == t && k == j then none else lookup table s k)
unfolding lookup revoke
lookup-revoke table s t k j = rw (find-drop s t k j table.grants) (ground arith)

-- What a test of the scope keeps or drops decides for the whole scope.
pub find-keep_scope :
    (keep : Scope → Bool) (s : Scope) (k : SecretName) (gs : List Grant)
    → find (is_for s k) (retain (λ g. keep g.scope) gs)
      ≡ (if keep s then find (is_for s k) gs else none)
find-keep_scope keep s k [] = ground arith
find-keep_scope keep s k (g ∷ gs) = ground (arith, find-keep_scope keep s k gs)

lookup-keep_scope :
    (keep : Scope → Bool) (table : GrantTable) (s : Scope) (k : SecretName)
    → lookup (record { grants = retain (λ g. keep g.scope) table.grants }) s k
      ≡ (if keep s then lookup table s k else none)
unfolding lookup
lookup-keep_scope keep table s k = rw (find-keep_scope keep s k table.grants) (ground arith)

-- `revoke_scope` drops every key of the scope and nothing else.
pub lookup-revoke_scope :
    (table : GrantTable) (s t : Scope) (k : SecretName)
    → lookup (revoke_scope table t) s k ≡ (if s == t then none else lookup table s k)
unfolding revoke_scope
lookup-revoke_scope table s t k =
    rw (lookup-keep_scope (λ u. not (u == t)) table s k) (ground arith)

-- `revoke_tokens` drops every key of a session whose token is listed, and nothing of another
-- session or of a terminal.
pub lookup-revoke_tokens :
    (table : GrantTable) (tokens : List SessionToken) (s : Scope) (k : SecretName)
    → lookup (revoke_tokens table tokens) s k
      ≡ (if outlives_tokens tokens s then lookup table s k else none)
unfolding revoke_tokens
lookup-revoke_tokens table tokens s k = lookup-keep_scope (outlives_tokens tokens) table s k

-- `revoke_missing_ttys` drops every key of a terminal whose device is gone, and nothing else.
pub lookup-revoke_missing_ttys :
    (exists : Text → Bool) (table : GrantTable) (s : Scope) (k : SecretName)
    → lookup (revoke_missing_ttys exists table) s k
      ≡ (if has_terminal exists s then lookup table s k else none)
unfolding revoke_missing_ttys
lookup-revoke_missing_ttys exists table s k = lookup-keep_scope (has_terminal exists) table s k
