-- ===== src/Grants/Table/Refines.antt =====
-- The grant table as what it promises: for each scope and key, at most one value with the time it was
-- granted. `Holdings` is that abstract view, and each call has its effect on it.
use secretsd.Base.{
  ℕ, ◌-◌, ◌≡◌, refl, ap, ◌∙◌, Bool, not, ◌&&◌, List, [], ◌∷◌, Option, none, some, Text, ◌==◌,
  if◌then◌else◌, find, ltb, find-append, arith,
}
use secretsd.Names.SecretName.{SecretName, SecretName_eq}
use secretsd.Grants.Token.{SessionToken, SessionToken_eq, Scope, Scope_eq}
use secretsd.Grants.Table.{
  Grant, GrantOrigin, GrantTable, empty, is_for, insert, revoke, revoke_scope, outlives_tokens,
  revoke_tokens, revoke_expired, revoke_all, has_terminal, revoke_missing_ttys,
}
use secretsd.Grants.Table.Lookup.{find-drop, find-keep_scope}
use secretsd.Grants.Table.Distinct.{
  IsDistinct, insert-IsDistinct, retain-Distinct, unexpired, find-unexpired,
}

-- A value, where it comes from, and when it was granted.
abbrev pub Holding : Type 0
Holding = List ℕ × GrantOrigin × ℕ

abbrev pub Holdings : Type 0
Holdings = Scope → SecretName → Option Holding

abbrev pub holding : Option Grant → Option Holding
holding none = none
holding (some grant) = some (grant.value, grant.origin, grant.created)

abbrev pub view : GrantTable → Holdings
view table s k = holding (find (is_for s k) table.grants)

-- A call that changes the table.
pub data Call : Type 0 where
  inserted : Scope → SecretName → List ℕ → ℕ → GrantOrigin → Call
  revoked : Scope → SecretName → Call
  scope_revoked : Scope → Call
  tokens_revoked : List SessionToken → Call
  expired : ℕ → ℕ → Call
  ttys_revoked : (Text → Bool) → Call
  all_revoked : Call

unfoldable pub call : GrantTable → Call → GrantTable
call table (inserted s k value now origin) = insert table s k value now origin
call table (revoked s k) = revoke table s k
call table (scope_revoked s) = revoke_scope table s
call table (tokens_revoked tokens) = revoke_tokens table tokens
call table (expired now max_age) = (revoke_expired table now max_age).0
call table (ttys_revoked exists) = revoke_missing_ttys exists table
call table all_revoked = revoke_all table

abbrev pub young : ℕ → ℕ → Option Holding → Option Holding
young now max_age none = none
young now max_age (some (value, origin, created)) =
    if ltb (now - created) max_age then some (value, origin, created) else none

-- What the call does to what is held for one scope and key.
abbrev pub promised : Call → Scope → SecretName → Option Holding → Option Holding
promised (inserted t j value now origin) s k held =
    if s == t && k == j then some (value, origin, now) else held
promised (revoked t j) s k held = if s == t && k == j then none else held
promised (scope_revoked t) s k held = if s == t then none else held
promised (tokens_revoked tokens) s k held = if outlives_tokens tokens s then held else none
promised (expired now max_age) s k held = young now max_age held
promised (ttys_revoked exists) s k held = if has_terminal exists s then held else none
promised all_revoked s k held = none

call-IsDistinct : (table : GrantTable) (c : Call) → IsDistinct table → IsDistinct (call table c)
unfolding call revoke revoke_scope revoke_tokens revoke_expired revoke_missing_ttys revoke_all
call-IsDistinct table (inserted s k value now origin) d =
    insert-IsDistinct table s k value now origin d
call-IsDistinct table (revoked s k) d = retain-Distinct _ table.grants d
call-IsDistinct table (scope_revoked s) d = retain-Distinct _ table.grants d
call-IsDistinct table (tokens_revoked tokens) d = retain-Distinct _ table.grants d
call-IsDistinct table (expired now max_age) d = retain-Distinct _ table.grants d
call-IsDistinct table (ttys_revoked exists) d = retain-Distinct _ table.grants d
call-IsDistinct table all_revoked d = tt

holding-unexpired :
    (now max_age : ℕ) (found : Option Grant)
    → holding (unexpired now max_age found) ≡ young now max_age (holding found)
holding-unexpired now max_age none = refl
holding-unexpired now max_age (some grant) = ground arith

call-promised :
    (table : GrantTable) (c : Call) (s : Scope) (k : SecretName)
    → IsDistinct table
    → view (call table c) s k ≡ promised c s k (view table s k)
unfolding call insert revoke revoke_scope revoke_tokens revoke_expired revoke_missing_ttys
    revoke_all
call-promised table (inserted t j value now origin) s k d =
    rw (find-append (is_for s k)) (rw (find-drop s t k j table.grants) (ground arith))
call-promised table (revoked t j) s k d = rw (find-drop s t k j table.grants) (ground arith)
call-promised table (scope_revoked t) s k d =
    rw (find-keep_scope (λ u. not (u == t)) s k table.grants) (ground arith)
call-promised table (tokens_revoked tokens) s k d =
    rw (find-keep_scope (outlives_tokens tokens) s k table.grants) (ground arith)
call-promised table (expired now max_age) s k d =
    rw (find-unexpired s k now max_age table.grants d)
      (holding-unexpired now max_age (find (is_for s k) table.grants))
call-promised table (ttys_revoked exists) s k d =
    rw (find-keep_scope (has_terminal exists) s k table.grants) (ground arith)
call-promised table all_revoked s k d = refl

-- A run of calls, on the table and on what is held.
abbrev pub run : GrantTable → List Call → GrantTable
run table [] = table
run table (c ∷ calls) = run (call table c) calls

abbrev pub promised_run : List Call → Scope → SecretName → Option Holding → Option Holding
promised_run [] s k held = held
promised_run (c ∷ calls) s k held = promised_run calls s k (promised c s k held)

run-promised :
    (calls : List Call) (table : GrantTable) (s : Scope) (k : SecretName)
    → IsDistinct table
    → view (run table calls) s k ≡ promised_run calls s k (view table s k)
run-promised [] table s k d = refl
run-promised (c ∷ calls) table s k d =
    run-promised calls (call table c) s k (call-IsDistinct table c d)
    ∙ ap (promised_run calls s k) (call-promised table c s k d)

-- The table refines what it promises: after any calls of an empty table, the view of it is the
-- function that the calls make, one after the other, of holding nothing.
pub run_refines :
    (calls : List Call) → view (run empty calls) ≡ (λ s k. promised_run calls s k none)
run_refines calls = λ i s k. run-promised calls empty s k tt i
