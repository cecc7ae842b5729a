-- ===== src/Grants/Table.antt =====
-- Live grants: `Grant`, `GrantOrigin` and `GrantTable` of src/grants.rs.
pub mod Lookup
pub mod Distinct
pub mod Refines
use secretsd.Base.{
  ℕ, ◌-◌, ◌/◌, Bool, true, false, not, ◌&&◌, List, [], ◌∷◌, ◌++◌, Option, none, some, Text, bytes,
  decimal, ◌==◌, Eq, if◌then◌else◌, ltb, any, find, retain, length, ℤ, ℕ_discrete,
}
use secretsd.Names.SecretName.{SecretName, SecretName_eq}
use secretsd.Store.FileIdentity.{FileIdentity}
use secretsd.Grants.Token.{SessionToken, SessionToken_eq, Scope, session, terminal, Scope_eq}

pub record GrantOrigin : Type 0 where
  pub source : Text
  pub identity : FileIdentity

-- Instants are nanoseconds of the monotonic clock.
pub record Grant : Type 0 where
  pub scope : Scope
  pub key : SecretName
  pub value : List ℕ
  pub origin : GrantOrigin
  pub created : ℕ

pub record GrantTable : Type 0 where
  pub grants : List Grant

abbrev pub empty : GrantTable
empty = record { grants = [] }

abbrev pub is_for : Scope → SecretName → Grant → Bool
is_for scope key grant = grant.scope == scope && grant.key == key

-- What a lookup hands out of a grant: its value, its source label and its file's identity.
abbrev pub Cached : Type 0
Cached = List ℕ × Text × FileIdentity

abbrev pub cached : Option Grant → Option Cached
cached none = none
cached (some grant) = some (grant.value, grant.origin.source, grant.origin.identity)

unfoldable pub lookup : GrantTable → Scope → SecretName → Option Cached
lookup table scope key = cached (find (is_for scope key) table.grants)

unfoldable pub revoke : GrantTable → Scope → SecretName → GrantTable
revoke table scope key = record {
  grants = retain (λ grant. not (is_for scope key grant)) table.grants;
}

unfoldable pub insert : GrantTable → Scope → SecretName → List ℕ → ℕ → GrantOrigin → GrantTable
insert table scope key value created origin = record {
  grants =
      retain (λ grant. not (is_for scope key grant)) table.grants
      ++ record { scope = scope; key = key; value = value; origin = origin; created = created }
        ∷ [];
}

unfoldable pub revoke_scope : GrantTable → Scope → GrantTable
revoke_scope table scope = record {
  grants = retain (λ grant. not (grant.scope == scope)) table.grants;
}

abbrev pub outlives_tokens : List SessionToken → Scope → Bool
outlives_tokens tokens (session token) = not (any (λ other. other == token) tokens)
outlives_tokens tokens (terminal tty boot_id) = true

unfoldable pub revoke_tokens : GrantTable → List SessionToken → GrantTable
revoke_tokens table tokens = record {
  grants = retain (λ grant. outlives_tokens tokens grant.scope) table.grants;
}

-- `now.duration_since(created)` is 0 where `created` lies ahead.
abbrev pub is_fresh : ℕ → ℕ → Grant → Bool
is_fresh now max_age grant = ltb (now - grant.created) max_age

unfoldable pub revoke_expired : GrantTable → ℕ → ℕ → GrantTable × ℕ
revoke_expired table now max_age =
    let kept = retain (is_fresh now max_age) table.grants in
    (record { grants = kept }, length table.grants - length kept)

unfoldable pub revoke_all : GrantTable → GrantTable
revoke_all table = empty

-- `exists` says which device paths are there.
abbrev pub has_terminal : (Text → Bool) → Scope → Bool
has_terminal exists (session token) = true
has_terminal exists (terminal tty boot_id) = exists tty

unfoldable pub revoke_missing_ttys : (Text → Bool) → GrantTable → GrantTable
revoke_missing_ttys exists table = record {
  grants = retain (λ grant. has_terminal exists grant.scope) table.grants;
}

unfoldable pub is_empty : GrantTable → Bool
is_empty table = elim table.grants [ [] ↦ true | grant ∷ rest ↦ false ]

render_scope : Scope → Text
render_scope (session token) = bytes "session"
render_scope (terminal tty boot_id) = bytes "tty " ++ tty

abbrev nanos_per_sec : ℕ
nanos_per_sec = 1000000000

tab : Text
tab = 9 ∷ []

render_grant : ℕ → Grant → Text
unfolding render_scope tab
render_grant now grant =
    grant.key.as_str
    ++ (tab
        ++ (render_scope grant.scope
            ++ (tab
                ++ (decimal ((now - grant.created) / nanos_per_sec) ++ (bytes "s" ++ 10 ∷ [])))))

render_rows : ℕ → List Grant → Text
unfolding render_grant
render_rows now [] = []
render_rows now (grant ∷ grants) = render_grant now grant ++ render_rows now grants

unfoldable pub render : GrantTable → ℕ → Text
unfolding is_empty render_rows tab
render table now =
    if is_empty table
    then bytes "no active grants" ++ 10 ∷ []
    else bytes "KEY"
      ++ (tab ++ (bytes "SCOPE" ++ (tab ++ (bytes "AGE" ++ (10 ∷ render_rows now table.grants)))))
