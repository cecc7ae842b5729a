-- ===== src/Server/Access.antt =====
-- What a granted access hands out: the cached value of the caller's own scope, while the file it
-- came from is unchanged.
use secretsd.Base.{
  ℕ, ◌≡◌, refl, sym, ap, ◌≢◌, Bool, true, false, List, Option, none, some, Text, arith, inl, inr,
  Bool-cases, Option-cases, eq_of_==,
}
use secretsd.Proto.ErrCode.{Result, ok, err}
use secretsd.Names.SecretName.{SecretName}
use secretsd.Grants.Token.{Scope}
use secretsd.Grants.Table.{lookup, Cached}
use secretsd.Store.FileIdentity.{FileIdentity, FileIdentity_eq}
use secretsd.Store.HumanStore.{FileSystem, identity}
use secretsd.Server.State.{State, value}
use secretsd.Server.Approval.{
  begin_approval, drop_grant, ask, ask_within, ask_human, is_current, settled, granted_from,
  Approval, conclude_access, granted_outcome, cached_value, refused, incomplete,
}

ask_waits :
    (fs : FileSystem) (state : State) (scope : Scope) (key : SecretName) (now : ℕ)
    (source : Option Text)
    → (ask fs state scope key now).1 ≢ settled (granted_from source none)
unfolding ask ask_within ask_human
ask_waits fs state scope key now source h = ground arith

current_identity :
    (found : Result FileIdentity) (recorded : FileIdentity)
    → is_current found recorded ≡ true
    → found ≡ ok recorded
unfolding is_current
current_identity (err error) recorded h = absurd (ground arith)
current_identity (ok current) recorded h = ap ok (eq_of_== current recorded h)

-- A request is answered from the cache only where the caller's scope has a grant for the key, the
-- file that backs the key has the identity recorded with the grant, and no fresh approval is asked
-- for; the state is not changed then.
pub served_from_cache :
    (fs : FileSystem) (state : State) (scope : Scope) (key : SecretName) (force_fresh : Bool)
    (now : ℕ) (source : Option Text)
    → (begin_approval fs state scope key force_fresh now).1 ≡ settled (granted_from source none)
    → (entry : Cached) × (lookup state.grants scope key ≡ some entry)
      × (identity fs state.config.human_sources key ≡ ok entry.2)
      × (force_fresh ≡ false)
      × ((begin_approval fs state scope key force_fresh now).0 ≡ state)
unfolding begin_approval
served_from_cache fs state scope key force_fresh now source h =
    elim (Option-cases (lookup state.grants scope key)) [
      | inl e ↦ absurd (ask_waits fs state scope key now source (ground arith))
      | inr ((secret, label, recorded), e) ↦
          elim (Bool-cases (is_current (identity fs state.config.human_sources key) recorded)) [
            | inl current ↦ elim (Bool-cases force_fresh) [
              | inl fresh ↦
                  absurd
                    (ask_waits fs (drop_grant state scope key) scope key now source (ground arith))
              | inr reuse ↦ (
                (secret, label, recorded),
                e,
                current_identity (identity fs state.config.human_sources key) recorded current,
                reuse,
                ground arith,
              )
            ]
            | inr changed ↦
                absurd
                  (ask_waits fs (drop_grant state scope key) scope key now source (ground arith))
          ]
    ]

-- The end of an access releases a secret only where the value was asked for, and the secret is the
-- value that the scope's grant for the key holds at that time.
pub released_value :
    (state : State) (scope : Scope) (key : SecretName) (return_value : Bool) (approval : Approval)
    (secret : List ℕ)
    → (conclude_access state scope key return_value approval).outcome ≡ value secret
    → (return_value ≡ true)
      × ((source : Text) × (recorded : FileIdentity) × (lookup state.grants scope key
            ≡ some (secret, source, recorded)))
unfolding conclude_access granted_outcome cached_value
released_value state scope key return_value (refused error) secret h = absurd (cc h)
released_value state scope key return_value (incomplete error id) secret h = absurd (cc h)
released_value state scope key false (granted_from source id) secret h = absurd (cc h)
released_value state scope key true (granted_from source id) secret h =
    elim (Option-cases (lookup state.grants scope key)) [
      | inl e ↦ absurd (ground arith)
      | inr ((cached, label, recorded), e) ↦
          let same : cached ≡ secret = ground arith in (refl, (label, recorded, rw (sym same) e))
    ]
