-- ===== src/Server/Released.antt =====
-- Which requests release a secret: `dispatch` of src/server/dispatch.rs as a whole.
use secretsd.Base.{
  ℕ, ◌≡◌, refl, inl, inr, Bool, true, false, List, Option, none, some, Text, arith, ℕ_eq,
  Bool-cases,
}
use secretsd.Proto.ErrCode.{Result, ok, err}
use secretsd.Proto.Request.{
  Request, hello, register, unregister, get, request_grant, authorize, redeem, grants, deny, lock,
}
use secretsd.Peer.{PeerIdentity, ProcFs}
use secretsd.Names.SecretName.{SecretName}
use secretsd.Names.Capability.{Capability, key_name}
use secretsd.Grants.Token.{Scope, SessionToken}
use secretsd.Grants.Registry.{Registry}
use secretsd.Grants.Table.{lookup}
use secretsd.Requests.{RequestId}
use secretsd.Receipts.{ReceiptTable, Minted}
use secretsd.Store.FileIdentity.{FileIdentity}
use secretsd.Store.HumanStore.{FileSystem}
use secretsd.Server.State.{State, Decision, Outcome, value, released_bytes}
use secretsd.Server.Control.{
  revoke_displaced, register_token, record_mint, mint_outcome, receipt_mint_failure, mint_receipt,
  settle_outcome, finish_authorization, redeemed, redeem_as,
}
use secretsd.Server.Approval.{
  Access, Approval, resolve_access, begin_approval, conclude_access, granted_outcome,
}
use secretsd.Server.Access.{released_value}
use secretsd.Server.Dispatch.{
  Schedule, is_capability_key, greet, release, finish, await_begun, access_scope, dispatch_access,
  authorize_as, dispatch_key, dispatch,
}

-- The number of secret bytes in an answer.
abbrev disclosed : Option Decision → Option ℕ
disclosed none = none
disclosed (some decision) = released_bytes decision.outcome

register-silent :
    (state : State) (found : Registry × Result (List SessionToken))
    → released_bytes (revoke_displaced state found).1.outcome ≡ none
unfolding released_bytes
register-silent state (registry, ok displaced) = refl
register-silent state (registry, err error) = refl

register_token-silent :
    (state : State) (token : Result SessionToken) (session : Text) (root : PeerIdentity)
    → released_bytes (register_token state token session root).1.outcome ≡ none
unfolding register_token released_bytes
register_token-silent state (err error) session root = refl
register_token-silent state (ok token) session root = register-silent state (
    secretsd.Grants.Registry.register state.registry
      (record { token = token; session_id = session; root = root }))

redeem-silent :
    (state : State) (receipt_hex : Text) (cap : Result Capability) (now : ℕ)
    → released_bytes (redeem_as state receipt_hex cap now).1.outcome ≡ none
unfolding redeem_as redeemed released_bytes
redeem-silent state receipt_hex cap now = ground arith

record_mint-silent :
    (state : State) (minted : ReceiptTable × Minted)
    → released_bytes (record_mint state minted).1 ≡ none
unfolding record_mint mint_outcome receipt_mint_failure released_bytes
record_mint-silent state minted = ground arith

settle_outcome-silent :
    (state : State) (cap : Capability) (epoch now : ℕ) (entropy : Option (List (List ℕ)))
    (outcome : Outcome) (id : Option RequestId)
    → released_bytes outcome ≡ none
    → released_bytes (settle_outcome state cap epoch now entropy outcome id).1 ≡ none
unfolding settle_outcome mint_receipt released_bytes
settle_outcome-silent state cap epoch now entropy outcome id h =
    ground (arith, record_mint-silent state)

finish-silent :
    (schedule : Schedule) (cap : Capability) (epoch : ℕ) (found : State × Option Decision)
    → disclosed found.1 ≡ none
    → disclosed (finish schedule cap epoch found).1 ≡ none
unfolding finish finish_authorization
finish-silent schedule cap epoch (state, none) h = refl
finish-silent schedule cap epoch (state, some decision) h =
    settle_outcome-silent (schedule.before_finish state) cap epoch schedule.finish_now
      schedule.entropy decision.outcome decision.request_id h

conclude-silent :
    (state : State) (scope : Scope) (key : SecretName) (approval : Approval)
    → released_bytes (conclude_access state scope key false approval).outcome ≡ none
unfolding conclude_access granted_outcome released_bytes
conclude-silent state scope key approval = ground arith

release-silent :
    (schedule : Schedule) (scope : Scope) (key : SecretName) (found : State × Option Approval)
    → disclosed (release schedule scope key false found).1 ≡ none
unfolding release
release-silent schedule scope key (state, none) = refl
release-silent schedule scope key (state, some approval) =
    conclude-silent (schedule.before_release state) scope key approval

-- The scope's grant for the key holds the secret.
pub Held : State → Scope → SecretName → List ℕ → Type 0
Held state scope key secret =
    (source : Text) × (recorded : FileIdentity) × (lookup state.grants scope key
      ≡ some (secret, source, recorded))

release_value :
    (schedule : Schedule) (scope : Scope) (key : SecretName) (return_value : Bool)
    (found : State × Option Approval) (decision : Decision) (secret : List ℕ)
    → (release schedule scope key return_value found).1 ≡ some decision
    → decision.outcome ≡ value secret
    → (return_value ≡ true)
      × Held (release schedule scope key return_value found).0 scope key secret
unfolding release Held
release_value schedule scope key return_value (state, none) decision secret h e = absurd (cc h)
release_value schedule scope key return_value (state, some approval) decision secret h e =
    released_value (schedule.before_release state) scope key return_value approval secret
      (ground arith)

module _ (proc : ProcFs) (fs : FileSystem) (caller : PeerIdentity) (schedule : Schedule) where
  access_scope-silent :
      (force_fresh : Bool) (found : State × Result (Scope × SecretName))
      → disclosed (access_scope proc fs caller schedule false force_fresh found).1 ≡ none
  unfolding access_scope released_bytes
  access_scope-silent force_fresh (state, err error) = refl
  access_scope-silent force_fresh (state, ok (scope, key)) = release-silent schedule scope key (
      await_begun schedule (
        begin_approval fs (schedule.before_approval state) scope key force_fresh
          schedule.begin_now))

  authorize-silent :
      (state : State) (cap : Result Capability) (token_hex tty : Option Text)
      → disclosed (authorize_as proc fs caller schedule state cap token_hex tty).1 ≡ none
  unfolding authorize_as dispatch_access released_bytes
  authorize-silent state (err error) token_hex tty = refl
  authorize-silent state (ok cap) token_hex tty =
      let before = schedule.before_resolve state in
      let access : Access = record { key = key_name cap; token_hex = token_hex; tty = tty } in
      finish-silent schedule cap state.lock_epoch
        (dispatch_access proc fs caller schedule before access false true)
        (access_scope-silent true (resolve_access proc before access caller))

  dispatch_key-silent :
      (state : State) (key : Text) (token_hex tty : Option Text)
      → disclosed (dispatch_key proc fs caller schedule state key token_hex tty false).1 ≡ none
  unfolding dispatch_key dispatch_access released_bytes
  dispatch_key-silent state key token_hex tty =
      let access : Access = record { key = key; token_hex = token_hex; tty = tty } in
      ground (arith, access_scope-silent false (resolve_access proc state access caller))

  -- The access resolves to a scope and a name, for which the state afterwards holds the secret.
  pub Released : State → State → Access → List ℕ → Type 0
  Released state after access secret =
      (scope : Scope) × (name : SecretName) × ((resolve_access proc state access caller).1
        ≡ ok (scope, name))
      × Held after scope name secret

  access_scope_value :
      (return_value : Bool) (found : State × Result (Scope × SecretName)) (decision : Decision)
      (secret : List ℕ)
      → (access_scope proc fs caller schedule return_value false found).1 ≡ some decision
      → decision.outcome ≡ value secret
      → (scope : Scope) × (name : SecretName) × (found.1 ≡ ok (scope, name))
        × Held (access_scope proc fs caller schedule return_value false found).0 scope name secret
  unfolding access_scope
  access_scope_value return_value (state, err error) decision secret h e = absurd (ground arith)
  access_scope_value return_value (state, ok (scope, key)) decision secret h e =
      let held =
        release_value schedule scope key return_value
          (await_begun schedule
            (begin_approval fs (schedule.before_approval state) scope key false schedule.begin_now))
          decision secret h e in
      (scope, key, refl, held.1)

  silent_releases :
      (found : Option Decision) (decision : Decision) (secret : List ℕ)
      → disclosed found ≡ none
      → found ≡ some decision
      → decision.outcome ≡ value secret
      → ⊥
  unfolding released_bytes
  silent_releases found decision secret silent h e = ground arith

  get_releases :
      (state : State) (key : Text) (token_hex tty : Option Text) (decision : Decision)
      (secret : List ℕ)
      → (dispatch_key proc fs caller schedule state key token_hex tty true).1 ≡ some decision
      → decision.outcome ≡ value secret
      → (is_capability_key key ≡ false)
        × Released state
            (dispatch_key proc fs caller schedule state key token_hex tty true).0
            (record { key = key; token_hex = token_hex; tty = tty })
            secret
  unfolding dispatch_key dispatch_access Released
  get_releases state key token_hex tty decision secret h e =
      let access : Access = record { key = key; token_hex = token_hex; tty = tty } in
      elim (Bool-cases (is_capability_key key)) [
        | inl reserved ↦ absurd (ground arith)
        | inr plain_key ↦ (
          plain_key,
          rw plain_key (
              access_scope_value true (resolve_access proc state access caller) decision secret
                (ground arith) e),
        )
      ]

  -- Only a GET releases a secret, and never for a key of the capability namespace: the token and
  -- the terminal of the request resolve to a scope, and the secret is the value that this scope's
  -- grant for the key holds when it is read.
  pub dispatch_releases :
      (state : State) (request : Request) (decision : Decision) (secret : List ℕ)
      → (dispatch proc fs caller schedule state request).1 ≡ some decision
      → decision.outcome ≡ value secret
      → (key : Text) × (token_hex : Option Text) × (tty : Option Text) × (request
          ≡ get key token_hex tty)
        × (is_capability_key key ≡ false)
        × Released state
            (dispatch proc fs caller schedule state request).0
            (record { key = key; token_hex = token_hex; tty = tty })
            secret
  unfolding dispatch greet secretsd.Server.Control.register secretsd.Server.Control.redeem
      secretsd.Server.Control.unregister secretsd.Server.Control.grants secretsd.Server.Control.deny
      secretsd.Server.Control.lock
  dispatch_releases state (hello version) decision secret h e = absurd (ground arith)
  dispatch_releases state (register token_hex session pid) decision secret h e = absurd (
      silent_releases _ decision secret
        (register_token-silent state (secretsd.Grants.Token.parse_hex token_hex) session caller) h
        e)
  dispatch_releases state (unregister session) decision secret h e = absurd (ground arith)
  dispatch_releases state (get key token_hex tty) decision secret h e =
      let found = get_releases state key token_hex tty decision secret h e in
      (key, token_hex, tty, refl, found.0, found.1)
  dispatch_releases state (request_grant key token_hex tty) decision secret h e =
      absurd (silent_releases _ decision secret (dispatch_key-silent state key token_hex tty) h e)
  dispatch_releases state (authorize name token_hex tty) decision secret h e = absurd (
      silent_releases _ decision secret
        (authorize-silent state (secretsd.Names.Capability.parse name) token_hex tty) h e)
  dispatch_releases state (redeem receipt_hex cap) decision secret h e = absurd (
      silent_releases _ decision secret
        (redeem-silent state receipt_hex (secretsd.Names.Capability.parse cap) schedule.finish_now)
        h e)
  dispatch_releases state grants decision secret h e = absurd (ground arith)
  dispatch_releases state (deny id) decision secret h e = absurd (ground arith)
  dispatch_releases state lock decision secret h e = absurd (ground arith)
