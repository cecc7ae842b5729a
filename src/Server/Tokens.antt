-- ===== src/Server/Tokens.antt =====
-- A session's grants go with its token: every grant of a session belongs to a registered token.
use secretsd.Base.{
  ℕ, ◌≡◌, refl, ◌∙◌, Bool, true, false, not, List, [], ◌∷◌, ◌++◌, Text, ◌==◌, arith, any, find,
  retain, any-append, any-retain, any_of_find, inl, inr, Bool-cases, Option-cases,
}
use secretsd.Proto.ErrCode.{ErrCode, Result, ok, err}
use secretsd.Names.SecretName.{SecretName}
use secretsd.Peer.{PeerIdentity, ProcFs}
use secretsd.Grants.Token.{SessionToken, SessionToken_eq, Scope, session, terminal}
use secretsd.Grants.Registry.{
  Registration, Registry, has_token, has_session, tokens_of, without_session, registration, resolve,
  learn_tty,
}
use secretsd.Grants.Table.{
  Grant, GrantOrigin, GrantTable, outlives_tokens, revoke_tokens, insert, is_for,
}
use secretsd.Server.State.{State, kill_active}
use secretsd.Server.Control.{register, register_token, revoke_displaced, unregister}
use secretsd.Server.Approval.{Access, resolve_access, with_key}
use secretsd.Server.Worker.{Job, Decrypted, conclude, grant, may_insert, is_active_scope}
use secretsd.Server.Conclude.{is_accepted, conclude-grants}
use secretsd.Requests.Ids.{IsOrdered}

-- A session whose token is not registered.
abbrev pub is_orphan : List Registration → Scope → Bool
is_orphan sessions (session token) = not (any (has_token token) sessions)
is_orphan sessions (terminal tty boot_id) = false

abbrev pub HasNoOrphan : Registry → GrantTable → Type 0
HasNoOrphan registry table =
    any (λ grant. is_orphan registry.sessions grant.scope) table.grants ≡ false

-- A token keeps an entry if it is not among those of the session.
kept_known :
    (name : Text) (t : SessionToken) (rs : List Registration)
    → any (has_token t) rs ≡ true
    → any (λ other. other == t) (tokens_of name rs) ≡ false
    → any (has_token t) (without_session name rs) ≡ true
kept_known name t [] e h = cc
kept_known name t (r ∷ rs) e h = ground (arith, kept_known name t rs)

-- What is left of the grants where only scopes that are no orphans later on are kept.
orphans-retain :
    (before after : List Registration) (keep : Scope → Bool) (gs : List Grant)
    → ((s : Scope) → keep s ≡ true → is_orphan before s ≡ false → is_orphan after s ≡ false)
    → any (λ g. is_orphan before g.scope) gs ≡ false
    → any (λ g. is_orphan after g.scope) (retain (λ g. keep g.scope) gs) ≡ false
orphans-retain before after keep [] imp h = refl
orphans-retain before after keep (g ∷ gs) imp h =
    ground (arith, imp g.scope, orphans-retain before after keep gs imp)

kept_scope :
    (registry after : Registry) (name : Text)
    → ((t : SessionToken)
        → any (has_token t) (without_session name registry.sessions) ≡ true
        → any (has_token t) after.sessions ≡ true)
    → (s : Scope) → outlives_tokens (tokens_of name registry.sessions) s ≡ true
    → is_orphan registry.sessions s ≡ false
    → is_orphan after.sessions s ≡ false
kept_scope registry after name keeps (session t) k e =
    ground (arith, kept_known name t registry.sessions, keeps t)
kept_scope registry after name keeps (terminal tty boot_id) k e = refl

-- Where the tokens of a session are forgotten and their grants revoked, no orphan is left.
forget-HasNoOrphan :
    (registry after : Registry) (table : GrantTable) (name : Text)
    → ((t : SessionToken)
        → any (has_token t) (without_session name registry.sessions) ≡ true
        → any (has_token t) after.sessions ≡ true)
    → HasNoOrphan registry table
    → HasNoOrphan after (revoke_tokens table (tokens_of name registry.sessions))
unfolding revoke_tokens
forget-HasNoOrphan registry after table name keeps h =
    orphans-retain registry.sessions after.sessions
      (outlives_tokens (tokens_of name registry.sessions)) table.grants
      (kept_scope registry after name keeps) h

known_append :
    (t : SessionToken) (rs more : List Registration)
    → any (has_token t) rs ≡ true
    → any (has_token t) (rs ++ more) ≡ true
known_append t rs more h = rw (any-append (has_token t) rs more) (ground arith)

register_ok :
    (registry : Registry) (new : Registration) (table : GrantTable) (displaced : List SessionToken)
    → (secretsd.Grants.Registry.register registry new).1 ≡ ok displaced
    → HasNoOrphan registry table
    → HasNoOrphan (secretsd.Grants.Registry.register registry new).0 (revoke_tokens table displaced)
unfolding secretsd.Grants.Registry.register revoke_tokens
register_ok registry new table displaced e h =
    elim (Bool-cases (any (has_token new.token) registry.sessions)) [
      | inl known ↦ rw known (any-retain _ _ table.grants h)
      | inr fresh ↦
          let same : displaced ≡ tokens_of new.session_id registry.sessions = ground arith in
          rw (fresh, same)
            (forget-HasNoOrphan registry
              (record registry {
                sessions = without_session new.session_id registry.sessions ++ new ∷ [];
              })
              table new.session_id
              (λ t. known_append t (without_session new.session_id registry.sessions) (new ∷ [])) h)
    ]

register_err :
    (registry : Registry) (new : Registration) (error : ErrCode)
    → (secretsd.Grants.Registry.register registry new).1 ≡ err error
    → (secretsd.Grants.Registry.register registry new).0 ≡ registry
unfolding secretsd.Grants.Registry.register
register_err registry new error e = ground arith

revoked-HasNoOrphan :
    (state : State) (result : Registry × Result (List SessionToken))
    → ((displaced : List SessionToken)
        → result.1 ≡ ok displaced
        → HasNoOrphan result.0 (revoke_tokens state.grants displaced))
    → ((error : ErrCode) → result.1 ≡ err error → result.0 ≡ state.registry)
    → HasNoOrphan state.registry state.grants
    → HasNoOrphan
        (revoke_displaced state result).0.registry
        (revoke_displaced state result).0.grants
revoked-HasNoOrphan state (registry, ok displaced) made same h = made displaced refl
revoked-HasNoOrphan state (registry, err error) made same h = rw (same error refl) h

register_token-HasNoOrphan :
    (state : State) (token : Result SessionToken) (name : Text) (root : PeerIdentity)
    → HasNoOrphan state.registry state.grants
    → HasNoOrphan
        (register_token state token name root).0.registry
        (register_token state token name root).0.grants
unfolding register_token
register_token-HasNoOrphan state (err error) name root h = h
register_token-HasNoOrphan state (ok token) name root h =
    let new : Registration = record { token = token; session_id = name; root = root } in
    revoked-HasNoOrphan state (secretsd.Grants.Registry.register state.registry new)
      (λ displaced e. register_ok state.registry new state.grants displaced e h)
      (register_err state.registry new) h

-- `register` revokes the grants of the tokens that it displaces.
pub register-HasNoOrphan :
    (state : State) (token_hex name : Text) (root : PeerIdentity)
    → HasNoOrphan state.registry state.grants
    → HasNoOrphan
        (register state token_hex name root).0.registry
        (register state token_hex name root).0.grants
unfolding register
register-HasNoOrphan state token_hex name root =
    register_token-HasNoOrphan state (secretsd.Grants.Token.parse_hex token_hex) name root

-- `unregister` revokes the grants of the tokens that it forgets.
pub unregister-HasNoOrphan :
    (state : State) (name : Text)
    → HasNoOrphan state.registry state.grants
    → HasNoOrphan (unregister state name).0.registry (unregister state name).0.grants
unfolding unregister secretsd.Grants.Registry.unregister
unregister-HasNoOrphan state name h =
    forget-HasNoOrphan state.registry
      (record state.registry { sessions = without_session name state.registry.sessions })
      state.grants name (λ t known. known) h

pub resolve_access-sessions :
    (proc : ProcFs) (state : State) (access : Access) (caller : PeerIdentity)
    → ((resolve_access proc state access caller).0.registry.sessions ≡ state.registry.sessions)
      × ((resolve_access proc state access caller).0.grants ≡ state.grants)
unfolding resolve_access with_key resolve learn_tty
resolve_access-sessions proc state access caller = ground arith

conclude-registry :
    (proc : ProcFs) (exists : Text → Bool) (state : State) (job : Job) (result : Result Decrypted)
    (now : ℕ)
    → (conclude proc exists state job result now).registry ≡ state.registry
unfolding conclude grant kill_active
conclude-registry proc exists state job (ok d) now = ground arith
conclude-registry proc exists state job (err error) now = ground arith

active_known :
    (proc : ProcFs) (exists : Text → Bool) (registry : Registry) (scope : Scope)
    → is_active_scope proc exists registry scope ≡ true
    → is_orphan registry.sessions scope ≡ false
unfolding is_active_scope registration
active_known proc exists registry (session token) h =
    elim (Option-cases (find (has_token token) registry.sessions)) [
      | inl e ↦ absurd (ground arith)
      | inr (r, e) ↦ ground (arith, any_of_find (has_token token) registry.sessions r e)
    ]
active_known proc exists registry (terminal tty boot_id) h = refl

insert-HasNoOrphan :
    (registry : Registry) (table : GrantTable) (scope : Scope) (key : SecretName) (value : List ℕ)
    (now : ℕ) (origin : GrantOrigin)
    → is_orphan registry.sessions scope ≡ false
    → HasNoOrphan registry table
    → HasNoOrphan registry (insert table scope key value now origin)
unfolding insert
insert-HasNoOrphan registry table scope key value now origin known h =
    any-append (λ (g : Grant). is_orphan registry.sessions g.scope)
      (retain (λ g. not (is_for scope key g)) table.grants)
      (record { scope = scope; key = key; value = value; origin = origin; created = now } ∷ [])
    ∙ ground (
      arith,
      any-retain (λ g. is_orphan registry.sessions g.scope) (λ g. not (is_for scope key g))
          table.grants h,
    )

may_insert_known :
    (proc : ProcFs) (exists : Text → Bool) (state : State) (job : Job)
    → may_insert proc exists state job ≡ true
    → is_orphan state.registry.sessions job.scope ≡ false
unfolding may_insert
may_insert_known proc exists state job h =
    active_known proc exists state.registry job.scope (ground arith)

-- A finished decrypt inserts a grant for a registered token only.
pub conclude-HasNoOrphan :
    (proc : ProcFs) (exists : Text → Bool) (state : State) (job : Job) (result : Result Decrypted)
    (now : ℕ)
    → IsOrdered state.queue
    → HasNoOrphan state.registry state.grants
    → HasNoOrphan
        (conclude proc exists state job result now).registry
        (conclude proc exists state job result now).grants
conclude-HasNoOrphan proc exists state job (ok d) now o h =
    rw
      (
        conclude-registry proc exists state job (ok d) now,
        (conclude-grants proc exists state job now o).0 d,
      )
      (elim (Bool-cases (is_accepted proc exists state job)) [
        | inl e ↦ rw e (
            insert-HasNoOrphan state.registry state.grants job.scope job.key d.value now d.origin
              (may_insert_known proc exists state job (ground arith)) h)
        | inr e ↦ rw e h
      ])
conclude-HasNoOrphan proc exists state job (err error) now o h =
    rw
      (
        conclude-registry proc exists state job (err error) now,
        (conclude-grants proc exists state job now o).1 error,
      )
      h
