-- ===== src/Server/Sessions.antt =====
-- No grant outlives its session: `HasNoOrphan` through every step of the daemon.
use secretsd.Base.{
  ℕ, ◌≡◌, refl, Bool, true, false, List, [], ◌∷◌, Option, none, some, Text, ℤ, eq_of_==, arith, any,
  find, retain, any-retain, find_of_any, inl, inr, Bool-cases, ◌⊎◌, is_some,
}
use mathlib.Core.Path.{subst}
use secretsd.Names.SecretName.{SecretName}
use secretsd.Names.Capability.{Capability}
use secretsd.Grants.Token.{SessionToken, Scope, Scope_eq, session}
use secretsd.Grants.Registry.{Registration, Registry, registration, has_token}
use secretsd.Grants.Table.{
  Grant, GrantTable, Cached, cached, lookup, is_for, revoke, revoke_all, revoke_expired,
  revoke_missing_ttys, is_fresh, has_terminal,
}
use secretsd.Requests.{RequestId, sweep_timeouts}
use secretsd.Store.HumanStore.{FileSystem}
use secretsd.Server.State.{State, ActiveDecrypt, Config, Decision, kill_active, new}
use secretsd.Server.Control.{
  deny, lock, abort_active, redeem, redeem_as, finish_authorization, settle_outcome, mint_receipt,
}
use secretsd.Server.Approval.{
  begin_approval, ask, ask_within, ask_human, poll, poll_state, poll_active, expired_poll,
}
use secretsd.Server.Worker.{Job, kill_all, tidy, pick, mark_job, describe_job, decrypt_started}
use secretsd.Server.Step.{
  System, Step, registered, unregistered, denied, locked, redeemed, authorized, resolved, began,
  polled, tidied, picked, started, concluded, Reach, here, next,
}
use secretsd.Server.Invariant.{IsSound, Reach-IsSound, fresh, fresh-IsSound}
use secretsd.Server.Tokens.{
  HasNoOrphan, is_orphan, register-HasNoOrphan, unregister-HasNoOrphan, resolve_access-sessions,
  conclude-HasNoOrphan,
}

-- The registry and the grants of a state are those of another.
abbrev pub SameGrants : State → State → Type 0
SameGrants after state = (after.registry ≡ state.registry) × (after.grants ≡ state.grants)

deny-SameGrants : (state : State) (id now : ℕ) → SameGrants (deny state id now).0 state
unfolding deny kill_active
deny-SameGrants state id now = ground arith

redeem-SameGrants :
    (state : State) (receipt_hex expected : Text) (now : ℕ)
    → SameGrants (redeem state receipt_hex expected now).0 state
unfolding redeem redeem_as
redeem-SameGrants state receipt_hex expected now = ground arith

finish_authorization-SameGrants :
    (state : State) (name : Capability) (epoch now : ℕ) (entropy : Option (List (List ℕ)))
    (decision : Decision)
    → SameGrants (finish_authorization state name epoch now entropy decision).0 state
unfolding finish_authorization settle_outcome mint_receipt
finish_authorization-SameGrants state name epoch now entropy decision = ground arith

poll-SameGrants :
    (state : State) (source : Text) (id deadline now : ℕ)
    → SameGrants (poll state source id deadline now).0 state
unfolding poll poll_state poll_active expired_poll kill_active
poll-SameGrants state source id deadline now = ground arith

pick-SameGrants : (state : State) (now : ℕ) → SameGrants (pick state now).0 state
unfolding pick mark_job describe_job
pick-SameGrants state now = ground arith

decrypt_started-SameGrants :
    (state : State) (job : Job) (group : ℤ) → SameGrants (decrypt_started state job group) state
unfolding decrypt_started
decrypt_started-SameGrants state job group = ground arith

abort_active-SameGrants :
    (state : State) (active : Option ActiveDecrypt) (now : ℕ)
    → SameGrants (abort_active state active now) state
unfolding abort_active
abort_active-SameGrants state none now = (refl, refl)
abort_active-SameGrants state (some active) now = (refl, refl)

lock-HasNoOrphan :
    (state : State) (now : ℕ) → HasNoOrphan (lock state now).0.registry (lock state now).0.grants
unfolding lock revoke_all
lock-HasNoOrphan state now = ground (arith, abort_active-SameGrants _ state.active_decrypt now)

kill_all-SameGrants : (state : State) (ids : List RequestId) → SameGrants (kill_all state ids) state
unfolding kill_all kill_active
kill_all-SameGrants state [] = (refl, refl)
kill_all-SameGrants state (id ∷ ids) =
    ground (arith, kill_all-SameGrants (kill_active state id) ids)

begin_approval-grants :
    (fs : FileSystem) (state : State) (scope : Scope) (key : SecretName) (force_fresh : Bool)
    (now : ℕ)
    → ((begin_approval fs state scope key force_fresh now).0.registry ≡ state.registry)
      × (((begin_approval fs state scope key force_fresh now).0.grants ≡ state.grants)
          ⊎ ((begin_approval fs state scope key force_fresh now).0.grants
              ≡ revoke state.grants scope key))
unfolding begin_approval ask ask_within ask_human
begin_approval-grants fs state scope key force_fresh now = ground arith

begin_approval-HasNoOrphan :
    (fs : FileSystem) (state : State) (scope : Scope) (key : SecretName) (force_fresh : Bool)
    (now : ℕ)
    → HasNoOrphan state.registry state.grants
    → HasNoOrphan
        (begin_approval fs state scope key force_fresh now).0.registry
        (begin_approval fs state scope key force_fresh now).0.grants
unfolding revoke
begin_approval-HasNoOrphan fs state scope key force_fresh now h =
    let (r, g) = begin_approval-grants fs state scope key force_fresh now in
    elim g [
      | inl same ↦ rw (r, same) h
      | inr revoked ↦ rw (r, revoked) (any-retain _ _ state.grants.grants h)
    ]

cleaned-HasNoOrphan :
    (exists : Text → Bool) (registry : Registry) (table : GrantTable) (now max_age : ℕ)
    → HasNoOrphan registry table
    → HasNoOrphan registry (revoke_missing_ttys exists (revoke_expired table now max_age).0)
unfolding revoke_expired revoke_missing_ttys
cleaned-HasNoOrphan exists registry table now max_age h =
    let orphan : Grant → Bool = λ g. is_orphan registry.sessions g.scope in
    any-retain orphan (λ g. has_terminal exists g.scope)
      (retain (is_fresh now max_age) table.grants)
      (any-retain orphan (is_fresh now max_age) table.grants h)

tidy-HasNoOrphan :
    (exists : Text → Bool) (state : State) (now : ℕ)
    → HasNoOrphan state.registry state.grants
    → HasNoOrphan (tidy exists state now).registry (tidy exists state now).grants
unfolding tidy
tidy-HasNoOrphan exists state now h =
    let (r, g) =
      kill_all-SameGrants (record state { queue = (sweep_timeouts state.queue now).0 })
        (sweep_timeouts state.queue now).1 in
    rw (r, g) (cleaned-HasNoOrphan exists state.registry state.grants now _ h)

Tokened : System → Type 0
Tokened system = HasNoOrphan system.state.registry system.state.grants

Step-Tokened :
    {system after : System} → Step system after → IsSound system → Tokened system → Tokened after
unfolding Tokened
Step-Tokened {system} (registered token_hex session_id root) v h =
    register-HasNoOrphan system.state token_hex session_id root h
Step-Tokened {system} (unregistered session_id) v h =
    unregister-HasNoOrphan system.state session_id h
Step-Tokened {system} (denied id now) v h =
    let (r, g) = deny-SameGrants system.state id now in rw (r, g) h
Step-Tokened {system} (locked now) v h = lock-HasNoOrphan system.state now
Step-Tokened {system} (redeemed receipt_hex expected now) v h =
    let (r, g) = redeem-SameGrants system.state receipt_hex expected now in rw (r, g) h
Step-Tokened {system} (authorized name epoch now entropy decision) v h =
    let (r, g) = finish_authorization-SameGrants system.state name epoch now entropy decision in
    rw (r, g) h
Step-Tokened {system} (resolved proc access caller) v h =
    let (r, g) = resolve_access-sessions proc system.state access caller in rw (r, g) h
Step-Tokened {system} (began fs scope key force_fresh now room) v h =
    begin_approval-HasNoOrphan fs system.state scope key force_fresh now h
Step-Tokened {system} (polled source id deadline now) v h =
    let (r, g) = poll-SameGrants system.state source id deadline now in rw (r, g) h
Step-Tokened {system} (tidied exists now) v h = tidy-HasNoOrphan exists system.state now h
Step-Tokened {system} (picked now idle) v h =
    let (r, g) = pick-SameGrants system.state now in rw (r, g) h
Step-Tokened {system} (started job group e) v h =
    let (r, g) = decrypt_started-SameGrants system.state job group in rw (r, g) h
Step-Tokened {system} (concluded proc exists job result now e) v h =
    conclude-HasNoOrphan proc exists system.state job result now v.valid.ordered h

Reach-Tokened :
    {system last : System} → IsSound system → Tokened system → Reach system last → Tokened last
Reach-Tokened v h here = h
Reach-Tokened v h (next r st) = Step-Tokened st (Reach-IsSound v r) (Reach-Tokened v h r)

known_of_grant :
    (sessions : List Registration) (token : SessionToken) (key : SecretName) (g : Grant)
    (gs : List Grant)
    → find (is_for (session token) key) gs ≡ some g
    → any (λ (x : Grant). is_orphan sessions x.scope) gs ≡ false
    → any (has_token token) sessions ≡ true
known_of_grant sessions token key g [] e h = absurd (cc)
known_of_grant sessions token key g (x ∷ gs) e h =
    elim (Bool-cases (is_for (session token) key x)) [
      | inl hit ↦
          let same : x.scope ≡ session token = eq_of_== x.scope (session token) (ground arith) in
          let kept : is_orphan sessions (session token) ≡ false =
            subst (λ s. is_orphan sessions s ≡ false) same (ground arith) in
          ground arith
      | inr miss ↦ known_of_grant sessions token key g gs (ground arith) (ground arith)
    ]

cached-some :
    (found : Option Grant) (entry : Cached)
    → cached found ≡ some entry
    → (g : Grant) × (found ≡ some g)
cached-some none entry h = absurd (cc)
cached-some (some g) entry h = (g, refl)

-- After any steps of a daemon's threads, in any order: where a lookup finds a grant of a session,
-- the session's token is registered. So a token that was unregistered or displaced finds nothing,
-- a decrypt that was in flight at the time included.
pub grant_has_session :
    (config : Config) (boot_id instance_id : Text) {last : System} (token : SessionToken)
    (key : SecretName) (entry : Cached)
    → Reach (fresh config boot_id instance_id) last
    → lookup last.state.grants (session token) key ≡ some entry
    → is_some (registration last.state.registry token) ≡ true
unfolding Tokened lookup registration new
grant_has_session config boot_id instance_id {last} token key entry steps e =
    let (g, found) =
      cached-some (find (is_for (session token) key) last.state.grants.grants) entry e in
    let held : Tokened last =
      Reach-Tokened (fresh-IsSound config boot_id instance_id here) refl steps in
    let known =
      known_of_grant last.state.registry.sessions token key g last.state.grants.grants found held in
    let (r, there) = find_of_any (has_token token) last.state.registry.sessions known in
    rw there refl
