-- ===== src/Server/Answers.antt =====
-- That every request is answered: a wait for an approval ends once the clock is past its deadline.
use secretsd.Base.{
  ℕ, ◌+◌, ◌≡◌, refl, ap, ◌∙◌, inl, inr, Bool, true, false, List, [], ◌∷◌, ◌||◌, Option, none, some,
  Text, ltb, any, is_some, arith,
}
use secretsd.Proto.ErrCode.{Result, ok, err, Result-cases}
use secretsd.Proto.Request.{
  Request, hello, register, unregister, get, request_grant, authorize, redeem, grants, deny, lock,
}
use secretsd.Peer.{PeerIdentity, ProcFs}
use secretsd.Names.SecretName.{SecretName}
use secretsd.Names.Capability.{Capability, key_name}
use secretsd.Grants.Token.{Scope}
use secretsd.Grants.Registry.{Registry, resolve}
use secretsd.Requests.{
  RequestId, RequestState, pending, decrypting, granted, denied, timed_out, failed, state_of,
}
use secretsd.Store.HumanStore.{FileSystem}
use secretsd.Server.State.{State, Decision}
use secretsd.Server.Approval.{
  Access, Approval, Poll, ready, waiting, poll, poll_state, poll_active, expired_poll, Begun,
  settled, enqueued, begin_approval, ask, ask_within, ask_human, drop_grant, parse_access,
  resolve_access, with_key,
}
use secretsd.Server.Dispatch.{
  Turn, Schedule, await_loop, await_begun, release, finish, access_scope, dispatch_access,
  authorize_as, dispatch_key, dispatch,
}

abbrev is_ready : Poll → Bool
is_ready (ready approval) = true
is_ready waiting = false

abbrev past : ℕ → Turn → Bool
past deadline turn = ltb deadline turn.now

poll_state-ready :
    (seen : Option RequestState) (state : State) (source : Text) (id : RequestId) (deadline now : ℕ)
    → ltb deadline now ≡ true
    → is_ready (poll_state seen state source id deadline now).1 ≡ true
unfolding poll_state poll_active expired_poll
poll_state-ready none state source id deadline now h = refl
poll_state-ready (some pending) state source id deadline now h = rw h
poll_state-ready (some decrypting) state source id deadline now h = rw h
poll_state-ready (some granted) state source id deadline now h = refl
poll_state-ready (some denied) state source id deadline now h = refl
poll_state-ready (some timed_out) state source id deadline now h = refl
poll_state-ready (some failed) state source id deadline now h = refl

poll-ready :
    (state : State) (source : Text) (id : RequestId) (deadline now : ℕ)
    → ltb deadline now ≡ true
    → is_ready (poll state source id deadline now).1 ≡ true
unfolding poll
poll-ready state source id deadline now h =
    poll_state-ready (state_of state.queue id) state source id deadline now h

await_loop_ends :
    (turns : List Turn) (now : ℕ) (state : State) (source : Text) (id : RequestId) (deadline : ℕ)
    → (ltb deadline now || any (past deadline) turns) ≡ true
    → is_some (await_loop turns now state source id deadline).1 ≡ true
unfolding await_loop
await_loop_ends [] now state source id deadline h =
    ground (arith, poll-ready state source id deadline now)
await_loop_ends (turn ∷ turns) now state source id deadline h = ground (
  arith,
  poll-ready state source id deadline now,
  await_loop_ends turns turn.now (turn.others (poll state source id deadline now).0) source id
      deadline,
)

ask_deadline :
    (fs : FileSystem) (state : State) (scope : Scope) (key : SecretName) (now : ℕ) (source : Text)
    (id : RequestId) (deadline : ℕ)
    → (ask fs state scope key now).1 ≡ enqueued source id deadline
    → deadline ≡ now + state.config.request_ttl
unfolding ask ask_within ask_human
ask_deadline fs state scope key now source id deadline h = ground arith

begin_deadline :
    (fs : FileSystem) (state : State) (scope : Scope) (key : SecretName) (force_fresh : Bool)
    (now : ℕ) (source : Text) (id : RequestId) (deadline : ℕ)
    → (begin_approval fs state scope key force_fresh now).1 ≡ enqueued source id deadline
    → deadline ≡ now + state.config.request_ttl
unfolding begin_approval
begin_deadline fs state scope key force_fresh now source id deadline h = ground (
  arith,
  ask_deadline fs state scope key now source id deadline,
  ask_deadline fs (drop_grant state scope key) scope key now source id deadline,
)

await_begun_ends :
    (schedule : Schedule) (begun : State × Begun) (limit : ℕ)
    → ((source : Text) (id : RequestId) (deadline : ℕ)
        → begun.1 ≡ enqueued source id deadline
        → deadline ≡ limit)
    → any (past limit) schedule.turns ≡ true
    → is_some (await_begun schedule begun).1 ≡ true
unfolding await_begun
await_begun_ends schedule (state, settled approval) limit same h = refl
await_begun_ends schedule (state, enqueued source id deadline) limit same h =
    await_loop_ends schedule.turns schedule.poll_now state source id deadline
      (ground (arith, same source id deadline refl))

release_answers :
    (schedule : Schedule) (scope : Scope) (key : SecretName) (return_value : Bool)
    (found : State × Option Approval)
    → is_some found.1 ≡ true
    → is_some (release schedule scope key return_value found).1 ≡ true
unfolding release
release_answers schedule scope key return_value (state, none) h = h
release_answers schedule scope key return_value (state, some approval) h = refl

finish_answers :
    (schedule : Schedule) (cap : Capability) (epoch : ℕ) (found : State × Option Decision)
    → is_some found.1 ≡ true
    → is_some (finish schedule cap epoch found).1 ≡ true
unfolding finish
finish_answers schedule cap epoch (state, none) h = h
finish_answers schedule cap epoch (state, some decision) h = refl

with_key-config :
    (key : SecretName) (state : State) (found : Registry × Result Scope)
    → (with_key key state found).0.config ≡ state.config
unfolding with_key
with_key-config key state (registry, ok scope) = refl
with_key-config key state (registry, err error) = refl

resolve_access-config :
    (proc : ProcFs) (state : State) (access : Access) (caller : PeerIdentity)
    → (resolve_access proc state access caller).0.config ≡ state.config
unfolding resolve_access
resolve_access-config proc state access caller = elim (Result-cases (parse_access access)) [
  | inl ((key, token), e) ↦
      rw (resolve_access, e)
        (with_key-config key state (resolve proc state.registry token access.tty (some caller)))
  | inr (error, e) ↦ rw (resolve_access, e)
]

module _ (proc : ProcFs) (fs : FileSystem) (caller : PeerIdentity) (schedule : Schedule) where
  -- The other threads leave the configuration alone.
  unfoldable pub KeepsConfig : Type 0
  KeepsConfig =
      ((state : State) → (schedule.before_resolve state).config ≡ state.config)
      × ((state : State) → (schedule.before_approval state).config ≡ state.config)

  -- A turn of the wait comes after a request that is queued now has expired.
  unfoldable pub Expires : State → Type 0
  Expires state = any (past (schedule.begin_now + state.config.request_ttl)) schedule.turns ≡ true

  access_scope_answers :
      (state : State) (return_value force_fresh : Bool)
      (found : State × Result (Scope × SecretName))
      → KeepsConfig
      → found.0.config ≡ state.config
      → Expires state
      → is_some (access_scope proc fs caller schedule return_value force_fresh found).1 ≡ true
  unfolding access_scope Expires KeepsConfig
  access_scope_answers state return_value force_fresh (after, err error) keeps same h = refl
  access_scope_answers state return_value force_fresh (after, ok (scope, key)) keeps same h =
      release_answers schedule scope key return_value (await_begun schedule begun) (
        await_begun_ends schedule begun (schedule.begin_now + state.config.request_ttl)
          (λ source id deadline e.
            begin_deadline fs (schedule.before_approval after) scope key force_fresh
              schedule.begin_now source id deadline e
            ∙ ap (λ config. schedule.begin_now + config.request_ttl) (keeps.1 after ∙ same))
          h)
    where
      begun : State × Begun
      begun =
          begin_approval fs (schedule.before_approval after) scope key force_fresh
            schedule.begin_now

  dispatch_access_answers :
      (state : State) (access : Access) (return_value force_fresh : Bool)
      → KeepsConfig
      → Expires state
      → is_some (dispatch_access proc fs caller schedule state access return_value force_fresh).1
        ≡ true
  unfolding dispatch_access
  dispatch_access_answers state access return_value force_fresh keeps h =
      access_scope_answers state return_value force_fresh (resolve_access proc state access caller)
        keeps (resolve_access-config proc state access caller) h

  authorize_as_answers :
      (state : State) (cap : Result Capability) (token_hex tty : Option Text)
      → KeepsConfig
      → Expires state
      → is_some (authorize_as proc fs caller schedule state cap token_hex tty).1 ≡ true
  unfolding authorize_as Expires KeepsConfig
  authorize_as_answers state (err error) token_hex tty keeps h = refl
  authorize_as_answers state (ok cap) token_hex tty keeps h =
      let access : Access = record { key = key_name cap; token_hex = token_hex; tty = tty } in
      let before = schedule.before_resolve state in
      finish_answers schedule cap state.lock_epoch
        (dispatch_access proc fs caller schedule before access false true)
        (dispatch_access_answers before access false true keeps (rw (keeps.0 state) h))

  dispatch_key_answers :
      (state : State) (key : Text) (token_hex tty : Option Text) (return_value : Bool)
      → KeepsConfig
      → Expires state
      → is_some (dispatch_key proc fs caller schedule state key token_hex tty return_value).1 ≡ true
  unfolding dispatch_key
  dispatch_key_answers state key token_hex tty return_value keeps h = ground (
    arith,
    dispatch_access_answers state (record { key = key; token_hex = token_hex; tty = tty })
        return_value false keeps h,
  )

  -- Every request is answered, if a turn of its wait comes after the request that it queues now has
  -- expired, and the other threads leave the configuration alone.
  pub dispatch_answers :
      (state : State) (request : Request)
      → KeepsConfig
      → Expires state
      → is_some (dispatch proc fs caller schedule state request).1 ≡ true
  unfolding dispatch
  dispatch_answers state (hello version) keeps h = refl
  dispatch_answers state (register token_hex session pid) keeps h = refl
  dispatch_answers state (unregister session) keeps h = refl
  dispatch_answers state (get key token_hex tty) keeps h =
      dispatch_key_answers state key token_hex tty true keeps h
  dispatch_answers state (request_grant key token_hex tty) keeps h =
      dispatch_key_answers state key token_hex tty false keeps h
  dispatch_answers state (authorize cap token_hex tty) keeps h =
      authorize_as_answers state (secretsd.Names.Capability.parse cap) token_hex tty keeps h
  dispatch_answers state (redeem receipt_hex cap) keeps h = refl
  dispatch_answers state grants keeps h = refl
  dispatch_answers state (deny id) keeps h = refl
  dispatch_answers state lock keeps h = refl
