-- ===== src/Server/Control.antt =====
-- The requests that are answered under one acquisition of the lock: `register`, `unregister`,
-- `grants`, `deny`, `redeem`, `lock` and `finish_authorization` of src/server/dispatch.rs. `now` is
-- what the clock reads there.
use secretsd.Base.{
  ℕ, List, ◌++◌, Option, none, some, Text, bytes, ◌==◌, ℕ_eq, if◌then◌else◌, saturating_succ,
}
use secretsd.Proto.ErrCode.{Result, ok, err, bad_request, denied, too_many_pending, internal}
use secretsd.Peer.{PeerIdentity}
use secretsd.Names.Capability.{Capability}
use secretsd.Grants.Token.{SessionToken, verified_session}
use secretsd.Grants.Registry.{Registration, Registry}
use secretsd.Grants.Table.{revoke_tokens, revoke_all, render}
use secretsd.Receipts.{
  ReceiptTable, MintError, would_block, unavailable, Minted, receipt, refused, clear, mint,
}
use secretsd.Requests.{RequestId}
use secretsd.Server.State.{
  State, ActiveDecrypt, Outcome, done, fields, payload, minted_receipt, failure, Decision, plain,
  kill_active, kill_group,
}

abbrev pub revoke_displaced : State → Registry × Result (List SessionToken) → State × Decision
revoke_displaced state (registry, ok displaced) = (
  record state { registry = registry; grants = revoke_tokens state.grants displaced },
  record (plain done) { scope_kind = some verified_session },
)
revoke_displaced state (registry, err error) = (
  record state { registry = registry },
  plain (failure error (bytes "token is already bound to another session")),
)

unfoldable pub register_token : State → Result SessionToken → Text → PeerIdentity → State × Decision
register_token state (err error) session_id root =
    (state, plain (failure error (bytes "invalid session token")))
register_token state (ok token) session_id root = revoke_displaced state (
    secretsd.Grants.Registry.register state.registry
      (record { token = token; session_id = session_id; root = root }))

unfoldable pub register : State → Text → Text → PeerIdentity → State × Decision
unfolding register_token
register state token_hex session_id root =
    register_token state (secretsd.Grants.Token.parse_hex token_hex) session_id root

unfoldable pub unregister : State → Text → State × Decision
unregister state session_id =
    let (registry, tokens) = secretsd.Grants.Registry.unregister state.registry session_id in
    (record state { registry = registry; grants = revoke_tokens state.grants tokens }, plain done)

unfoldable pub grants : State → ℕ → Decision
grants state now = plain (payload (render state.grants now))

unfoldable pub receipt_mint_failure : MintError → Outcome
receipt_mint_failure would_block = failure too_many_pending (bytes "too many outstanding receipts")
receipt_mint_failure unavailable = failure internal (bytes "receipt entropy unavailable")

unfoldable pub mint_outcome : Minted → Outcome
unfolding receipt_mint_failure
mint_outcome (receipt text) = minted_receipt text
mint_outcome (refused error) = receipt_mint_failure error

unfoldable pub record_mint : State → ReceiptTable × Minted → State × Outcome
unfolding mint_outcome
record_mint state (receipts, minted) = (record state { receipts = receipts }, mint_outcome minted)

-- What becomes of a granted request: a receipt, unless a lock came between.
unfoldable pub mint_receipt : State → Capability → ℕ → ℕ → Option (List (List ℕ)) → State × Outcome
unfolding record_mint
mint_receipt state cap epoch_before now entropy =
    if state.lock_epoch == epoch_before
    then record_mint state (mint state.receipts cap now entropy)
    else (state, failure denied (bytes "locked during authorization"))

unfoldable pub settle_outcome :
    State
    → Capability
    → ℕ
    → ℕ
    → Option (List (List ℕ))
    → Outcome
    → Option RequestId
    → State × Outcome
unfolding mint_receipt
settle_outcome state cap epoch_before now entropy (fields text) (some id) =
    mint_receipt state cap epoch_before now entropy
settle_outcome state cap epoch_before now entropy outcome _ = (state, outcome)

unfoldable pub finish_authorization :
    State → Capability → ℕ → ℕ → Option (List (List ℕ)) → Decision → State × Decision
unfolding settle_outcome
finish_authorization state cap epoch_before now entropy decision =
    let (after, outcome) =
      settle_outcome state cap epoch_before now entropy decision.outcome decision.request_id in
    (after, record decision { outcome = outcome })

unfoldable pub deny : State → ℕ → ℕ → State × Decision
unfolding kill_active
deny state id now =
    let (queue, was_denied) = secretsd.Requests.deny state.queue id now in
    let after = record state { queue = queue } in
    if was_denied
    then (kill_active after id, plain done)
    else (after, plain (failure bad_request (bytes "request is not pending")))

unfoldable pub redeemed : Option Capability → Outcome
redeemed none = failure denied (bytes "receipt is not redeemable")
redeemed (some cap) = fields (bytes "status=redeemed cap=" ++ cap.as_str)

unfoldable pub redeem_as : State → Text → Result Capability → ℕ → State × Decision
unfolding redeemed
redeem_as state receipt_hex (err error) now =
    (state, plain (failure error (bytes "invalid capability name")))
redeem_as state receipt_hex (ok cap) now =
    let (receipts, result) = secretsd.Receipts.redeem state.receipts receipt_hex cap now in
    (record state { receipts = receipts }, plain (redeemed result))

unfoldable pub redeem : State → Text → Text → ℕ → State × Decision
unfolding redeem_as
redeem state receipt_hex expected_cap now =
    redeem_as state receipt_hex (secretsd.Names.Capability.parse expected_cap) now

-- Denies and kills the decrypt in flight.
unfoldable pub abort_active : State → Option ActiveDecrypt → ℕ → State
abort_active state none now = state
abort_active state (some active) now =
    kill_group (record state { queue = (secretsd.Requests.deny state.queue active.id now).0 })
      active

unfoldable pub lock : State → ℕ → State × Decision
unfolding abort_active
lock state now = (
  abort_active
      (record state {
        grants = revoke_all state.grants;
        receipts = clear state.receipts;
        lock_epoch = saturating_succ state.lock_epoch;
      })
      state.active_decrypt now,
  plain done,
)
