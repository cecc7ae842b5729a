-- ===== src/Requests.antt =====
-- The approval queue: src/requests.rs. Instants and durations are nanoseconds.
pub mod Cases
pub mod Ids
pub mod SingleFlight
pub mod Sweep
pub mod Limits
pub mod Lifecycle
pub mod Step
pub mod Calls
pub mod Refusal
pub mod Fit
pub mod Cooldown
use secretsd.Base.{
  ℕ, suc, ◌+◌, ◌-◌, ◌*◌, Bool, true, false, not, ◌&&◌, ◌||◌, List, [], ◌∷◌, ◌++◌, map, Option, none,
  some, Text, bytes, ◌==◌, ℕ_eq, Eq, if◌then◌else◌, ltb, leb, any, find, retain, count, starts_with,
  saturating_succ, u64_max, is_some, update_first,
}
use Prim.Native.Nat.{min}
use secretsd.Proto.ErrCode.{Result, ok, err, too_many_pending}
use secretsd.Names.SecretName.{SecretName, SecretName_eq}
use secretsd.Names.Capability.{capability_key_prefix}
use secretsd.Grants.Token.{Scope, Scope_eq}

abbrev pub RequestId : Type 0
RequestId = ℕ

pub data RequestState : Type 0 where
  pending decrypting granted denied timed_out failed : RequestState

unfoldable pub RequestState-discrete : Discrete RequestState
RequestState-discrete = hlevel

instance abbrev pub RequestState_eq : Eq RequestState
RequestState_eq = record { dec = RequestState-discrete }

pub record QueueLimits : Type 0 where
  pub cooldown : ℕ
  pub ttl : ℕ
  pub max_pending_per_scope : ℕ

pub record PendingRequest : Type 0 where
  pub id : RequestId
  pub scope : Scope
  pub key : SecretName
  pub state : RequestState
  pub generation : ℕ
  pub created : ℕ

pub record Queue : Type 0 where
  pub requests : List PendingRequest
  pub limits : QueueLimits
  pub next_id : ℕ
  pub generation : ℕ
  pub inflight : Option RequestId
  pub last_finished : Option ℕ

unfoldable pub new : QueueLimits → Queue
new limits = record {
  requests = [];
  limits = limits;
  next_id = 1;
  generation = 0;
  inflight = none;
  last_finished = none;
}

-- `matches!(state, Pending | Decrypting)`
abbrev pub is_active_state : RequestState → Bool
is_active_state pending = true
is_active_state decrypting = true
is_active_state _ = false

abbrev pub is_active : PendingRequest → Bool
is_active request = is_active_state request.state

abbrev pub has_id : RequestId → PendingRequest → Bool
has_id id request = request.id == id

-- `now.checked_duration_since(since).is_some_and(|elapsed| elapsed < limit)`
abbrev pub elapsed_lt : ℕ → ℕ → ℕ → Bool
elapsed_lt now since limit = leb since now && ltb (now - since) limit

-- `now.checked_duration_since(since).is_some_and(|elapsed| elapsed > limit)`
abbrev pub elapsed_gt : ℕ → ℕ → ℕ → Bool
elapsed_gt now since limit = leb since now && ltb limit (now - since)

abbrev pub is_capability : SecretName → Bool
is_capability key = starts_with capability_key_prefix key.as_str

abbrev pub same_request : Scope → SecretName → PendingRequest → Bool
same_request scope key request = request.scope == scope && (request.key == key && is_active request)

-- What counts against the limit of a scope: for a capability key the active capability requests,
-- for another key all active requests.
abbrev pub counts_for : Bool → Scope → PendingRequest → Bool
counts_for capability scope request =
    request.scope == scope && ((not capability || is_capability request.key) && is_active request)

unfoldable pub add_request : Queue → Scope → SecretName → ℕ → Queue
add_request queue scope key now = record queue {
  next_id = saturating_succ queue.next_id;
  requests =
      queue.requests
      ++ record {
        id = queue.next_id;
        scope = scope;
        key = key;
        state = pending;
        generation = 0;
        created = now;
      }
        ∷ [];
}

abbrev pub pending_limit : Queue → Bool → ℕ
pending_limit queue capability = if capability then 1 else queue.limits.max_pending_per_scope

unfoldable pub enqueue_new : Queue → Scope → SecretName → ℕ → Queue × Result RequestId
unfolding add_request
enqueue_new queue scope key now =
    if leb (pending_limit queue (is_capability key))
      (count (counts_for (is_capability key) scope) queue.requests)
    then (queue, err too_many_pending)
    else (add_request queue scope key now, ok queue.next_id)

-- The identical active request that a new one coalesces with.
unfoldable pub existing : Queue → Scope → SecretName → Option PendingRequest
existing queue scope key =
    if is_capability key then none else find (same_request scope key) queue.requests

unfoldable pub enqueue : Queue → Scope → SecretName → ℕ → Queue × Result RequestId
unfolding enqueue_new existing
enqueue queue scope key now = elim (existing queue scope key) [
  | some request ↦ (queue, ok request.id)
  | none ↦ enqueue_new queue scope key now
]

-- Whether the last decrypt ended less than the cooldown ago.
unfoldable pub is_cooling : Queue → ℕ → Bool
is_cooling queue now = elim queue.last_finished [
  | none ↦ false
  | some last ↦ elapsed_lt now last queue.limits.cooldown
]

abbrev pub is_pending : PendingRequest → Bool
is_pending request = request.state == pending

abbrev pub id_of : Option PendingRequest → Option RequestId
id_of none = none
id_of (some request) = some request.id

unfoldable pub next_ready : Queue → ℕ → Option RequestId
unfolding is_cooling
next_ready queue now =
    if is_some queue.inflight
    then none
    else if is_cooling queue now
    then none
    else id_of (find is_pending queue.requests)

abbrev pub started : ℕ → PendingRequest → PendingRequest
started generation r = record r { state = decrypting; generation = generation }

unfoldable pub start : Queue → PendingRequest → Queue × Option ℕ
start queue request =
    let generation = saturating_succ queue.generation in
    (
      record queue {
        generation = generation;
        requests = update_first (has_id request.id) (started generation) queue.requests;
        inflight = some request.id;
      },
      some generation,
    )

unfoldable pub mark_decrypting : Queue → RequestId → ℕ → Queue × Option ℕ
unfolding is_cooling start
mark_decrypting queue id now =
    if is_some queue.inflight || is_cooling queue now
    then (queue, none)
    else elim (find (has_id id) queue.requests) [
      | none ↦ (queue, none)
      | some request ↦ if is_pending request then start queue request else (queue, none)
    ]

-- `inflight == Some(id)`
abbrev pub is_inflight : RequestId → Option RequestId → Bool
is_inflight id none = false
is_inflight id (some other) = other == id

unfoldable pub finish : Queue → RequestId → ℕ → Queue
finish queue id now = record queue {
  inflight = if is_inflight id queue.inflight then none else queue.inflight;
  last_finished = some now;
}

abbrev pub with_state : RequestState → PendingRequest → PendingRequest
with_state state r = record r { state = state }

abbrev pub set_state : Queue → RequestId → RequestState → Queue
set_state queue id state = record queue {
  requests = update_first (has_id id) (with_state state) queue.requests;
}

abbrev pub is_current : RequestId → ℕ → PendingRequest → Bool
is_current id generation request =
    has_id id request && (request.generation == generation && request.state == decrypting)

unfoldable pub complete : Queue → RequestId → ℕ → ℕ → Queue × Bool
unfolding finish
complete queue id generation now =
    let still_current = any (is_current id generation) queue.requests in
    (finish (if still_current then set_state queue id granted else queue) id now, still_current)

unfoldable pub fail : Queue → RequestId → ℕ → Queue
unfolding finish
fail queue id now = finish (set_state queue id failed) id now

-- The request leaves the active states, and a decrypt that started for it is out of date.
abbrev pub retired : RequestState → PendingRequest → PendingRequest
retired state r = record r { state = state; generation = saturating_succ r.generation }

unfoldable pub retire : Queue → RequestId → RequestState → ℕ → Queue × Bool
unfolding finish
retire queue id state now = elim (find (has_id id) queue.requests) [
  | none ↦ (queue, false)
  | some request ↦
      if is_active request
      then (
        finish (record queue { requests = update_first (has_id id) (retired state) queue.requests })
            id now,
        true,
      )
      else (queue, false)
]

unfoldable pub timeout : Queue → RequestId → ℕ → Queue × Bool
unfolding retire
timeout queue id now = retire queue id timed_out now

-- `now` is the instant that `deny` reads from the clock.
unfoldable pub deny : Queue → RequestId → ℕ → Queue × Bool
unfolding retire
deny queue id now = retire queue id denied now

abbrev pub is_overdue : ℕ → ℕ → PendingRequest → Bool
is_overdue ttl now request = is_active request && elapsed_gt now request.created ttl

abbrev pub expire_one : ℕ → ℕ → PendingRequest → PendingRequest
expire_one ttl now request =
    if is_overdue ttl now request then retired timed_out request else request

abbrev pub ids : List PendingRequest → List RequestId
ids = map (λ request. request.id)

-- The requests that a sweep expires, in order.
abbrev pub overdue_ids : ℕ → ℕ → List PendingRequest → List RequestId
overdue_ids ttl now requests = ids (retain (is_overdue ttl now) requests)

unfoldable pub finish_all : Queue → List RequestId → ℕ → Queue
unfolding finish
finish_all queue [] now = queue
finish_all queue (id ∷ rest) now = finish_all (finish queue id now) rest now

unfoldable pub sweep_timeouts : Queue → ℕ → Queue × List RequestId
unfolding finish_all
sweep_timeouts queue now =
    let expired = overdue_ids queue.limits.ttl now queue.requests in
    (
      finish_all (record queue { requests = map (expire_one queue.limits.ttl now) queue.requests })
          expired now,
      expired,
    )

unfoldable pub state_of : Queue → RequestId → Option RequestState
state_of queue id = elim (find (has_id id) queue.requests) [
  | none ↦ none
  | some request ↦ some request.state
]

unfoldable pub describe : Queue → RequestId → Option (Scope × SecretName)
describe queue id = elim (find (has_id id) queue.requests) [
  | none ↦ none
  | some request ↦ some (request.scope, request.key)
]

unfoldable pub is_idle : Queue → Bool
is_idle queue = not (any is_active queue.requests)

-- The largest `Duration` in nanoseconds, where `saturating_mul` stops.
abbrev duration_max : ℕ
duration_max = 18446744073709551615999999999

abbrev pub horizon : Queue → ℕ
horizon queue = min (queue.limits.ttl * 2) duration_max

abbrev pub survives_prune : Queue → ℕ → PendingRequest → Bool
survives_prune queue now request =
    is_active request || elapsed_lt now request.created (horizon queue)

unfoldable pub prune : Queue → ℕ → Queue
prune queue now = record queue { requests = retain (survives_prune queue now) queue.requests }
