-- ===== src/Requests/Calls.antt =====
-- The queue as a state machine: every call of it, with any arguments, in any order.
use secretsd.Base.{ℕ, ◌<◌, u64_max}
use secretsd.Names.SecretName.{SecretName}
use secretsd.Grants.Token.{Scope}
use secretsd.Requests.SingleFlight.{FitsGeneration}
use secretsd.Requests.Step.{Step, Reach, IsValid, new-IsValid, Reach-IsValid}
use secretsd.Requests.{
  Queue, QueueLimits, RequestId, enqueue, mark_decrypting, complete, fail, timeout, deny, new,
  sweep_timeouts, prune,
}

pub data Call (queue : Queue) : Queue → Type 0 where
  enqueued :
      (scope : Scope) (key : SecretName) (now : ℕ) → Call queue (enqueue queue scope key now).0
  marked : (id : RequestId) (now : ℕ) → Call queue (mark_decrypting queue id now).0
  completed :
      (id : RequestId) (generation now : ℕ) → Call queue (complete queue id generation now).0
  failed_with : (id : RequestId) (now : ℕ) → Call queue (fail queue id now)
  timed : (id : RequestId) (now : ℕ) → Call queue (timeout queue id now).0
  refused : (id : RequestId) (now : ℕ) → Call queue (deny queue id now).0
  swept : (now : ℕ) → Call queue (sweep_timeouts queue now).0
  pruned : (now : ℕ) → Call queue (prune queue now)

pub data Calls (queue : Queue) : Queue → Type 0 where
  none_yet : Calls queue queue
  also : {middle last : Queue} → Calls queue middle → Call middle last → Calls queue last

-- An id is issued while fewer than 2^64 - 1 have been.
abbrev pub HasRoom : {queue after : Queue} → Call queue after → Type 0
HasRoom {queue} (enqueued scope key now) = queue.next_id < u64_max
HasRoom (completed id generation now) = Unit
HasRoom (marked id now) = Unit
HasRoom (failed_with id now) = Unit
HasRoom (timed id now) = Unit
HasRoom (refused id now) = Unit
HasRoom (swept now) = Unit
HasRoom (pruned now) = Unit

-- A completion of a request that is decrypting has the generation that it was marked with.
abbrev pub IsTimely : {queue after : Queue} → Call queue after → Type 0
IsTimely (enqueued scope key now) = Unit
IsTimely {queue} (completed id generation now) = FitsGeneration id generation queue
IsTimely (marked id now) = Unit
IsTimely (failed_with id now) = Unit
IsTimely (timed id now) = Unit
IsTimely (refused id now) = Unit
IsTimely (swept now) = Unit
IsTimely (pruned now) = Unit

abbrev pub HaveRoom : {queue last : Queue} → Calls queue last → Type 0
HaveRoom none_yet = Unit
HaveRoom (also calls call) = HaveRoom calls × HasRoom call

abbrev pub AreTimely : {queue last : Queue} → Calls queue last → Type 0
AreTimely none_yet = Unit
AreTimely (also calls call) = AreTimely calls × IsTimely call

Call-Step :
    {queue after : Queue} (call : Call queue after)
    → HasRoom call
    → IsTimely call
    → Step queue after
Call-Step (enqueued scope key now) room _ = Step.enqueued scope key now room
Call-Step (marked id now) _ _ = Step.marked id now
Call-Step (completed id generation now) _ fits = Step.completed id generation now fits
Call-Step (failed_with id now) _ _ = Step.failed_with id now
Call-Step (timed id now) _ _ = Step.timed id now
Call-Step (refused id now) _ _ = Step.refused id now
Call-Step (swept now) _ _ = Step.swept now
Call-Step (pruned now) _ _ = Step.pruned now

Calls-Reach :
    {queue last : Queue} (calls : Calls queue last)
    → HaveRoom calls
    → AreTimely calls
    → Reach queue last
Calls-Reach none_yet room timely = Reach.here
Calls-Reach (also calls call) room timely =
    Reach.next (Calls-Reach calls room.0 timely.0) (Call-Step call room.1 timely.1)

pub Calls-IsValid :
    (limits : QueueLimits) {last : Queue} (calls : Calls (new limits) last)
    → HaveRoom calls
    → AreTimely calls
    → IsValid last
Calls-IsValid limits calls room timely =
    Reach-IsValid (new-IsValid limits) (Calls-Reach calls room timely)
