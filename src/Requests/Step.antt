-- ===== src/Requests/Step.antt =====
-- The queue as the daemon calls it: a completion has the generation that its decrypt was started
-- with, and fewer than 2^64 - 1 ids have been issued. Requests/Calls has every call.
use secretsd.Base.{ℕ, ◌<◌, refl, ℕ_eq, arith, u64_max, ==_of_ne}
use secretsd.Names.SecretName.{SecretName}
use secretsd.Grants.Token.{Scope}
use secretsd.Requests.Ids.{
  IsOrdered, enqueue-IsOrdered, mark_decrypting-IsOrdered, complete-IsOrdered, fail-IsOrdered,
  retire-IsOrdered, sweep_timeouts-IsOrdered, prune-IsOrdered,
}
use secretsd.Requests.SingleFlight.{
  IsSingleFlight, FitsGeneration, enqueue-IsSingleFlight, mark_decrypting-IsSingleFlight,
  complete-IsSingleFlight, fail-IsSingleFlight, retire-IsSingleFlight,
}
use secretsd.Requests.Sweep.{sweep_timeouts-IsSingleFlight, prune-IsSingleFlight}
use secretsd.Requests.Limits.{
  IsLimited, enqueue-IsLimited, mark_decrypting-IsLimited, complete-IsLimited, fail-IsLimited,
  retire-IsLimited, sweep_timeouts-IsLimited, prune-IsLimited,
}
use secretsd.Requests.{
  Queue, QueueLimits, RequestId, RequestState_eq, enqueue, mark_decrypting, complete, fail, timeout,
  deny, new, sweep_timeouts, prune, decrypting, denied, timed_out,
}

-- One call.
pub data Step (queue : Queue) : Queue → Type 0 where
  enqueued :
      (scope : Scope) (key : SecretName) (now : ℕ)
      → queue.next_id < u64_max
      → Step queue (enqueue queue scope key now).0
  marked : (id : RequestId) (now : ℕ) → Step queue (mark_decrypting queue id now).0
  completed :
      (id : RequestId) (generation now : ℕ)
      → FitsGeneration id generation queue
      → Step queue (complete queue id generation now).0
  failed_with : (id : RequestId) (now : ℕ) → Step queue (fail queue id now)
  timed : (id : RequestId) (now : ℕ) → Step queue (timeout queue id now).0
  refused : (id : RequestId) (now : ℕ) → Step queue (deny queue id now).0
  swept : (now : ℕ) → Step queue (sweep_timeouts queue now).0
  pruned : (now : ℕ) → Step queue (prune queue now)

pub data Reach (queue : Queue) : Queue → Type 0 where
  here : Reach queue queue
  next : {middle last : Queue} → Reach queue middle → Step middle last → Reach queue last

-- What holds of the queue between two calls.
pub record IsValid (queue : Queue) : Type 0 where
  pub ordered : IsOrdered queue
  pub single_flight : IsSingleFlight queue
  pub limited : IsLimited queue

Step-IsValid : {queue after : Queue} → Step queue after → IsValid queue → IsValid after
unfolding timeout deny
Step-IsValid {queue} (enqueued scope key now room) v = record {
  ordered = enqueue-IsOrdered queue scope key now room v.ordered;
  single_flight = enqueue-IsSingleFlight queue scope key now v.single_flight;
  limited = enqueue-IsLimited queue scope key now v.limited;
}
Step-IsValid {queue} (marked id now) v = record {
  ordered = mark_decrypting-IsOrdered queue id now v.ordered;
  single_flight = mark_decrypting-IsSingleFlight queue id now v.single_flight;
  limited = mark_decrypting-IsLimited queue id now v.limited;
}
Step-IsValid {queue} (completed id generation now fits) v = record {
  ordered = complete-IsOrdered queue id generation now v.ordered;
  single_flight = complete-IsSingleFlight queue id generation now fits v.ordered v.single_flight;
  limited = complete-IsLimited queue id generation now v.limited;
}
Step-IsValid {queue} (failed_with id now) v = record {
  ordered = fail-IsOrdered queue id now v.ordered;
  single_flight = fail-IsSingleFlight queue id now v.ordered v.single_flight;
  limited = fail-IsLimited queue id now v.limited;
}
Step-IsValid {queue} (timed id now) v = record {
  ordered = retire-IsOrdered queue id timed_out now v.ordered;
  single_flight =
      retire-IsSingleFlight queue id timed_out now (==_of_ne timed_out decrypting (λ e. cc))
        v.ordered v.single_flight;
  limited = retire-IsLimited queue id timed_out now refl v.limited;
}
Step-IsValid {queue} (refused id now) v = record {
  ordered = retire-IsOrdered queue id denied now v.ordered;
  single_flight =
      retire-IsSingleFlight queue id denied now (==_of_ne denied decrypting (λ e. cc)) v.ordered
        v.single_flight;
  limited = retire-IsLimited queue id denied now refl v.limited;
}
Step-IsValid {queue} (swept now) v = record {
  ordered = sweep_timeouts-IsOrdered queue now v.ordered;
  single_flight = sweep_timeouts-IsSingleFlight queue now v.ordered v.single_flight;
  limited = sweep_timeouts-IsLimited queue now v.limited;
}
Step-IsValid {queue} (pruned now) v = record {
  ordered = prune-IsOrdered queue now v.ordered;
  single_flight = prune-IsSingleFlight queue now v.single_flight;
  limited = prune-IsLimited queue now v.limited;
}

pub new-IsValid : (limits : QueueLimits) → IsValid (new limits)
unfolding new
new-IsValid limits = record {
  ordered = omega arith;
  single_flight = record { backed = refl; single = omega arith };
  limited = record { plain = λ s. omega arith; capability = λ s. omega arith };
}

pub Reach-IsValid : {queue last : Queue} → IsValid queue → Reach queue last → IsValid last
Reach-IsValid v here = v
Reach-IsValid v (next r st) = Step-IsValid st (Reach-IsValid v r)
