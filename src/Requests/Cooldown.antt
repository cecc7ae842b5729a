-- ===== src/Requests/Cooldown.antt =====
-- The limits of a queue never change.
use secretsd.Base.{ℕ, ◌≡◌, refl, ◌∙◌, arith}
use secretsd.Requests.Ids.{finish_all_lem}
use secretsd.Requests.Step.{
  Step, enqueued, marked, completed, failed_with, timed, refused, swept, pruned, Reach, here, next,
}
use secretsd.Requests.{
  Queue, RequestId, RequestState, finish, enqueue, enqueue_new, existing, add_request,
  mark_decrypting, start, complete, fail, retire, timeout, deny, sweep_timeouts, overdue_ids, prune,
  denied, timed_out,
}

finish-limits :
    (queue : Queue) (id : RequestId) (now : ℕ) → (finish queue id now).limits ≡ queue.limits
unfolding finish
finish-limits queue id now = ground arith

retire-limits :
    (queue : Queue) (id : RequestId) (state : RequestState) (now : ℕ)
    → (retire queue id state now).0.limits ≡ queue.limits
unfolding retire finish
retire-limits queue id state now = ground arith

Step-limits : {queue after : Queue} → Step queue after → after.limits ≡ queue.limits
unfolding enqueue enqueue_new existing add_request mark_decrypting start complete fail timeout deny
    sweep_timeouts prune finish
Step-limits {queue} (enqueued scope key now room) = ground arith
Step-limits {queue} (marked id now) = ground arith
Step-limits {queue} (completed id generation now fits) = ground arith
Step-limits {queue} (failed_with id now) = ground arith
Step-limits {queue} (timed id now) = retire-limits queue id timed_out now
Step-limits {queue} (refused id now) = retire-limits queue id denied now
Step-limits {queue} (swept now) =
    (finish_all_lem _ (overdue_ids queue.limits.ttl now queue.requests) now).2
Step-limits {queue} (pruned now) = refl

pub Reach-limits : {queue last : Queue} → Reach queue last → last.limits ≡ queue.limits
Reach-limits here = refl
Reach-limits (next steps step) = Step-limits step ∙ Reach-limits steps
