-- ===== src/Server/Invariant.antt =====
-- What holds of the daemon between any two steps of its threads.
use secretsd.Base.{ℕ, ◌≡◌, refl, sym, Option, none, some, Text}
use mathlib.Core.Path.{subst}
use secretsd.Requests.{Queue}
use secretsd.Requests.Step.{
  IsValid, Reach-IsValid, new-IsValid, enqueued, timed, refused, swept, pruned,
}
use secretsd.Requests.Fit.{IsFit, Reach-IsFit}
use secretsd.Server.State.{State, Config, new}
use secretsd.Server.Worker.{Job, pick}
use secretsd.Server.Step.{
  System, Step, registered, unregistered, denied, locked, redeemed, authorized, resolved, began,
  polled, tidied, picked, started, concluded, Reach, here, next,
}
use secretsd.Server.Calls.{
  stay, once, either, register-queue, redeem-queue, finish_authorization-queue, deny-queue,
  unregister-queue, lock-calls, begin_approval-queue, poll-queue, tidy-queue, resolve_access-queue,
  decrypt_started-queue, pick-calls, pick-IsFit, conclude-calls,
}

-- The job's generation fits its request.
abbrev pub JobFits : Option Job → Queue → Type 0
JobFits none queue = Unit
JobFits (some job) queue = IsFit job.id job.generation queue

-- The queue is valid and the worker's job fits it.
pub record IsSound (system : System) : Type 0 where
  pub valid : IsValid system.state.queue
  pub fits : JobFits system.job system.state.queue

job-calls :
    (job : Option Job) {queue after : Queue}
    → secretsd.Requests.Step.Reach queue after
    → JobFits job queue
    → JobFits job after
job-calls none calls h = tt
job-calls (some job) calls h = Reach-IsFit job.id job.generation h calls

-- A step that only calls the queue.
called :
    {system : System} (state : State)
    → secretsd.Requests.Step.Reach system.state.queue state.queue
    → IsSound system
    → IsSound (record system { state = state })
called {system} state calls h = record {
  valid = Reach-IsValid h.valid calls;
  fits = job-calls system.job calls h.fits;
}

took-fits :
    (state : State) (now : ℕ) (job : Option Job)
    → secretsd.Requests.Ids.IsOrdered state.queue
    → (pick state now).1 ≡ job
    → JobFits job (pick state now).0.queue
took-fits state now none o e = tt
took-fits state now (some job) o e = (pick-IsFit state now job o e).0

job_of :
    (system : System) (job : Job)
    → IsSound system
    → system.job ≡ some job
    → IsFit job.id job.generation system.state.queue
job_of system job h e = subst (λ j. JobFits j system.state.queue) e h.fits

-- What a step does to the queue is a few calls of it.
pub Step-calls :
    {system after : System}
    → Step system after
    → IsSound system
    → secretsd.Requests.Step.Reach system.state.queue after.state.queue
Step-calls {system} (registered token_hex session_id root) h =
    stay (register-queue system.state token_hex session_id root)
Step-calls {system} (unregistered session_id) h = stay (unregister-queue system.state session_id)
Step-calls {system} (denied id now) h = once (deny-queue system.state id now) (refused id now)
Step-calls {system} (locked now) h = lock-calls system.state now
Step-calls {system} (redeemed receipt_hex expected now) h =
    stay (redeem-queue system.state receipt_hex expected now)
Step-calls {system} (authorized name epoch now entropy decision) h =
    stay (finish_authorization-queue system.state name epoch now entropy decision)
Step-calls {system} (resolved proc access caller) h =
    stay (resolve_access-queue proc system.state access caller)
Step-calls {system} (began fs scope key force_fresh now room) h =
    either (begin_approval-queue fs system.state scope key force_fresh now)
      (enqueued scope key now room)
Step-calls {system} (polled source id deadline now) h =
    either (poll-queue system.state source id deadline now) (timed id now)
Step-calls {system} (tidied exists now) h =
    subst (λ q. secretsd.Requests.Step.Reach system.state.queue q)
      (sym (tidy-queue exists system.state now))
      (secretsd.Requests.Step.next
        (secretsd.Requests.Step.next secretsd.Requests.Step.here (swept now)) (pruned now))
Step-calls {system} (picked now idle) h = pick-calls system.state now
Step-calls {system} (started job group e) h = stay (decrypt_started-queue system.state job group)
Step-calls {system} (concluded proc exists job result now e) h =
    conclude-calls proc exists system.state job result now (job_of system job h e)

pub Step-IsSound : {system after : System} → Step system after → IsSound system → IsSound after
Step-IsSound {system} (registered token_hex session_id root) h =
    called _ (Step-calls (registered token_hex session_id root) h) h
Step-IsSound {system} (unregistered session_id) h =
    called _ (Step-calls (unregistered session_id) h) h
Step-IsSound {system} (denied id now) h = called _ (Step-calls (denied id now) h) h
Step-IsSound {system} (locked now) h = called _ (Step-calls (locked now) h) h
Step-IsSound {system} (redeemed receipt_hex expected now) h =
    called _ (Step-calls (redeemed receipt_hex expected now) h) h
Step-IsSound {system} (authorized name epoch now entropy decision) h =
    called _ (Step-calls (authorized name epoch now entropy decision) h) h
Step-IsSound {system} (resolved proc access caller) h =
    called _ (Step-calls (resolved proc access caller) h) h
Step-IsSound {system} (began fs scope key force_fresh now room) h =
    called _ (Step-calls (began fs scope key force_fresh now room) h) h
Step-IsSound {system} (polled source id deadline now) h =
    called _ (Step-calls (polled source id deadline now) h) h
Step-IsSound {system} (tidied exists now) h = called _ (Step-calls (tidied exists now) h) h
Step-IsSound {system} (picked now idle) h = record {
  valid = Reach-IsValid h.valid (Step-calls (picked now idle) h);
  fits = took-fits system.state now (pick system.state now).1 h.valid.ordered refl;
}
Step-IsSound {system} (started job group e) h = called _ (Step-calls (started job group e) h) h
Step-IsSound {system} (concluded proc exists job result now e) h = record {
  valid = Reach-IsValid h.valid (Step-calls (concluded proc exists job result now e) h);
  fits = tt;
}

pub Reach-IsSound : {system last : System} → IsSound system → Reach system last → IsSound last
Reach-IsSound h here = h
Reach-IsSound h (next r st) = Step-IsSound st (Reach-IsSound h r)

-- A daemon that has just started.
abbrev pub fresh : Config → Text → Text → System
fresh config boot_id instance_id = record { state = new config boot_id instance_id; job = none }

-- After any steps of the daemon's threads, in any order: the queue's ids ascend, its in-flight id
-- is that of the one request that decrypts, each scope has at most `max_pending_per_scope` active
-- requests for secrets and one for a capability, and the request of the worker's job waits no more
-- and, if it decrypts, has the job's generation.
pub fresh-IsSound :
    (config : Config) (boot_id instance_id : Text) {last : System}
    → Reach (fresh config boot_id instance_id) last
    → IsSound last
unfolding new
fresh-IsSound config boot_id instance_id steps =
    Reach-IsSound (record { valid = new-IsValid _; fits = tt }) steps
