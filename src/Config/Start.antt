-- ===== src/Config/Start.antt =====
-- What a daemon that has started keeps to: `serve_main` of src/lib.rs over src/hardening.rs, and the
-- worker of src/server/worker.rs afterwards.
use mathlib.Core.Path.{subst}
use secretsd.Base.{
  ◌⊎◌, ℕ, ◌-◌, ◌≤◌, ◌<◌, ◌≡◌, refl, ap, ◌∙◌, inl, inr, true, Option, none, some, Text, Bool, arith,
  Bool-cases, Option-cases, bytes,
}
use secretsd.Requests.{Queue, QueueLimits, next_ready, is_cooling}
use secretsd.Requests.Cooldown.{Reach-limits}
use secretsd.Requests.Lifecycle.{cooldown_blocks}
use secretsd.Server.State.{State}
use secretsd.Proto.ErrCode.{Result}
use secretsd.Peer.{ProcFs}
use secretsd.Server.Worker.{Job, Decrypted, pick, conclude}
use secretsd.Server.Step.{System, concluded, Reach, here, next}
use secretsd.Server.Finished.{AreWithin, conclude-last_finished, Reach-IsRecent}
use secretsd.Server.Invariant.{IsSound, Step-calls, Reach-IsSound, fresh-IsSound}
use secretsd.Hardening.{
  MemlockPolicy, optional, applied, SystemCalls, apply_no_core_dumps, validate_memlock_limit, apply,
  Variable, absent, foreign, text, memlock_policy, validate_memlock_limits,
}
use secretsd.Config.Daemon.{
  DaemonConfig, cached, server_config, from_secs, validate, run, serve_main,
}

Step-limits :
    {system last : System}
    → IsSound system
    → Reach system last
    → last.state.queue.limits ≡ system.state.queue.limits
Step-limits sound here = refl
Step-limits sound (next steps step) =
    Reach-limits (Step-calls step (Reach-IsSound sound steps)) ∙ Step-limits sound steps

-- A daemon that serves has a configuration that was validated.
serve_main_ok :
    (memlock : Variable) (system : SystemCalls) (config : DaemonConfig) (boot_id instance_id : Text)
    (state : State)
    → serve_main memlock system (some config) boot_id instance_id ≡ some state
    → run config boot_id instance_id ≡ some state
unfolding serve_main
serve_main_ok memlock system config boot_id instance_id state h = ground arith

run_cooldown :
    (config : DaemonConfig) (boot_id instance_id : Text) (state : State)
    → run config boot_id instance_id ≡ some state
    → config.touch_policy ≡ cached
    → from_secs 15 < state.queue.limits.cooldown
unfolding run validate secretsd.Server.State.new secretsd.Requests.new
run_cooldown config boot_id instance_id state h e = ground arith

-- The daemon's threads before their first step.
abbrev pub idle : State → System
idle state = record { state = state; job = none }

run-IsSound :
    (config : DaemonConfig) (boot_id instance_id : Text) (state : State)
    → run config boot_id instance_id ≡ some state
    → IsSound (idle state)
unfolding run
run-IsSound config boot_id instance_id state h = elim (Bool-cases (validate config)) [
  | inr refused ↦ absurd (ground arith)
  | inl good ↦
      subst (λ made. IsSound (idle made)) (ground arith)
        (fresh-IsSound (server_config config) boot_id instance_id here)
]

pick_blocked :
    (state : State) (finished now : ℕ)
    → state.queue.last_finished ≡ some finished
    → finished ≤ now
    → now - finished < state.queue.limits.cooldown
    → (pick state now).1 ≡ none
unfolding pick
pick_blocked state finished now h le soon =
    rw (pick, (cooldown_blocks state.queue 0 finished now h le soon).0)

-- The daemon after its worker has concluded a decrypt.
abbrev pub ended : ProcFs → (Text → Bool) → System → Job → Result Decrypted → ℕ → System
ended proc exists before job result finished = record {
  state = conclude proc exists before.state job result finished;
  job = none;
}

-- A daemon that was started with the touch policy `cached` takes no job within 15 seconds after its
-- worker has concluded a decrypt, with a value or a failure, whatever its threads have done before
-- and do in between, as long as the clock does not run back from then on.
pub no_job_in_touch_cache :
    (memlock : Variable) (system : SystemCalls) (config : DaemonConfig) (boot_id instance_id : Text)
    (state : State) {before last : System} (proc : ProcFs) (exists : Text → Bool) (job : Job)
    (result : Result Decrypted) (finished now : ℕ)
    → serve_main memlock system (some config) boot_id instance_id ≡ some state
    → config.touch_policy ≡ cached
    → Reach (idle state) before
    → before.job ≡ some job
    → (steps : Reach (ended proc exists before job result finished) last)
    → AreWithin finished now steps
    → finished ≤ now
    → now - finished ≤ 15000000000
    → (pick last.state now).1 ≡ none
no_job_in_touch_cache memlock system config boot_id instance_id state {before} {last} proc exists
      job result finished now h e past taken steps within le soon =
    let started = serve_main_ok memlock system config boot_id instance_id state h in
    let floor = run_cooldown config boot_id instance_id state started e in
    let sound = run-IsSound config boot_id instance_id state started in
    let past_end = next past (concluded proc exists job result finished taken) in
    let limits =
      ap (λ limits. limits.cooldown)
        (Step-limits (Reach-IsSound sound past_end) steps ∙ Step-limits sound past_end) in
    let ending = conclude-last_finished proc exists before.state job result finished in
    let (when, recorded, early, late) =
      Reach-IsRecent finished now steps within (finished, ending, omega arith, le) in
    pick_blocked last.state when now recorded late (omega arith)

-- A limit that is infinite (2^64 - 1) or at least 512 MiB.
abbrev pub Suffices : ℕ → Type 0
Suffices limit = (limit ≡ 18446744073709551615) ⊎ (536870912 ≤ limit)

sufficient_limits :
    (system : SystemCalls)
    → validate_memlock_limit system ≡ applied
    → (soft : ℕ) × (hard : ℕ) × (system.memlock_limits ≡ some (soft, hard))
      × (Suffices soft × Suffices hard)
unfolding validate_memlock_limit validate_memlock_limits
sufficient_limits system h = elim (Option-cases system.memlock_limits) [
  | inl unknown ↦ absurd (ground arith)
  | inr ((soft, hard), known) ↦ (soft, hard, known, ground arith)
]

apply_ok :
    (policy : MemlockPolicy) (system : SystemCalls)
    → apply policy system ≡ applied
    → (system.set_dumpable ≡ true)
      × (system.set_core_limit ≡ true)
      × ((policy ≡ optional)
          ⊎ ((system.lock_all ≡ true) × (validate_memlock_limit system ≡ applied)))
unfolding apply apply_no_core_dumps
apply_ok policy system h = ground arith

serve_main_applied :
    (memlock : Variable) (system : SystemCalls) (config : Option DaemonConfig)
    (boot_id instance_id : Text) (state : State)
    → serve_main memlock system config boot_id instance_id ≡ some state
    → (policy : MemlockPolicy) × (memlock_policy memlock ≡ some policy)
      × (apply policy system ≡ applied)
unfolding serve_main
serve_main_applied memlock system config boot_id instance_id state h =
    elim (Option-cases (memlock_policy memlock)) [
      | inl unnamed ↦ absurd (ground arith)
      | inr (policy, named) ↦ (policy, named, ground arith)
    ]

-- Only the text `optional` itself names the policy that tolerates unlocked memory.
memlock_policy-optional :
    (memlock : Variable)
    → memlock_policy memlock ≡ some optional
    → memlock ≡ Variable.text (bytes "optional")
unfolding memlock_policy
memlock_policy-optional absent h = absurd (ground arith)
memlock_policy-optional foreign h = absurd (ground arith)
memlock_policy-optional (text value) h = ground arith

-- A daemon that serves has turned core dumps off and set the core limit to zero, and unless the
-- variable SECRETSD_MEMLOCK is the text `optional`, its memory is locked, and the soft and the hard
-- limit are each infinite or at least 512 MiB.
pub serve_main-hardened :
    (memlock : Variable) (system : SystemCalls) (config : Option DaemonConfig)
    (boot_id instance_id : Text) (state : State)
    → serve_main memlock system config boot_id instance_id ≡ some state
    → (system.set_dumpable ≡ true)
      × (system.set_core_limit ≡ true)
      × ((memlock ≡ Variable.text (bytes "optional"))
          ⊎ ((system.lock_all ≡ true)
              × ((soft : ℕ) × (hard : ℕ) × (system.memlock_limits ≡ some (soft, hard))
                  × (Suffices soft × Suffices hard))))
serve_main-hardened memlock system config boot_id instance_id state h =
    let (policy, named, done) =
      serve_main_applied memlock system config boot_id instance_id state h in
    let (dumpable, core, rest) = apply_ok policy system done in
    (
      dumpable,
      core,
      elim rest [
        | inl tolerant ↦ inl (memlock_policy-optional memlock (ground arith))
        | inr (locked, limits) ↦ inr (locked, sufficient_limits system limits)
      ],
    )
