-- ===== src/Server/Conclude.antt =====
-- What the end of a decrypt does to the grants and to the request: `conclude`.
use secretsd.Base.{
  ℕ, suc, ◌<◌, ◌≡◌, refl, sym, ◌∙◌, Bool, false, ◌&&◌, List, [], ◌∷◌, some, Text, ℕ_eq, arith, any,
  find, update_first, any_mono, any-none, inl, inr, Bool-cases, Option-cases, if◌then◌else◌,
  Ascends,
}
use mathlib.Core.Path.{subst}
use secretsd.Proto.ErrCode.{ErrCode, ok, err}
use secretsd.Peer.{ProcFs}
use secretsd.Grants.Table.{insert}
use secretsd.Requests.{
  Queue, PendingRequest, RequestId, RequestState_eq, RequestState-discrete, ids, has_id, is_active,
  is_current, retired, retire, deny, denied, complete, finish,
}
use secretsd.Requests.Ids.{IsOrdered}
use secretsd.Server.State.{State, kill_active}
use secretsd.Server.Worker.{Job, Decrypted, conclude, grant, settle, may_insert}
use secretsd.Server.Calls.{kill_active-queue}

current_above :
    (id g lo hi : ℕ) (rs : List PendingRequest)
    → id < lo
    → Ascends lo hi (ids rs)
    → any (is_current id g) rs ≡ false
current_above id g lo hi [] lt h = refl
current_above id g lo hi (r ∷ rs) lt h = ground (arith, current_above id g (suc r.id) hi rs)

retired_not_current :
    (id g lo hi : ℕ) (rs : List PendingRequest)
    → Ascends lo hi (ids rs)
    → any (is_current id g) (update_first (has_id id) (retired denied) rs) ≡ false
unfolding RequestState-discrete
retired_not_current id g lo hi [] h = refl
retired_not_current id g lo hi (r ∷ rs) h = elim (Bool-cases (has_id id r)) [
  | inl hit ↦ ground (arith, current_above id g (suc r.id) hi rs)
  | inr miss ↦ ground (arith, retired_not_current id g (suc r.id) hi rs)
]

over_not_current :
    (id g lo hi : ℕ) (rs : List PendingRequest) (r : PendingRequest)
    → Ascends lo hi (ids rs)
    → find (has_id id) rs ≡ some r
    → is_active r ≡ false
    → any (is_current id g) rs ≡ false
over_not_current id g lo hi [] r h e over = refl
over_not_current id g lo hi (x ∷ rs) r h e over = elim (Bool-cases (has_id id x)) [
  | inl hit ↦ ground (arith, current_above id g (suc x.id) hi rs)
  | inr miss ↦ ground (arith, over_not_current id g (suc x.id) hi rs r h.1)
]

-- No completion is accepted for a request that `deny` was just called for.
deny_not_current :
    (queue : Queue) (id g now : ℕ)
    → IsOrdered queue
    → any (is_current id g) (deny queue id now).0.requests ≡ false
unfolding deny retire finish
deny_not_current queue id g now o = elim (Option-cases (find (has_id id) queue.requests)) [
  | inl e ↦
      rw (e, retire)
        (any_mono (is_current id g) (has_id id) queue.requests (λ r c. ground arith)
          (any-none (has_id id) queue.requests e))
  | inr (r, e) ↦ elim (Bool-cases (is_active r)) [
    | inl active ↦
        rw (e, retire) (rw active (retired_not_current id g 0 queue.next_id queue.requests o))
    | inr over ↦
        rw (e, retire) (rw over (over_not_current id g 0 queue.next_id queue.requests r o e over))
  ]
]

module _ (proc : ProcFs) (exists : Text → Bool) where
  -- Whether the end of a decrypt is accepted.
  abbrev pub is_accepted : State → Job → Bool
  is_accepted state job =
      may_insert proc exists state job
      && any (is_current job.id job.generation) state.queue.requests

  settle_current :
      (state : State) (job : Job) (now : ℕ)
      → IsOrdered state.queue
      → any (is_current job.id job.generation) (settle proc exists state job now).requests
        ≡ is_accepted state job
  unfolding settle
  settle_current state job now o =
      ground (arith, deny_not_current state.queue job.id job.generation now o)

  complete_flag :
      (queue : Queue) (id g now : ℕ)
      → (complete queue id g now).1 ≡ any (is_current id g) queue.requests
  unfolding complete
  complete_flag queue id g now = refl

  grant-grants :
      (state : State) (job : Job) (d : Decrypted) (now : ℕ)
      → IsOrdered state.queue
      → (grant proc exists state job d now).grants ≡ (
          if is_accepted state job
          then insert state.grants job.scope job.key d.value now d.origin
          else state.grants)
  unfolding grant
  grant-grants state job d now o = ground (
    arith,
    complete_flag (settle proc exists state job now) job.id job.generation now,
    settle_current state job now o,
  )

  kill_active_accepted :
      (state : State) (id : RequestId) (job : Job)
      → is_accepted (kill_active state id) job ≡ is_accepted state job
  unfolding kill_active may_insert
  kill_active_accepted state id job = ground arith

  pub kill_active_keeps :
      (state : State) (id : RequestId)
      → ((kill_active state id).grants ≡ state.grants)
        × ((kill_active state id).registry ≡ state.registry)
        × ((kill_active state id).lock_epoch ≡ state.lock_epoch)
        × ((kill_active state id).receipts ≡ state.receipts)
  unfolding kill_active
  kill_active_keeps state id = ground arith

  -- In a queue with ascending ids, a finished decrypt inserts its value for the scope and key of
  -- its job if no lock came between, the session or terminal is still there, and the request is
  -- decrypting with the job's generation. In every other case, and where the decrypt failed, the
  -- grants stay as they are.
  pub conclude-grants :
      (state : State) (job : Job) (now : ℕ)
      → IsOrdered state.queue
      → ((d : Decrypted)
          → (conclude proc exists state job (ok d) now).grants ≡ (
              if is_accepted state job
              then insert state.grants job.scope job.key d.value now d.origin
              else state.grants))
        × ((error : ErrCode)
            → (conclude proc exists state job (err error) now).grants ≡ state.grants)
  unfolding conclude
  conclude-grants state job now o =
      let (same, _, _, _) = kill_active_keeps state job.id in
      (
        λ d.
            grant-grants (kill_active state job.id) job d now
              (subst IsOrdered (sym (kill_active-queue state job.id)) o)
            ∙ rw (kill_active_accepted state job.id job, same) refl,
        λ error. same,
      )
