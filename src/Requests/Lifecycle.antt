-- ===== src/Requests/Lifecycle.antt =====
-- What each call of the queue does to the states that `state_of` reports, and who is next.
use secretsd.Base.{
  ℕ, suc, ◌-◌, ◌≤◌, ◌<◌, ◌≡◌, refl, ◌∙◌, Bool, true, false, ◌&&◌, List, [], ◌∷◌, Option, none, some,
  ◌==◌, ℕ_eq, any, find, arith, inl, inr, Bool-cases, if◌then◌else◌, saturating_succ, update_first,
  find_holds, Ascends, ltb, find_of_any, ap, starts_with,
}
use secretsd.Proto.ErrCode.{ok}
use secretsd.Names.SecretName.{SecretName, SecretName_eq}
use secretsd.Grants.Token.{Scope, Scope_eq}
use mathlib.Core.Path.{subst}
use secretsd.Requests.Ids.{IsOrdered, find_same}
use secretsd.Requests.{
  Queue, PendingRequest, RequestId, RequestState, RequestState_eq, ids, id_of, has_id,
  is_active_state, is_pending, is_current, is_capability, same_request, existing, enqueue,
  is_cooling, next_ready, start, mark_decrypting, finish, set_state, complete, fail, retired,
  retire, started, with_state, state_of, granted, failed, decrypting, pending,
}

-- The state of a request that one call gives another state.
abbrev pub replaced : Bool → RequestState → Option RequestState → Option RequestState
replaced hit state none = none
replaced hit state (some old) = if hit then some state else some old

abbrev state_in : RequestId → List PendingRequest → Option RequestState
state_in id rs = elim (find (has_id id) rs) [ none ↦ none | some r ↦ some r.state ]

state_in-update :
    (id j : RequestId) (f : PendingRequest → PendingRequest) (state : RequestState)
    (rs : List PendingRequest)
    → ((r : PendingRequest) → ((f r).id ≡ r.id) × ((f r).state ≡ state))
    → state_in j (update_first (has_id id) f rs) ≡ replaced (id == j) state (state_in j rs)
state_in-update id j f state [] keep = refl
state_in-update id j f state (r ∷ rs) keep =
    ground (arith, keep r, state_in-update id j f state rs keep)

-- Whether the request is pending or decrypting.
abbrev pub active_state : Option RequestState → Bool
active_state none = false
active_state (some state) = is_active_state state

-- `timeout` and `deny` succeed exactly on an active request. They change the state of that request
-- alone.
pub retire_lem :
    (queue : Queue) (id j : RequestId) (state : RequestState) (now : ℕ)
    → ((retire queue id state now).1 ≡ active_state (state_of queue id))
      × (state_of (retire queue id state now).0 j
          ≡ replaced (id == j && active_state (state_of queue id)) state (state_of queue j))
unfolding retire state_of
retire_lem queue id j state now =
    ground (arith, state_in-update id j (retired state) state queue.requests (λ r. (refl, refl)))

state_of_found :
    (queue : Queue) (id : RequestId) (p : PendingRequest → Bool) (r : PendingRequest)
    → IsOrdered queue
    → find p queue.requests ≡ some r
    → r.id ≡ id
    → state_of queue id ≡ some r.state
unfolding state_of
state_of_found queue id p r o e same =
    let found = find_same p 0 queue.next_id queue.requests r o e in
    let here : find (has_id id) queue.requests ≡ some r =
      subst (λ n. find (has_id n) queue.requests ≡ some r) same found.0 in
    rw (here, state_of)

state_of-set_state :
    (queue : Queue) (id : RequestId) (state : RequestState) (now : ℕ)
    → state_of (finish (set_state queue id state) id now) id
      ≡ replaced true state (state_of queue id)
unfolding state_of finish
state_of-set_state queue id state now =
    ground
      (arith, state_in-update id id (with_state state) state queue.requests (λ r. (refl, refl)))

-- In a queue with ascending ids, `complete` succeeds only on a request that is decrypting, which
-- is granted then.
pub complete_ok :
    (queue : Queue) (id : RequestId) (generation now : ℕ)
    → IsOrdered queue
    → (complete queue id generation now).1 ≡ true
    → (state_of queue id ≡ some decrypting)
      × (state_of (complete queue id generation now).0 id ≡ some granted)
unfolding complete
complete_ok queue id generation now o h =
    let (r, e) = find_of_any (is_current id generation) queue.requests h in
    let held = find_holds (is_current id generation) queue.requests r e in
    let before : state_of queue id ≡ some decrypting =
      state_of_found queue id (is_current id generation) r o e (ground arith) ∙ ground arith in
    (before, rw h (state_of-set_state queue id granted now ∙ rw before))

-- `fail` gives a request of the queue the failed state, whatever state it was in.
pub fail_overwrites :
    (queue : Queue) (id : RequestId) (state : RequestState) (now : ℕ)
    → state_of queue id ≡ some state
    → state_of (fail queue id now) id ≡ some failed
unfolding fail
fail_overwrites queue id state now e = state_of-set_state queue id failed now ∙ rw e

none_before :
    (n lo hi : ℕ) (rs : List PendingRequest)
    → n ≤ lo
    → Ascends lo hi (ids rs)
    → any (λ r. is_pending r && ltb r.id n) rs ≡ false
none_before n lo hi [] le h = refl
none_before n lo hi (r ∷ rs) le h = ground (arith, none_before n (suc r.id) hi rs)

first_is_oldest :
    (lo hi : ℕ) (rs : List PendingRequest) (first : PendingRequest)
    → Ascends lo hi (ids rs)
    → find is_pending rs ≡ some first
    → any (λ r. is_pending r && ltb r.id first.id) rs ≡ false
first_is_oldest lo hi [] first h e = refl
first_is_oldest lo hi (r ∷ rs) first h e = elim (Bool-cases (is_pending r)) [
  | inl here ↦ ground (arith, none_before first.id (suc r.id) hi rs)
  | inr there ↦ ground (arith, first_is_oldest (suc r.id) hi rs first h.1)
]

id_of-some :
    (found : Option PendingRequest) (id : RequestId)
    → id_of found ≡ some id
    → (r : PendingRequest) × (found ≡ some r) × (r.id ≡ id)
id_of-some none id h = absurd (cc)
id_of-some (some r) id h = (r, refl, ground arith)

next_pending :
    (queue : Queue) (now : ℕ) (id : RequestId)
    → next_ready queue now ≡ some id
    → (queue.inflight ≡ none)
      × (is_cooling queue now ≡ false)
      × ((r : PendingRequest) × (find is_pending queue.requests ≡ some r) × (r.id ≡ id))
unfolding next_ready
next_pending queue now id h =
    let facts : (queue.inflight ≡ none)
        × (is_cooling queue now ≡ false)
        × (id_of (find is_pending queue.requests) ≡ some id) =
      ground arith in
    (facts.0, facts.1, id_of-some (find is_pending queue.requests) id facts.2)

-- In a queue with ascending ids, the request that `next_ready` names is the oldest pending one: it
-- waits, no pending request has a smaller id, no decrypt is in flight and the hardware does not
-- cool down.
pub next_ready_oldest :
    (queue : Queue) (now : ℕ) (id : RequestId)
    → IsOrdered queue
    → next_ready queue now ≡ some id
    → (state_of queue id ≡ some pending)
      × (any (λ r. is_pending r && ltb r.id id) queue.requests ≡ false)
      × (queue.inflight ≡ none)
      × (is_cooling queue now ≡ false)
next_ready_oldest queue now id o h =
    let (free, warm, (r, e, same)) = next_pending queue now id h in
    (
      state_of_found queue id is_pending r o e same
          ∙ ground (arith, find_holds is_pending queue.requests r e),
      subst (λ n. any (λ r. is_pending r && ltb r.id n) queue.requests ≡ false) same
          (first_is_oldest 0 queue.next_id queue.requests r o e),
      free,
      warm,
    )

mark_starts :
    (queue : Queue) (id : RequestId) (now : ℕ) (r : PendingRequest)
    → queue.inflight ≡ none
    → is_cooling queue now ≡ false
    → find (has_id id) queue.requests ≡ some r
    → is_pending r ≡ true
    → mark_decrypting queue id now ≡ start queue r
unfolding mark_decrypting
mark_starts queue id now r free warm found waits = ground arith

state_of-start :
    (queue : Queue) (r : PendingRequest) (id : RequestId)
    → find (has_id id) queue.requests ≡ some r
    → r.id ≡ id
    → state_of (start queue r).0 id ≡ some decrypting
unfolding state_of start
state_of-start queue r id found same = ground (
  arith,
  state_in-update r.id id (started (saturating_succ queue.generation)) decrypting queue.requests
      (λ x. (refl, refl)),
)

-- In a queue with ascending ids, `mark_decrypting` at the same instant starts what `next_ready`
-- names, with the next generation, and puts it in flight.
pub mark_decrypting_ready :
    (queue : Queue) (now : ℕ) (id : RequestId)
    → IsOrdered queue
    → next_ready queue now ≡ some id
    → ((mark_decrypting queue id now).1 ≡ some (saturating_succ queue.generation))
      × (state_of (mark_decrypting queue id now).0 id ≡ some decrypting)
      × ((mark_decrypting queue id now).0.inflight ≡ some id)
unfolding start
mark_decrypting_ready queue now id o h =
    let (free, warm, (r, e, same)) = next_pending queue now id h in
    let found : find (has_id id) queue.requests ≡ some r =
      subst (λ n. find (has_id n) queue.requests ≡ some r) same
        (find_same is_pending 0 queue.next_id queue.requests r o e).0 in
    let waits = find_holds is_pending queue.requests r e in
    rw (mark_starts queue id now r free warm found waits)
      (refl, state_of-start queue r id found same, ap some same)

-- Within the cooldown after a decrypt has ended at `last`, no request is next and none is started.
pub cooldown_blocks :
    (queue : Queue) (id : RequestId) (last now : ℕ)
    → queue.last_finished ≡ some last
    → last ≤ now
    → now - last < queue.limits.cooldown
    → (next_ready queue now ≡ none) × (mark_decrypting queue id now ≡ (queue, none))
unfolding next_ready mark_decrypting is_cooling
cooldown_blocks queue id last now e le soon = ground arith

-- A request for a secret that is pending or decrypting in the scope already is not added again:
-- its id is returned and the queue stays as it was.
pub enqueue_coalesces :
    (queue : Queue) (scope : Scope) (key : SecretName) (now : ℕ) (r : PendingRequest)
    → is_capability key ≡ false
    → find (same_request scope key) queue.requests ≡ some r
    → enqueue queue scope key now ≡ (queue, ok r.id)
unfolding enqueue existing starts_with
enqueue_coalesces queue scope key now r plain e = rw plain (rw (e, enqueue))
