-- ===== src/Requests/Refusal.antt =====
-- A request that was refused or has expired is never granted, whatever is called afterwards.
use secretsd.Base.{
  ℕ, suc, ◌<◌, ◌≡◌, refl, Bool, true, false, ◌&&◌, List, [], ◌∷◌, map, some, ◌==◌, ℕ_eq, any, find,
  arith, inl, inr, Bool-cases, saturating_succ, any-append, any-update, any-map, any-retain,
  any_mono, find_holds, any_of_found, ◌≢◌, Option-cases, Ascends, Ascends-le,
}
use secretsd.Requests.Cases.{enqueue_cases, mark_cases, complete_cases, retire_cases}
use secretsd.Requests.Ids.{IsOrdered, finish_all_lem}
use secretsd.Requests.Calls.{
  Call, enqueued, marked, completed, failed_with, timed, refused, swept, pruned, Calls, none_yet,
  also, HasRoom, HaveRoom,
}
use secretsd.Requests.{
  Queue, PendingRequest, RequestId, RequestState, RequestState_eq, ids, has_id, is_current,
  add_request, overdue_ids, start, finish, complete, fail, retired, retire, started, with_state,
  timeout, deny, state_of, expire_one, sweep_timeouts, prune, survives_prune, granted, failed,
  decrypting, pending, denied, timed_out,
}

-- A request with the id that is granted, or may still be.
abbrev pub may_grant : RequestState → Bool
may_grant pending = true
may_grant decrypting = true
may_grant granted = true
may_grant _ = false

abbrev pub is_live : RequestId → PendingRequest → Bool
is_live id request = has_id id request && may_grant request.state

-- The id has been issued, and no request with it is granted or may still be.
pub record IsOver (id : RequestId) (queue : Queue) : Type 0 where
  pub issued : id < queue.next_id
  pub dead : any (is_live id) queue.requests ≡ false

complete-IsOver :
    (id : RequestId) (queue : Queue) (other : RequestId) (generation now : ℕ)
    → IsOver id queue
    → IsOver id (complete queue other generation now).0
unfolding finish
complete-IsOver id queue other generation now o =
    complete_cases (IsOver id) queue other generation now
      (λ current. elim (Bool-cases (other == id)) [
        | inl same ↦ absurd (
            cc (
              any_mono (is_current other generation) (is_live id) queue.requests
                  (λ r e. ground arith) o.dead,
              current,
            ))
        | inr differs ↦ record {
          issued = o.issued;
          dead =
              any-update (has_id other) (is_live id) (with_state granted) queue.requests
                (λ r e l. ground arith) o.dead;
        }
      ])
      (λ _. record { issued = o.issued; dead = o.dead })

retire-IsOver :
    (id : RequestId) (queue : Queue) (other : RequestId) (state : RequestState) (now : ℕ)
    → may_grant state ≡ false
    → IsOver id queue
    → IsOver id (retire queue other state now).0
unfolding finish
retire-IsOver id queue other state now over o =
    retire_cases (IsOver id) queue other state now o (λ _ _ _. record {
      issued = o.issued;
      dead =
          any-update (has_id other) (is_live id) (retired state) queue.requests
            (λ r e l. ground arith) o.dead;
    })

-- Every call keeps a request over.
Call-IsOver :
    (id : RequestId) {queue after : Queue} (call : Call queue after)
    → HasRoom call
    → IsOver id queue
    → IsOver id after
unfolding add_request start fail timeout deny sweep_timeouts prune finish
Call-IsOver id {queue} (enqueued scope key now) room o =
    enqueue_cases (IsOver id) queue scope key now o (λ _. record {
      issued = ground (arith, o.issued);
      dead = rw (any-append (is_live id) queue.requests) (ground (arith, o.dead, o.issued));
    })
Call-IsOver id {queue} (marked other now) room o =
    mark_cases (IsOver id) queue other now o λ r _ _ e waits. elim (Bool-cases (r.id == id)) [
      | inl same ↦
          absurd (
            cc (any_of_found (has_id other) (is_live id) queue.requests r e (ground arith), o.dead))
      | inr differs ↦ record {
        issued = o.issued;
        dead =
            any-update (has_id r.id) (is_live id) (started (saturating_succ queue.generation))
              queue.requests (λ x h l. ground arith) o.dead;
      }
    ]
Call-IsOver id {queue} (completed other generation now) room o =
    complete-IsOver id queue other generation now o
Call-IsOver id {queue} (failed_with other now) room o = record {
  issued = o.issued;
  dead =
      any-update (has_id other) (is_live id) (with_state failed) queue.requests
        (λ r e l. ground arith) o.dead;
}
Call-IsOver id {queue} (timed other now) room o = retire-IsOver id queue other timed_out now refl o
Call-IsOver id {queue} (refused other now) room o = retire-IsOver id queue other denied now refl o
Call-IsOver id {queue} (swept now) room o =
    let expire = expire_one queue.limits.ttl now in
    let swept_queue : Queue = record queue { requests = map expire queue.requests } in
    let same = finish_all_lem swept_queue (overdue_ids queue.limits.ttl now queue.requests) now in
    record {
      issued = rw same.1 o.issued;
      dead = rw same.0 (any-map (is_live id) expire queue.requests (λ r l. ground arith) o.dead);
    }
Call-IsOver id {queue} (pruned now) room o = record {
  issued = o.issued;
  dead = any-retain (is_live id) (survives_prune queue now) queue.requests o.dead;
}

Calls-IsOver :
    (id : RequestId) {queue last : Queue} (calls : Calls queue last)
    → HaveRoom calls
    → IsOver id queue
    → IsOver id last
Calls-IsOver id none_yet room o = o
Calls-IsOver id (also calls call) room o =
    Call-IsOver id call room.1 (Calls-IsOver id calls room.0 o)

dead_above :
    (id lo hi : ℕ) (rs : List PendingRequest)
    → id < lo
    → Ascends lo hi (ids rs)
    → any (is_live id) rs ≡ false
dead_above id lo hi [] lt h = refl
dead_above id lo hi (r ∷ rs) lt h = ground (arith, dead_above id (suc r.id) hi rs)

dead_of_find :
    (id lo hi : ℕ) (rs : List PendingRequest) (r : PendingRequest)
    → Ascends lo hi (ids rs)
    → find (has_id id) rs ≡ some r
    → may_grant r.state ≡ false
    → (any (is_live id) rs ≡ false) × (id < hi)
dead_of_find id lo hi [] r h e over = absurd (cc)
dead_of_find id lo hi (x ∷ rs) r h e over = elim (Bool-cases (has_id id x)) [
  | inl hit ↦ ground (arith, dead_above id (suc x.id) hi rs, Ascends-le (suc x.id) hi (ids rs) h.1)
  | inr miss ↦ ground (arith, dead_of_find id (suc x.id) hi rs r h.1)
]

state_of_found :
    (queue : Queue) (id : RequestId) (state : RequestState)
    → state_of queue id ≡ some state
    → (r : PendingRequest) × (find (has_id id) queue.requests ≡ some r) × (r.state ≡ state)
unfolding state_of
state_of_found queue id state h = elim (Option-cases (find (has_id id) queue.requests)) [
  | inl e ↦ absurd (ground (arith, e))
  | inr (r, e) ↦ (r, e, ground (arith, e))
]

IsOver-of_state :
    (queue : Queue) (id : RequestId) (state : RequestState)
    → IsOrdered queue
    → state_of queue id ≡ some state
    → may_grant state ≡ false
    → IsOver id queue
IsOver-of_state queue id state o h over =
    let (r, e, s) = state_of_found queue id state h in
    let (dead, issued) = dead_of_find id 0 queue.next_id queue.requests r o e (ground arith) in
    record { issued = issued; dead = dead }

-- In a queue with ascending ids: a request in a state other than pending, decrypting and granted
-- is never granted after any further calls, completions of any generation among them, while fewer
-- than 2^64 - 1 ids are issued, and no completion for it is accepted, whatever its generation.
pub refused_never_granted :
    (queue last : Queue) (id : RequestId) (state : RequestState)
    → IsOrdered queue
    → state_of queue id ≡ some state
    → may_grant state ≡ false
    → (calls : Calls queue last) → HaveRoom calls
    → (state_of last id ≢ some granted)
      × ((generation now : ℕ) → (complete last id generation now).1 ≡ false)
unfolding complete
refused_never_granted queue last id state o h over calls room =
    let final = Calls-IsOver id calls room (IsOver-of_state queue id state o h over) in
    (
      (λ e.
          let (r, found, s) = state_of_found last id granted e in
          cc (
            any_of_found (has_id id) (is_live id) last.requests r found
                (ground (arith, find_holds (has_id id) last.requests r found)),
            final.dead,
          )),
      λ generation now.
          any_mono (is_current id generation) (is_live id) last.requests (λ r e. ground arith)
            final.dead,
    )
