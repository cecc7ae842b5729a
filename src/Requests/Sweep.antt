-- ===== src/Requests/Sweep.antt =====
-- `sweep_timeouts` and `prune` under the single-flight invariant.
use secretsd.Base.{
  ℕ, suc, ◌≤◌, ◌<◌, ◌≡◌, refl, false, List, [], ◌∷◌, map, none, some, ℕ_eq, any, find, count, arith,
  Ascends, count-map-le, find-retain_kept, find-none, any-count, count-retain-le, inl, inr,
  Bool-cases, if◌then◌else◌, ==_of_ne,
}
use native.Mathlib.Nat.{le_trans}
use secretsd.Requests.Ids.{IsOrdered, finish_all_lem}
use secretsd.Requests.SingleFlight.{is_decrypting, IsSingleFlight, absent}
use secretsd.Requests.{
  Queue, PendingRequest, RequestId, RequestState_eq, ids, id_of, is_inflight, overdue_ids, finish,
  expire_one, finish_all, sweep_timeouts, prune, decrypting, timed_out, survives_prune,
}

any-none_inflight : (rest : List RequestId) → any (λ id. is_inflight id none) rest ≡ false
any-none_inflight [] = refl
any-none_inflight (x ∷ xs) = any-none_inflight xs

finish_all-inflight :
    (queue : Queue) (expired : List RequestId) (now : ℕ)
    → (finish_all queue expired now).inflight
      ≡ (if any (λ id. is_inflight id queue.inflight) expired then none else queue.inflight)
unfolding finish_all
finish_all-inflight queue [] now = refl
finish_all-inflight queue (id ∷ rest) now =
    ground (arith, finish_all-inflight (finish queue id now) rest now, any-none_inflight rest)

absent_overdue :
    (n lo hi ttl now : ℕ) (rs : List PendingRequest)
    → n < lo
    → Ascends lo hi (ids rs)
    → any (λ id. is_inflight id (some n)) (overdue_ids ttl now rs) ≡ false
absent_overdue n lo hi ttl now [] lt h = refl
absent_overdue n lo hi ttl now (r ∷ rs) lt h =
    ground (arith, absent_overdue n (suc r.id) hi ttl now rs)

find-swept :
    (ttl now lo hi : ℕ) (rs : List PendingRequest)
    → Ascends lo hi (ids rs)
    → count is_decrypting rs ≤ 1
    → id_of (find is_decrypting (map (expire_one ttl now) rs)) ≡ (
        if any (λ id. is_inflight id (id_of (find is_decrypting rs))) (overdue_ids ttl now rs)
        then none
        else id_of (find is_decrypting rs))
find-swept ttl now lo hi [] h c = refl
find-swept ttl now lo hi (r ∷ rs) h c = elim (Bool-cases (is_decrypting r)) [
  | inl runs ↦
      let idle = any-count is_decrypting rs (ground arith) in
      ground (
        arith,
        find-swept ttl now (suc r.id) hi rs h.1,
        find-none is_decrypting rs idle,
        absent_overdue r.id (suc r.id) hi ttl now rs (omega arith) h.1,
        any-none_inflight (overdue_ids ttl now rs),
        ==_of_ne timed_out decrypting,
      )
  | inr rests ↦ ground (
    arith,
    find-swept ttl now (suc r.id) hi rs h.1,
    absent r.id (suc r.id) hi rs (omega arith) h.1,
    ==_of_ne timed_out decrypting,
  )
]

-- A sweep frees the hardware exactly where it expires the decrypt in flight.
pub sweep_timeouts-IsSingleFlight :
    (queue : Queue) (now : ℕ)
    → IsOrdered queue
    → IsSingleFlight queue
    → IsSingleFlight (sweep_timeouts queue now).0
unfolding sweep_timeouts
sweep_timeouts-IsSingleFlight queue now o h =
    let ttl = queue.limits.ttl in
    let swept : Queue = record queue { requests = map (expire_one ttl now) queue.requests } in
    let expired = overdue_ids ttl now queue.requests in
    let same = (finish_all_lem swept expired now).0 in
    record {
      backed = rw (
        same,
        finish_all-inflight swept expired now,
        find-swept ttl now 0 queue.next_id queue.requests o h.single,
        h.backed,
      );
      single = rw same (
          le_trans
            (count-map-le is_decrypting (expire_one ttl now) queue.requests (λ r e. ground arith))
            h.single);
    }

-- Pruning drops no active request.
pub prune-IsSingleFlight :
    (queue : Queue) (now : ℕ) → IsSingleFlight queue → IsSingleFlight (prune queue now)
unfolding prune
prune-IsSingleFlight queue now h = record {
  backed =
      rw
        (find-retain_kept is_decrypting (survives_prune queue now) queue.requests
          (λ r e. ground arith))
        h.backed;
  single =
      le_trans (count-retain-le is_decrypting (survives_prune queue now) queue.requests) h.single;
}
