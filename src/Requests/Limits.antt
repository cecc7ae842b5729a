-- ===== src/Requests/Limits.antt =====
-- How many requests of one scope can be active: the guard of `enqueue`.
use secretsd.Base.{
  ℕ, ◌≤◌, ◌≡◌, refl, sym, Bool, true, false, not, ◌&&◌, List, map, some, ◌==◌, ℕ_eq, find, retain,
  count, arith, count-append, count-update-le, count-update_found, find_holds, saturating_succ,
  count-map-le, count-retain-le, update_first, inl, inr, Bool-cases, count_mono,
}
use mathlib.Core.Path.{subst}
use native.Mathlib.Nat.{le_trans}
use secretsd.Names.SecretName.{SecretName, SecretName_eq}
use secretsd.Grants.Token.{Scope, Scope_eq}
use secretsd.Requests.Cases.{enqueue_cases, mark_cases, complete_cases, retire_cases}
use secretsd.Requests.Ids.{finish_all_lem}
use secretsd.Requests.{
  Queue, PendingRequest, RequestId, RequestState, RequestState_eq, has_id, is_active,
  is_active_state, is_capability, counts_for, add_request, enqueue, overdue_ids, start,
  mark_decrypting, finish, complete, fail, retired, retire, started, with_state, expire_one,
  sweep_timeouts, prune, survives_prune, granted, failed,
}

-- An active request of the scope for a key that is no capability's.
abbrev pub is_plain : Scope → PendingRequest → Bool
is_plain scope request =
    request.scope == scope && (not (is_capability request.key) && is_active request)

-- A scope has at most `max_pending_per_scope` active requests for secrets, and at most one for a
-- capability.
pub record IsLimited (queue : Queue) : Type 0 where
  pub plain : (s : Scope) → count (is_plain s) queue.requests ≤ queue.limits.max_pending_per_scope
  pub capability : (s : Scope) → count (counts_for true s) queue.requests ≤ 1

-- `enqueue` keeps both limits.
pub enqueue-IsLimited :
    (queue : Queue) (scope : Scope) (key : SecretName) (now : ℕ)
    → IsLimited queue
    → IsLimited (enqueue queue scope key now).0
unfolding add_request
enqueue-IsLimited queue scope key now h = enqueue_cases IsLimited queue scope key now h λ room.
    elim (Bool-cases (is_capability key)) [
      | inl c ↦ record {
        plain = λ s. rw (count-append (is_plain s) queue.requests) (ground (arith, h.plain s));
        capability = λ s.
            rw (count-append (counts_for true s) queue.requests) (ground (arith, h.capability s));
      }
      | inr c ↦ record {
        plain = λ s. rw (count-append (is_plain s) queue.requests) (
            ground (
              arith,
              h.plain s,
              count_mono (is_plain s) (counts_for false s) queue.requests (λ r e. ground arith),
            ));
        capability = λ s.
            rw (count-append (counts_for true s) queue.requests) (ground (arith, h.capability s));
      }
    ]

-- A change after which no more requests of any kind are active keeps the limits.
module _ (queue : Queue) (requests : List PendingRequest) where
  quieter-IsLimited :
      ((s : Scope) → count (is_plain s) requests ≤ count (is_plain s) queue.requests)
      → ((s : Scope)
          → count (counts_for true s) requests ≤ count (counts_for true s) queue.requests)
      → IsLimited queue
      → (after : Queue) → after.requests ≡ requests
      → after.limits ≡ queue.limits
      → IsLimited after
  quieter-IsLimited fewer fewer_caps h after e l = record {
    plain = λ s. rw (e, l) (le_trans (fewer s) (h.plain s));
    capability = λ s. rw e (le_trans (fewer_caps s) (h.capability s));
  }

-- Starting a request that waits leaves it active.
pub mark_decrypting-IsLimited :
    (queue : Queue) (id : RequestId) (now : ℕ)
    → IsLimited queue
    → IsLimited (mark_decrypting queue id now).0
unfolding start
mark_decrypting-IsLimited queue id now h = mark_cases IsLimited queue id now h λ r _ _ e waits.
    let same : r.id ≡ id = ground (arith, find_holds (has_id id) queue.requests r e) in
    let found : find (has_id r.id) queue.requests ≡ some r =
      subst (λ n. find (has_id n) queue.requests ≡ some r) (sym same) e in
    let f = started (saturating_succ queue.generation) in
    quieter-IsLimited queue (update_first (has_id r.id) f queue.requests)
      (λ s.
        count-update_found (has_id r.id) (is_plain s) f queue.requests r found (λ t. ground arith))
      (λ s.
        count-update_found (has_id r.id) (counts_for true s) f queue.requests r found
          (λ t. ground arith))
      h _ refl refl

-- Stopping a request, whatever its state, makes it inactive.
halted-IsLimited :
    (f : PendingRequest → PendingRequest) (queue : Queue) (id : RequestId) (now : ℕ)
    → ((r : PendingRequest) → is_active (f r) ≡ false)
    → IsLimited queue
    → IsLimited
        (finish (record queue { requests = update_first (has_id id) f queue.requests }) id now)
unfolding finish
halted-IsLimited f queue id now halts h =
    quieter-IsLimited queue (update_first (has_id id) f queue.requests)
      (λ s.
        count-update-le (has_id id) (is_plain s) f queue.requests
          (λ r t. absurd (ground (arith, halts r))))
      (λ s.
        count-update-le (has_id id) (counts_for true s) f queue.requests
          (λ r t. absurd (ground (arith, halts r))))
      h _ refl refl

pub complete-IsLimited :
    (queue : Queue) (id : RequestId) (generation now : ℕ)
    → IsLimited queue
    → IsLimited (complete queue id generation now).0
unfolding finish
complete-IsLimited queue id generation now h =
    complete_cases IsLimited queue id generation now
      (λ _. halted-IsLimited (with_state granted) queue id now (λ _. refl) h)
      (λ _. record { plain = h.plain; capability = h.capability })

pub fail-IsLimited :
    (queue : Queue) (id : RequestId) (now : ℕ) → IsLimited queue → IsLimited (fail queue id now)
unfolding fail
fail-IsLimited queue id now h = halted-IsLimited (with_state failed) queue id now (λ _. refl) h

pub retire-IsLimited :
    (queue : Queue) (id : RequestId) (state : RequestState) (now : ℕ)
    → is_active_state state ≡ false
    → IsLimited queue
    → IsLimited (retire queue id state now).0
retire-IsLimited queue id state now over h =
    retire_cases IsLimited queue id state now h
      (λ _ _ _. halted-IsLimited (retired state) queue id now (λ _. over) h)

pub sweep_timeouts-IsLimited :
    (queue : Queue) (now : ℕ) → IsLimited queue → IsLimited (sweep_timeouts queue now).0
unfolding sweep_timeouts
sweep_timeouts-IsLimited queue now h =
    let expire = expire_one queue.limits.ttl now in
    let swept : Queue = record queue { requests = map expire queue.requests } in
    let same = finish_all_lem swept (overdue_ids queue.limits.ttl now queue.requests) now in
    quieter-IsLimited queue (map expire queue.requests)
      (λ s. count-map-le (is_plain s) expire queue.requests (λ r t. ground arith))
      (λ s. count-map-le (counts_for true s) expire queue.requests (λ r t. ground arith)) h _ same.0
      same.2

pub prune-IsLimited : (queue : Queue) (now : ℕ) → IsLimited queue → IsLimited (prune queue now)
unfolding prune
prune-IsLimited queue now h =
    quieter-IsLimited queue (retain (survives_prune queue now) queue.requests)
      (λ s. count-retain-le (is_plain s) (survives_prune queue now) queue.requests)
      (λ s. count-retain-le (counts_for true s) (survives_prune queue now) queue.requests) h _ refl
      refl
