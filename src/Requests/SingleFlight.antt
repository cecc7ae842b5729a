-- ===== src/Requests/SingleFlight.antt =====
-- One decrypt at a time: `inflight` is exactly the one request that is decrypting.
use secretsd.Base.{
  ==_of_ne, any_of_found, ℕ, suc, ◌≤◌, ◌<◌, ◌≡◌, refl, sym, ◌∙◌, Bool, true, false, List, [], ◌∷◌,
  none, some, ◌==◌, ℕ_eq, any, find, count, arith, Ascends, find-append, count-append,
  count-update-le, find-none, any-count, update_first, inl, inr, Bool-cases, if◌then◌else◌,
  map_option, Option-cases, find_holds, saturating_succ,
}
use mathlib.Core.Path.{subst}
use native.Mathlib.Nat.{le_trans}
use secretsd.Names.SecretName.{SecretName}
use secretsd.Grants.Token.{Scope}
use secretsd.Requests.Cases.{enqueue_cases, mark_cases, complete_cases, retire_cases}
use secretsd.Requests.Ids.{find_same, IsOrdered}
use secretsd.Requests.{
  Queue, PendingRequest, RequestId, RequestState, RequestState_eq, ids, id_of, has_id, is_inflight,
  is_current, add_request, enqueue, start, mark_decrypting, finish, complete, fail, retired, retire,
  started, with_state, granted, failed, decrypting,
}

abbrev pub is_decrypting : PendingRequest → Bool
is_decrypting request = request.state == decrypting

pub record IsSingleFlight (queue : Queue) : Type 0 where
  pub backed : queue.inflight ≡ id_of (find is_decrypting queue.requests)
  pub single : count is_decrypting queue.requests ≤ 1

-- A new request waits, so nothing changes for the hardware.
pub enqueue-IsSingleFlight :
    (queue : Queue) (scope : Scope) (key : SecretName) (now : ℕ)
    → IsSingleFlight queue
    → IsSingleFlight (enqueue queue scope key now).0
unfolding add_request
enqueue-IsSingleFlight queue scope key now h =
    enqueue_cases IsSingleFlight queue scope key now h (λ _. record {
      backed = rw (find-append is_decrypting queue.requests) (ground (arith, h.backed));
      single = rw (count-append is_decrypting queue.requests) (ground (arith, h.single));
    })

-- Where nothing decrypts, the request that starts is the one that decrypts.
find-started :
    (id : RequestId) (generation : ℕ) (rs : List PendingRequest)
    → count is_decrypting rs ≡ 0
    → (find is_decrypting (update_first (has_id id) (started generation) rs)
        ≡ map_option (started generation) (find (has_id id) rs))
      × (count is_decrypting (update_first (has_id id) (started generation) rs) ≤ 1)
find-started id generation [] h = (refl, omega arith)
find-started id generation (r ∷ rs) h = ground (arith, find-started id generation rs)

count_of_id :
    (rs : List PendingRequest) → none ≡ id_of (find is_decrypting rs) → count is_decrypting rs ≡ 0
count_of_id [] h = refl
count_of_id (r ∷ rs) h = ground (arith, count_of_id rs)

-- `mark_decrypting` starts a decrypt only where none runs.
pub mark_decrypting-IsSingleFlight :
    (queue : Queue) (id : RequestId) (now : ℕ)
    → IsSingleFlight queue
    → IsSingleFlight (mark_decrypting queue id now).0
unfolding start
mark_decrypting-IsSingleFlight queue id now h =
    mark_cases IsSingleFlight queue id now h λ r free _ e _.
      let same : r.id ≡ id = ground (arith, find_holds (has_id id) queue.requests r e) in
      let idle : count is_decrypting queue.requests ≡ 0 =
        count_of_id queue.requests (sym free ∙ h.backed) in
      let (found, single) =
        find-started r.id (saturating_succ queue.generation) queue.requests idle in
      record { backed = rw found (rw same (rw e (ground arith))); single = single }

-- Ids from `lo` on are no smaller number.
pub absent :
    (n lo hi : ℕ) (rs : List PendingRequest)
    → n < lo
    → Ascends lo hi (ids rs)
    → is_inflight n (id_of (find is_decrypting rs)) ≡ false
absent n lo hi [] lt h = refl
absent n lo hi (r ∷ rs) lt h = ground (arith, absent n (suc r.id) hi rs)

-- Taking a request out of the decrypting state frees the hardware, if it was the one in flight.
find-halted :
    (f : PendingRequest → PendingRequest) (id : RequestId) (lo hi : ℕ) (rs : List PendingRequest)
    → ((r : PendingRequest) → is_decrypting (f r) ≡ false)
    → Ascends lo hi (ids rs)
    → count is_decrypting rs ≤ 1
    → id_of (find is_decrypting (update_first (has_id id) f rs)) ≡ (
        if is_inflight id (id_of (find is_decrypting rs))
        then none
        else id_of (find is_decrypting rs))
find-halted f id lo hi [] halts h c = refl
find-halted f id lo hi (r ∷ rs) halts h c = elim (Bool-cases (has_id id r)) [
  | inl here ↦
      let e : r.id ≡ id = ground arith in
      ground (
        arith,
        halts r,
        absent id (suc r.id) hi rs (omega arith) h.1,
        find-none is_decrypting rs,
        any-count is_decrypting rs,
      )
  | inr there ↦ ground (arith, find-halted f id (suc r.id) hi rs halts h.1)
]

-- An operation that stops the request `id`, whatever its state, and then finishes.
halted-IsSingleFlight :
    (f : PendingRequest → PendingRequest) (queue : Queue) (id : RequestId) (now : ℕ)
    → ((r : PendingRequest) → is_decrypting (f r) ≡ false)
    → IsOrdered queue
    → IsSingleFlight queue
    → IsSingleFlight
        (finish (record queue { requests = update_first (has_id id) f queue.requests }) id now)
unfolding finish
halted-IsSingleFlight f queue id now halts o h = record {
  backed = rw (find-halted f id 0 queue.next_id queue.requests halts o h.single, h.backed);
  single =
      le_trans
        (count-update-le (has_id id) is_decrypting f queue.requests (λ r e. absurd (cc (halts r))))
        h.single;
}

pub fail-IsSingleFlight :
    (queue : Queue) (id : RequestId) (now : ℕ)
    → IsOrdered queue
    → IsSingleFlight queue
    → IsSingleFlight (fail queue id now)
unfolding fail
fail-IsSingleFlight queue id now =
    halted-IsSingleFlight (with_state failed) queue id now
      (λ _. ==_of_ne failed decrypting (λ e. cc))

-- `timeout` and `deny`, which retire a request to one of these states.
pub retire-IsSingleFlight :
    (queue : Queue) (id : RequestId) (state : RequestState) (now : ℕ)
    → (state == decrypting) ≡ false
    → IsOrdered queue
    → IsSingleFlight queue
    → IsSingleFlight (retire queue id state now).0
retire-IsSingleFlight queue id state now other o h =
    retire_cases IsSingleFlight queue id state now h
      (λ _ _ _. halted-IsSingleFlight (retired state) queue id now (λ _. other) o h)

-- A generation fits where the request, if it is decrypting, has it. The worker's always does.
abbrev pub FitsGeneration : RequestId → ℕ → Queue → Type 0
FitsGeneration id generation queue =
    (r : PendingRequest)
    → find (has_id id) queue.requests ≡ some r
    → is_decrypting r ≡ true
    → r.generation ≡ generation

-- A completion that is out of date concerns a request that is not in flight.
stale_not_inflight :
    (queue : Queue) (id : RequestId) (generation : ℕ)
    → IsOrdered queue
    → IsSingleFlight queue
    → FitsGeneration id generation queue
    → any (is_current id generation) queue.requests ≡ false
    → is_inflight id queue.inflight ≡ false
stale_not_inflight queue id generation o h fits stale =
    elim (Option-cases (find is_decrypting queue.requests)) [
      | inl idle ↦ rw (h.backed, idle)
      | inr (r, e) ↦ elim (Bool-cases (has_id id r)) [
        | inr other ↦ rw (h.backed, e) other
        | inl this ↦
            let same : r.id ≡ id = ground arith in
            let found : find (has_id id) queue.requests ≡ some r =
              subst (λ n. find (has_id n) queue.requests ≡ some r) same
                (find_same is_decrypting 0 queue.next_id queue.requests r o e).0 in
            let runs : is_decrypting r ≡ true = find_holds is_decrypting queue.requests r e in
            let gen : r.generation ≡ generation = fits r found runs in
            absurd (
              cc (
                any_of_found is_decrypting (is_current id generation) queue.requests r e
                    (ground arith),
                stale,
              ))
      ]
    ]

-- `complete` frees the hardware that its request held.
pub complete-IsSingleFlight :
    (queue : Queue) (id : RequestId) (generation now : ℕ)
    → FitsGeneration id generation queue
    → IsOrdered queue
    → IsSingleFlight queue
    → IsSingleFlight (complete queue id generation now).0
unfolding finish
complete-IsSingleFlight queue id generation now fits o h =
    complete_cases IsSingleFlight queue id generation now
      (λ _.
        halted-IsSingleFlight (with_state granted) queue id now
          (λ _. ==_of_ne granted decrypting (λ e. cc)) o h)
      (λ stale. record {
        backed = rw (stale_not_inflight queue id generation o h fits stale) h.backed;
        single = h.single;
      })
