-- ===== src/Requests/Ids.antt =====
-- Request ids ascend along the queue and stay below `next_id`, so an id names one request and the
-- queue is in order of arrival.
use secretsd.Base.{
  ℕ, suc, ◌≤◌, ◌<◌, ◌≡◌, refl, Bool, List, [], ◌∷◌, ◌++◌, map, some, ℕ_eq, find, arith, Ascends,
  Ascends-snoc, Ascends-retain, map-update_first, u64_max, saturating_succ, update_first, inl, inr,
  Bool-cases, ap,
}
use secretsd.Names.SecretName.{SecretName}
use secretsd.Grants.Token.{Scope}
use mathlib.Core.Path.{subst}
use secretsd.Requests.Cases.{enqueue_cases, mark_cases, complete_cases, retire_cases}
use secretsd.Requests.{
  Queue, PendingRequest, RequestId, RequestState, ids, has_id, add_request, enqueue, start,
  mark_decrypting, finish, complete, fail, retired, retire, expire_one, finish_all, sweep_timeouts,
  prune, overdue_ids, started, with_state, granted, failed,
}

-- The ids in the queue ascend and lie below the next one to be issued.
abbrev pub IsOrdered : Queue → Type 0
IsOrdered queue = Ascends 0 queue.next_id (ids queue.requests)

map-snoc {ℓ κ} :
    {A : Type ℓ} {B : Type κ} (g : A → B) (xs : List A) (x : A)
    → map g (xs ++ x ∷ []) ≡ map g xs ++ g x ∷ []
map-snoc g [] x = refl
map-snoc g (y ∷ ys) x = ap (◌∷◌ (g y)) (map-snoc g ys x)

-- `enqueue` keeps the order, as long as fewer than 2^64 - 1 ids have been issued.
pub enqueue-IsOrdered :
    (queue : Queue) (scope : Scope) (key : SecretName) (now : ℕ)
    → queue.next_id < u64_max
    → IsOrdered queue
    → IsOrdered (enqueue queue scope key now).0
unfolding add_request
enqueue-IsOrdered queue scope key now room h =
    enqueue_cases IsOrdered queue scope key now h (λ _. added)
  where
    added : IsOrdered (add_request queue scope key now)
    added = rw (map-snoc (λ (r : PendingRequest). r.id) queue.requests _) (
        subst (λ n. Ascends 0 n (ids queue.requests ++ queue.next_id ∷ [])) (ground arith)
          (Ascends-snoc 0 queue.next_id (ids queue.requests) h))

ids-update :
    (id : RequestId) (f : PendingRequest → PendingRequest) (rs : List PendingRequest)
    → ((r : PendingRequest) → (f r).id ≡ r.id)
    → ids (update_first (has_id id) f rs) ≡ ids rs
ids-update id f rs keep = map-update_first (λ r. r.id) (has_id id) f rs keep

ids-expire : (ttl now : ℕ) (rs : List PendingRequest) → ids (map (expire_one ttl now) rs) ≡ ids rs
ids-expire ttl now [] = refl
ids-expire ttl now (r ∷ rs) = ground (arith, ids-expire ttl now rs)

-- Finishing releases the hardware and changes no request.
pub finish_all_lem :
    (queue : Queue) (expired : List RequestId) (now : ℕ)
    → ((finish_all queue expired now).requests ≡ queue.requests)
      × ((finish_all queue expired now).next_id ≡ queue.next_id)
      × ((finish_all queue expired now).limits ≡ queue.limits)
      × ((finish_all queue expired now).generation ≡ queue.generation)
unfolding finish_all
finish_all_lem queue [] now = (refl, refl, refl, refl)
finish_all_lem queue (id ∷ rest) now = finish_all_lem (finish queue id now) rest now

-- The other operations issue no id, and keep the order.
pub mark_decrypting-IsOrdered :
    (queue : Queue) (id : RequestId) (now : ℕ)
    → IsOrdered queue
    → IsOrdered (mark_decrypting queue id now).0
unfolding start
mark_decrypting-IsOrdered queue id now h = mark_cases IsOrdered queue id now h (λ r _ _ _ _.
    rw (ids-update r.id (started (saturating_succ queue.generation)) queue.requests (λ _. refl)) h)

pub complete-IsOrdered :
    (queue : Queue) (id : RequestId) (generation now : ℕ)
    → IsOrdered queue
    → IsOrdered (complete queue id generation now).0
unfolding finish
complete-IsOrdered queue id generation now h =
    complete_cases IsOrdered queue id generation now
      (λ _. rw (ids-update id (with_state granted) queue.requests (λ _. refl)) h) (λ _. h)

pub fail-IsOrdered :
    (queue : Queue) (id : RequestId) (now : ℕ) → IsOrdered queue → IsOrdered (fail queue id now)
unfolding fail
fail-IsOrdered queue id now h = rw (ids-update id (with_state failed) queue.requests (λ _. refl)) h

pub retire-IsOrdered :
    (queue : Queue) (id : RequestId) (state : RequestState) (now : ℕ)
    → IsOrdered queue
    → IsOrdered (retire queue id state now).0
unfolding finish
retire-IsOrdered queue id state now h =
    retire_cases IsOrdered queue id state now h
      (λ _ _ _. rw (ids-update id (retired state) queue.requests (λ _. refl)) h)

pub sweep_timeouts-IsOrdered :
    (queue : Queue) (now : ℕ) → IsOrdered queue → IsOrdered (sweep_timeouts queue now).0
unfolding sweep_timeouts
sweep_timeouts-IsOrdered queue now h =
    let swept : Queue = record queue {
      requests = map (expire_one queue.limits.ttl now) queue.requests;
    } in
    let same = finish_all_lem swept (overdue_ids queue.limits.ttl now queue.requests) now in
    rw (same.0, same.1, ids-expire queue.limits.ttl now queue.requests) h

pub prune-IsOrdered : (queue : Queue) (now : ℕ) → IsOrdered queue → IsOrdered (prune queue now)
unfolding prune
prune-IsOrdered queue now h = Ascends-retain (λ r. r.id) _ 0 queue.next_id queue.requests h

-- An id names one request, so what any search finds is found by its id.
pub find_same :
    (p : PendingRequest → Bool) (lo hi : ℕ) (rs : List PendingRequest) (r : PendingRequest)
    → Ascends lo hi (ids rs)
    → find p rs ≡ some r
    → (find (has_id r.id) rs ≡ some r) × (lo ≤ r.id)
find_same p lo hi [] r h e = absurd (cc)
find_same p lo hi (x ∷ rs) r h e = elim (Bool-cases (p x)) [
  | inl here ↦ ground arith
  | inr there ↦ ground (arith, find_same p (suc x.id) hi rs r h.1)
]
