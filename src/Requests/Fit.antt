-- ===== src/Requests/Fit.antt =====
-- The generation of the worker's job stays the one of its request while the request decrypts.
use secretsd.Base.{
  ℕ, suc, ◌<◌, ◌≡◌, refl, Bool, false, not, ◌&&◌, ◌||◌, List, [], ◌∷◌, map, some, ◌==◌, ℕ_eq, any,
  find, is_some, arith, inl, inr, Bool-cases, saturating_succ, any-append, any-update, any-map,
  any-retain, update_first, find_holds, any_of_found, Option-cases, Ascends, Ascends-le,
}
use secretsd.Requests.Cases.{enqueue_cases, mark_cases, complete_cases, retire_cases}
use secretsd.Requests.Ids.{IsOrdered, finish_all_lem}
use secretsd.Requests.SingleFlight.{FitsGeneration, is_decrypting}
use secretsd.Requests.Step.{
  Step, enqueued, marked, completed, failed_with, timed, refused, swept, pruned, Reach, here, next,
}
use secretsd.Requests.{
  Queue, PendingRequest, RequestId, RequestState, RequestState_eq, RequestState-discrete, ids,
  has_id, is_pending, add_request, overdue_ids, start, is_cooling, mark_decrypting, finish,
  complete, fail, retired, retire, started, with_state, timeout, deny, expire_one, sweep_timeouts,
  prune, survives_prune, granted, failed, decrypting, pending, denied, timed_out,
}

-- A request with the id that may still start, or that decrypts for another generation.
abbrev pub misfit : RequestId → ℕ → PendingRequest → Bool
misfit id generation request =
    has_id id request
    && (is_pending request || is_decrypting request && not (request.generation == generation))

-- The id has been issued, and no decrypt runs or starts for it but the one of the generation.
pub record IsFit (id : RequestId) (g : ℕ) (queue : Queue) : Type 0 where
  pub issued : id < queue.next_id
  pub fits : any (misfit id g) queue.requests ≡ false

pub IsFit-FitsGeneration :
    (id : RequestId) (g : ℕ) (queue : Queue) → IsFit id g queue → FitsGeneration id g queue
IsFit-FitsGeneration id g queue fit r found decrypts = elim (Bool-cases (r.generation == g)) [
  | inl same ↦ ground arith
  | inr differs ↦ absurd (
      cc (
        any_of_found (has_id id) (misfit id g) queue.requests r found
            (ground (arith, find_holds (has_id id) queue.requests r found)),
        fit.fits,
      ))
]

complete-IsFit :
    (id : RequestId) (g : ℕ) (queue : Queue) (other : RequestId) (generation now : ℕ)
    → IsFit id g queue
    → IsFit id g (complete queue other generation now).0
unfolding finish
complete-IsFit id g queue other generation now o =
    complete_cases (IsFit id g) queue other generation now
      (λ _. record {
        issued = o.issued;
        fits =
            any-update (has_id other) (misfit id g) (with_state granted) queue.requests
              (λ r e l. ground arith) o.fits;
      })
      (λ _. record { issued = o.issued; fits = o.fits })

retire-IsFit :
    (id : RequestId) (g : ℕ) (queue : Queue) (other : RequestId) (state : RequestState) (now : ℕ)
    → (state == pending || state == decrypting) ≡ false
    → IsFit id g queue
    → IsFit id g (retire queue other state now).0
unfolding finish
retire-IsFit id g queue other state now over o =
    retire_cases (IsFit id g) queue other state now o (λ _ _ _. record {
      issued = o.issued;
      fits =
          any-update (has_id other) (misfit id g) (retired state) queue.requests
            (λ r e l. ground arith) o.fits;
    })

-- Every call keeps a generation fit.
Step-IsFit :
    (id : RequestId) (g : ℕ) {queue after : Queue}
    → Step queue after
    → IsFit id g queue
    → IsFit id g after
unfolding add_request start fail timeout deny sweep_timeouts prune finish RequestState-discrete
Step-IsFit id g {queue} (enqueued scope key now room) o =
    enqueue_cases (IsFit id g) queue scope key now o (λ _. record {
      issued = ground (arith, o.issued);
      fits = rw (any-append (misfit id g) queue.requests) (ground (arith, o.fits, o.issued));
    })
Step-IsFit id g {queue} (marked other now) o =
    mark_cases (IsFit id g) queue other now o λ r _ _ e waits. elim (Bool-cases (r.id == id)) [
      | inl same ↦
          absurd (
            cc
              (any_of_found (has_id other) (misfit id g) queue.requests r e (ground arith), o.fits))
      | inr differs ↦ record {
        issued = o.issued;
        fits =
            any-update (has_id r.id) (misfit id g) (started (saturating_succ queue.generation))
              queue.requests (λ x h l. ground arith) o.fits;
      }
    ]
Step-IsFit id g {queue} (completed other generation now _) o =
    complete-IsFit id g queue other generation now o
Step-IsFit id g {queue} (failed_with other now) o = record {
  issued = o.issued;
  fits =
      any-update (has_id other) (misfit id g) (with_state failed) queue.requests
        (λ r e l. ground arith) o.fits;
}
Step-IsFit id g {queue} (timed other now) o = retire-IsFit id g queue other timed_out now refl o
Step-IsFit id g {queue} (refused other now) o = retire-IsFit id g queue other denied now refl o
Step-IsFit id g {queue} (swept now) o =
    let expire = expire_one queue.limits.ttl now in
    let swept_queue : Queue = record queue { requests = map expire queue.requests } in
    let same = finish_all_lem swept_queue (overdue_ids queue.limits.ttl now queue.requests) now in
    record {
      issued = rw same.1 o.issued;
      fits = rw same.0 (any-map (misfit id g) expire queue.requests (λ r l. ground arith) o.fits);
    }
Step-IsFit id g {queue} (pruned now) o = record {
  issued = o.issued;
  fits = any-retain (misfit id g) (survives_prune queue now) queue.requests o.fits;
}

pub Reach-IsFit :
    (id : RequestId) (g : ℕ) {queue last : Queue}
    → IsFit id g queue
    → Reach queue last
    → IsFit id g last
Reach-IsFit id g o here = o
Reach-IsFit id g o (next r st) = Step-IsFit id g st (Reach-IsFit id g o r)

none_above :
    (id g lo hi : ℕ) (rs : List PendingRequest)
    → id < lo
    → Ascends lo hi (ids rs)
    → any (misfit id g) rs ≡ false
none_above id g lo hi [] lt h = refl
none_above id g lo hi (r ∷ rs) lt h = ground (arith, none_above id g (suc r.id) hi rs)

started_fits :
    (id g lo hi : ℕ) (rs : List PendingRequest) (r : PendingRequest)
    → Ascends lo hi (ids rs)
    → find (has_id id) rs ≡ some r
    → (any (misfit id g) (update_first (has_id id) (started g) rs) ≡ false) × (id < hi)
started_fits id g lo hi [] r h e = absurd (cc)
started_fits id g lo hi (x ∷ rs) r h e = elim (Bool-cases (has_id id x)) [
  | inl hit ↦
      ground (arith, none_above id g (suc x.id) hi rs, Ascends-le (suc x.id) hi (ids rs) h.1)
  | inr miss ↦ ground (arith, started_fits id g (suc x.id) hi rs r h.1)
]

mark_some :
    (queue : Queue) (id : RequestId) (now g : ℕ)
    → (mark_decrypting queue id now).1 ≡ some g
    → (r : PendingRequest) × (find (has_id id) queue.requests ≡ some r)
      × (mark_decrypting queue id now ≡ start queue r)
unfolding mark_decrypting
mark_some queue id now g h = elim (Bool-cases (is_some queue.inflight || is_cooling queue now)) [
  | inl busy ↦ absurd (ground arith)
  | inr idle ↦ elim (Option-cases (find (has_id id) queue.requests)) [
    | inl e ↦ absurd (ground arith)
    | inr (r, e) ↦ elim (Bool-cases (is_pending r)) [
      | inl waits ↦ (r, e, ground arith)
      | inr over ↦ absurd (ground arith)
    ]
  ]
]

-- The generation that `mark_decrypting` hands out fits.
pub mark_decrypting-IsFit :
    (queue : Queue) (id : RequestId) (now g : ℕ)
    → IsOrdered queue
    → (mark_decrypting queue id now).1 ≡ some g
    → IsFit id g (mark_decrypting queue id now).0
unfolding start
mark_decrypting-IsFit queue id now g o h =
    let (r, found, e) = mark_some queue id now g h in
    let same : r.id ≡ id = ground (arith, find_holds (has_id id) queue.requests r found) in
    let now_on : saturating_succ queue.generation ≡ g = ground arith in
    let (fits, issued) = started_fits id g 0 queue.next_id queue.requests r o found in
    rw (e, same, now_on) (record { issued = issued; fits = fits })
