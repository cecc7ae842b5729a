-- ===== src/Requests/Cases.antt =====
-- The outcomes of the queue's operations, for any property of the queue afterwards.
use secretsd.Base.{
  ℕ, ◌≡◌, true, false, ◌||◌, none, some, arith, any, find, inl, inr, Bool-cases, Option-cases,
  is_some, leb, count, update_first,
}
use secretsd.Names.SecretName.{SecretName}
use secretsd.Grants.Token.{Scope}
use secretsd.Requests.{
  Queue, PendingRequest, RequestId, RequestState, has_id, is_active, is_pending, add_request,
  existing, enqueue_new, enqueue, is_cooling, start, mark_decrypting, finish, set_state, is_current,
  complete, granted, retired, retire, pending_limit, counts_for, is_capability,
}

module _ {ℓ} (P : Queue → Type ℓ) (queue : Queue) where
  pub enqueue_cases :
      (scope : Scope) (key : SecretName) (now : ℕ)
      → P queue
      → (leb
              (pending_limit queue (is_capability key))
              (count (counts_for (is_capability key) scope) queue.requests)
            ≡ false
          → P (add_request queue scope key now))
      → P (enqueue queue scope key now).0
  unfolding enqueue enqueue_new
  enqueue_cases scope key now same added = elim (Option-cases (existing queue scope key)) [
    | inr (r, e) ↦ rw (e, enqueue) same
    | inl e ↦
        elim (Bool-cases (
          leb (pending_limit queue (is_capability key))
            (count (counts_for (is_capability key) scope) queue.requests))) [
              | inl full ↦ rw (e, enqueue) (rw full same)
              | inr room ↦ rw (e, enqueue) (rw room (added room))
            ]
  ]

  pub mark_cases :
      (id : RequestId) (now : ℕ)
      → P queue
      → ((r : PendingRequest)
          → queue.inflight ≡ none
          → is_cooling queue now ≡ false
          → find (has_id id) queue.requests ≡ some r
          → is_pending r ≡ true
          → P (start queue r).0)
      → P (mark_decrypting queue id now).0
  unfolding mark_decrypting
  mark_cases id now same started =
      elim (Bool-cases (is_some queue.inflight || is_cooling queue now)) [
        | inl busy ↦ rw busy same
        | inr idle ↦ elim (Option-cases (find (has_id id) queue.requests)) [
          | inl e ↦ rw idle (rw (e, mark_decrypting) same)
          | inr (r, e) ↦ elim (Bool-cases (is_pending r)) [
            | inl waits ↦ rw idle (
                rw (e, mark_decrypting)
                  (rw waits (started r (ground arith) (ground arith) e waits)))
            | inr over ↦ rw idle (rw (e, mark_decrypting) (rw over same))
          ]
        ]
      ]

  pub complete_cases :
      (id : RequestId) (generation now : ℕ)
      → (any (is_current id generation) queue.requests ≡ true
          → P (finish (set_state queue id granted) id now))
      → (any (is_current id generation) queue.requests ≡ false → P (finish queue id now))
      → P (complete queue id generation now).0
  unfolding complete
  complete_cases id generation now current stale =
      elim (Bool-cases (any (is_current id generation) queue.requests)) [
        | inl e ↦ rw e (current e)
        | inr e ↦ rw e (stale e)
      ]

  pub retire_cases :
      (id : RequestId) (state : RequestState) (now : ℕ)
      → P queue
      → ((r : PendingRequest)
          → find (has_id id) queue.requests ≡ some r
          → is_active r ≡ true
          → P (
              finish
                (record queue {
                  requests = update_first (has_id id) (retired state) queue.requests;
                })
                id
                now))
      → P (retire queue id state now).0
  unfolding retire
  retire_cases id state now same out = elim (Option-cases (find (has_id id) queue.requests)) [
    | inl e ↦ rw (e, retire) same
    | inr (r, e) ↦ elim (Bool-cases (is_active r)) [
      | inl active ↦ rw (e, retire) (rw active (out r e active))
      | inr over ↦ rw (e, retire) (rw over same)
    ]
  ]
