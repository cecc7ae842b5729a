-- ===== src/Tests/Queues.antt =====
-- The approval queue with a few requests.
use secretsd.Base.{
  ℕ, ◌≡◌, ◌≢◌, refl, false, none, some, arith, ltb, any, ◌&&◌, decided, saturating_succ,
  starts_with, ℕ_discrete,
}
use secretsd.Proto.ErrCode.{ok}
use secretsd.Names.SecretName.{SecretName-discrete}
use secretsd.Grants.Token.{Scope-discrete}
use secretsd.Requests.{
  Queue, QueueLimits, RequestState-discrete, pending, decrypting, granted, denied, failed, new,
  enqueue, enqueue_new, existing, add_request, mark_decrypting, start, next_ready, complete, finish,
  fail, deny, retire, state_of, is_cooling, is_pending,
}
use secretsd.Requests.Step.{IsValid}
use secretsd.Requests.Calls.{
  Calls, none_yet, also, enqueued, marked, refused, HaveRoom, AreTimely, Calls-IsValid,
}
use secretsd.Requests.Lifecycle.{
  retire_lem, replaced, active_state, fail_overwrites, next_ready_oldest, mark_decrypting_ready,
  enqueue_coalesces,
}
use secretsd.Requests.Refusal.{refused_never_granted}
use secretsd.Tests.Data.{api_key, other_key, scope_a, console}

abbrev pub limits : QueueLimits
limits = record { cooldown = 5; ttl = 100; max_pending_per_scope = 2 }

abbrev one : Queue
one = (enqueue (new limits) scope_a api_key 10).0

abbrev two : Queue
two = (enqueue one console other_key 11).0

abbrev busy : Queue
busy = (mark_decrypting two 1 12).0

abbrev over : Queue
over = (complete busy 1 1 20).0

two_calls : Calls (new limits) two
two_calls = also (also none_yet (enqueued scope_a api_key 10)) (enqueued console other_key 11)

two_room : HaveRoom two_calls
unfolding new enqueue existing enqueue_new add_request starts_with RequestState-discrete
    Scope-discrete SecretName-discrete ℕ_discrete two_calls
two_room = ((tt, omega arith), omega arith)

two_timely : AreTimely two_calls
unfolding two_calls
two_timely = ((tt, tt), tt)

busy_calls : Calls (new limits) busy
busy_calls = also two_calls (marked 1 12)

busy_room : HaveRoom busy_calls
unfolding busy_calls
busy_room = (two_room, tt)

busy_timely : AreTimely busy_calls
unfolding busy_calls
busy_timely = (two_timely, tt)

two-IsValid : IsValid two
two-IsValid = Calls-IsValid limits two_calls two_room two_timely

busy-IsValid : IsValid busy
busy-IsValid = Calls-IsValid limits busy_calls busy_room busy_timely

next_ready_oldest_example :
    (state_of two 1 ≡ some pending)
    × (any (λ r. is_pending r && ltb r.id 1) two.requests ≡ false)
    × (two.inflight ≡ none)
    × (is_cooling two 12 ≡ false)
unfolding new enqueue existing enqueue_new add_request mark_decrypting start next_ready is_cooling
    complete finish retire deny fail state_of starts_with RequestState-discrete Scope-discrete
    SecretName-discrete ℕ_discrete
next_ready_oldest_example = next_ready_oldest two 12 1 two-IsValid.ordered refl

mark_decrypting_ready_example :
    ((mark_decrypting two 1 12).1 ≡ some (saturating_succ two.generation))
    × (state_of (mark_decrypting two 1 12).0 1 ≡ some decrypting)
    × ((mark_decrypting two 1 12).0.inflight ≡ some 1)
unfolding new enqueue existing enqueue_new add_request mark_decrypting start next_ready is_cooling
    complete finish retire deny fail state_of starts_with RequestState-discrete Scope-discrete
    SecretName-discrete ℕ_discrete
mark_decrypting_ready_example = mark_decrypting_ready two 12 1 two-IsValid.ordered refl

abbrev granted_queue : Queue
granted_queue = (complete busy 1 1 20).0

enqueue_coalesces_example : enqueue two scope_a api_key 13 ≡ (two, ok 1)
unfolding new enqueue existing enqueue_new add_request mark_decrypting start next_ready is_cooling
    complete finish retire deny fail state_of starts_with RequestState-discrete Scope-discrete
    SecretName-discrete ℕ_discrete
enqueue_coalesces_example = enqueue_coalesces two scope_a api_key 13 _ refl refl

abbrev denied_queue : Queue
denied_queue = (deny busy 1 15).0

retire_lem_example :
    ((retire busy 1 denied 15).1 ≡ active_state (state_of busy 1))
    × (state_of (retire busy 1 denied 15).0 2
        ≡ replaced
            (decided (ℕ_discrete 1 2) && active_state (state_of busy 1))
            denied
            (state_of busy 2))
retire_lem_example = retire_lem busy 1 2 denied 15

fail_overwrites_example : state_of (fail denied_queue 1 16) 1 ≡ some failed
unfolding new enqueue existing enqueue_new add_request mark_decrypting start next_ready is_cooling
    complete finish retire deny fail state_of starts_with RequestState-discrete Scope-discrete
    SecretName-discrete ℕ_discrete
fail_overwrites_example = fail_overwrites denied_queue 1 denied 16 refl

denied_calls : Calls denied_queue (mark_decrypting denied_queue 2 40).0
denied_calls = also none_yet (marked 2 40)

denied_room : HaveRoom denied_calls
unfolding denied_calls
denied_room = (tt, tt)

refused_never_granted_example :
    (state_of (mark_decrypting denied_queue 2 40).0 1 ≢ some granted)
    × ((generation now : ℕ)
        → (complete (mark_decrypting denied_queue 2 40).0 1 generation now).1 ≡ false)
unfolding new enqueue existing enqueue_new add_request mark_decrypting start next_ready is_cooling
    complete finish retire deny fail state_of starts_with RequestState-discrete Scope-discrete
    SecretName-discrete ℕ_discrete
refused_never_granted_example =
    refused_never_granted denied_queue (mark_decrypting denied_queue 2 40).0 1 denied
      (Calls-IsValid limits (also busy_calls (refused 1 15)) (busy_room, tt)
        (busy_timely, tt)).ordered
      refl refl denied_calls denied_room
