-- ===== src/Tests/Sessions.antt =====
-- The registry and the grants of two sessions and a terminal.
use secretsd.Base.{
  ℕ, zero, suc, ◌≡◌, refl, true, false, [], ◌∷◌, Option, none, some, Text, bytes, decided,
  if◌then◌else◌, Bytes-discrete, ℕ_discrete, from_str_radix, split, strip_prefix, parse_i32, ℤ, pos,
}
use secretsd.Proto.ErrCode.{ok, err, bad_request, agent_tty}
use secretsd.Peer.{
  ProcFs, PeerIdentity, pid, field, descends_from, walk, parent_of, ℤ-discrete, is_positive,
  at_most_one, find_line, trim_start, trim_end, is_space,
}
use secretsd.Grants.Token.{SessionToken_eq, SessionToken-discrete, Scope_eq, session, terminal}
use secretsd.Grants.Registry.{
  Registration, Registry, new, register, registration, resolve, is_descendant, learn_tty,
  resolve_tokenless, is_agent_tty,
}
use secretsd.Grants.Registry.Tokens.{
  IsUnique, register-IsUnique, register_known, registration-register, unless_session,
}
use secretsd.Grants.Registry.Resolve.{resolve_token_ok, resolve_tokenless_ok, resolve_learns}
use secretsd.Grants.Table.{GrantTable, empty, insert}
use secretsd.Grants.Table.Distinct.{IsDistinct, insert-IsDistinct}
use secretsd.Names.SecretName.{SecretName_eq}
use secretsd.Tests.Data.{api_key, token_a, token_b, scope_a, console, root_process, file_identity}

abbrev entry_a : Registration
entry_a = record { token = token_a; session_id = bytes "A"; root = root_process }

abbrev again_a : Registration
again_a = record { token = token_b; session_id = bytes "A"; root = root_process }

abbrev thief : Registration
thief = record { token = token_a; session_id = bytes "Z"; root = root_process }

abbrev one : Registry
one = (register (new (bytes "b")) entry_a).0

one-IsUnique : IsUnique one
unfolding new
one-IsUnique = register-IsUnique (new (bytes "b")) entry_a tt

register-IsUnique_example : IsUnique (register one again_a).0
register-IsUnique_example = register-IsUnique one again_a one-IsUnique

register_known_example :
    register one thief
    ≡ (one, if decided (Bytes-discrete (bytes "A") (bytes "Z")) then ok [] else err bad_request)
unfolding new register registration SessionToken-discrete ℕ_discrete
register_known_example = register_known one thief entry_a one-IsUnique refl

registration-register_example : registration (register one again_a).0 token_a ≡ (
    if decided (SessionToken-discrete token_b token_a)
    then some again_a
    else unless_session (bytes "A") (registration one token_a))
unfolding new register registration SessionToken-discrete ℕ_discrete
registration-register_example = registration-register one again_a token_a one-IsUnique refl

-- The process 7 has the descriptor 3 and its child 9 the descriptor 4.
abbrev proc_fdinfo : ℕ → Option Text
proc_fdinfo (suc (suc (suc zero))) = some (bytes "Pid:7")
proc_fdinfo (suc (suc (suc (suc zero)))) = some (bytes "Pid:9")
proc_fdinfo _ = none

abbrev proc_status : ℤ → Option Text
proc_status child = if decided (ℤ-discrete child (pos 9)) then some (bytes "PPid:7") else none

abbrev pub proc : ProcFs
proc = record { fdinfo = proc_fdinfo; status = proc_status }

abbrev child : PeerIdentity
child = record { pidfd = 4 }

resolved_a : (resolve proc one (some token_a) (some (bytes "/t")) (some child)).1 ≡ ok scope_a
unfolding new register registration resolve is_descendant descends_from pid field find_line
    trim_start trim_end is_space walk at_most_one is_positive parent_of split strip_prefix parse_i32
    learn_tty is_agent_tty SessionToken-discrete ℤ-discrete ℕ_discrete from_str_radix
resolved_a = refl

resolve_token_ok_example :
    (scope_a ≡ session token_a)
    × ((entry : Registration) × (who : PeerIdentity) × (registration one token_a ≡ some entry)
        × (some child ≡ some who)
        × (descends_from proc who entry.root ≡ true))
resolve_token_ok_example =
    resolve_token_ok proc one token_a (some (bytes "/t")) (some child) resolved_a

resolve_learns_example :
    (resolve proc
      (resolve proc one (some token_a) (some (bytes "/t")) (some child)).0
      none
      (some (bytes "/t"))
      none).1
    ≡ err agent_tty
resolve_learns_example = resolve_learns proc one token_a (bytes "/t") (some child) none resolved_a

resolve_tokenless_ok_example :
    (device : Text) × (some (bytes "/t") ≡ some device)
    × (is_agent_tty one device ≡ false)
    × (console ≡ terminal device one.boot_id)
unfolding new register resolve resolve_tokenless is_agent_tty SessionToken-discrete ℕ_discrete
resolve_tokenless_ok_example = resolve_tokenless_ok proc one (some (bytes "/t")) none refl

abbrev cache : GrantTable
cache =
    insert
      (insert empty scope_a api_key (5 ∷ []) 100
        (record { source = bytes "s"; identity = file_identity }))
      console api_key (6 ∷ []) 200 (record { source = bytes "s"; identity = file_identity })

cache-IsDistinct : IsDistinct cache
cache-IsDistinct =
    insert-IsDistinct _ console api_key (6 ∷ []) 200 _
      (insert-IsDistinct empty scope_a api_key (5 ∷ []) 100 _ tt)
