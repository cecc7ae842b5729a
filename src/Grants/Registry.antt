-- ===== src/Grants/Registry.antt =====
-- The session registry: `Registration` and `Registry` of src/grants.rs.
pub mod Tokens
pub mod Resolve
use secretsd.Base.{
  ℕ, Bool, true, false, not, ◌&&◌, List, [], ◌∷◌, ◌++◌, map, Option, none, some, Text, ◌==◌,
  Bytes_eq, if◌then◌else◌, any, find, retain,
}
use secretsd.Proto.ErrCode.{
  Result, ok, err, bad_request, unknown_token, foreign_caller, agent_tty, no_scope,
}
use secretsd.Peer.{PeerIdentity, ProcFs, descends_from}
use secretsd.Grants.Token.{SessionToken, SessionToken_eq, Scope, session, terminal}

pub record Registration : Type 0 where
  pub token : SessionToken
  pub session_id : Text
  pub root : PeerIdentity

pub record Registry : Type 0 where
  pub sessions : List Registration
  pub agent_ttys : List Text
  pub boot_id : Text

unfoldable pub new : Text → Registry
new boot_id = record { sessions = []; agent_ttys = []; boot_id = boot_id }

abbrev pub has_token : SessionToken → Registration → Bool
has_token token existing = existing.token == token

abbrev pub has_session : Text → Registration → Bool
has_session name existing = existing.session_id == name

abbrev pub tokens : List Registration → List SessionToken
tokens = map (λ entry. entry.token)

-- The tokens bound to the session identifier.
abbrev pub tokens_of : Text → List Registration → List SessionToken
tokens_of name sessions = tokens (retain (has_session name) sessions)

abbrev pub without_session : Text → List Registration → List Registration
without_session name = retain (λ existing. not (has_session name existing))

unfoldable pub register : Registry → Registration → Registry × Result (List SessionToken)
register registry registration =
    if any (has_token registration.token) registry.sessions
    then (
      registry,
      if any
            (λ existing.
              has_token registration.token existing && has_session registration.session_id existing)
            registry.sessions
          then ok []
          else err bad_request,
    )
    else (
      record registry {
        sessions = without_session registration.session_id registry.sessions ++ registration ∷ [];
      },
      ok (tokens_of registration.session_id registry.sessions),
    )

unfoldable pub unregister : Registry → Text → Registry × List SessionToken
unregister registry name = (
  record registry { sessions = without_session name registry.sessions },
  tokens_of name registry.sessions,
)

unfoldable pub registration : Registry → SessionToken → Option Registration
registration registry token = find (has_token token) registry.sessions

unfoldable pub is_agent_tty : Registry → Text → Bool
is_agent_tty registry tty = any (λ known. known == tty) registry.agent_ttys

-- The terminal of a request that a token authorised is an agent's from now on.
unfoldable pub learn_tty : Registry → Option Text → Registry
unfolding is_agent_tty
learn_tty registry none = registry
learn_tty registry (some tty) =
    if is_agent_tty registry tty
    then registry
    else record registry { agent_ttys = registry.agent_ttys ++ tty ∷ [] }

unfoldable pub resolve_tokenless : Registry → Option Text → Result Scope
unfolding is_agent_tty
resolve_tokenless registry none = err no_scope
resolve_tokenless registry (some tty) =
    if is_agent_tty registry tty then err agent_tty else ok (terminal tty registry.boot_id)

module _ (proc : ProcFs) where
  unfoldable pub is_descendant : Option PeerIdentity → PeerIdentity → Bool
  is_descendant none root = false
  is_descendant (some caller) root = descends_from proc caller root

  unfoldable pub resolve :
      Registry → Option SessionToken → Option Text → Option PeerIdentity → Registry × Result Scope
  unfolding registration is_descendant learn_tty resolve_tokenless
  resolve registry (some presented) tty caller = elim (registration registry presented) [
    | none ↦ (registry, err unknown_token)
    | some entry ↦
        if is_descendant caller entry.root
        then (learn_tty registry tty, ok (session presented))
        else (registry, err foreign_caller)
  ]
  resolve registry none tty caller = (registry, resolve_tokenless registry tty)
