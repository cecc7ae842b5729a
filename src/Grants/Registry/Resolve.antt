-- ===== src/Grants/Registry/Resolve.antt =====
-- Who gets which scope: `Registry::resolve` of src/grants.rs.
use secretsd.Base.{
  ◌≡◌, refl, ◌≢◌, true, false, ◌||◌, [], ◌∷◌, Option, none, some, Text, ◌==◌, Bytes_eq, arith,
  any-append,
}
use secretsd.Proto.ErrCode.{ok, err, agent_tty}
use secretsd.Peer.{PeerIdentity, ProcFs, descends_from}
use secretsd.Grants.Token.{SessionToken, SessionToken_eq, Scope, session, terminal}
use secretsd.Grants.Registry.{
  Registration, Registry, registration, is_agent_tty, learn_tty, resolve_tokenless, is_descendant,
  resolve,
}

-- A request that presents a token gets a scope only if the token is registered and its caller
-- descends from the root of that registration, and the scope is then that token's session.
pub resolve_token_ok :
    (proc : ProcFs) (registry : Registry) (token : SessionToken) (tty : Option Text)
    (caller : Option PeerIdentity) {scope : Scope}
    → (resolve proc registry (some token) tty caller).1 ≡ ok scope
    → (scope ≡ session token)
      × ((entry : Registration) × (who : PeerIdentity) × (registration registry token ≡ some entry)
          × (caller ≡ some who)
          × (descends_from proc who entry.root ≡ true))
unfolding resolve is_descendant
resolve_token_ok proc registry token tty caller h = ground arith

-- A request without a token gets a scope only from a terminal that is not known as an agent's, and
-- the scope is that terminal and the boot of the registry.
pub resolve_tokenless_ok :
    (proc : ProcFs) (registry : Registry) (tty : Option Text) (caller : Option PeerIdentity)
    {scope : Scope}
    → (resolve proc registry none tty caller).1 ≡ ok scope
    → (device : Text) × (tty ≡ some device)
      × (is_agent_tty registry device ≡ false)
      × (scope ≡ terminal device registry.boot_id)
unfolding resolve resolve_tokenless
resolve_tokenless_ok proc registry tty caller h = ground arith

-- A refused request leaves the registry as it was.
pub resolve_refused :
    (proc : ProcFs) (registry : Registry) (token : Option SessionToken) (tty : Option Text)
    (caller : Option PeerIdentity)
    → ((scope : Scope) → (resolve proc registry token tty caller).1 ≢ ok scope)
    → (resolve proc registry token tty caller).0 ≡ registry
unfolding resolve
resolve_refused proc registry none tty caller h = refl
resolve_refused proc registry (some token) tty caller h = ground (arith, h (session token))

is_agent_tty-learn :
    (registry : Registry) (tty : Option Text) (device : Text)
    → is_agent_tty (learn_tty registry tty) device
      ≡ (is_agent_tty registry device || (elim tty [ none ↦ false | some d ↦ d == device ]))
unfolding is_agent_tty learn_tty
is_agent_tty-learn registry none device = ground arith
is_agent_tty-learn registry (some d) device =
    ground (arith, any-append (λ (known : Text). known == device) registry.agent_ttys (d ∷ []))

-- Once a token has been accepted from a terminal, a request without a token from that terminal
-- is refused, whoever makes it.
pub resolve_learns :
    (proc : ProcFs) (registry : Registry) (token : SessionToken) (device : Text)
    (caller other : Option PeerIdentity) {scope : Scope}
    → (resolve proc registry (some token) (some device) caller).1 ≡ ok scope
    → (resolve proc
        (resolve proc registry (some token) (some device) caller).0
        none
        (some device)
        other).1
      ≡ err agent_tty
unfolding resolve resolve_tokenless
resolve_learns proc registry token device caller other h =
    ground (arith, is_agent_tty-learn registry (some device) device)

-- A terminal that is an agent's stays one.
pub resolve_keeps_ttys :
    (proc : ProcFs) (registry : Registry) (token : Option SessionToken) (tty : Option Text)
    (caller : Option PeerIdentity) (device : Text)
    → is_agent_tty registry device ≡ true
    → is_agent_tty (resolve proc registry token tty caller).0 device ≡ true
unfolding resolve
resolve_keeps_ttys proc registry none tty caller device h = h
resolve_keeps_ttys proc registry (some token) tty caller device h =
    ground (arith, is_agent_tty-learn registry tty device)
