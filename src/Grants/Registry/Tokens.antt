-- ===== src/Grants/Registry/Tokens.antt =====
-- A token names one session and a session has one token: what `register`, `unregister` and
-- `resolve` of src/grants.rs make of that.
use secretsd.Base.{
  ◌≡◌, refl, Bool, true, false, not, ◌&&◌, List, [], ◌∷◌, ◌++◌, Option, none, some, Text, ◌==◌,
  Bytes_eq, if◌then◌else◌, any, find, retain, arith, find-append, any-append, any-retain,
  any-retain_dropped, find-none, inl, inr, Bool-cases, any_mono, any_of_find, any-none,
}
use secretsd.Proto.ErrCode.{ok, err, bad_request}
use secretsd.Grants.Token.{SessionToken, SessionToken_eq}
use secretsd.Grants.Registry.{
  Registration, Registry, has_token, has_session, tokens_of, without_session, register, unregister,
  registration,
}

abbrev pub Unique : List Registration → Type 0
Unique [] = Unit
Unique (r ∷ rs) =
    (any (has_token r.token) rs ≡ false) × (any (has_session r.session_id) rs ≡ false) × Unique rs

-- No two registrations share a token or a session identifier.
abbrev pub IsUnique : Registry → Type 0
IsUnique registry = Unique registry.sessions

retain-Unique :
    (p : Registration → Bool) (rs : List Registration) → Unique rs → Unique (retain p rs)
retain-Unique p [] u = tt
retain-Unique p (r ∷ rs) u = ground (
  arith,
  retain-Unique p rs u.2,
  any-retain (has_token r.token) p rs,
  any-retain (has_session r.session_id) p rs,
)

snoc-Unique :
    (rs : List Registration) (new : Registration)
    → Unique rs
    → any (has_token new.token) rs ≡ false
    → any (has_session new.session_id) rs ≡ false
    → Unique (rs ++ new ∷ [])
snoc-Unique [] new u t s = (refl, refl, tt)
snoc-Unique (r ∷ rs) new u t s = (
  rw (any-append (has_token r.token) rs) (ground arith),
  rw (any-append (has_session r.session_id) rs) (ground arith),
  snoc-Unique rs new u.2 (ground arith) (ground arith),
)

-- `register` keeps tokens and session identifiers unique, whether it accepts or refuses.
pub register-IsUnique :
    (registry : Registry) (new : Registration)
    → IsUnique registry
    → IsUnique (register registry new).0
unfolding register
register-IsUnique registry new u = elim (Bool-cases (any (has_token new.token) registry.sessions)) [
  | inl known ↦ rw known u
  | inr fresh ↦ rw fresh (
      snoc-Unique _ new (retain-Unique _ registry.sessions u)
        (any-retain _ _ registry.sessions fresh)
        (any-retain_dropped _ _ registry.sessions (λ r h. rw h)))
]

pub unregister-IsUnique :
    (registry : Registry) (name : Text) → IsUnique registry → IsUnique (unregister registry name).0
unfolding unregister
unregister-IsUnique registry name u = retain-Unique _ registry.sessions u

same_entry :
    (rs : List Registration) (t : SessionToken) (old : Registration) (name : Text)
    → Unique rs
    → find (has_token t) rs ≡ some old
    → any (λ r. has_token t r && has_session name r) rs ≡ has_session name old
same_entry [] t old name u e = absurd (cc)
same_entry (r ∷ rs) t old name u e = elim (Bool-cases (has_token t r)) [
  | inl hit ↦ ground (
    arith,
    any_mono (λ x. has_token t x && has_session name x) (has_token r.token) rs (λ x h. ground arith)
        u.0,
  )
  | inr miss ↦ ground (arith, same_entry rs t old name u.2)
]

-- Where tokens and sessions are unique, a token that is registered already changes nothing, the
-- process that the session was pinned to included: the call succeeds with no displaced token if it
-- names the same session, and is refused if it names another.
pub register_known :
    (registry : Registry) (new old : Registration)
    → IsUnique registry
    → registration registry new.token ≡ some old
    → register registry new
      ≡ (registry, if old.session_id == new.session_id then ok [] else err bad_request)
unfolding register registration
register_known registry new old u e = ground (
  arith,
  any_of_find (has_token new.token) registry.sessions old,
  same_entry registry.sessions new.token old new.session_id u,
)

-- What is left of an entry when a session is replaced or forgotten.
abbrev pub unless_session : Text → Option Registration → Option Registration
unless_session name none = none
unless_session name (some entry) = if has_session name entry then none else some entry

find-without_session :
    (name : Text) (t : SessionToken) (rs : List Registration)
    → Unique rs
    → find (has_token t) (without_session name rs) ≡ unless_session name (find (has_token t) rs)
find-without_session name t [] u = refl
find-without_session name t (r ∷ rs) u = elim (Bool-cases (has_token t r)) [
  | inl hit ↦ ground (
    arith,
    find-none (has_token t) (without_session name rs) (
        any-retain (has_token t) (λ x. not (has_session name x)) rs
          (any_mono (has_token t) (has_token r.token) rs (λ x h. ground arith) u.0)),
  )
  | inr miss ↦ ground (arith, find-without_session name t rs u.2)
]

-- Where tokens and sessions are unique, a new token is found with its registration after
-- `register`. Any other token keeps its entry, unless that entry was of the same session.
pub registration-register :
    (registry : Registry) (new : Registration) (t : SessionToken)
    → IsUnique registry
    → registration registry new.token ≡ none
    → registration (register registry new).0 t ≡ (
        if new.token == t
        then some new
        else unless_session new.session_id (registration registry t))
unfolding register registration
registration-register registry new t u e = rw (any-none (has_token new.token) registry.sessions e) (
    rw (find-append (has_token t))
      (rw (find-without_session new.session_id t registry.sessions u) (ground (arith, e))))

-- Where tokens and sessions are unique, after `unregister` no token of the session is known, and
-- every other token as before.
pub registration-unregister :
    (registry : Registry) (name : Text) (t : SessionToken)
    → IsUnique registry
    → registration (unregister registry name).0 t ≡ unless_session name (registration registry t)
unfolding unregister registration
registration-unregister registry name t u = find-without_session name t registry.sessions u

mem-tokens_of :
    (name : Text) (t : SessionToken) (old : Registration) (rs : List Registration)
    → find (has_token t) rs ≡ some old
    → has_session name old ≡ true
    → any (λ other. other == t) (tokens_of name rs) ≡ true
mem-tokens_of name t old [] e h = absurd (cc)
mem-tokens_of name t old (r ∷ rs) e h = ground (arith, mem-tokens_of name t old rs)

-- A token that `unregister` forgets is among those that it returns.
pub unregister_returns :
    (registry : Registry) (name : Text) (t : SessionToken) (old : Registration)
    → registration registry t ≡ some old
    → has_session name old ≡ true
    → any (λ other. other == t) (unregister registry name).1 ≡ true
unfolding unregister registration
unregister_returns registry name t old e h = mem-tokens_of name t old registry.sessions e h
