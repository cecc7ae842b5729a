-- ===== src/Proto/ErrCode.antt =====
-- The failure codes of src/proto.rs, and results that carry one.
use secretsd.Base.{
  ◌≡◌, refl, ◌⊎◌, inl, inr, Bool, true, false, Option, none, some, Text, bytes, ◌==◌, Bytes_eq,
  if◌then◌else◌,
}

pub data ErrCode : Type 0 where
  bad_request unknown_op version_mismatch unknown_token no_scope agent_tty foreign_caller : ErrCode
  not_human_key ambiguous_key denied timeout yubikey_unreachable too_many_pending : ErrCode
  internal : ErrCode

pub data Result {ℓ} (A : Type ℓ) : Type ℓ where
  ok : A → Result A
  err : ErrCode → Result A

pub Result-cases {ℓ} :
    {A : Type ℓ} (r : Result A) → ((a : A) × (r ≡ ok a)) ⊎ ((e : ErrCode) × (r ≡ err e))
Result-cases (ok a) = inl (a, refl)
Result-cases (err e) = inr (e, refl)

infixl 5 ◌>>=◌ ◌>>◌
abbrev pub ◌>>=◌ {ℓ κ} : {A : Type ℓ} {B : Type κ} → (Result A) → (A → Result B) → Result B
ok value >>= continue = continue value
err code >>= continue = err code

abbrev pub ◌>>◌ {ℓ} : {B : Type ℓ} → Result (Unit {0}) → Result B → Result B
first >> second = first >>= λ done. second

-- `if test { return Err(code) }`
abbrev pub reject_if : Bool → ErrCode → Result (Unit {0})
reject_if true e = err e
reject_if false e = ok tt

-- `ok_or(code)`
abbrev pub ok_or {ℓ} : {A : Type ℓ} → Option A → ErrCode → Result A
ok_or none e = err e
ok_or (some a) e = ok a

unfoldable pub wire : ErrCode → Text
wire bad_request = bytes "BAD_REQUEST"
wire unknown_op = bytes "UNKNOWN_OP"
wire version_mismatch = bytes "VERSION_MISMATCH"
wire unknown_token = bytes "UNKNOWN_TOKEN"
wire no_scope = bytes "NO_SCOPE"
wire agent_tty = bytes "AGENT_TTY"
wire foreign_caller = bytes "FOREIGN_CALLER"
wire not_human_key = bytes "NOT_HUMAN_KEY"
wire ambiguous_key = bytes "AMBIGUOUS_KEY"
wire denied = bytes "DENIED"
wire timeout = bytes "TIMEOUT"
wire yubikey_unreachable = bytes "YUBIKEY_UNREACHABLE"
wire too_many_pending = bytes "TOO_MANY_PENDING"
wire internal = bytes "INTERNAL"

unfoldable pub parse_wire : Text → Option ErrCode
parse_wire token =
    if token == bytes "BAD_REQUEST"
    then some bad_request
    else if token == bytes "UNKNOWN_OP"
    then some unknown_op
    else if token == bytes "VERSION_MISMATCH"
    then some version_mismatch
    else if token == bytes "UNKNOWN_TOKEN"
    then some unknown_token
    else if token == bytes "NO_SCOPE"
    then some no_scope
    else if token == bytes "AGENT_TTY"
    then some agent_tty
    else if token == bytes "FOREIGN_CALLER"
    then some foreign_caller
    else if token == bytes "NOT_HUMAN_KEY"
    then some not_human_key
    else if token == bytes "AMBIGUOUS_KEY"
    then some ambiguous_key
    else if token == bytes "DENIED"
    then some denied
    else if token == bytes "TIMEOUT"
    then some timeout
    else if token == bytes "YUBIKEY_UNREACHABLE"
    then some yubikey_unreachable
    else if token == bytes "TOO_MANY_PENDING"
    then some too_many_pending
    else if token == bytes "INTERNAL"
    then some internal
    else none
