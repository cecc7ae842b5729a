-- ===== src/Proto/Wire.antt =====
-- The names of the failure codes on the wire: `ErrCode::wire` and `ErrCode::parse_wire` of
-- src/proto.rs.
use secretsd.Base.{
  ℕ, Bool, true, ◌||◌, all, is_ascii_uppercase, ◌==◌, ℕ_eq, ◌≡◌, refl, some, Text, Bytes_eq,
  Bytes-discrete, ℕ_discrete, arith,
}
use secretsd.Proto.ErrCode.{
  ErrCode, wire, parse_wire, bad_request, unknown_op, version_mismatch, unknown_token, no_scope,
  agent_tty, foreign_caller, not_human_key, ambiguous_key, denied, timeout, yubikey_unreachable,
  too_many_pending, internal,
}

pub parse_wire-wire : (code : ErrCode) → parse_wire (wire code) ≡ some code
unfolding parse_wire wire Bytes-discrete ℕ_discrete
parse_wire-wire bad_request = refl
parse_wire-wire unknown_op = refl
parse_wire-wire version_mismatch = refl
parse_wire-wire unknown_token = refl
parse_wire-wire no_scope = refl
parse_wire-wire agent_tty = refl
parse_wire-wire foreign_caller = refl
parse_wire-wire not_human_key = refl
parse_wire-wire ambiguous_key = refl
parse_wire-wire denied = refl
parse_wire-wire timeout = refl
parse_wire-wire yubikey_unreachable = refl
parse_wire-wire too_many_pending = refl
parse_wire-wire internal = refl

abbrev pub is_wire_byte : ℕ → Bool
is_wire_byte c = is_ascii_uppercase c || c == b'_'

pub all-wire : (code : ErrCode) → all is_wire_byte (wire code) ≡ true
unfolding wire ℕ_discrete
all-wire bad_request = refl
all-wire unknown_op = refl
all-wire version_mismatch = refl
all-wire unknown_token = refl
all-wire no_scope = refl
all-wire agent_tty = refl
all-wire foreign_caller = refl
all-wire not_human_key = refl
all-wire ambiguous_key = refl
all-wire denied = refl
all-wire timeout = refl
all-wire yubikey_unreachable = refl
all-wire too_many_pending = refl
all-wire internal = refl

wire-parse_wire : (token : Text) (code : ErrCode) → parse_wire token ≡ some code → wire code ≡ token
unfolding parse_wire wire
wire-parse_wire token code h = ground arith

-- A failure code is read back from its name on the wire, and a text that is read as a code is that
-- code's name.
pub wire_roundtrip :
    (code other : ErrCode) (token : Text)
    → parse_wire token ≡ some other
    → (parse_wire (wire code) ≡ some code) × (wire other ≡ token)
wire_roundtrip code other token h = (parse_wire-wire code, wire-parse_wire token other h)
