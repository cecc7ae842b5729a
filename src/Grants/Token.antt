-- ===== src/Grants/Token.antt =====
-- Session tokens and scopes: `SessionToken`, `Scope` and `ScopeKind` of src/grants.rs.
use secretsd.Base.{
  ℕ, zero, suc, ◌*◌, not, List, [], ◌∷◌, Text, ◌==◌, ℕ_eq, Eq, length, ℕ_discrete, from_str_radix,
  u8_max,
}
use secretsd.Proto.ErrCode.{Result, ok, err, bad_request, ◌>>=◌, ◌>>◌, reject_if, ok_or}

abbrev pub token_len : ℕ
token_len = 32

-- The bytes of a token; `ct_eq` is equality of the bytes.
pub record SessionToken : Type 0 where
  pub token_bytes : List ℕ

-- The loop over the slots: each takes the next two characters of the text.
unfoldable pub parse_pairs : ℕ → Text → Result (List ℕ)
unfolding from_str_radix
parse_pairs zero text = ok []
parse_pairs (suc slots) (high ∷ low ∷ text) = do
  slot ← ok_or (from_str_radix 16 u8_max (high ∷ low ∷ [])) bad_request
  rest ← parse_pairs slots text
  ok (slot ∷ rest)
parse_pairs (suc slots) _ = err bad_request

unfoldable pub parse_hex : Text → Result SessionToken
unfolding parse_pairs
parse_hex text = do
  reject_if (not (length text == token_len * 2)) bad_request
  slots ← parse_pairs token_len text
  ok (record { token_bytes = slots })

unfoldable pub SessionToken-discrete : Discrete SessionToken
SessionToken-discrete = hlevel ℕ_discrete

instance abbrev pub SessionToken_eq : Eq SessionToken
SessionToken_eq = record { dec = SessionToken-discrete }

pub data Scope : Type 0 where
  session : SessionToken → Scope
  terminal : Text → Text → Scope

pub data ScopeKind : Type 0 where
  verified_session tokenless_tty : ScopeKind

unfoldable pub kind : Scope → ScopeKind
kind (session token) = verified_session
kind (terminal tty boot_id) = tokenless_tty

unfoldable pub Scope-discrete : Discrete Scope
Scope-discrete = hlevel ℕ_discrete

instance abbrev pub Scope_eq : Eq Scope
Scope_eq = record { dec = Scope-discrete }
