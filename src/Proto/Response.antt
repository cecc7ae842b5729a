-- ===== src/Proto/Response.antt =====
-- Response lines: `Response` and `format_response` of src/proto/response.rs, as release builds
-- render them. Its `sanitize` changes single ASCII characters, so it is read off the bytes.
use secretsd.Base.{
  ℕ, ◌≡◌, refl, Bool, true, not, ◌||◌, [], ◌∷◌, ◌++◌, map, Text, bytes, decimal, ◌==◌, ℕ_eq,
  if◌then◌else◌, all, arith, ℕ_discrete, is_ascii_digit, decimal-digits,
}
use secretsd.Proto.ErrCode.{
  ErrCode, wire, bad_request, unknown_op, version_mismatch, unknown_token, no_scope, agent_tty,
  foreign_caller, not_human_key, ambiguous_key, denied, timeout, yubikey_unreachable,
  too_many_pending, internal,
}

pub data Response : Type 0 where
  done : Response
  fields : Text → Response
  payload : ℕ → Response
  failure : ErrCode → Text → Response

abbrev pub is_break : ℕ → Bool
is_break c = c == 10 || (c == 13 || c == 9)

abbrev pub spaced : ℕ → ℕ
spaced c = if is_break c then 32 else c

unfoldable pub sanitize : Text → Text
sanitize text = map spaced text

-- The line without its newline.
unfoldable pub header : Response → Text
unfolding sanitize
header done = bytes "OK"
header (fields text) = bytes "OK" ++ 9 ∷ sanitize text
header (payload size) = bytes "OK" ++ 9 ∷ (bytes "len=" ++ decimal size)
header (failure code message) = bytes "ERR" ++ 9 ∷ (wire code ++ 9 ∷ sanitize message)

unfoldable pub format_response : Response → Text
unfolding header
format_response response = header response ++ 10 ∷ []

abbrev pub not_newline : ℕ → Bool
not_newline c = not (c == 10)

pub all-append_true :
    (p : ℕ → Bool) (xs ys : Text) → all p xs ≡ true → all p ys ≡ true → all p (xs ++ ys) ≡ true
all-append_true p [] ys hx hy = hy
all-append_true p (x ∷ xs) ys hx hy = ground (arith, all-append_true p xs ys)

sanitize_clean : (text : Text) → all not_newline (sanitize text) ≡ true
unfolding sanitize
sanitize_clean [] = refl
sanitize_clean (c ∷ cs) = ground (arith, sanitize_clean cs)

digits_clean : (text : Text) → all is_ascii_digit text ≡ true → all not_newline text ≡ true
digits_clean [] h = refl
digits_clean (c ∷ cs) h = ground (arith, digits_clean cs)

wire_clean : (code : ErrCode) → all not_newline (wire code) ≡ true
unfolding wire ℕ_discrete
wire_clean bad_request = refl
wire_clean unknown_op = refl
wire_clean version_mismatch = refl
wire_clean unknown_token = refl
wire_clean no_scope = refl
wire_clean agent_tty = refl
wire_clean foreign_caller = refl
wire_clean not_human_key = refl
wire_clean ambiguous_key = refl
wire_clean denied = refl
wire_clean timeout = refl
wire_clean yubikey_unreachable = refl
wire_clean too_many_pending = refl
wire_clean internal = refl

header_clean : (response : Response) → all not_newline (header response) ≡ true
unfolding header ℕ_discrete
header_clean done = refl
header_clean (fields text) = sanitize_clean text
header_clean (payload size) = digits_clean (decimal size) (decimal-digits size)
header_clean (failure code message) =
    all-append_true not_newline (wire code) (9 ∷ sanitize message) (wire_clean code)
      (sanitize_clean message)

-- A response ends with a newline and holds no other, whatever its fields or its message hold.
pub format_response_line :
    (response : Response)
    → (line : Text) × (format_response response ≡ line ++ 10 ∷ []) × (all not_newline line ≡ true)
unfolding format_response
format_response_line response = (header response, refl, header_clean response)
