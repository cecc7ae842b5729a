-- ===== src/Client/Response.antt =====
-- What the client reads: the parser of complete responses in src/client/response.rs.
use secretsd.Base.{
  ℕ, Bool, not, ◌&&◌, ◌||◌, List, [], none, some, Text, bytes, ◌==◌, ℕ_eq, Bytes_eq, if◌then◌else◌,
  any, all, length, in_range, is_ascii_digit, strip_prefix, split_once, from_str_radix, u64_max,
  is_utf8,
}
use secretsd.Proto.ErrCode.{ErrCode, parse_wire}

pub data BrokerResponse : Type 0 where
  done : BrokerResponse
  fields : Text → BrokerResponse
  value : List ℕ → BrokerResponse

pub data ClientError : Type 0 where
  io approval_timeout invalid_request invalid_response version_handshake token_file : ClientError
  broker : ErrCode → ClientError

-- `Result<A, ClientError>`
pub data Reply (A : Type 0) : Type 0 where
  got : A → Reply A
  failed : ClientError → Reply A

pub data Header : Type 0 where
  done : Header
  fields : Text → Header
  value : ℕ → Header
  error : ErrCode → Header

abbrev pub is_header_byte : ℕ → Bool
is_header_byte c = in_range 33 126 c || (c == 32 || c == 9)

unfoldable pub parse_length : Text → Reply Header
parse_length digits =
    if not (digits == []) && all is_ascii_digit digits
    then elim (from_str_radix 10 u64_max digits) [
      | none ↦ failed invalid_response
      | some size ↦ got (Header.value size)
    ]
    else failed invalid_response

unfoldable pub parse_error : Text → Reply Header
parse_error text = elim (split_once 9 text) [
  | none ↦ failed invalid_response
  | some (code, message) ↦ elim (parse_wire code) [
    | none ↦ failed invalid_response
    | some known ↦ got (error known)
  ]
]

abbrev pub parse_fields_or_error : Text → Reply Header
parse_fields_or_error text = elim (strip_prefix (bytes "OK\t") text) [
  | some rest ↦ got (Header.fields rest)
  | none ↦ elim (strip_prefix (bytes "ERR\t") text) [
    | some rest ↦ parse_error rest
    | none ↦ failed invalid_response
  ]
]

-- The cases of a header whose bytes are valid.
unfoldable pub parse_valid : Text → Reply Header
unfolding parse_length parse_error
parse_valid text =
    if text == bytes "OK" then got Header.done else elim (strip_prefix (bytes "OK\tlen=") text) [
      | some digits ↦ parse_length digits
      | none ↦ parse_fields_or_error text
    ]

unfoldable pub parse_header : Text → Reply Header
unfolding parse_valid
parse_header header =
    if not (header == []) && (all is_header_byte header && is_utf8 header)
    then parse_valid header
    else failed invalid_response

unfoldable pub finish_header : Header → Reply BrokerResponse
finish_header Header.done = got BrokerResponse.done
finish_header (Header.fields text) = got (BrokerResponse.fields text)
finish_header (Header.value size) = failed invalid_response
finish_header (error code) = failed (broker code)

abbrev pub is_nul : ℕ → Bool
is_nul c = c == 0

unfoldable pub payload_from_slice : Text → ℕ → Reply BrokerResponse
payload_from_slice payload size =
    if (length payload == size) && not (any is_nul payload)
    then got (BrokerResponse.value payload)
    else failed invalid_response

unfoldable pub finish_response : Text → Reply Header → Reply BrokerResponse
unfolding payload_from_slice finish_header
finish_response payload (failed reason) = failed reason
finish_response payload (got (Header.value size)) = payload_from_slice payload size
finish_response payload (got header) =
    if payload == [] then finish_header header else failed invalid_response

unfoldable pub parse_response : Text → Reply BrokerResponse
unfolding parse_header finish_response
parse_response response = elim (split_once 10 response) [
  | none ↦ failed invalid_response
  | some (header, payload) ↦ finish_response payload (parse_header header)
]
