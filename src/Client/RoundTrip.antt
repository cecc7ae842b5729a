-- ===== src/Client/RoundTrip.antt =====
-- What the client reads of what the daemon writes: src/client/response.rs on the output of `handle`
-- of src/server.rs.
use mathlib.Core.List.{append_assoc}
use secretsd.Base.{
  Bytes-discrete, ℕ_discrete, ℕ, ◌≤◌, ◌≡◌, refl, ap, ◌∙◌, Bool, true, not, ◌&&◌, if◌then◌else◌, [],
  ◌∷◌, ◌++◌, none, Text, bytes, leb, ◌==◌, ℕ_eq, all, any, length, is_ascii_digit, is_some,
  strip_prefix, decimal, decimal-digits, decimal-nonempty, ==_refl, from_str_radix-decimal,
  split_once, split_once-append, all_mono, is_utf8, is_utf8-ascii, u64_max, arith, Bytes_eq,
}
use secretsd.Proto.ErrCode.{ErrCode, wire}
use secretsd.Proto.Wire.{parse_wire-wire, all-wire, is_wire_byte}
use secretsd.Proto.Response.{
  Response, sanitize, header, format_response, not_newline, all-append_true,
}
use secretsd.Server.State.{Outcome, done, fields, payload, minted_receipt, value, failure}
use secretsd.Server.Connections.{write_outcome}
use secretsd.Client.Response.{
  BrokerResponse, broker, Reply, got, failed, Header, is_header_byte, is_nul, parse_length,
  parse_error, parse_valid, parse_header, finish_header, payload_from_slice, finish_response,
  parse_response,
}

-- A text with a space for each line feed, carriage return and tab.
abbrev pub one_line : Text → Text
one_line [] = []
one_line (c ∷ cs) =
    let rest = one_line cs in
    if c == b'\n'
    then 32 ∷ rest
    else if c == b'\r'
    then 32 ∷ rest
    else if c == b'\t'
    then 32 ∷ rest
    else c ∷ rest

sanitize-one_line : (text : Text) → sanitize text ≡ one_line text
unfolding sanitize
sanitize-one_line [] = refl
sanitize-one_line (c ∷ cs) = ground (arith, sanitize-one_line cs)

-- What the client is to read.
abbrev pub received : Outcome → Reply BrokerResponse
received done = got BrokerResponse.done
received (fields text) = got (BrokerResponse.fields (one_line text))
received (payload text) = got (BrokerResponse.value text)
received (value secret) = got (BrokerResponse.value secret)
received (minted_receipt receipt) =
    got (BrokerResponse.fields (bytes "status=authorized receipt=" ++ receipt))
received (failure code message) = failed (broker code)

abbrev is_body : Text → Bool
is_body secret = not (any is_nul secret) && leb (length secret) u64_max

-- What can be sent: printable ASCII in the first line, once each line break and tab in it is a space,
-- with no text that begins with `len=` in its place for fields, and no NUL in what follows it.
abbrev pub is_sendable : Outcome → Bool
is_sendable done = true
is_sendable (fields text) =
    all is_header_byte (one_line text)
    && not (is_some (strip_prefix (bytes "len=") (one_line text)))
is_sendable (payload text) = is_body text
is_sendable (value secret) = is_body secret
is_sendable (minted_receipt receipt) = all is_header_byte receipt
is_sendable (failure code message) = all is_header_byte (one_line message)

header_byte-ascii : (c : ℕ) → is_header_byte c ≡ true → leb c 127 ≡ true
header_byte-ascii c h = ground arith

header_byte-not_newline : (c : ℕ) → is_header_byte c ≡ true → not_newline c ≡ true
header_byte-not_newline c h = ground arith

parse_header-valid :
    (c : ℕ) (line : Text)
    → all is_header_byte (c ∷ line) ≡ true
    → parse_header (c ∷ line) ≡ parse_valid (c ∷ line)
unfolding parse_header
parse_header-valid c line h = ground (
  arith,
  is_utf8-ascii (c ∷ line)
      (all_mono is_header_byte (λ b. leb b 127) (c ∷ line) header_byte-ascii h),
)

parse_response-line :
    (c : ℕ) (line rest : Text)
    → all is_header_byte (c ∷ line) ≡ true
    → parse_response ((c ∷ line) ++ 10 ∷ rest) ≡ finish_response rest (parse_valid (c ∷ line))
unfolding parse_response finish_response
parse_response-line c line rest h =
    rw
      (
        parse_response,
        split_once-append 10 (c ∷ line) rest
            (all_mono is_header_byte not_newline (c ∷ line) header_byte-not_newline h),
      )
      (ap (finish_response rest) (parse_header-valid c line h))

valid_fields :
    (text : Text)
    → strip_prefix (bytes "len=") text ≡ none
    → parse_valid (bytes "OK" ++ 9 ∷ text) ≡ got (Header.fields text)
unfolding parse_valid strip_prefix
valid_fields text h = ground arith

parse_length-decimal :
    (size : ℕ) → size ≤ u64_max → parse_length (decimal size) ≡ got (Header.value size)
unfolding parse_length
parse_length-decimal size h =
    let (first, tail, e) = decimal-nonempty size in
    ground (arith, from_str_radix-decimal u64_max size h, decimal-digits size)

valid_length :
    (size : ℕ)
    → size ≤ u64_max
    → parse_valid (bytes "OK" ++ 9 ∷ (bytes "len=" ++ decimal size)) ≡ got (Header.value size)
unfolding parse_valid strip_prefix ℕ_discrete Bytes-discrete
valid_length size h = parse_length-decimal size h

valid_error :
    (code : ErrCode) (message : Text)
    → parse_valid (bytes "ERR" ++ 9 ∷ (wire code ++ 9 ∷ message)) ≡ got (Header.error code)
unfolding parse_valid strip_prefix parse_error
valid_error code message = ground (
  arith,
  split_once-append 9 (wire code) message
      (all_mono is_wire_byte (λ c. not (c == 9)) (wire code) (λ c e. ground arith) (all-wire code)),
  parse_wire-wire code,
)

digits-header : (text : Text) → all is_ascii_digit text ≡ true → all is_header_byte text ≡ true
digits-header text h = all_mono is_ascii_digit is_header_byte text (λ c e. ground arith) h

wire-header : (code : ErrCode) → all is_header_byte (wire code) ≡ true
wire-header code =
    all_mono is_wire_byte is_header_byte (wire code) (λ c e. ground arith) (all-wire code)

body_agrees :
    (body : Text)
    → is_body body ≡ true
    → payload_from_slice body (length body) ≡ got (BrokerResponse.value body)
unfolding payload_from_slice
body_agrees body h = ground (arith, ==_refl (length body))

-- What was sent with a body is read with that body.
read_body :
    (body : Text)
    → is_body body ≡ true
    → parse_response (format_response (Response.payload (length body)) ++ body)
      ≡ got (BrokerResponse.value body)
unfolding format_response header finish_response
read_body body h =
    let line : Text = 75 ∷ 9 ∷ (bytes "len=" ++ decimal (length body)) in
    ap parse_response (append_assoc (79 ∷ line) (10 ∷ []) body)
    ∙ (parse_response-line 79 line body
          (ground (arith, digits-header (decimal (length body)) (decimal-digits (length body))))
        ∙ (ap (finish_response body) (valid_length (length body) (ground arith))
            ∙ body_agrees body h))

empty_answer : parse_response (write_outcome done) ≡ got BrokerResponse.done
unfolding parse_response write_outcome format_response header parse_header parse_valid
    finish_response finish_header split_once is_utf8 Bytes-discrete ℕ_discrete
empty_answer = refl

status_field :
    (receipt : Text)
    → strip_prefix (bytes "len=") (bytes "status=authorized receipt=" ++ receipt) ≡ none
unfolding strip_prefix ℕ_discrete
status_field receipt = refl

-- The client reads from what the daemon writes for an outcome that it can send: the fields, with
-- spaces for line breaks and tabs, the payload or the value, or the failure code.
pub parse_response-write_outcome :
    (outcome : Outcome)
    → is_sendable outcome ≡ true
    → parse_response (write_outcome outcome) ≡ received outcome
unfolding write_outcome format_response header finish_response finish_header Bytes-discrete
parse_response-write_outcome done h = empty_answer
parse_response-write_outcome (fields text) h =
    rw (write_outcome, format_response, header, sanitize-one_line text)
      (parse_response-line 79 (75 ∷ 9 ∷ one_line text) [] (ground arith)
        ∙ ap (finish_response []) (valid_fields (one_line text) (ground arith)))
parse_response-write_outcome (payload text) h = read_body text h
parse_response-write_outcome (value secret) h = read_body secret h
parse_response-write_outcome (minted_receipt receipt) h =
    parse_response-line 79 (75 ∷ 9 ∷ (bytes "status=authorized receipt=" ++ receipt)) []
      (ground arith)
    ∙ ap (finish_response [])
        (valid_fields (bytes "status=authorized receipt=" ++ receipt) (status_field receipt))
parse_response-write_outcome (failure code message) h =
    let line = one_line message in
    rw (write_outcome, format_response, header, sanitize-one_line message)
      (parse_response-line 69 (82 ∷ 82 ∷ 9 ∷ (wire code ++ 9 ∷ line)) []
          (ground (arith, all-append_true is_header_byte (wire code) (9 ∷ line) (wire-header code)))
        ∙ ap (finish_response []) (valid_error code line))
