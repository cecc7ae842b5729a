-- ===== src/Client/Stream.antt =====
-- The response as it is read from the socket: `read_response` of src/client/response.rs, on the
-- bytes that the daemon sends until it closes.
use mathlib.Core.List.{append-nil}
use secretsd.Base.{
  Bytes-discrete, ℕ, zero, suc, ◌+◌, ◌<◌, ◌⊎◌, ap, ◌∙◌, ◌≡◌, refl, sym, [], ◌∷◌, ◌++◌, Option, none,
  some, Text, ◌==◌, ℕ_eq, Bytes_eq, if◌then◌else◌, ◌≤◌, any, length, split_once, strip_suffix,
  arith, split_once-cases, strip_suffix-line, length-append, inl, inr,
}
use secretsd.Proto.Request.{max_frame_bytes}
use secretsd.Client.Response.{
  BrokerResponse, Reply, got, failed, invalid_response, Header, parse_header, finish_header, is_nul,
  parse_response, finish_response, payload_from_slice,
}

-- `take(limit).read_until(b'\n')`: what was read, and what is left.
unfoldable pub read_until : ℕ → Text → Text × Text
read_until zero stream = ([], stream)
read_until (suc limit) [] = ([], [])
read_until (suc limit) (c ∷ cs) =
    let rest = read_until limit cs in if c == 10 then (c ∷ [], cs) else (c ∷ rest.0, rest.1)

-- `read_exact` of a buffer of the given size: none where the stream ends before.
unfoldable pub read_exact : ℕ → Text → Option (Text × Text)
read_exact zero stream = some ([], stream)
read_exact (suc size) [] = none
read_exact (suc size) (c ∷ cs) = elim (read_exact size cs) [
  | none ↦ none
  | some (payload, rest) ↦ some (c ∷ payload, rest)
]

abbrev pub bytes_response : Text → Reply BrokerResponse
bytes_response payload =
    if any is_nul payload then failed invalid_response else got (BrokerResponse.value payload)

unfoldable pub read_payload : ℕ → Text → Reply BrokerResponse
unfolding read_exact
read_payload size stream = elim (read_exact size stream) [
  | none ↦ failed invalid_response
  | some (payload, rest) ↦ if rest == [] then bytes_response payload else failed invalid_response
]

unfoldable pub read_body : Text → Reply Header → Reply BrokerResponse
unfolding read_payload finish_header
read_body stream (failed reason) = failed reason
read_body stream (got (Header.value size)) = read_payload size stream
read_body stream (got header) =
    if stream == [] then finish_header header else failed invalid_response

-- What follows the reading of the first line, which is `raw_header`.
unfoldable pub read_after : Text × Text → Reply BrokerResponse
unfolding read_body parse_header
read_after (raw_header, rest) = elim (strip_suffix (10 ∷ []) raw_header) [
  | none ↦ failed invalid_response
  | some header ↦ read_body rest (parse_header header)
]

unfoldable pub read_response : Text → Reply BrokerResponse
unfolding read_until read_after
read_response stream = read_after (read_until (max_frame_bytes + 1) stream)

read_until-line :
    (limit : ℕ) (stream header rest : Text)
    → split_once 10 stream ≡ some (header, rest)
    → length header ≤ limit
    → read_until (suc limit) stream ≡ (header ++ 10 ∷ [], rest)
unfolding read_until split_once
read_until-line limit [] header rest h bound = absurd (ground arith)
read_until-line zero (c ∷ cs) header rest h bound = elim (split_once-cases 10 c cs header rest h) [
  | inl (newline, no_header, same) ↦ ground arith
  | inr (tail, other, found, longer) ↦ absurd (ground arith)
]
read_until-line (suc limit) (c ∷ cs) header rest h bound =
    elim (split_once-cases 10 c cs header rest h) [
      | inl (newline, no_header, same) ↦ ground arith
      | inr (tail, other, found, longer) ↦
          let more = read_until-line limit cs tail rest found (ground arith) in ground arith
    ]

read_exact-split :
    (size : ℕ) (stream : Text)
    → ((length stream < size) × (read_exact size stream ≡ none))
      ⊎ ((payload : Text) × (rest : Text) × (read_exact size stream ≡ some (payload, rest))
          × (payload ++ rest ≡ stream)
          × (length payload ≡ size))
unfolding read_exact
read_exact-split zero stream = inr ([], stream, refl, refl, refl)
read_exact-split (suc size) [] = inl (omega arith, refl)
read_exact-split (suc size) (c ∷ cs) = elim (read_exact-split size cs) [
  | inl (short, e) ↦ inl (omega arith, rw e)
  | inr (payload, rest, e, same, fits) ↦
      inr (c ∷ payload, rest, rw e, ap (λ tail. c ∷ tail) same, omega arith)
]

whole_agrees :
    (size : ℕ) (stream payload : Text)
    → payload ≡ stream
    → length payload ≡ size
    → bytes_response payload ≡ payload_from_slice stream size
unfolding payload_from_slice
whole_agrees size stream payload same fits = ground (arith, ap length same)

payload_agrees :
    (size : ℕ) (stream : Text) → read_payload size stream ≡ payload_from_slice stream size
unfolding read_payload payload_from_slice Bytes-discrete
payload_agrees size stream = elim (read_exact-split size stream) [
  | inl (short, e) ↦ rw (read_payload, e) (ground arith)
  | inr (payload, [], e, same, fits) ↦
      rw (read_payload, e) (whole_agrees size stream payload (sym (append-nil payload) ∙ same) fits)
  | inr (payload, c ∷ cs, e, same, fits) ↦
      rw (read_payload, e) (ground (arith, length-append payload (c ∷ cs), ap length same))
]

body_agrees :
    (stream : Text) (header : Reply Header)
    → read_body stream header ≡ finish_response stream header
unfolding read_body finish_response
body_agrees stream (failed reason) = refl
body_agrees stream (got (Header.value size)) = payload_agrees size stream
body_agrees stream (got Header.done) = refl
body_agrees stream (got (Header.fields text)) = refl
body_agrees stream (got (Header.error code)) = refl

after_line :
    (header rest : Text)
    → read_after (header ++ 10 ∷ [], rest) ≡ read_body rest (parse_header header)
unfolding read_after read_body
after_line header rest = rw (read_after, strip_suffix-line header)

-- Reading a response from the socket has the outcome of parsing the whole of it, as long as its
-- first line has at most 4096 bytes.
pub read_response-parse_response :
    (stream header rest : Text)
    → split_once 10 stream ≡ some (header, rest)
    → length header ≤ max_frame_bytes
    → read_response stream ≡ parse_response stream
unfolding read_response parse_response Bytes-discrete
read_response-parse_response stream header rest h bound =
    ap read_after (read_until-line max_frame_bytes stream header rest h bound)
    ∙ (after_line header rest ∙ rw (parse_response, h) (body_agrees rest (parse_header header)))
