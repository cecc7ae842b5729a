-- ===== src/Server/Connections.antt =====
-- One connection: `read_frame`, `handle`, `request_lane` and `ready_request_lane` of src/server.rs.
-- Writing to the socket is taken to succeed; what is logged is left out.
use secretsd.Base.{
  ℕ, ◌+◌, Bool, List, [], ◌∷◌, ◌++◌, Option, none, some, Text, bytes, ◌==◌, ℕ_eq, ltb, leb,
  if◌then◌else◌, length, split_once, strip_suffix,
}
use secretsd.Proto.ErrCode.{ok, err, bad_request}
use secretsd.Proto.Request.{
  Request, hello, register, unregister, get, request_grant, authorize, redeem, grants, deny, lock,
  max_frame_bytes, parse_request,
}
use secretsd.Proto.Response.{Response, format_response}
use secretsd.Peer.{PeerIdentity}
use secretsd.Server.State.{
  State, Outcome, done, fields, payload, minted_receipt, value, failure, Decision, plain,
}

abbrev pub newline : Text
newline = 10 ∷ []

-- What one call of `read` on the socket gives; no bytes stand for its end.
pub data Read : Type 0 where
  bytes_read : Text → Read
  read_error : Read

-- What reading a frame comes to; `reading` is the frame so far, where more reads are needed.
pub data Frame : Type 0 where
  complete reading : Text → Frame
  broken : Frame

-- The bytes up to the first newline, which they end with.
unfoldable pub through_newline : Text → Option Text
through_newline chunk = elim (split_once 10 chunk) [
  | none ↦ none
  | some (line, rest) ↦ some (line ++ newline)
]

-- One round of the loop of `read_frame` that has read the chunk; `rest` is the rounds to come.
abbrev add_chunk : Text → Text → Frame → Frame
add_chunk frame chunk rest =
    if ltb (max_frame_bytes + 1) (length chunk)
    then broken
    else elim (through_newline chunk) [ some line ↦ complete (frame ++ line) | none ↦ rest ]

unfoldable pub read_frame : Text → List Read → Frame
unfolding through_newline
read_frame frame [] =
    if leb (max_frame_bytes + 1) (length frame) then complete frame else reading frame
read_frame frame (read_error ∷ reads) =
    if leb (max_frame_bytes + 1) (length frame) then complete frame else broken
read_frame frame (bytes_read [] ∷ reads) = complete frame
read_frame frame (bytes_read (c ∷ cs) ∷ reads) =
    let rest = read_frame (frame ++ c ∷ cs) reads in
    if leb (max_frame_bytes + 1) (length frame)
    then complete frame
    else add_chunk frame (c ∷ cs) rest

-- The request of a frame; none stands for `invalid frame` and for `bad request`.
unfoldable pub frame_request : Text → Option Request
frame_request frame = elim (strip_suffix newline frame) [
  | none ↦ none
  | some line ↦
      if leb (length line) max_frame_bytes
      then elim (parse_request line) [ ok request ↦ some request | err error ↦ none ]
      else none
]

-- The bytes that an outcome is sent as.
unfoldable pub write_outcome : Outcome → Text
write_outcome done = format_response Response.done
write_outcome (fields text) = format_response (Response.fields text)
write_outcome (payload text) = format_response (Response.payload (length text)) ++ text
write_outcome (value secret) = format_response (Response.payload (length secret)) ++ secret
write_outcome (minted_receipt receipt) =
    bytes "OK\tstatus=authorized receipt=" ++ (receipt ++ newline)
write_outcome (failure code message) = format_response (Response.failure code message)

abbrev pub invalid_frame : Decision
invalid_frame = plain (failure bad_request (bytes "invalid request frame"))

unfoldable pub peer_uid_is_authorized : ℕ → ℕ → Bool
peer_uid_is_authorized peer_uid daemon_uid = peer_uid == daemon_uid

-- What a connection is answered with.
pub data Answer : Type 0 where
  sent : Text → Answer
  unanswered waits : Answer

abbrev pub answer : Option Decision → Answer
answer none = waits
answer (some decision) = sent (write_outcome decision.outcome)

abbrev pub answered : State × Option Decision → State × Answer
answered (state, decision) = (state, answer decision)

module _ (dispatch : State → Request → PeerIdentity → State × Option Decision) where
  -- `dispatch` gives no decision while it waits for an approval.
  unfoldable pub handle_frame : State → PeerIdentity → Text → State × Answer
  unfolding frame_request write_outcome
  handle_frame state caller frame = elim (frame_request frame) [
    | none ↦ (state, answer (some invalid_frame))
    | some request ↦ answered (dispatch state request caller)
  ]

  unfoldable pub handle_read : State → PeerIdentity → Frame → State × Answer
  unfolding handle_frame
  handle_read state caller (complete frame) = handle_frame state caller frame
  handle_read state caller (reading frame) = (state, waits)
  handle_read state caller broken = (state, unanswered)

  -- `caller` is none where the kernel does not identify the peer.
  unfoldable pub handle : State → ℕ → ℕ → Option PeerIdentity → List Read → State × Answer
  unfolding peer_uid_is_authorized read_frame handle_read
  handle state peer_uid daemon_uid none reads = (state, unanswered)
  handle state peer_uid daemon_uid (some caller) reads =
      if peer_uid_is_authorized peer_uid daemon_uid
      then handle_read state caller (read_frame [] reads)
      else (state, unanswered)

pub data ConnectionLane : Type 0 where
  main fast control : ConnectionLane

unfoldable pub request_lane : Request → ConnectionLane
request_lane (get key token_hex tty) = main
request_lane (request_grant key token_hex tty) = main
request_lane (authorize name token_hex tty) = main
request_lane (hello version) = fast
request_lane (register token_hex session pid) = fast
request_lane (unregister session) = fast
request_lane grants = fast
request_lane (redeem receipt_hex name) = fast
request_lane (deny id) = control
request_lane lock = control

-- What the peek at the socket gives: bytes, nothing yet (`EAGAIN`), or an error.
pub data Peek : Type 0 where
  peeked : Text → Peek
  again peek_error : Peek

unfoldable pub lane_of : Text → Option ConnectionLane
unfolding request_lane
lane_of buffer = elim (split_once 10 buffer) [
  | none ↦ none
  | some (line, rest) ↦
      if ltb max_frame_bytes (length line)
      then none
      else elim (parse_request line) [ ok request ↦ some (request_lane request) | err error ↦ none ]
]

-- None stands for an error.
unfoldable pub ready_request_lane : Peek → Option (Option ConnectionLane)
unfolding lane_of
ready_request_lane (peeked buffer) = some (lane_of buffer)
ready_request_lane again = some none
ready_request_lane peek_error = none
