-- ===== src/Server/Admission.antt =====
-- What the lanes of src/server.rs keep to, whatever clients do.
use mathlib.Core.Path.{subst}
use secretsd.Base.{
  Bool-cases, not, Text, split_once, ◌∙◌, ℕ, ◌≤◌, ◌≡◌, ◌≢◌, refl, Bool, true, false, ◌&&◌, [], ◌∷◌,
  Option, none, some, leb, length, length-append, all, all-append_both, arith, Option-cases, inl,
  inr,
}
use secretsd.Proto.ErrCode.{Result, Result-cases}
use secretsd.Proto.Request.{
  Request, hello, register, unregister, get, request_grant, authorize, redeem, grants, deny, lock,
  parse_request,
}
use secretsd.Server.Connections.{
  ConnectionLane, main, fast, control, request_lane, lane_of, Peek, peeked, again, peek_error,
  ready_request_lane,
}
use secretsd.Server.Lanes.{
  queue_depth, workers, Connection, Lane, Lanes, lane_at, set_lane, lane_for, try_send, admit,
  accept, take, finish, empty, Step, accepted, taken, finished, Reach, here, next, admitted,
}

-- DENY and LOCK.
abbrev pub is_control : Request → Bool
is_control (deny id) = true
is_control lock = true
is_control _ = false

-- HELLO, REGISTER, UNREGISTER, GRANTS and REDEEM.
abbrev pub is_fast : Request → Bool
is_fast (hello version) = true
is_fast (register token_hex session pid) = true
is_fast (unregister session) = true
is_fast grants = true
is_fast (redeem receipt_hex name) = true
is_fast _ = false

-- Whether the bytes begin with a whole request line, of a request with the property.
abbrev pub asks : (Request → Bool) → Text → Bool
asks wanted buffer = elim (split_once 10 buffer) [
  | none ↦ false
  | some (line, rest) ↦
      leb (length line) 4096
      && elim (parse_request line) [ Result.ok request ↦ wanted request | Result.err error ↦ false ]
]

abbrev pub asked : (Request → Bool) → Peek → Bool
asked wanted (peeked buffer) = asks wanted buffer
asked wanted _ = false

-- The kind of connection that a lane is for. The main lane takes what is in neither other lane.
abbrev pub belongs : ConnectionLane → Connection → Bool
belongs control connection = asked is_control connection.1
belongs fast connection = not (asked is_control connection.1) && asked is_fast connection.1
belongs main connection = not (asked is_control connection.1) && not (asked is_fast connection.1)

-- At most eight connections wait, all for this lane, and no more are handled than it has workers.
abbrev pub is_bounded : ConnectionLane → Lane → Bool
is_bounded which lane =
    leb (length lane.waiting) 8
    && (all (belongs which) lane.waiting && leb lane.busy (workers which))

abbrev pub is_admissible : Lanes → Bool
is_admissible lanes =
    is_bounded main lanes.main_lane
    && (is_bounded fast lanes.fast_lane && is_bounded control lanes.control_lane)

lane_bounded :
    (lanes : Lanes) (which : ConnectionLane)
    → is_admissible lanes ≡ true
    → is_bounded which (lane_at lanes which) ≡ true
lane_bounded lanes main h = ground arith
lane_bounded lanes fast h = ground arith
lane_bounded lanes control h = ground arith

set_bounded :
    (lanes : Lanes) (which : ConnectionLane) (lane : Lane)
    → is_admissible lanes ≡ true
    → is_bounded which lane ≡ true
    → is_admissible (set_lane lanes which lane) ≡ true
set_bounded lanes main lane h b = ground arith
set_bounded lanes fast lane h b = ground arith
set_bounded lanes control lane h b = ground arith

take_bounded :
    (which : ConnectionLane) (lane : Lane)
    → is_bounded which lane ≡ true
    → is_bounded which (take which lane) ≡ true
unfolding take
take_bounded which lane b = ground arith

finish_bounded :
    (which : ConnectionLane) (lane : Lane)
    → is_bounded which lane ≡ true
    → is_bounded which (finish lane) ≡ true
unfolding finish
finish_bounded which lane b = ground arith

-- What `belongs` says of a connection that asks for the request.
abbrev is_for : ConnectionLane → Request → Bool
is_for control request = is_control request
is_for fast request = not (is_control request) && is_fast request
is_for main request = not (is_control request) && not (is_fast request)

request_lane_lem : (request : Request) → is_for (request_lane request) request ≡ true
unfolding request_lane
request_lane_lem (hello version) = refl
request_lane_lem (register token_hex session pid) = refl
request_lane_lem (unregister session) = refl
request_lane_lem (get key token_hex tty) = refl
request_lane_lem (request_grant key token_hex tty) = refl
request_lane_lem (authorize name token_hex tty) = refl
request_lane_lem (redeem receipt_hex name) = refl
request_lane_lem grants = refl
request_lane_lem (deny id) = refl
request_lane_lem lock = refl

asks_parsed :
    (wanted : Request → Bool) (buffer line rest : Text) (request : Request)
    → split_once 10 buffer ≡ some (line, rest)
    → leb (length line) 4096 ≡ true
    → parse_request line ≡ Result.ok request
    → asks wanted buffer ≡ wanted request
asks_parsed wanted buffer line rest request cut short read = ground arith

belongs-is_for :
    (lane : ConnectionLane) (id : ℕ) (buffer line rest : Text) (request : Request)
    → split_once 10 buffer ≡ some (line, rest)
    → leb (length line) 4096 ≡ true
    → parse_request line ≡ Result.ok request
    → belongs lane (id, peeked buffer) ≡ is_for lane request
belongs-is_for control id buffer line rest request cut short read =
    asks_parsed is_control buffer line rest request cut short read
belongs-is_for fast id buffer line rest request cut short read = ground (
  arith,
  asks_parsed is_control buffer line rest request cut short read,
  asks_parsed is_fast buffer line rest request cut short read,
)
belongs-is_for main id buffer line rest request cut short read = ground (
  arith,
  asks_parsed is_control buffer line rest request cut short read,
  asks_parsed is_fast buffer line rest request cut short read,
)

-- The bytes name a lane as they begin with a request for it.
lane_of_lem :
    (id : ℕ) (buffer : Text) → belongs (lane_for (lane_of buffer)) (id, peeked buffer) ≡ true
unfolding lane_of
lane_of_lem id buffer = elim (Option-cases (split_once 10 buffer)) [
  | inl unfinished ↦ ground arith
  | inr ((line, rest), cut) ↦ elim (Bool-cases (leb (length line) 4096)) [
    | inr long ↦ ground arith
    | inl short ↦ elim (Result-cases (parse_request line)) [
      | inr (error, bad) ↦ ground arith
      | inl (request, read) ↦
          let lane : lane_of buffer ≡ some (request_lane request) = ground arith in
          rw lane (
            belongs-is_for (request_lane request) id buffer line rest request cut short read
            ∙ request_lane_lem request)
    ]
  ]
]

ready_lane_lem :
    (connection : Connection) (ready : Option ConnectionLane)
    → ready_request_lane connection.1 ≡ some ready
    → belongs (lane_for ready) connection ≡ true
unfolding ready_request_lane
ready_lane_lem (id, peeked buffer) ready h =
    let same : lane_of buffer ≡ ready = ground arith in
    subst (λ r. belongs (lane_for r) (id, peeked buffer) ≡ true) same (lane_of_lem id buffer)
ready_lane_lem (id, again) ready h =
    let same : none ≡ ready = ground arith in
    subst (λ r. belongs (lane_for r) (id, again) ≡ true) same refl
ready_lane_lem (id, peek_error) ready h = absurd (ground arith)

try_send_bounded :
    (which : ConnectionLane) (lane after : Lane) (connection : Connection)
    → belongs which connection ≡ true
    → is_bounded which lane ≡ true
    → try_send lane connection ≡ some after
    → is_bounded which after ≡ true
unfolding try_send
try_send_bounded which lane after connection own b h = ground (
  arith,
  length-append lane.waiting (connection ∷ []),
  all-append_both (belongs which) lane.waiting (connection ∷ []),
)

admit_bounded :
    (lanes : Lanes) (connection : Connection) (ready : Option ConnectionLane)
    → belongs (lane_for ready) connection ≡ true
    → is_admissible lanes ≡ true
    → is_admissible (admit lanes connection ready).0 ≡ true
unfolding admit
admit_bounded lanes connection ready own h =
    let which = lane_for ready in
    elim (Option-cases (try_send (lane_at lanes which) connection)) [
      | inl full ↦ rw (admit, full) h
      | inr (after, sent) ↦
          rw (admit, sent)
            (set_bounded lanes which after h (
              try_send_bounded which (lane_at lanes which) after connection own
                (lane_bounded lanes which h) sent))
    ]

accept_bounded :
    (lanes : Lanes) (connection : Connection)
    → is_admissible lanes ≡ true
    → is_admissible (accept lanes connection).0 ≡ true
unfolding accept
accept_bounded lanes connection h = elim (Option-cases (ready_request_lane connection.1)) [
  | inl broken ↦ rw (accept, broken) h
  | inr (ready, known) ↦
      rw (accept, known)
        (admit_bounded lanes connection ready (ready_lane_lem connection ready known) h)
]

Step-bounded :
    {lanes after : Lanes}
    → Step lanes after
    → is_admissible lanes ≡ true
    → is_admissible after ≡ true
Step-bounded {lanes} (accepted connection) h = accept_bounded lanes connection h
Step-bounded {lanes} (taken which) h =
    set_bounded lanes which _ h
      (take_bounded which (lane_at lanes which) (lane_bounded lanes which h))
Step-bounded {lanes} (finished which) h =
    set_bounded lanes which _ h
      (finish_bounded which (lane_at lanes which) (lane_bounded lanes which h))

Reach-bounded :
    {lanes last : Lanes} → is_admissible lanes ≡ true → Reach lanes last → is_admissible last ≡ true
Reach-bounded h here = h
Reach-bounded h (next steps step) = Step-bounded step (Reach-bounded h steps)

refused_full :
    (lanes : Lanes) (connection : Connection) (ready : Option ConnectionLane)
    → (admit lanes connection ready).1 ≢ admitted
    → queue_depth ≤ length (lane_at lanes (lane_for ready)).waiting
unfolding admit try_send
refused_full lanes connection ready h = ground arith

-- A connection that asks for DENY or LOCK belongs to no other lane.
control_only :
    (lane : ConnectionLane) (connection : Connection)
    → belongs lane connection ≡ true
    → asked is_control connection.1 ≡ true
    → lane ≡ control
control_only control connection own h = refl
control_only fast connection own h = absurd (ground arith)
control_only main connection own h = absurd (ground arith)

-- After any steps from empty lanes, a connection whose bytes begin with a whole DENY or LOCK line when
-- it is accepted is turned away only while eight other connections that ask for DENY or LOCK wait for
-- the control worker, whatever waits in the other lanes; and each lane has at most eight connections
-- that wait, all of its own kind, and handles no more than it has workers.
pub control_refused :
    {last : Lanes} (id : ℕ) (buffer : Text)
    → Reach empty last
    → asks is_control buffer ≡ true
    → (accept last (id, peeked buffer)).1 ≢ admitted
    → (length last.control_lane.waiting ≡ 8)
      × (all (λ connection. asked is_control connection.1) last.control_lane.waiting ≡ true)
      × (is_admissible last ≡ true)
unfolding accept ready_request_lane
control_refused {last} id buffer steps wanted h =
    let bounded = Reach-bounded refl steps in
    let here : lane_for (lane_of buffer) ≡ control =
      control_only (lane_for (lane_of buffer)) (id, peeked buffer) (lane_of_lem id buffer) wanted in
    let full : queue_depth ≤ length last.control_lane.waiting =
      subst (λ lane. queue_depth ≤ length (lane_at last lane).waiting) here
        (refused_full last (id, peeked buffer) (lane_of buffer) h) in
    (ground arith, ground arith, bounded)
