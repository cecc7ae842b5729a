-- ===== src/Server/Lanes.antt =====
-- Admission of connections: the lanes of `serve_listener` and `start_connection_workers` in
-- src/server.rs. A connection is a number with what was peeked of it.
use secretsd.Base.{
  ℕ, ◌-◌, ◌+◌, List, [], ◌∷◌, ◌++◌, Option, none, some, ltb, length, if◌then◌else◌, is_some,
}
use secretsd.Server.Connections.{ConnectionLane, main, fast, control, Peek, ready_request_lane}

abbrev pub queue_depth : ℕ
queue_depth = 8

abbrev pub workers : ConnectionLane → ℕ
workers main = 8
workers fast = 1
workers control = 1

-- A connection with what the peek at its socket gave when it was accepted.
abbrev pub Connection : Type 0
Connection = ℕ × Peek

-- The connections in a lane's channel, and how many its workers handle.
pub record Lane : Type 0 where
  pub waiting : List Connection
  pub busy : ℕ

pub record Lanes : Type 0 where
  pub main_lane : Lane
  pub fast_lane : Lane
  pub control_lane : Lane

abbrev pub lane_at : Lanes → ConnectionLane → Lane
lane_at lanes main = lanes.main_lane
lane_at lanes fast = lanes.fast_lane
lane_at lanes control = lanes.control_lane

abbrev pub set_lane : Lanes → ConnectionLane → Lane → Lanes
set_lane lanes main lane = record lanes { main_lane = lane }
set_lane lanes fast lane = record lanes { fast_lane = lane }
set_lane lanes control lane = record lanes { control_lane = lane }

-- `try_send`: none where the channel is full.
unfoldable pub try_send : Lane → Connection → Option Lane
try_send lane connection =
    if ltb (length lane.waiting) queue_depth
    then some (record lane { waiting = lane.waiting ++ connection ∷ [] })
    else none

-- A connection whose request is not complete goes to the main lane.
abbrev pub lane_for : Option ConnectionLane → ConnectionLane
lane_for none = main
lane_for (some lane) = lane

-- A connection is queued, told that there is no room, or closed.
pub data Admission : Type 0 where
  admitted refused closed : Admission

-- `ready` is what `ready_request_lane` says of the connection.
unfoldable pub admit : Lanes → Connection → Option ConnectionLane → Lanes × Admission
unfolding try_send
admit lanes connection ready =
    let lane = lane_for ready in
    elim (try_send (lane_at lanes lane) connection) [
      | some after ↦ (set_lane lanes lane after, admitted)
      | none ↦ (lanes, if is_some ready then refused else closed)
    ]

-- A connection is accepted.
unfoldable pub accept : Lanes → Connection → Lanes × Admission
unfolding admit ready_request_lane
accept lanes connection = elim (ready_request_lane connection.1) [
  | none ↦ (lanes, closed)
  | some ready ↦ admit lanes connection ready
]

-- A free worker of the lane takes the first connection that waits.
unfoldable pub take : ConnectionLane → Lane → Lane
take which lane = elim lane.waiting [
  | [] ↦ lane
  | connection ∷ rest ↦
      if ltb lane.busy (workers which)
      then record { waiting = rest; busy = lane.busy + 1 }
      else lane
]

-- A worker of the lane is done with its connection.
unfoldable pub finish : Lane → Lane
finish lane = record lane { busy = lane.busy - 1 }

abbrev idle : Lane
idle = record { waiting = []; busy = 0 }

abbrev pub empty : Lanes
empty = record { main_lane = idle; fast_lane = idle; control_lane = idle }

pub data Step (lanes : Lanes) : Lanes → Type 0 where
  accepted : (connection : Connection) → Step lanes (accept lanes connection).0
  taken :
      (which : ConnectionLane)
      → Step lanes (set_lane lanes which (take which (lane_at lanes which)))
  finished :
      (which : ConnectionLane) → Step lanes (set_lane lanes which (finish (lane_at lanes which)))

pub data Reach (lanes : Lanes) : Lanes → Type 0 where
  here : Reach lanes lanes
  next : {middle last : Lanes} → Reach lanes middle → Step middle last → Reach lanes last
