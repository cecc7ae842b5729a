-- ===== src/Tests/Answers.antt =====
-- Requests from the socket to the answer.
use secretsd.Base.{
  split_once, strip_suffix, Bytes-discrete, ℕ_discrete, starts_with, arith, ◌≡◌, refl, true, false,
  List, [], ◌∷◌, map, Option, none, some, Text, bytes, is_some,
}
use secretsd.Proto.ErrCode.{denied}
use secretsd.Proto.Request.{Request, get}
use secretsd.Grants.Token.{tokenless_tty}
use secretsd.Peer.{PeerIdentity}
use secretsd.Server.State.{State, Decision, Outcome, value, failure}
use secretsd.Server.Approval.{Access}
use secretsd.Server.Dispatch.{Schedule, dispatch, is_capability_key}
use secretsd.Server.Answers.{KeepsConfig, Expires, dispatch_answers}
use secretsd.Server.Released.{Released, dispatch_releases}
use secretsd.Server.Connections.{bytes_read, handle, answered, write_outcome}
use secretsd.Client.Frame.{get_frame, write_request}
use secretsd.Client.Response.{parse_response}
use secretsd.Client.RoundTrip.{received, parse_response-write_outcome}
use secretsd.Client.Stream.{read_response, read_response-parse_response}
use secretsd.Client.Sent.{handle-get_frame}
use secretsd.Tests.Data.{root_process, api_key, console, file_identity}
use secretsd.Tests.Sessions.{proc}
use secretsd.Tests.Daemon.{fs, initial}

abbrev same : State → State
same state = state

abbrev at_once : Schedule
at_once = record {
  before_resolve = same;
  before_approval = same;
  begin_now = 40;
  poll_now = 41;
  turns = record { others = same; now = 200 } ∷ [];
  before_release = same;
  before_finish = same;
  finish_now = 50;
  entropy = none;
}

abbrev fetch : Request
fetch = get (bytes "K") none (some (bytes "/t"))

-- A daemon that holds a grant for a terminal.
abbrev holding : State
holding = record initial.state {
  grants = record {
    grants =
        record {
          scope = console;
          key = api_key;
          value = 7 ∷ [];
          origin = record { source = bytes "s"; identity = file_identity };
          created = 30;
        }
        ∷ [];
  };
}

abbrev given : Decision
given = record {
  outcome = value (7 ∷ []);
  scope_kind = some tokenless_tty;
  source = some (bytes "s");
  request_id = none;
}

fetched : (dispatch proc fs root_process at_once holding fetch).1 ≡ some given
unfolding dispatch starts_with ℕ_discrete secretsd.Server.Approval.resolve_access
    secretsd.Names.SecretName.parse Bytes-discrete secretsd.Grants.Registry.resolve
    secretsd.Server.State.new secretsd.Grants.Registry.new secretsd.Server.Approval.begin_approval
    secretsd.Grants.Table.lookup secretsd.Grants.Token.Scope-discrete
    secretsd.Names.SecretName.SecretName-discrete secretsd.Store.HumanStore.identity strip_suffix
    secretsd.Store.FileIdentity.FileIdentity-discrete
fetched = refl

dispatch_releases_example :
    (key : Text) × (token : Option Text) × (tty : Option Text) × (fetch ≡ get key token tty)
    × (is_capability_key key ≡ false)
    × Released proc fs root_process at_once holding
        (dispatch proc fs root_process at_once holding fetch).0
        (record { key = key; token_hex = token; tty = tty })
        (7 ∷ [])
dispatch_releases_example =
    dispatch_releases proc fs root_process at_once holding fetch given (7 ∷ []) fetched refl

expires : Expires proc fs root_process at_once initial.state
unfolding Expires secretsd.Server.State.new
expires = refl

keeps : KeepsConfig proc fs root_process at_once
unfolding KeepsConfig
keeps = (λ state. refl, λ state. refl)

dispatch_answers_example :
    is_some (dispatch proc fs root_process at_once initial.state fetch).1 ≡ true
dispatch_answers_example =
    dispatch_answers proc fs root_process at_once initial.state fetch keeps expires

abbrev answer_to : State → Request → PeerIdentity → State × Option Decision
answer_to state request caller = dispatch proc fs caller at_once state request

abbrev frame : Text
frame = bytes "GET\tkey=K\ttoken=t\n"

abbrev pieces : List Text
pieces = bytes "GET\tke" ∷ (bytes "y=K\ttoken=t\n" ∷ [])

handle-get_frame_example :
    handle answer_to holding 1000 1000 (some root_process) (map bytes_read pieces)
    ≡ answered (answer_to holding (get (bytes "K") (some (bytes "t")) none) root_process)
unfolding write_request Bytes-discrete secretsd.Client.Frame.scoped_frame ℕ_discrete
handle-get_frame_example =
    handle-get_frame answer_to holding 1000 root_process pieces (bytes "K") (some (bytes "t")) none
      frame refl refl refl refl refl refl

parse_response-write_outcome_example :
    parse_response (write_outcome (failure denied (bytes "no")))
    ≡ received (failure denied (bytes "no"))
unfolding secretsd.Proto.Response.sanitize ℕ_discrete
parse_response-write_outcome_example =
    parse_response-write_outcome (failure denied (bytes "no")) refl

read_response-parse_response_example :
    read_response (bytes "OK\tlen=1\nx") ≡ parse_response (bytes "OK\tlen=1\nx")
unfolding split_once ℕ_discrete
read_response-parse_response_example =
    read_response-parse_response (bytes "OK\tlen=1\nx") (bytes "OK\tlen=1") (bytes "x") refl
      (omega arith)
