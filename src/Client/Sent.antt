-- ===== src/Client/Sent.antt =====
-- That the daemon reads the request that the client sends: `parse_request` of src/proto.rs on the
-- frames of src/client/human.rs, and `read_frame` of src/server.rs on any pieces of them.
use mathlib.Core.List.{append-nil}
use secretsd.Base.{
  ==_refl, map, split_once-append, List, ℕ, ◌≡◌, refl, ap, ◌∙◌, Bool, true, false, not, [], ◌∷◌,
  ◌++◌, Option, none, some, Text, bytes, leb, ◌==◌, ℕ_eq, Bytes_eq, Bytes-discrete, ℕ_discrete, all,
  any, length, split, split_once, split-append, split-single, strip_suffix-line, is_utf8-ascii,
  arith,
}
use secretsd.Proto.ErrCode.{ok}
use secretsd.Proto.Request.{
  Request, get, request_grant, field, read_fields, parse_op, parse_parts, parse_request,
  max_frame_bytes,
}
use secretsd.Peer.{PeerIdentity}
use secretsd.Server.State.{State, Decision}
use secretsd.Server.Connections.{
  newline, bytes_read, complete, read_frame, frame_request, answered, handle_frame, handle_read,
  handle, peer_uid_is_authorized,
}
use secretsd.Server.Frames.{joined, is_piece, read_frame-line}
use secretsd.Client.Frame.{
  scoped_frame, push_field, write_request, is_ascii, ends_frame, get_frame, request_grant_frame,
}

abbrev pub without_tab : Text → Bool
without_tab = all (λ c. not (c == 9))

abbrev pub no_tab : Option Text → Bool
no_tab none = true
no_tab (some text) = without_tab text

abbrev field_part : Text → Text → Text
field_part name value = name ++ b'=' ∷ value

last_part : (part : Text) → without_tab part ≡ true → split 9 (part ++ []) ≡ part ∷ []
last_part part h = ap (split 9) (append-nil part) ∙ split-single 9 part h

abbrev parts_of : Text → Option Text → List Text
parts_of name none = []
parts_of name (some value) = field_part name value ∷ []

-- The part of a key, followed by those of the token and the terminal.
split-fields :
    (key : Text) (token tty : Option Text)
    → without_tab key ≡ true
    → no_tab token ≡ true
    → no_tab tty ≡ true
    → split 9 (
        field_part (bytes "key") key
        ++ (push_field (bytes "token") token ++ push_field (bytes "tty") tty))
      ≡ field_part (bytes "key") key
        ∷ (parts_of (bytes "token") token ++ parts_of (bytes "tty") tty)
unfolding ℕ_discrete
split-fields key none none hk ht hy = last_part (field_part (bytes "key") key) hk
split-fields key (some token) none hk ht hy =
    split-append 9 (field_part (bytes "key") key) _ hk
    ∙ ap (λ parts. field_part (bytes "key") key ∷ parts)
        (last_part (field_part (bytes "token") token) ht)
split-fields key none (some tty) hk ht hy =
    split-append 9 (field_part (bytes "key") key) _ hk
    ∙ ap (λ parts. field_part (bytes "key") key ∷ parts)
        (split-single 9 (field_part (bytes "tty") tty) hy)
split-fields key (some token) (some tty) hk ht hy =
    split-append 9 (field_part (bytes "key") key) _ hk
    ∙ ap (λ parts. field_part (bytes "key") key ∷ parts)
        (split-append 9 (field_part (bytes "token") token) _ ht
          ∙ ap (λ parts. field_part (bytes "token") token ∷ parts)
              (split-single 9 (field_part (bytes "tty") tty) hy))

split-scoped_frame :
    (operation key : Text) (token tty : Option Text)
    → without_tab operation ≡ true
    → without_tab key ≡ true
    → no_tab token ≡ true
    → no_tab tty ≡ true
    → split 9 (scoped_frame operation key token tty)
      ≡ operation
        ∷ (field_part (bytes "key") key
            ∷ (parts_of (bytes "token") token ++ parts_of (bytes "tty") tty))
unfolding scoped_frame
split-scoped_frame operation key token tty ho hk ht hy =
    split-append 9 operation _ ho
    ∙ ap (λ parts. operation ∷ parts) (split-fields key token tty hk ht hy)

parse-get :
    (key : Text) (token tty : Option Text)
    → parse_parts (
        bytes "GET"
        ∷ (field_part (bytes "key") key
            ∷ (parts_of (bytes "token") token ++ parts_of (bytes "tty") tty)))
      ≡ ok (get key token tty)
unfolding parse_parts read_fields field parse_op split_once Bytes-discrete ℕ_discrete
parse-get key none none = refl
parse-get key (some token) none = refl
parse-get key none (some tty) = refl
parse-get key (some token) (some tty) = refl

parse-request_grant :
    (key : Text) (token tty : Option Text)
    → parse_parts (
        bytes "REQUEST"
        ∷ (field_part (bytes "key") key
            ∷ (parts_of (bytes "token") token ++ parts_of (bytes "tty") tty)))
      ≡ ok (request_grant key token tty)
unfolding parse_parts read_fields field parse_op split_once Bytes-discrete ℕ_discrete
parse-request_grant key none none = refl
parse-request_grant key (some token) none = refl
parse-request_grant key none (some tty) = refl
parse-request_grant key (some token) (some tty) = refl

-- What a request that is written is like.
Written : Text → Text → Type 0
Written request sent =
    (sent ≡ request ++ newline)
    × (not (request == []) ≡ true)
    × (leb (length request) max_frame_bytes ≡ true)
    × (all is_ascii request ≡ true)
    × (any ends_frame request ≡ false)

write_request_ok : (request sent : Text) → write_request request ≡ some sent → Written request sent
unfolding write_request Written
write_request_ok request sent h = ground arith

not_ending :
    (request : Text) → any ends_frame request ≡ false → all (λ c. not (c == 10)) request ≡ true
not_ending [] h = refl
not_ending (c ∷ cs) h = ground (arith, not_ending cs)

parse_request-Written :
    (request sent : Text)
    → Written request sent
    → parse_request request ≡ parse_parts (split 9 request)
unfolding parse_request Written
parse_request-Written request sent w = ground (arith, is_utf8-ascii request w.3, w.1, w.2)

frame_request-Written :
    (request sent : Text) (parsed : Request)
    → Written request sent
    → parse_parts (split 9 request) ≡ ok parsed
    → frame_request (request ++ newline) ≡ some parsed
unfolding frame_request Written
frame_request-Written request sent parsed w h =
    let read = parse_request-Written request sent w ∙ h in
    rw (frame_request, strip_suffix-line request) (ground (arith, w.2))

read_frame-Written :
    (pieces : List Text) (request sent : Text)
    → Written request sent
    → all is_piece pieces ≡ true
    → joined pieces ≡ sent
    → read_frame [] (map bytes_read pieces) ≡ complete (request ++ newline)
unfolding Written
read_frame-Written pieces request sent w h same =
    read_frame-line pieces [] request [] h
      (ap (split_once 10) (same ∙ w.0) ∙ split_once-append 10 request [] (not_ending request w.4))
      (ground arith)

module _ (dispatch : State → Request → PeerIdentity → State × Option Decision) where
  handle-Written :
      (state : State) (uid : ℕ) (caller : PeerIdentity) (pieces : List Text) (request sent : Text)
      (parsed : Request)
      → write_request request ≡ some sent
      → parse_parts (split 9 request) ≡ ok parsed
      → all is_piece pieces ≡ true
      → joined pieces ≡ sent
      → handle dispatch state uid uid (some caller) (map bytes_read pieces)
        ≡ answered (dispatch state parsed caller)
  unfolding handle handle_read handle_frame peer_uid_is_authorized
  handle-Written state uid caller pieces request sent parsed h e hp same =
      let w = write_request_ok request sent h in
      rw (handle, ==_refl uid, read_frame-Written pieces request sent w hp same)
        (rw (handle_frame, frame_request-Written request sent parsed w e))

  -- A GET that the client writes, with no tab in its key, token and terminal, is handled as the
  -- request for that key with that token and terminal, however the socket cuts it into pieces.
  pub handle-get_frame :
      (state : State) (uid : ℕ) (caller : PeerIdentity) (pieces : List Text) (key : Text)
      (token tty : Option Text) (sent : Text)
      → write_request (get_frame key token tty) ≡ some sent
      → without_tab key ≡ true
      → no_tab token ≡ true
      → no_tab tty ≡ true
      → all is_piece pieces ≡ true
      → joined pieces ≡ sent
      → handle dispatch state uid uid (some caller) (map bytes_read pieces)
        ≡ answered (dispatch state (get key token tty) caller)
  unfolding ℕ_discrete
  handle-get_frame state uid caller pieces key token tty sent h hk ht hy =
      handle-Written state uid caller pieces (get_frame key token tty) sent (get key token tty) h (
        ap parse_parts (split-scoped_frame (bytes "GET") key token tty refl hk ht hy)
        ∙ parse-get key token tty)

  pub handle-request_grant_frame :
      (state : State) (uid : ℕ) (caller : PeerIdentity) (pieces : List Text) (key : Text)
      (token tty : Option Text) (sent : Text)
      → write_request (request_grant_frame key token tty) ≡ some sent
      → without_tab key ≡ true
      → no_tab token ≡ true
      → no_tab tty ≡ true
      → all is_piece pieces ≡ true
      → joined pieces ≡ sent
      → handle dispatch state uid uid (some caller) (map bytes_read pieces)
        ≡ answered (dispatch state (request_grant key token tty) caller)
  unfolding ℕ_discrete
  handle-request_grant_frame state uid caller pieces key token tty sent h hk ht hy =
      handle-Written state uid caller pieces (request_grant_frame key token tty) sent
        (request_grant key token tty) h
        (ap parse_parts (split-scoped_frame (bytes "REQUEST") key token tty refl hk ht hy)
          ∙ parse-request_grant key token tty)
