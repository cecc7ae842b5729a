-- ===== src/Proto/Request.antt =====
-- Request lines: `Request` and `parse_request` of src/proto.rs. `Zeroizing` is left out.
use secretsd.Base.{
  ℕ, not, ◌||◌, List, [], ◌∷◌, ◌++◌, Option, none, some, Text, bytes, ◌==◌, Bytes_eq, ltb,
  if◌then◌else◌, ℤ, find, length, is_some, split, split_once, from_str_radix, parse_i32, u32_max,
  u64_max, is_utf8,
}
use secretsd.Proto.ErrCode.{Result, ok, err, ok_or, reject_if, ◌>>=◌, ◌>>◌, bad_request, unknown_op}

-- `get`, `request_grant` and `authorize` carry the key or capability, the token and the terminal;
-- `redeem` the receipt and the capability; `register` the token, the session and the process.
pub data Request : Type 0 where
  hello : ℕ → Request
  register : Text → Text → ℤ → Request
  unregister : Text → Request
  get request_grant authorize : Text → Option Text → Option Text → Request
  redeem : Text → Text → Request
  grants : Request
  deny : ℕ → Request
  lock : Request

abbrev pub max_frame_bytes : ℕ
max_frame_bytes = 4096

abbrev pub protocol_version : ℕ
protocol_version = 3

unfoldable pub field : List (Text × Text) → Text → Option Text
field fields name = elim (find (λ entry. entry.0 == name) fields) [
  | none ↦ none
  | some entry ↦ some entry.1
]

abbrev pub required : List (Text × Text) → Text → Result Text
required fields name = ok_or (field fields name) bad_request

-- The loop over the parts behind the operation.
unfoldable pub read_fields : List (Text × Text) → List Text → Result (List (Text × Text))
unfolding field
read_fields fields [] = ok fields
read_fields fields (part ∷ parts) = elim (split_once b'=' part) [
  | none ↦ err bad_request
  | some (key, value) ↦
      let rest = read_fields (fields ++ (key, value) ∷ []) parts in
      if is_some (field fields key) then err bad_request else rest
]

abbrev parse_hello : List (Text × Text) → Result Request
parse_hello fields = do
  version ← required fields (bytes "version")
  number ← ok_or (from_str_radix 10 u32_max version) bad_request
  ok (hello number)

abbrev parse_register : List (Text × Text) → Result Request
parse_register fields = do
  token_hex ← required fields (bytes "token")
  session ← required fields (bytes "session")
  pid ← required fields (bytes "pid")
  number ← ok_or (parse_i32 pid) bad_request
  ok (register token_hex session number)

abbrev parse_redeem : List (Text × Text) → Result Request
parse_redeem fields = do
  receipt_hex ← required fields (bytes "receipt")
  cap ← required fields (bytes "cap")
  ok (redeem receipt_hex cap)

abbrev parse_deny : List (Text × Text) → Result Request
parse_deny fields = do
  id ← required fields (bytes "id")
  number ← ok_or (from_str_radix 10 u64_max id) bad_request
  ok (deny number)

-- A request for `subject`, with the token and the terminal that the line names.
abbrev parse_scoped :
    (Text → Option Text → Option Text → Request) → Text → List (Text × Text) → Result Request
parse_scoped request subject fields = do
  name ← required fields subject
  ok (request name (field fields (bytes "token")) (field fields (bytes "tty")))

unfoldable pub parse_op : Text → List (Text × Text) → Result Request
unfolding field
parse_op op fields =
    if op == bytes "HELLO"
    then parse_hello fields
    else if op == bytes "REGISTER"
    then parse_register fields
    else if op == bytes "UNREGISTER"
    then (do session ← required fields (bytes "session"); ok (unregister session))
    else if op == bytes "GET"
    then parse_scoped get (bytes "key") fields
    else if op == bytes "REQUEST"
    then parse_scoped request_grant (bytes "key") fields
    else if op == bytes "AUTHORIZE"
    then parse_scoped authorize (bytes "cap") fields
    else if op == bytes "REDEEM"
    then parse_redeem fields
    else if op == bytes "GRANTS"
    then ok grants
    else if op == bytes "DENY"
    then parse_deny fields
    else if op == bytes "LOCK"
    then ok lock
    else err unknown_op

unfoldable pub parse_parts : List Text → Result Request
unfolding read_fields parse_op
parse_parts [] = err bad_request
parse_parts (op ∷ parts) = do fields ← read_fields [] parts; parse_op op fields

unfoldable pub parse_request : Text → Result Request
unfolding parse_parts
parse_request line = do
  reject_if (line == [] || ltb max_frame_bytes (length line)) bad_request
  reject_if (not (is_utf8 line)) bad_request
  parse_parts (split b'\t' line)
