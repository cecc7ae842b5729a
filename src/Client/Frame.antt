-- ===== src/Client/Frame.antt =====
-- What the client sends: `scoped_frame` of src/client/human.rs, `write_request` and the check of the
-- version in `hello` of src/client.rs.
use secretsd.Base.{
  ℕ, Bool, false, not, ◌&&◌, ◌||◌, [], ◌∷◌, ◌++◌, Option, none, some, Text, bytes, ◌==◌, ℕ_eq,
  Bytes_eq, leb, if◌then◌else◌, any, all, length, split, strip_prefix, decimal,
}
use secretsd.Proto.Request.{max_frame_bytes, protocol_version}

abbrev pub push_field : Text → Option Text → Text
push_field name none = []
push_field name (some value) = 9 ∷ (name ++ b'=' ∷ value)

-- The frame of an operation on a key, with the scope that the caller has.
unfoldable pub scoped_frame : Text → Text → Option Text → Option Text → Text
scoped_frame operation key token tty =
    operation
    ++ (push_field (bytes "key") (some key)
        ++ (push_field (bytes "token") token ++ push_field (bytes "tty") tty))

-- What `HumanClient::get` and `HumanClient::request_grant` send.
abbrev pub get_frame : Text → Option Text → Option Text → Text
get_frame = scoped_frame (bytes "GET")

abbrev pub request_grant_frame : Text → Option Text → Option Text → Text
request_grant_frame = scoped_frame (bytes "REQUEST")

abbrev pub is_ascii : ℕ → Bool
is_ascii c = leb c 127

abbrev pub ends_frame : ℕ → Bool
ends_frame c = c == 10 || (c == 13 || c == 0)

-- The bytes that are written, or none where the request is invalid.
unfoldable pub write_request : Text → Option Text
write_request request =
    if not (request == [])
      && (leb (length request) max_frame_bytes
          && (all is_ascii request && not (any ends_frame request)))
    then some (request ++ 10 ∷ [])
    else none

unfoldable pub hello_frame : Text
hello_frame = bytes "HELLO" ++ push_field (bytes "version") (some (decimal protocol_version))

-- `field.strip_prefix("version=") == Some(version)`
abbrev pub names_version : Text → Text → Bool
names_version version field = elim (strip_prefix (bytes "version=") field) [
  | none ↦ false
  | some value ↦ value == version
]

-- Whether the fields of the answer to `hello_frame` confirm the version.
unfoldable pub confirms_version : Text → Bool
confirms_version fields = any (names_version (decimal protocol_version)) (split 32 fields)
