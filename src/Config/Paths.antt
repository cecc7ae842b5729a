-- ===== src/Config/Paths.antt =====
-- Paths as far as src/config.rs uses them: `is_absolute`, `join` and `components` of `std::path`,
-- the names of source roots, and `resolve_path`.
use secretsd.Base.{
  ℕ, Bool, false, not, ◌&&◌, ◌||◌, List, [], ◌∷◌, ◌++◌, Option, none, some, Text, bytes, ◌==◌, ℕ_eq,
  Bytes_eq, if◌then◌else◌, all, any, retain, is_ascii_lowercase, is_ascii_digit, starts_with,
  strip_prefix, strip_suffix, is_some, split,
}

abbrev pub is_absolute : Text → Bool
is_absolute path = starts_with (bytes "/") path

abbrev is_component : Text → Bool
is_component part = not (part == [] || part == bytes ".")

-- The components of an absolute path behind its root.
unfoldable pub components : Text → List Text
components path = retain is_component (split b'/' path)

-- `join` of a path that is not absolute.
unfoldable pub join : Text → Text → Text
join directory path =
    if is_some (strip_suffix (bytes "/") directory)
    then directory ++ path
    else directory ++ b'/' ∷ path

abbrev pub is_root_name_byte : ℕ → Bool
is_root_name_byte c = is_ascii_lowercase c || (is_ascii_digit c || c == b'-')

unfoldable pub is_root_name : Text → Bool
is_root_name [] = false
is_root_name (first ∷ characters) = is_ascii_lowercase first && all is_root_name_byte characters

-- `trim_start_matches('/')`
unfoldable pub trim_slashes : Text → Text
trim_slashes [] = []
trim_slashes (c ∷ cs) = let rest = trim_slashes cs in if c == b'/' then rest else c ∷ cs

unfoldable pub expand : Text → Text → Text
unfolding trim_slashes join
expand raw home = if raw == bytes "~" then home else elim (strip_prefix (bytes "~/") raw) [
  | none ↦ raw
  | some path ↦ join home (trim_slashes path)
]

-- Absolute, and with no `..` among its components.
abbrev pub is_plain_path : Text → Bool
is_plain_path path = is_absolute path && not (any (λ part. part == bytes "..") (components path))

-- None stands for `RelativePath`.
unfoldable pub resolve_path : Text → Text → Option Text
unfolding expand
resolve_path raw home = let path = expand raw home in if is_plain_path path then some path else none
