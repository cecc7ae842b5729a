-- ===== src/Peer.antt =====
-- Kernel-derived caller identity: src/peer.rs. What `/proc` holds is a parameter.
use secretsd.Base.{
  ℕ, zero, suc, Bool, true, false, ◌||◌, List, [], ◌∷◌, Option, none, some, Text, bytes, ◌==◌, ℕ_eq,
  Eq, if◌then◌else◌, leb, in_range, ℤ, pos, negsuc, strip_prefix, parse_i32, split, is_some,
  ℕ_discrete,
}

-- A pidfd; clones share the descriptor.
pub record PeerIdentity : Type 0 where
  pub pidfd : ℕ

-- The files of `/proc` that are read: `/proc/self/fdinfo/<fd>` and `/proc/<pid>/status`.
pub record ProcFs : Type 0 where
  pub fdinfo : ℕ → Option Text
  pub status : ℤ → Option Text

unfoldable pub ℤ-discrete : Discrete ℤ
ℤ-discrete = hlevel ℕ_discrete

instance abbrev pub ℤ_eq : Eq ℤ
ℤ_eq = record { dec = ℤ-discrete }

abbrev pub max_ancestry_depth : ℕ
max_ancestry_depth = 64

-- White space that is ASCII. `trim` drops other white space too, which these files do not hold.
unfoldable pub is_space : ℕ → Bool
is_space c = c == 32 || in_range 9 13 c

unfoldable pub trim_start : Text → Text
unfolding is_space
trim_start [] = []
trim_start (c ∷ cs) = let rest = trim_start cs in if is_space c then rest else c ∷ cs

-- Drops the white space at the end.
unfoldable pub trim_end : Text → Text
unfolding is_space
trim_end [] = []
trim_end (c ∷ cs) = elim (trim_end cs) [
  | [] ↦ if is_space c then [] else c ∷ []
  | d ∷ ds ↦ c ∷ d ∷ ds
]

-- `lines().find_map(|line| line.strip_prefix(key))`, over the pieces between newlines.
unfoldable pub find_line : Text → List Text → Option Text
find_line key [] = none
find_line key (line ∷ lines) = elim (strip_prefix key line) [
  | none ↦ find_line key lines
  | some rest ↦ some rest
]

unfoldable pub field : Text → Text → Option ℤ
unfolding find_line trim_start trim_end split strip_prefix parse_i32
field contents key = elim (find_line key (split b'\n' contents)) [
  | none ↦ none
  | some value ↦ parse_i32 (trim_end (trim_start value))
]

unfoldable pub is_positive : ℤ → Bool
is_positive (pos zero) = false
is_positive (pos (suc n)) = true
is_positive (negsuc n) = false

-- `current <= 1`
unfoldable pub at_most_one : ℤ → Bool
at_most_one (pos n) = leb n 1
at_most_one (negsuc n) = true

module _ (proc : ProcFs) where
  unfoldable pub pid : PeerIdentity → Option ℤ
  unfolding field is_positive
  pid peer = elim (proc.fdinfo peer.pidfd) [
    | none ↦ none
    | some info ↦ elim (field info (bytes "Pid:")) [
      | none ↦ none
      | some value ↦ if is_positive value then some value else none
    ]
  ]

  unfoldable pub is_alive : PeerIdentity → Bool
  unfolding pid
  is_alive peer = is_some (pid peer)

  unfoldable pub parent_of : ℤ → Option ℤ
  unfolding field
  parent_of child = elim (proc.status child) [
    | none ↦ none
    | some info ↦ field info (bytes "PPid:")
  ]

  -- The loop of `descends_from` with the rounds that are left.
  unfoldable pub walk : ℕ → ℤ → ℤ → Bool
  unfolding at_most_one
  walk zero current ancestor = false
  walk (suc rounds) current ancestor =
      if current == ancestor
      then true
      else if at_most_one current
      then false
      else elim (parent_of current) [ none ↦ false | some parent ↦ walk rounds parent ancestor ]

  unfoldable pub descends_from : PeerIdentity → PeerIdentity → Bool
  unfolding walk
  descends_from caller root = elim (pid caller) [
    | none ↦ false
    | some current ↦ elim (pid root) [
      | none ↦ false
      | some ancestor ↦ walk max_ancestry_depth current ancestor
    ]
  ]
