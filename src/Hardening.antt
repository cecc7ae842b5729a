-- ===== src/Hardening.antt =====
-- Process hardening: src/hardening.rs, and `memlock_policy` of src/lib.rs. What the system calls
-- return is a parameter.
use secretsd.Base.{
  ℕ, Bool, ◌&&◌, ◌||◌, Option, none, some, Text, bytes, ◌==◌, ℕ_eq, Bytes_eq, leb, if◌then◌else◌,
  u64_max,
}

pub data MemlockPolicy : Type 0 where
  require optional : MemlockPolicy

pub data HardeningError : Type 0 where
  memlock_limit memlock dumpable core_limit : HardeningError
  insufficient_memlock : ℕ → ℕ → HardeningError

-- `Result<(), HardeningError>`
pub data Applied : Type 0 where
  applied : Applied
  failed : HardeningError → Applied

abbrev pub min_memlock_bytes : ℕ
min_memlock_bytes = 536870912

-- `RLIM_INFINITY`
abbrev pub rlim_infinity : ℕ
rlim_infinity = u64_max

unfoldable pub validate_memlock_limits : ℕ → ℕ → Applied
validate_memlock_limits soft hard =
    if (soft == rlim_infinity || leb min_memlock_bytes soft)
      && (hard == rlim_infinity || leb min_memlock_bytes hard)
    then applied
    else failed (insufficient_memlock soft hard)

-- Whether `prctl` and `setrlimit` succeed, the soft and the hard limit that `getrlimit` gives, and
-- whether `mlockall` succeeds.
pub record SystemCalls : Type 0 where
  pub set_dumpable : Bool
  pub set_core_limit : Bool
  pub memlock_limits : Option (ℕ × ℕ)
  pub lock_all : Bool

unfoldable pub validate_memlock_limit : SystemCalls → Applied
unfolding validate_memlock_limits
validate_memlock_limit system = elim system.memlock_limits [
  | none ↦ failed memlock_limit
  | some (soft, hard) ↦ validate_memlock_limits soft hard
]

unfoldable pub apply_no_core_dumps : SystemCalls → Applied
apply_no_core_dumps system =
    if system.set_dumpable
    then if system.set_core_limit then applied else failed core_limit
    else failed dumpable

abbrev pub tolerated : MemlockPolicy → HardeningError → Applied
tolerated require error = failed error
tolerated optional error = applied

unfoldable pub apply : MemlockPolicy → SystemCalls → Applied
unfolding apply_no_core_dumps validate_memlock_limit
apply policy system = elim (apply_no_core_dumps system) [
  | failed error ↦ failed error
  | applied ↦ elim (validate_memlock_limit system) [
    | failed error ↦ tolerated policy error
    | applied ↦ if system.lock_all then applied else tolerated policy memlock
  ]
]

-- The policy that the environment names; none where it names no policy. The variable is absent, no
-- text, or a text.
pub data Variable : Type 0 where
  absent foreign : Variable
  text : Text → Variable

unfoldable pub memlock_policy : Variable → Option MemlockPolicy
memlock_policy absent = some require
memlock_policy foreign = none
memlock_policy (text value) =
    if value == bytes "require"
    then some require
    else if value == bytes "optional"
    then some optional
    else none
