-- ===== src/Decrypt/Child.antt =====
-- Waiting for a child process: `responds`, `is_reachable` and the loop of
-- `decrypt_opened_with_start` in src/decrypt.rs. The child is a list of what each round of the loop
-- finds.
use secretsd.Base.{
  ℕ, Bool, true, false, ◌&&◌, List, [], ◌∷◌, Option, none, some, Text, bytes, leb, if◌then◌else◌,
}
use secretsd.Proto.ErrCode.{Result, err, internal}
use secretsd.Names.SecretName.{SecretName}
use secretsd.Names.Assignment.{parse_single_assignment}
use secretsd.Decrypt.Failure.{classify_sops_stderr, failure_code}

-- What reading a pipe of the child after its exit comes to: the bytes up to its end (or up to the
-- limit on error output), an error, or nothing, as long as another process holds the other end open.
-- The source sets no deadline for these reads.
pub data Pipe : Type 0 where
  drained : Text → Pipe
  unreadable held : Pipe

-- The child has exited, with success or not, with its error output and its output; or it runs, at
-- what the clock reads; or its state cannot be asked for.
pub data Round : Type 0 where
  exited : Bool → Pipe → Pipe → Round
  running : ℕ → Round
  unknown : Round

-- What the wait comes to: it goes on, the group of the child was killed, or it has ended.
pub data Wait {ℓ} (A : Type ℓ) : Type ℓ where
  runs killed : Wait A
  ended : A → Wait A

unfoldable pub responds : ℕ → List Round → Wait Bool
responds deadline [] = runs
responds deadline (exited success stderr stdout ∷ rounds) = ended success
responds deadline (running now ∷ rounds) =
    let rest = responds deadline rounds in if leb deadline now then killed else rest
responds deadline (unknown ∷ rounds) = killed

abbrev pub responded : Wait Bool → Bool
responded (ended success) = success
responded _ = false

-- A socket that is there or not, and a probe that responds or not.
unfoldable pub is_reachable : Option Bool → Option (Wait Bool) → Bool
is_reachable none probe = true
is_reachable (some exists) none = exists
is_reachable (some exists) (some probe) = exists && responded probe

-- The error output has been classified.
unfoldable pub read_output : SecretName → Bool → Text → Pipe → Wait (Result Text)
read_output key false label stdout = ended (err (failure_code label))
read_output key true label (drained output) = ended (parse_single_assignment output key)
read_output key true label unreadable = ended (err internal)
read_output key true label held = runs

unfoldable pub exit_result : SecretName → Bool → Pipe → Pipe → Wait (Result Text)
unfolding read_output
exit_result key success (drained stderr) stdout =
    read_output key success (classify_sops_stderr stderr) stdout
exit_result key success unreadable stdout =
    read_output key success (bytes "stderr-unreadable") stdout
exit_result key success held stdout = runs

unfoldable pub wait_child : SecretName → ℕ → List Round → Wait (Result Text)
unfolding exit_result
wait_child key deadline [] = runs
wait_child key deadline (exited success stderr stdout ∷ rounds) =
    exit_result key success stderr stdout
wait_child key deadline (running now ∷ rounds) =
    let rest = wait_child key deadline rounds in if leb deadline now then killed else rest
wait_child key deadline (unknown ∷ rounds) = ended (err internal)
