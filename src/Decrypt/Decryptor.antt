-- ===== src/Decrypt/Decryptor.antt =====
-- One decrypt: `decrypt_opened_with_start` of src/decrypt.rs.
use secretsd.Base.{
  ◌++◌, ℕ, ◌+◌, ◌≡◌, refl, ap, inl, inr, Bool, true, false, ◌&&◌, List, [], ◌∷◌, Option, none, some,
  Text, ltb, leb, any, all, not, ◌||◌, is_some, if◌then◌else◌, ℤ, arith, Bool-cases,
}
use secretsd.Proto.ErrCode.{Result, ok, err, Result-cases, yubikey_unreachable, internal, timeout}
use secretsd.Names.SecretName.{SecretName}
use secretsd.Names.Assignment.{parse_single_assignment}
use secretsd.Store.HumanStore.{FileSystem, HumanSource, OpenedHumanFile, open_file}
use secretsd.Server.Approval.{instant_max}
use secretsd.Server.Worker.{Decrypted}
use secretsd.Decrypt.Child.{
  Round, Pipe, drained, unreadable, held, read_output, running, exited, unknown, Wait, runs, killed,
  ended, exit_result, wait_child,
}

unfoldable pub with_file : OpenedHumanFile → Result Text → Result Decrypted
with_file file (err error) = err error
with_file file (ok secret) =
    ok
      (record { value = secret; origin = record { source = file.label; identity = file.identity } })

-- A wait that has ended; none while it goes on.
unfoldable pub conclude_wait : OpenedHumanFile → Wait (Result Text) → Option (Result Decrypted)
unfolding with_file
conclude_wait file runs = none
conclude_wait file killed = some (err timeout)
conclude_wait file (ended result) = some (with_file file result)

-- What the operating system does: whether the descriptor is duplicated, the process group of the
-- child if it is spawned, what the clock reads then, and what the rounds of the wait find.
pub record Attempt : Type 0 where
  pub duplicated : Bool
  pub spawned : Option ℤ
  pub started : ℕ
  pub rounds : List Round

unfoldable pub run_sops : SecretName → ℕ → OpenedHumanFile → Attempt → Option (Result Decrypted)
unfolding conclude_wait wait_child
run_sops key limit file attempt =
    if attempt.duplicated && is_some attempt.spawned
    then if ltb instant_max (attempt.started + limit)
      then some (err internal)
      else conclude_wait file (wait_child key (attempt.started + limit) attempt.rounds)
    else some (err internal)

module _ (fs : FileSystem) where
  unfoldable pub decrypt_opened :
      List HumanSource → SecretName → ℕ → Bool → Attempt → Option (Result Decrypted)
  unfolding run_sops
  decrypt_opened sources key limit reachable attempt =
      if reachable
      then elim (open_file fs sources key) [
        | err error ↦ some (err error)
        | ok file ↦ run_sops key limit file attempt
      ]
      else some (err yubikey_unreachable)

abbrev past : ℕ → Round → Bool
past deadline (running now) = leb deadline now
past deadline (exited success stderr stdout) = true
past deadline unknown = true

abbrev is_over {ℓ} : {A : Type ℓ} → Wait A → Bool
is_over runs = false
is_over _ = true

abbrev is_held : Pipe → Bool
is_held held = true
is_held _ = false

-- Where the child has exited, no other process holds open a pipe that is read then: the error output,
-- and the output if the child has succeeded.
abbrev pub releases : Round → Bool
releases (exited success stderr stdout) =
    not (is_held stderr) && (not success || not (is_held stdout))
releases _ = true

exit_result_ends :
    (key : SecretName) (success : Bool) (stderr stdout : Pipe)
    → releases (exited success stderr stdout) ≡ true
    → is_over (exit_result key success stderr stdout) ≡ true
unfolding exit_result read_output
exit_result_ends key success held stdout h = absurd (ground arith)
exit_result_ends key false (drained text) stdout h = refl
exit_result_ends key false unreadable stdout h = refl
exit_result_ends key true (drained text) (drained output) h = refl
exit_result_ends key true (drained text) unreadable h = refl
exit_result_ends key true (drained text) held h = absurd (ground arith)
exit_result_ends key true unreadable (drained output) h = refl
exit_result_ends key true unreadable unreadable h = refl
exit_result_ends key true unreadable held h = absurd (ground arith)

wait_child_ends :
    (key : SecretName) (deadline : ℕ) (rounds : List Round)
    → any (past deadline) rounds ≡ true
    → all releases rounds ≡ true
    → is_over (wait_child key deadline rounds) ≡ true
unfolding wait_child
wait_child_ends key deadline [] h r = absurd (ground arith)
wait_child_ends key deadline (exited success stderr stdout ∷ rounds) h r =
    exit_result_ends key success stderr stdout (ground arith)
wait_child_ends key deadline (unknown ∷ rounds) h r = refl
wait_child_ends key deadline (running now ∷ rounds) h r =
    ground (arith, wait_child_ends key deadline rounds)

-- A round that found the key's assignment in the output of a child that has succeeded.
pub Yields : SecretName → List Round → List ℕ → Type 0
Yields key rounds secret =
    (stderr : Pipe) × (stdout : Text) × (before : List Round) × (after : List Round) × (rounds
      ≡ before ++ exited true stderr (drained stdout) ∷ after)
    × (parse_single_assignment stdout key ≡ ok secret)

read_output_ok :
    (key : SecretName) (success : Bool) (label : Text) (stdout : Pipe) (secret : Text)
    → read_output key success label stdout ≡ ended (ok secret)
    → (output : Text) × (success ≡ true)
      × (stdout ≡ drained output)
      × (parse_single_assignment output key ≡ ok secret)
unfolding read_output
read_output_ok key false label stdout secret h = absurd (ground arith)
read_output_ok key true label unreadable secret h = absurd (ground arith)
read_output_ok key true label held secret h = absurd (ground arith)
read_output_ok key true label (drained output) secret h = (output, refl, refl, ground arith)

exit_result_ok :
    (key : SecretName) (success : Bool) (stderr stdout : Pipe) (secret : Text)
    → exit_result key success stderr stdout ≡ ended (ok secret)
    → (output : Text) × (success ≡ true)
      × (stdout ≡ drained output)
      × (parse_single_assignment output key ≡ ok secret)
unfolding exit_result
exit_result_ok key success held stdout secret h = absurd (ground arith)
exit_result_ok key success unreadable stdout secret h = read_output_ok key success _ stdout secret h
exit_result_ok key success (drained text) stdout secret h =
    read_output_ok key success _ stdout secret h

wait_child_ok :
    (key : SecretName) (deadline : ℕ) (rounds : List Round) (secret : Text)
    → wait_child key deadline rounds ≡ ended (ok secret)
    → Yields key rounds secret
unfolding wait_child Yields
wait_child_ok key deadline [] secret h = absurd (ground arith)
wait_child_ok key deadline (exited success stderr stdout ∷ rounds) secret h =
    let (output, done, printed, parsed) =
      exit_result_ok key success stderr stdout secret (ground arith) in
    (stderr, output, [], rounds, ground arith, parsed)
wait_child_ok key deadline (unknown ∷ rounds) secret h = absurd (ground arith)
wait_child_ok key deadline (running now ∷ rounds) secret h = elim (Bool-cases (leb deadline now)) [
  | inl late ↦ absurd (ground arith)
  | inr early ↦
      let (stderr, output, before, after, same, parsed) =
        wait_child_ok key deadline rounds secret (ground arith) in
      (stderr, output, running now ∷ before, after, ap (λ rest. running now ∷ rest) same, parsed)
]

Labelled : OpenedHumanFile → Decrypted → Type 0
Labelled file decrypted =
    (decrypted.origin.source ≡ file.label) × (decrypted.origin.identity ≡ file.identity)

conclude_wait_ok :
    (file : OpenedHumanFile) (wait : Wait (Result Text)) (decrypted : Decrypted)
    → conclude_wait file wait ≡ some (ok decrypted)
    → Labelled file decrypted × (wait ≡ ended (ok decrypted.value))
unfolding conclude_wait with_file Labelled
conclude_wait_ok file runs decrypted h = absurd (ground arith)
conclude_wait_ok file killed decrypted h = absurd (ground arith)
conclude_wait_ok file (ended (err error)) decrypted h = absurd (ground arith)
conclude_wait_ok file (ended (ok secret)) decrypted h = ground arith

run_sops_ok :
    (key : SecretName) (limit : ℕ) (file : OpenedHumanFile) (attempt : Attempt)
    (decrypted : Decrypted)
    → run_sops key limit file attempt ≡ some (ok decrypted)
    → Labelled file decrypted × Yields key attempt.rounds decrypted.value
unfolding run_sops
run_sops_ok key limit file attempt decrypted h =
    let deadline = attempt.started + limit in
    let found =
      conclude_wait_ok file (wait_child key deadline attempt.rounds) decrypted (ground arith) in
    (found.0, wait_child_ok key deadline attempt.rounds decrypted.value found.1)

module _ (fs : FileSystem) (sources : List HumanSource) (key : SecretName) (limit : ℕ) where
  -- A decrypt that succeeds had the hardware within reach, and its plaintext is the key's one
  -- assignment in the output of a child that succeeded; it is labelled with the source and the
  -- identity of the file that was opened for it.
  pub decrypt_ok :
      (reachable : Bool) (attempt : Attempt) (decrypted : Decrypted)
      → decrypt_opened fs sources key limit reachable attempt ≡ some (ok decrypted)
      → (reachable ≡ true)
        × ((file : OpenedHumanFile) × (open_file fs sources key ≡ ok file)
            × (decrypted.origin.source ≡ file.label)
            × (decrypted.origin.identity ≡ file.identity)
            × Yields key attempt.rounds decrypted.value)
  unfolding decrypt_opened Labelled
  decrypt_ok reachable attempt decrypted h = elim (Result-cases (open_file fs sources key)) [
    | inr (error, missing) ↦ absurd (ground arith)
    | inl (file, found) ↦
        let run = run_sops_ok key limit file attempt decrypted (ground arith) in
        (ground arith, (file, found, run.0.0, run.0.1, run.1))
  ]

  -- A decrypt ends, with a plaintext or a failure code, once its child has exited, its state is
  -- unknown or the clock has reached the limit, as long as no other process holds open a pipe of a
  -- child that has exited: reading the pipes then has no limit.
  pub decrypt_ends :
      (reachable : Bool) (attempt : Attempt)
      → any (past (attempt.started + limit)) attempt.rounds ≡ true
      → all releases attempt.rounds ≡ true
      → is_some (decrypt_opened fs sources key limit reachable attempt) ≡ true
  unfolding decrypt_opened run_sops conclude_wait
  decrypt_ends reachable attempt h r =
      ground (arith, wait_child_ends key (attempt.started + limit) attempt.rounds h r)
