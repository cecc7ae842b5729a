-- ===== src/Decrypt/Failure.antt =====
-- How a failed decrypt is classified: `classify_sops_stderr` and `failure_code` of src/decrypt.rs.
use secretsd.Base.{
  ℕ, ◌+◌, Bool, ◌||◌, List, [], ◌∷◌, map, none, some, Text, bytes, ◌==◌, Bytes_eq, if◌then◌else◌,
  any, find, starts_with, is_ascii_uppercase,
}
use secretsd.Proto.ErrCode.{ErrCode, yubikey_unreachable, timeout, internal}

abbrev pub to_ascii_lowercase : ℕ → ℕ
to_ascii_lowercase c = if is_ascii_uppercase c then c + 32 else c

-- The needle is not empty.
unfoldable pub contains_subslice : Text → Text → Bool
contains_subslice [] needle = starts_with needle []
contains_subslice (c ∷ cs) needle = starts_with needle (c ∷ cs) || contains_subslice cs needle

-- What is looked for in the output of sops, and the label of each.
abbrev pub sops_stderr_signatures : List (Text × Text)
sops_stderr_signatures =
    (bytes "failed to decrypt yubikey stanza", bytes "yubikey-stanza-undecryptable")
    ∷ ((bytes "yubikey plugin", bytes "yubikey-plugin-error")
        ∷ ((bytes "pc/sc error", bytes "pcsc-communication-error")
            ∷ ((bytes "no identity matched", bytes "no-matching-identity")
                ∷ ((bytes "sops metadata not found", bytes "missing-sops-metadata")
                    ∷ ((bytes "no such file or directory", bytes "input-unreadable")
                        ∷ ((bytes "permission denied", bytes "input-permission-denied")
                            ∷ ((bytes "failed to get the data key", bytes "data-key-unavailable")
                                ∷ [])))))))

unfoldable pub classify_sops_stderr : Text → Text
unfolding contains_subslice
classify_sops_stderr stderr =
    let lowered = map to_ascii_lowercase stderr in
    elim (find (λ signature. contains_subslice lowered signature.0) sops_stderr_signatures) [
      | none ↦ bytes "unclassified"
      | some signature ↦ signature.1
    ]

abbrev pub unreachable_failure_labels : List Text
unreachable_failure_labels = bytes "yubikey-plugin-error" ∷ (bytes "pcsc-communication-error" ∷ [])

abbrev pub untouched_failure_labels : List Text
untouched_failure_labels = bytes "yubikey-stanza-undecryptable" ∷ []

unfoldable pub failure_code : Text → ErrCode
failure_code label =
    if any (λ known. known == label) unreachable_failure_labels
    then yubikey_unreachable
    else if any (λ known. known == label) untouched_failure_labels
    then timeout
    else internal
