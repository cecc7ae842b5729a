-- ===== src/Client/Seal/Piped.antt =====
-- What is sealed from the standard input, and that the daemon reads it back.
use mathlib.Core.List.{append_assoc}
use secretsd.Base.{
  ℕ, ◌≡◌, ◌≢◌, ◌≤◌, length, refl, sym, ap, ◌∙◌, ◌⊎◌, inl, inr, Bool, true, false, not, ◌&&◌, ◌||◌,
  List, [], ◌∷◌, ◌++◌, Option, none, some, Text, ◌==◌, ℕ_eq, Bytes_eq, if◌then◌else◌, all, any,
  strip_suffix, split, split_once, split-append, split_once-append, all_mono, all-append_both,
  arith, Bool-cases, is_some,
}
use secretsd.Proto.ErrCode.{Result, internal}
use secretsd.Names.SecretName.{SecretName, is_name_byte}
use secretsd.Names.Assignment.{parse_single_assignment}
use secretsd.Names.Assignment.Line.{parse_single_assignment-line}
use secretsd.Names.Laws.{SecretName-parse_ok, starts_name}
use secretsd.Hardening.{HardeningError}
use secretsd.Client.Error.{Outcome-cases, ok}
use secretsd.Client.Seal.{
  trimmed, is_line_break, line_of, read_piped_assignment, piped_line, checked_line, SopsEncrypt,
  Target, max_sops_ciphertext_bytes, encrypt_bytes, conclude_encrypt, drain_sops_stdout, install,
  write_piped_human,
}

-- A text without carriage returns keeps its end.
strip_suffix-unbroken :
    (value : Text) → any is_line_break value ≡ false → strip_suffix (13 ∷ []) value ≡ none
unfolding strip_suffix
strip_suffix-unbroken [] h = ground arith
strip_suffix-unbroken (c ∷ cs) h = ground (arith, strip_suffix-unbroken cs)

unbroken_line :
    (value : Text) → any is_line_break value ≡ false → all (λ c. not (c == 10)) value ≡ true
unbroken_line [] h = ground arith
unbroken_line (c ∷ cs) h = ground (arith, unbroken_line cs)

name_byte_line : (c : ℕ) → is_name_byte c ≡ true → not (c == 10) ≡ true
name_byte_line c h = ground arith

name_byte_separator : (c : ℕ) → is_name_byte c ≡ true → not (c == 61) ≡ true
name_byte_separator c h = ground arith

strip_suffix-assigned :
    (name value : Text)
    → all is_name_byte name ≡ true
    → any is_line_break value ≡ false
    → strip_suffix (13 ∷ []) (name ++ 61 ∷ value) ≡ none
unfolding strip_suffix
strip_suffix-assigned [] value n h = ground (arith, strip_suffix-unbroken value)
strip_suffix-assigned (c ∷ cs) value n h = ground (arith, strip_suffix-assigned cs value)

-- The two parts of the sealed text: the assignment and the empty text behind its line break.
split-line_of :
    (name : SecretName) (value : Text)
    → all is_name_byte name.as_str ≡ true
    → any is_line_break value ≡ false
    → split 10 (line_of name value) ≡ (name.as_str ++ 61 ∷ value) ∷ [] ∷ []
unfolding split secretsd.Base.ℕ_discrete
split-line_of name value n h =
    ap (split 10) (sym (append_assoc name.as_str (61 ∷ value) (10 ∷ [])))
    ∙ split-append 10 (name.as_str ++ 61 ∷ value) [] (
        all-append_both (λ c. not (c == 10)) name.as_str (61 ∷ value)
          (all_mono is_name_byte (λ c. not (c == 10)) name.as_str name_byte_line n)
          (unbroken_line value h))

named_first :
    (name value : Text)
    → starts_name name ≡ true
    → (c : ℕ) × (cs : Text) × ((name ++ 61 ∷ value) ≡ c ∷ cs) × ((c == 35) ≡ false)
named_first [] value s = absurd (ground arith)
named_first (c ∷ cs) value s = (c, cs ++ 61 ∷ value, refl, ground arith)

parse_single_assignment-line_of :
    (name : SecretName) (value : Text)
    → starts_name name.as_str ≡ true
    → all is_name_byte name.as_str ≡ true
    → any is_line_break value ≡ false
    → parse_single_assignment (line_of name value) name
      ≡ (if any (λ byte. byte == 0) value then Result.err internal else Result.ok value)
parse_single_assignment-line_of name value s n h =
    let (c, cs, shape, plain) = named_first name.as_str value s in
    parse_single_assignment-line (line_of name value) (name.as_str ++ 61 ∷ value) value name c cs
      (split-line_of name value n h) shape plain (strip_suffix-assigned name.as_str value n h)
      (split_once-append 61 name.as_str value
        (all_mono is_name_byte (λ c. not (c == 61)) name.as_str name_byte_separator n))

piped_line_ok :
    (raw value line : Text) (name : SecretName)
    → secretsd.Names.SecretName.parse raw ≡ Result.ok name
    → piped_line name value ≡ ok line
    → (line ≡ line_of name value) × (parse_single_assignment line name ≡ Result.ok value)
unfolding piped_line checked_line
piped_line_ok raw value line name known h =
    let (same, nonempty, short, first, every) = SecretName-parse_ok raw name known in
    elim (Bool-cases (any is_line_break value)) [
      | inl broken ↦ absurd (ground arith)
      | inr unbroken ↦
          let parsed =
            parse_single_assignment-line_of name value (rw same first) (rw same every) unbroken in
          ground arith
    ]

encrypt_bytes_ok :
    (sops : Text → SopsEncrypt) (plaintext : Text) (target : Target) (ciphertext : Text)
    → encrypt_bytes sops plaintext target ≡ ok ciphertext
    → ((sops plaintext).succeeded ≡ true)
      × ((sops plaintext).output ≡ ciphertext)
      × (length ciphertext ≤ max_sops_ciphertext_bytes)
unfolding encrypt_bytes conclude_encrypt drain_sops_stdout install
encrypt_bytes_ok sops plaintext target ciphertext h = ground arith

-- Where `write_piped_human` succeeds for a name that `SecretName::parse` accepts, core dumps were
-- disabled, and the target holds what a successful run of sops, of at most a mebibyte, made of one
-- line, from which `parse_single_assignment` reads back the input without the line break at its end.
pub write_piped_human_ok :
    (no_core_dumps : Option HardeningError) (sops : Text → SopsEncrypt) (raw : Text)
    (name : SecretName) (input : Text) (target : Target) (existed : Bool) (ciphertext : Text)
    → secretsd.Names.SecretName.parse raw ≡ Result.ok name
    → write_piped_human no_core_dumps sops name (some input) target ≡ ok (existed, ciphertext)
    → (no_core_dumps ≡ none)
      × ((sops (line_of name (trimmed input))).succeeded ≡ true)
      × ((sops (line_of name (trimmed input))).output ≡ ciphertext)
      × (length ciphertext ≤ max_sops_ciphertext_bytes)
      × (parse_single_assignment (line_of name (trimmed input)) name ≡ Result.ok (trimmed input))
unfolding write_piped_human read_piped_assignment
write_piped_human_ok (some error) sops raw name input target existed ciphertext known h =
    absurd (ground arith)
write_piped_human_ok none sops raw name input target existed ciphertext known h =
    elim (Outcome-cases (piped_line name (trimmed input))) [
      | inr (error, refused) ↦ absurd (ground arith)
      | inl (line, sealed) ↦
          let (same, parsed) = piped_line_ok raw (trimmed input) line name known sealed in
          elim (Outcome-cases (encrypt_bytes sops line target)) [
            | inr (error, refused) ↦ absurd (ground arith)
            | inl (written, done) ↦
                let (success, made, small) = encrypt_bytes_ok sops line target written done in
                let kept : written ≡ ciphertext = ground arith in
                (refl, ground arith, ground arith, ground arith, ground arith)
          ]
    ]
