-- ===== src/Client/Error.antt =====
-- `CliError` of src/client/error.rs, without its texts and the errors of the operating system that it
-- carries.
use secretsd.Base.{ℕ, Text, ◌≡◌, refl, ◌⊎◌, inl, inr}
use secretsd.Proto.ErrCode.{ErrCode}
use secretsd.Names.SecretName.{SecretName}
use secretsd.Config.Sources.{ConfigError}
use secretsd.Hardening.{HardeningError}
use secretsd.Client.Response.{ClientError}

pub data CliError : Type 0 where
  usage invalid_secret_name sops_start sops_failed invalid_dotenv agent_key_set : CliError
  human_directory invalid_human_file edit_temp editor_start editor_exited : CliError
  install_edited_secret piped_human_read exec stdout : CliError
  config : ConfigError → CliError
  missing_secret ambiguous_key : SecretName → CliError
  duplicate_human_key : SecretName → Text → Text → CliError
  edit_source_required : Text → CliError
  unknown_edit_source : Text → Text → CliError
  edit_conflict : SecretName → Text → CliError
  invalid_edited_human_secret empty_edited_human_secret : SecretName → CliError
  empty_piped_human_secret invalid_piped_human_secret : SecretName → CliError
  encrypt_edited_secret : Text → CliError
  sops_ciphertext_too_large : ℕ → CliError
  hardening : HardeningError → CliError
  broker : ErrCode → CliError
  broker_transport : ClientError → CliError

unfoldable pub from_client : ClientError → CliError
from_client (ClientError.broker code) = broker code
from_client error = broker_transport error

-- `Result<A, CliError>`
pub data Outcome {ℓ} (A : Type ℓ) : Type ℓ where
  ok : A → Outcome A
  err : CliError → Outcome A

infixl 5 ◌>>=◌
abbrev pub ◌>>=◌ {ℓ κ} : {A : Type ℓ} {B : Type κ} → Outcome A → (A → Outcome B) → Outcome B
ok value >>= continue = continue value
err error >>= continue = err error

pub Outcome-cases {ℓ} :
    {A : Type ℓ} (outcome : Outcome A)
    → ((a : A) × (outcome ≡ ok a)) ⊎ ((e : CliError) × (outcome ≡ err e))
Outcome-cases (ok a) = inl (a, refl)
Outcome-cases (err e) = inr (e, refl)
