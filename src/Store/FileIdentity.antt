-- ===== src/Store/FileIdentity.antt =====
-- What `fstat` says of a ciphertext file: `FileTimestamp` and `FileIdentity` of src/store.rs.
use secretsd.Base.{ℕ, ℤ, ℕ_discrete, Eq}

pub record FileTimestamp : Type 0 where
  pub seconds : ℤ
  pub nanoseconds : ℤ

pub record FileIdentity : Type 0 where
  pub device : ℕ
  pub inode : ℕ
  pub size : ℤ
  pub modified : FileTimestamp
  pub changed : FileTimestamp

unfoldable pub FileIdentity-discrete : Discrete FileIdentity
FileIdentity-discrete = hlevel ℕ_discrete

instance abbrev pub FileIdentity_eq : Eq FileIdentity
FileIdentity_eq = record { dec = FileIdentity-discrete }
