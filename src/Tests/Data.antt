-- ===== src/Tests/Data.antt =====
-- Test data: a session, a terminal, a few names.
use secretsd.Base.{[], ◌∷◌, bytes}
use secretsd.Names.SecretName.{SecretName}
use secretsd.Names.Capability.{Capability}
use secretsd.Grants.Token.{SessionToken, Scope, session, terminal}
use secretsd.Peer.{PeerIdentity}
use secretsd.Store.FileIdentity.{FileIdentity}
use secretsd.Base.{pos}

abbrev pub api_key : SecretName
api_key = record { as_str = bytes "K" }

abbrev pub other_key : SecretName
other_key = record { as_str = bytes "L" }

abbrev pub deploy : Capability
deploy = record { as_str = bytes "dep" }

abbrev pub token_a : SessionToken
token_a = record { token_bytes = 1 ∷ 2 ∷ [] }

abbrev pub token_b : SessionToken
token_b = record { token_bytes = 1 ∷ 3 ∷ [] }

abbrev pub scope_a : Scope
scope_a = session token_a

abbrev pub scope_b : Scope
scope_b = session token_b

abbrev pub console : Scope
console = terminal (bytes "/t") (bytes "b")

abbrev pub root_process : PeerIdentity
root_process = record { pidfd = 3 }

abbrev pub file_identity : FileIdentity
file_identity = record {
  device = 1;
  inode = 2;
  size = pos 3;
  modified = record { seconds = pos 4; nanoseconds = pos 0 };
  changed = record { seconds = pos 4; nanoseconds = pos 0 };
}
