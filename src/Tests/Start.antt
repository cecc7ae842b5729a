-- ===== src/Tests/Start.antt =====
-- The start of the daemon, one decrypt, the grant table and the audit log.
use secretsd.Base.{
  split_once, split, strip_suffix, Bytes-discrete, ℕ_discrete, starts_with, ℕ, ◌+◌, ◌-◌, ◌≤◌, ◌<◌,
  ◌≡◌, refl, ◌⊎◌, Bool, true, false, List, [], ◌∷◌, ◌++◌, Option, none, some, Text, bytes, is_some,
  pos, any, all, arith, u64_max,
}
use secretsd.Proto.ErrCode.{ok, err, timeout}
use secretsd.Grants.Table.{GrantOrigin, empty}
use secretsd.Grants.Table.Refines.{Call, inserted, expired, view, run, promised_run, run_refines}
use secretsd.Store.HumanStore.{OpenedHumanFile, HumanSource, open_file}
use secretsd.Audit.{size, printable, sanitize_audit_value, sanitize_audit_value_lem}
use secretsd.Config.Sources.{Toml, SourceRoot, Loaded, File, load}
use secretsd.Config.Valid.{is_nonempty, is_valid_root, distinct_paths, load_ok}
use secretsd.Config.Daemon.{DaemonConfig, cached, from_secs, serve_main}
use secretsd.Config.Start.{Suffices, ended, idle, no_job_in_touch_cache, serve_main-hardened}
use secretsd.Hardening.{SystemCalls, Variable, absent}
use secretsd.Decrypt.Child.{Round, drained, running, exited}
use secretsd.Decrypt.Decryptor.{Attempt, decrypt_opened, Yields, decrypt_ok, decrypt_ends}
use secretsd.Server.State.{State}
use secretsd.Server.Approval.{begin_approval}
use secretsd.Server.Control.{deny}
use secretsd.Server.Worker.{Job, Decrypted, pick}
use secretsd.Server.Step.{System, took, began, picked, denied, Reach, here, next}
use secretsd.Tests.Data.{api_key, other_key, console, scope_a, file_identity}
use secretsd.Tests.Daemon.{fs}
use secretsd.Tests.Sessions.{proc}

sanitize_audit_value_example :
    (size (sanitize_audit_value (65 ∷ 10 ∷ [])) ≤ 256)
    × (all printable (sanitize_audit_value (65 ∷ 10 ∷ [])) ≡ true)
sanitize_audit_value_example = sanitize_audit_value_lem (65 ∷ 10 ∷ [])

abbrev origin : GrantOrigin
origin = record { source = bytes "s"; identity = file_identity }

abbrev calls : List Call
calls =
    inserted console api_key (7 ∷ []) 10 origin
    ∷ (inserted scope_a other_key (8 ∷ []) 90 origin ∷ (expired 100 50 ∷ []))

run_refines_example : view (run empty calls) ≡ (λ s k. promised_run calls s k none)
run_refines_example = run_refines calls

-- A document with the one table `source`, which has the one entry `dotfiles`.
abbrev toml : Toml
toml = record {
  Value = ℕ;
  parse = λ text. some ((bytes "source", 0) ∷ []);
  as_table = λ value. some ((bytes "dotfiles", 1) ∷ []);
  raw_source = λ value. some (bytes "~/dotfiles");
}

abbrev variable : Text → Option Text
variable name = some (bytes "/home")

abbrev roots : List SourceRoot
roots = record { name = bytes "dotfiles"; path = bytes "/home/dotfiles" } ∷ []

abbrev read : Text → File
read path = File.text []

abbrev there : Text → Bool
there path = true

loaded : load toml variable read there ≡ Loaded.ok roots
unfolding load starts_with ℕ_discrete Bytes-discrete strip_suffix split
loaded = refl

load_ok_example :
    (is_nonempty roots ≡ true)
    × (all is_valid_root roots ≡ true)
    × (distinct_paths roots ≡ true)
    × (all (λ root. there root.path) roots ≡ true)
load_ok_example = load_ok toml variable read there roots loaded

abbrev sources : List HumanSource
sources = record { label = bytes "s"; dir = bytes "/d" } ∷ []

abbrev rounds : List Round
rounds = running 50 ∷ (exited true (drained []) (drained (bytes "K=v\n")) ∷ [])

abbrev attempt : Attempt
attempt = record { duplicated = true; spawned = some (pos 9); started = 40; rounds = rounds }

abbrev plaintext : Decrypted
plaintext = record { value = bytes "v"; origin = origin }

decrypts : decrypt_opened fs sources api_key 100 true attempt ≡ some (ok plaintext)
unfolding decrypt_opened open_file strip_suffix Bytes-discrete ℕ_discrete
    secretsd.Names.SecretName.parse secretsd.Names.SecretName.SecretName-discrete
    secretsd.Names.Assignment.parse_single_assignment split split_once
decrypts = refl

decrypt_ok_example :
    (true ≡ true)
    × ((file : OpenedHumanFile) × (open_file fs sources api_key ≡ ok file)
        × (origin.source ≡ file.label)
        × (origin.identity ≡ file.identity)
        × Yields api_key rounds (bytes "v"))
decrypt_ok_example = decrypt_ok fs sources api_key 100 true attempt plaintext decrypts

decrypt_ends_example : is_some (decrypt_opened fs sources api_key 100 true attempt) ≡ true
decrypt_ends_example = decrypt_ends fs sources api_key 100 true attempt refl refl

abbrev daemon : DaemonConfig
daemon = record {
  socket_path = bytes "/s";
  human_sources = sources;
  sops_bin = bytes "sops";
  pcsc_socket = none;
  yubikey_probe_argv = [];
  yubikey_probe_timeout = from_secs 2;
  touch_policy = cached;
  max_grant = from_secs 43200;
  cooldown = from_secs 16;
  request_ttl = from_secs 90;
  max_pending_per_scope = 3;
}

abbrev system : SystemCalls
system = record {
  set_dumpable = true;
  set_core_limit = true;
  memlock_limits = some (u64_max, u64_max);
  lock_all = true;
}

abbrev first : State
first =
    secretsd.Server.State.new (secretsd.Config.Daemon.server_config daemon) (bytes "b") (bytes "i")

starts : serve_main absent system (some daemon) (bytes "b") (bytes "i") ≡ some first
unfolding serve_main ℕ_discrete
starts = refl

serve_main-hardened_example :
    (true ≡ true)
    × (true ≡ true)
    × ((absent ≡ Variable.text (bytes "optional"))
        ⊎ ((true ≡ true)
            × ((soft : ℕ) × (hard : ℕ) × (system.memlock_limits ≡ some (soft, hard))
                × (Suffices soft × Suffices hard))))
serve_main-hardened_example =
    serve_main-hardened absent system (some daemon) (bytes "b") (bytes "i") first starts

abbrev waiting : System
waiting = record (idle first) { state = (begin_approval fs first console api_key false 10).0 }

abbrev working : System
working = took (pick waiting.state 20)

abbrev the_job : Job
the_job = record { id = 1; scope = console; key = api_key; generation = 1; lock_epoch = 0 }

-- The decrypt that was picked fails at 30.
abbrev over : System
over = ended proc there working the_job (err timeout) 30

-- A denial comes too late, at 35.
abbrev later : System
later = record over { state = (deny over.state 1 35).0 }

room : first.queue.next_id < u64_max
unfolding secretsd.Server.State.new secretsd.Requests.new
room = omega arith

working_steps : Reach (idle first) working
working_steps = next (next here (began fs console api_key false 10 room)) (picked 20 refl)

working_job : working.job ≡ some the_job
unfolding pick secretsd.Requests.next_ready begin_approval secretsd.Grants.Table.lookup
    secretsd.Server.State.new secretsd.Store.HumanStore.locate secretsd.Base.strip_suffix
    secretsd.Base.Bytes-discrete secretsd.Base.ℕ_discrete secretsd.Names.SecretName.parse
    secretsd.Names.SecretName.SecretName-discrete secretsd.Requests.enqueue
    secretsd.Base.starts_with secretsd.Requests.new secretsd.Requests.RequestState-discrete
    secretsd.Requests.mark_decrypting secretsd.Requests.describe
working_job = refl

abbrev later_steps : Reach over later
later_steps = next here (denied 1 35)

no_job_in_touch_cache_example : (pick later.state 40).1 ≡ none
no_job_in_touch_cache_example =
    no_job_in_touch_cache absent system daemon (bytes "b") (bytes "i") first proc there the_job
      (err timeout) 30 40 starts refl working_steps working_job later_steps
      (tt, (omega arith, omega arith)) (omega arith) (omega arith)
