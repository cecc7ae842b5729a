-- ===== src/Config/Valid.antt =====
-- What a configuration that src/config.rs accepts is like.
use mathlib.Core.Path.{subst}
use secretsd.Base.{
  ap, sym, ◌∙◌, ◌||◌, ◌⊎◌, ◌≡◌, refl, inl, inr, Bool, true, false, not, ◌&&◌, List, [], ◌∷◌, ◌++◌,
  Option, none, some, Text, ◌==◌, all, any, find, any-none, all-append_both, any-append, arith,
  Bool-cases, Option-cases,
}
use secretsd.Config.Paths.{is_root_name, is_plain_path, components, resolve_path}
use secretsd.Config.Sources.{
  SourceRoot, ConfigError, Components_eq, Loaded, ok, err, same_path, is_new, add_resolved, Toml,
  add_root, add_roots, parse_source, parse_document, parse, File, text, absent, unreadable, checked,
  load_file, load, home_path, config_path,
}

abbrev pub is_valid_root : SourceRoot → Bool
is_valid_root root = is_root_name root.name && is_plain_path root.path

abbrev pub distinct_paths : List SourceRoot → Bool
distinct_paths [] = true
distinct_paths (root ∷ roots) =
    not (any (λ other. components root.path == components other.path) roots) && distinct_paths roots

abbrev pub is_valid : List SourceRoot → Bool
is_valid roots = all is_valid_root roots && distinct_paths roots

distinct_paths-append :
    (roots : List SourceRoot) (added : SourceRoot)
    → distinct_paths roots ≡ true
    → any (same_path added.path) roots ≡ false
    → distinct_paths (roots ++ added ∷ []) ≡ true
distinct_paths-append [] added h e = refl
distinct_paths-append (root ∷ roots) added h e = ground (
  arith,
  distinct_paths-append roots added,
  any-append (λ other. components root.path == components other.path) roots (added ∷ []),
)

is_valid-append :
    (roots : List SourceRoot) (added : SourceRoot)
    → is_valid roots ≡ true
    → is_valid_root added ≡ true
    → any (same_path added.path) roots ≡ false
    → is_valid (roots ++ added ∷ []) ≡ true
is_valid-append roots added h valid e =
    ground
      (arith, distinct_paths-append roots added, all-append_both is_valid_root roots (added ∷ []))

resolve_path_ok :
    (raw home path : Text) → resolve_path raw home ≡ some path → is_plain_path path ≡ true
unfolding resolve_path
resolve_path_ok raw home path h = ground arith

is_new_ok :
    (roots added : List SourceRoot) (name path : Text)
    → is_valid roots ≡ true
    → is_root_name name ≡ true
    → is_plain_path path ≡ true
    → is_new roots name path ≡ ok added
    → is_valid added ≡ true
unfolding is_new
is_new_ok roots added name path h hn hp e = elim (Option-cases (find (same_path path) roots)) [
  | inr (first, found) ↦ absurd (ground arith)
  | inl fresh ↦
      let valid =
        is_valid-append roots (record { name = name; path = path }) h (ground arith)
          (any-none (same_path path) roots fresh) in
      ground arith
]

abbrev pub is_nonempty {ℓ} : {A : Type ℓ} → List A → Bool
is_nonempty [] = false
is_nonempty (x ∷ xs) = true

abbrev Accepted : List SourceRoot → Type 0
Accepted roots = (is_valid roots ≡ true) × (is_nonempty roots ≡ true)

is_nonempty-append :
    (roots : List SourceRoot) (root : SourceRoot) → is_nonempty (roots ++ root ∷ []) ≡ true
is_nonempty-append [] root = refl
is_nonempty-append (other ∷ roots) root = refl

is_new_nonempty :
    (roots added : List SourceRoot) (name path : Text)
    → is_new roots name path ≡ ok added
    → is_nonempty added ≡ true
unfolding is_new
is_new_nonempty roots added name path h =
    ground (arith, is_nonempty-append roots (record { name = name; path = path }))

add_resolved_ok :
    (roots added : List SourceRoot) (name raw home : Text)
    → is_valid roots ≡ true
    → is_root_name name ≡ true
    → add_resolved roots name raw (resolve_path raw home) ≡ ok added
    → Accepted added
unfolding add_resolved
add_resolved_ok roots added name raw home h hn e = elim (Option-cases (resolve_path raw home)) [
  | inl refused ↦ absurd (ground arith)
  | inr (path, found) ↦
      let plain = resolve_path_ok raw home path found in
      let new : is_new roots name path ≡ ok added = ground arith in
      (is_new_ok roots added name path h hn plain new, is_new_nonempty roots added name path new)
]

Loaded-cases :
    {A : Type 0} (loaded : Loaded A)
    → ((a : A) × (loaded ≡ ok a)) ⊎ ((error : ConfigError) × (loaded ≡ err error))
Loaded-cases (ok a) = inl (a, refl)
Loaded-cases (err error) = inr (error, refl)

module _ (toml : Toml) (home : Text) where
  add_root_ok :
      (roots added : List SourceRoot) (name : Text) (value : toml.Value)
      → is_valid roots ≡ true
      → add_root toml home roots name value ≡ ok added
      → Accepted added
  unfolding add_root
  add_root_ok roots added name value h e = elim (Bool-cases (is_root_name name)) [
    | inr bad ↦ absurd (ground arith)
    | inl good ↦ elim (Option-cases (toml.raw_source value)) [
      | inl malformed ↦ absurd (ground arith)
      | inr (raw, found) ↦ add_resolved_ok roots added name raw home h good (ground arith)
    ]
  ]

  add_roots_ok :
      (entries : List (Text × toml.Value)) (roots result : List SourceRoot)
      → is_valid roots ≡ true
      → (is_nonempty roots || is_nonempty entries) ≡ true
      → add_roots toml home roots entries ≡ ok result
      → Accepted result
  unfolding add_roots
  add_roots_ok [] roots result h n e = ground arith
  add_roots_ok ((name, value) ∷ entries) roots result h n e =
      elim (Loaded-cases (add_root toml home roots name value)) [
        | inr (error, refused) ↦ absurd (ground arith)
        | inl (added, accepted) ↦
            let first = add_root_ok roots added name value h accepted in
            add_roots_ok entries added result first.0 (ground (arith, first.1)) (ground arith)
      ]

  parse_source_ok :
      (value : toml.Value) (roots : List SourceRoot)
      → parse_source toml home value ≡ ok roots
      → Accepted roots
  unfolding parse_source
  parse_source_ok value roots h = elim (Option-cases (toml.as_table value)) [
    | inl other ↦ absurd (ground arith)
    | inr ([], empty) ↦ absurd (ground arith)
    | inr (entry ∷ source, table) ↦ add_roots_ok (entry ∷ source) [] roots refl refl (ground arith)
  ]

  parse_document_ok :
      (document : List (Text × toml.Value)) (roots : List SourceRoot)
      → parse_document toml home document ≡ ok roots
      → Accepted roots
  unfolding parse_document
  parse_document_ok [] roots h = absurd (ground arith)
  parse_document_ok ((name, value) ∷ []) roots h = parse_source_ok value roots (ground arith)
  parse_document_ok (entry ∷ other ∷ rest) roots h = absurd (ground arith)

  parse_ok :
      (content : Text) (roots : List SourceRoot)
      → parse toml home content ≡ ok roots
      → Accepted roots
  unfolding parse
  parse_ok content roots h = elim (Option-cases (toml.parse content)) [
    | inl malformed ↦ absurd (ground arith)
    | inr (document, found) ↦ parse_document_ok document roots (ground arith)
  ]

all_of_none :
    (p : SourceRoot → Bool) (roots : List SourceRoot)
    → find (λ root. not (p root)) roots ≡ none
    → all p roots ≡ true
all_of_none p [] h = refl
all_of_none p (root ∷ roots) h = ground (arith, all_of_none p roots)

module _ (toml : Toml) (variable : Text → Option Text) (read : Text → File)
    (is_dir : Text → Bool) where
  abbrev exists : SourceRoot → Bool
  exists root = is_dir root.path

  checked_ok :
      (found roots : List SourceRoot)
      → checked toml variable read is_dir (ok found) ≡ ok roots
      → (found ≡ roots) × (all exists found ≡ true)
  unfolding checked
  checked_ok found roots h = elim (Option-cases (find (λ root. not (is_dir root.path)) found)) [
    | inr (root, bad) ↦ absurd (ground arith)
    | inl all_there ↦ (ground arith, all_of_none exists found all_there)
  ]

  load_file_ok :
      (home : Text) (file : File) (roots : List SourceRoot)
      → load_file toml variable read is_dir home file ≡ ok roots
      → Accepted roots × (all exists roots ≡ true)
  unfolding load_file
  load_file_ok home absent roots h = absurd (ground arith)
  load_file_ok home unreadable roots h = absurd (ground arith)
  load_file_ok home (text content) roots h = elim (Loaded-cases (parse toml home content)) [
    | inr (error, refused) ↦ absurd (ground arith)
    | inl (found, accepted) ↦
        let valid = parse_ok toml home content found accepted in
        let (same, exist) =
          checked_ok found roots (ap (checked toml variable read is_dir) (sym accepted) ∙ h) in
        subst (λ result. Accepted result × (all exists result ≡ true)) same (valid, exist)
  ]

  -- Sources that are loaded are at least one root; the names are lowercase letters, digits and
  -- dashes behind a letter, the paths are absolute without `..`, no two of them are the same, and
  -- each one is a directory.
  pub load_ok :
      (roots : List SourceRoot)
      → load toml variable read is_dir ≡ ok roots
      → (is_nonempty roots ≡ true)
        × (all is_valid_root roots ≡ true)
        × (distinct_paths roots ≡ true)
        × (all (λ root. is_dir root.path) roots ≡ true)
  unfolding load
  load_ok roots h = elim (Loaded-cases (home_path variable)) [
    | inr (error, homeless) ↦ absurd (ground arith)
    | inl (home, found) ↦ elim (Loaded-cases (config_path variable)) [
      | inr (error, nowhere) ↦ absurd (ground arith)
      | inl (path, at) ↦
          let accepted = load_file_ok home (read path) roots (ground arith) in
          (accepted.0.1, ground (arith, accepted.0.0), ground (arith, accepted.0.0), accepted.1)
    ]
  ]
