-- ===== src/Store/Sole.antt =====
-- A key is opened only where one file backs it: `locate` and `open` of src/store.rs.
use secretsd.Base.{
  ◌≡◌, refl, ap, true, List, [], ◌∷◌, some, arith, inl, inr, Option-cases, Bool-cases,
}
use secretsd.Proto.ErrCode.{Result, ok, err, ◌>>=◌}
use secretsd.Names.SecretName.{SecretName}
use secretsd.Store.HumanStore.{
  HumanSource, FileSystem, Candidate, OpenedHumanFile, Stat, candidates, sole, locate, opened,
  open_file,
}

opened_ok :
    (fs : FileSystem) (only : Candidate) (file : OpenedHumanFile)
    → opened fs only (fs.stat_at only.dir only.file_name) ≡ ok file
    → (stat : Stat) × (fs.stat_at only.dir only.file_name ≡ some stat)
      × (stat.is_regular ≡ true)
      × (file.identity ≡ stat.identity)
      × (only.label ≡ file.label)
unfolding opened
opened_ok fs only file h = elim (Option-cases (fs.stat_at only.dir only.file_name)) [
  | inl e ↦ absurd (ground arith)
  | inr (stat, e) ↦ elim (Bool-cases stat.is_regular) [
    | inl regular ↦ (stat, e, regular, ground arith, ground arith)
    | inr other ↦ absurd (ground arith)
  ]
]

sole-opened :
    (fs : FileSystem) (found : Result (List Candidate)) (file : OpenedHumanFile)
    → (found >>= λ all. sole fs all >>= λ only. opened fs only (fs.stat_at only.dir only.file_name))
      ≡ ok file
    → (only : Candidate) × (stat : Stat) × (found ≡ ok (only ∷ []))
      × (fs.stat_at only.dir only.file_name ≡ some stat)
      × (stat.is_regular ≡ true)
      × (file.identity ≡ stat.identity)
      × ((found >>= λ all. sole fs all >>= λ only. ok only.label) ≡ ok file.label)
unfolding sole
sole-opened fs (err error) file h = absurd (cc h)
sole-opened fs (ok []) file h = absurd (cc h)
sole-opened fs (ok (only ∷ [])) file h =
    let (stat, e, regular, same, label) = opened_ok fs only file h in
    (only, stat, refl, e, regular, same, ap ok label)
sole-opened fs (ok (first ∷ second ∷ rest)) file h = absurd (cc h)

-- A file is opened only where it is the only candidate for the key among all sources, it is a
-- regular file, and `locate` names its source.
pub open_file_sole :
    (fs : FileSystem) (sources : List HumanSource) (name : SecretName) (file : OpenedHumanFile)
    → open_file fs sources name ≡ ok file
    → (only : Candidate) × (stat : Stat) × (candidates fs sources name ≡ ok (only ∷ []))
      × (fs.stat_at only.dir only.file_name ≡ some stat)
      × (stat.is_regular ≡ true)
      × (file.identity ≡ stat.identity)
      × (locate fs sources name ≡ ok file.label)
unfolding open_file locate
open_file_sole fs sources name file h = sole-opened fs (candidates fs sources name) file h
