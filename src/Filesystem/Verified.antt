-- ===== src/Filesystem/Verified.antt =====
-- The paths that are searched.
use kswitch.Prelude.{
  Text, ◌≡◌, refl, ap, ◌∙◌, Bool, true, false, ◌&&◌, Bool-cases, inl, inr, if◌then◌else◌, is_empty,
  is_elem, keep_if, List, [], ◌∷◌, ◌++◌, map, append-nil, append_assoc,
}
use kswitch.Prelude.Go.{Go, ok, err, ◌>>=◌, >>=_assoc}
use kswitch.Filesystem.{
  Stat, not_there, unreadable, directory, file, System, Error, not_read, none_there,
  FilesystemStore, expand, with_path, verify_paths, checked, verify_kubeconfig_paths,
}

abbrev pub is_directory : Stat → Bool
is_directory not_there = false
is_directory unreadable = false
is_directory directory = true
is_directory file = false

abbrev pub is_file : Stat → Bool
is_file not_there = false
is_file unreadable = false
is_file directory = false
is_file file = true

-- The paths that were not met before, each once.
unfoldable pub distinct : List Text → List Text → List Text
distinct seen [] = []
distinct seen (p ∷ paths) =
    let others = distinct (p ∷ seen) paths in if is_elem p seen then others else p ∷ others

module _ (system : System) where
  abbrev pub those : (Stat → Bool) → List Text → List Text
  those p paths = map (expand system) (keep_if (λ path. p (system.stat (expand system path))) paths)

  passed : Text → Stat → Go Error (Unit {0})
  passed p not_there = ok tt
  passed p unreadable = err (not_read p)
  passed p directory = ok tt
  passed p file = ok tt

  unfoldable pub first_unreadable : List Text → Go Error (Unit {0})
  unfolding passed
  first_unreadable [] = ok tt
  first_unreadable (p ∷ paths) =
      passed p (system.stat (expand system p)) >>= λ u. first_unreadable paths

  abbrev with_those : FilesystemStore → List Text → FilesystemStore
  with_those s paths = record {
    kubeconfig_directories = s.kubeconfig_directories ++ those is_directory paths;
    kubeconfig_filepaths = s.kubeconfig_filepaths ++ those is_file paths;
  }

  abbrev IsVerified : List Text → List Text → FilesystemStore → Type 0
  IsVerified seen paths s =
      verify_paths system seen paths s
      ≡ (first_unreadable (distinct seen paths) >>= λ u. ok (with_those s (distinct seen paths)))

  new_path :
      (seen : List Text) (p : Text) (paths : List Text) (s : FilesystemStore) (t : Stat)
      → system.stat (expand system p) ≡ t
      → is_elem p seen ≡ false
      → ((s' : FilesystemStore) → IsVerified (p ∷ seen) paths s')
      → IsVerified seen (p ∷ paths) s
  unfolding verify_paths with_path first_unreadable passed distinct
  new_path seen p paths s not_there e new ih = rw (new, e) (ih s)
  new_path seen p paths s unreadable e new ih = rw (new, e)
  new_path seen p paths s directory e new ih =
      rw (new, e)
        (ih (record s { kubeconfig_directories = s.kubeconfig_directories ++ expand system p ∷ [] })
          ∙ rw (
              append_assoc s.kubeconfig_directories (expand system p ∷ [])
                (those is_directory (distinct (p ∷ seen) paths))))
  new_path seen p paths s file e new ih =
      rw (new, e)
        (ih (record s { kubeconfig_filepaths = s.kubeconfig_filepaths ++ expand system p ∷ [] })
          ∙ rw (
              append_assoc s.kubeconfig_filepaths (expand system p ∷ [])
                (those is_file (distinct (p ∷ seen) paths))))

  verify_paths_lem : (seen paths : List Text) (s : FilesystemStore) → IsVerified seen paths s
  unfolding verify_paths first_unreadable distinct
  verify_paths_lem seen [] s =
      rw (append-nil s.kubeconfig_directories, append-nil s.kubeconfig_filepaths)
  verify_paths_lem seen (p ∷ paths) s = elim (Bool-cases (is_elem p seen)) [
    | inl old ↦ rw old (verify_paths_lem (p ∷ seen) paths s)
    | inr new ↦
        new_path seen p paths s (system.stat (expand system p)) refl new
          (λ s'. verify_paths_lem (p ∷ seen) paths s')
  ]

-- For every list of paths, each counted once: if one of them cannot be read, the first such is the
-- error; else, if none of them is there, that is the error; else the store searches exactly those that
-- are directories and those that are files, in their order, with the home directory put in.
pub verify_kubeconfig_paths_lem :
    (system : System) (paths : List Text)
    → verify_kubeconfig_paths system paths ≡ (
        first_unreadable system (distinct [] paths) >>= λ u.
        if is_empty (those system is_directory (distinct [] paths))
          && is_empty (those system is_file (distinct [] paths))
        then err none_there
        else ok (record {
          kubeconfig_directories = those system is_directory (distinct [] paths);
          kubeconfig_filepaths = those system is_file (distinct [] paths);
        }))
unfolding verify_kubeconfig_paths checked
verify_kubeconfig_paths_lem system paths =
    let all = distinct [] paths in
    ap (λ r. r >>= checked system)
      (verify_paths_lem system [] paths
        (record { kubeconfig_directories = []; kubeconfig_filepaths = [] }))
    ∙ >>=_assoc (first_unreadable system all) _ _
