-- ===== src/FileCache.antt =====
-- pkg/cache/file/fileCache.go: the kubeconfigs of a store, kept in files. The directory holds files
-- only, which can be written and removed. The store behind the cache, the YAML package and SHA-256 are
-- parameters; a time is a number of nanoseconds.
pub mod Kept
pub mod Tests
use kswitch.Prelude.{
  ℕ, ◌+◌, Text, text, Bool, true, false, not, if◌then◌else◌, ltb, nat_eq, length, Option, none,
  some, List, [], ◌∷◌, ◌++◌, keep_if,
}
use kswitch.Prelude.Dict.{Dict, read, assign}
use kswitch.Prelude.Strings.{has_suffix}
use kswitch.Prelude.Go.{Go, ok, err, panic, hang}
use kswitch.Kubeconfig.Node.{Node, Error as DocumentError}
use kswitch.Kubeconfig.Open.{new_kubeconfig}

-- `private` says that only the owner can read the file.
pub record CacheFile : Type 0 where
  pub bytes : Text
  pub modified : ℕ
  pub private : Bool

pub record Yaml : Type 0 where
  pub unmarshal : Text → Option Node
  pub marshal : Node → Option Text
  -- The encoder that writes a file.
  pub encode : Node → Text

pub data Error : Type 0 where
  of_upstream not_marshalled : Error
  not_stored : DocumentError → Error

-- suffix
abbrev pub suffix : Text → Text
suffix id = text "." ++ id ++ text ".cache"

older_than : ℕ → ℕ → ℕ → Bool
older_than ttl now modified = if nat_eq ttl 0 then false else ltb (modified + ttl) now

-- isExpired
unfoldable pub is_expired : Option ℕ → ℕ → ℕ → Bool
unfolding older_than
is_expired none now modified = false
is_expired (some ttl) now modified = older_than ttl now modified

-- The mode of a file that is there stays when it is written again.
mode_kept : Option CacheFile → Bool
mode_kept none = true
mode_kept (some file) = file.private

module _ (yaml : Yaml) (hash : Text → Text) (id : Text) (ttl : Option ℕ) where
  unfoldable pub file_of : Text → Text
  file_of path = hash path ++ suffix id

  unexpired : ℕ → CacheFile → Go DocumentError Node → Option (CacheFile × Node)
  unexpired now file (ok root) =
      if is_expired ttl now file.modified then none else some (file, root)
  unexpired now file (err e) = none
  unexpired now file panic = none
  unexpired now file hang = none

  parsed : ℕ → Option CacheFile → Option (CacheFile × Node)
  parsed now none = none
  parsed now (some file) = unexpired now file (new_kubeconfig yaml.unmarshal file.bytes)

  -- What the cache has of the path.
  unfoldable pub cached : ℕ → Text → Dict CacheFile → Option (CacheFile × Node)
  unfolding parsed unexpired
  cached now path files = parsed now (read files (file_of path))

  pub bytes_of : Option Text → Go Error Text
  bytes_of none = err not_marshalled
  bytes_of (some bytes) = ok bytes

  stored : ℕ → Text → Text → Dict CacheFile → Go DocumentError Node → Go Error Text × Dict CacheFile
  stored now path bytes files (ok root) = (
    ok bytes,
    assign files (file_of path) (record {
      bytes = yaml.encode root;
      modified = now;
      private = mode_kept (read files (file_of path));
    }),
  )
  stored now path bytes files (err e) = (err (not_stored e), files)
  stored now path bytes files panic = (panic, files)
  stored now path bytes files hang = (hang, files)

  from_upstream : ℕ → Text → Dict CacheFile → Option Text → Go Error Text × Dict CacheFile
  from_upstream now path files none = (err of_upstream, files)
  from_upstream now path files (some bytes) =
      stored now path bytes files (new_kubeconfig yaml.unmarshal bytes)

  answer :
      ℕ
      → Text
      → Option Text
      → Dict CacheFile
      → Option (CacheFile × Node)
      → Go Error Text × Dict CacheFile
  answer now path upstream files none = from_upstream now path files upstream
  answer now path upstream files (some (file, root)) =
      (bytes_of (yaml.marshal root), assign files (file_of path) (record file { private = true }))

  -- `upstream` is what the store would give.
  unfoldable pub get_kubeconfig_for_path :
      ℕ → Text → Option Text → Dict CacheFile → Go Error Text × Dict CacheFile
  unfolding answer from_upstream stored bytes_of mode_kept
  get_kubeconfig_for_path now path upstream files =
      answer now path upstream files (cached now path files)

-- The number of files that were removed, and those that are left.
unfoldable pub flush : Text → Dict CacheFile → ℕ × Dict CacheFile
flush id files = (
  length (keep_if (λ f. has_suffix f.0 (suffix id)) files),
  keep_if (λ f. not (has_suffix f.0 (suffix id))) files,
)
