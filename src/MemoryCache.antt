-- ===== src/MemoryCache.antt =====
-- pkg/cache/memory/memoryCache.go: the kubeconfigs of a store, kept in memory, with calls on several
-- goroutines as a step relation. The store behind the cache may answer each call as it likes.
pub mod Answers
pub mod Tests
use kswitch.Prelude.{Text, ◌≡◌, Option, none, some, List, [], ◌∷◌, ◌++◌}
use kswitch.Prelude.Dict.{Dict, read, assign}

-- A call of GetKubeconfigForPath: before it looks into the cache, waiting for the store, with the
-- store's answer before it is kept, or returned (`none` is an error).
pub data Call : Type 0 where
  called asking : Text → Call
  keeping : Text → Text → Call
  returned : Text → Option Text → Call

-- `answers` is what the store has answered without an error so far, with the paths.
pub record MemoryCache : Type 0 where
  pub cache : Dict Text
  pub calls : List Call
  pub answers : List (Text × Text)

pub data Step (s : MemoryCache) : MemoryCache → Type 0 where
  call : (path : Text) → Step s (record s { calls = called path ∷ s.calls })
  hit :
      (before after : List Call) (path bytes : Text)
      → s.calls ≡ before ++ called path ∷ after
      → read s.cache path ≡ some bytes
      → Step s (record s { calls = before ++ returned path (some bytes) ∷ after })
  miss :
      (before after : List Call) (path : Text)
      → s.calls ≡ before ++ called path ∷ after
      → read s.cache path ≡ none
      → Step s (record s { calls = before ++ asking path ∷ after })
  refused :
      (before after : List Call) (path : Text)
      → s.calls ≡ before ++ asking path ∷ after
      → Step s (record s { calls = before ++ returned path none ∷ after })
  answered :
      (before after : List Call) (path bytes : Text)
      → s.calls ≡ before ++ asking path ∷ after
      → Step s (record s {
        calls = before ++ keeping path bytes ∷ after;
        answers = (path, bytes) ∷ s.answers;
      })
  keep :
      (before after : List Call) (path bytes : Text)
      → s.calls ≡ before ++ keeping path bytes ∷ after
      → Step s (record s {
        cache = assign s.cache path bytes;
        calls = before ++ returned path (some bytes) ∷ after;
      })

pub data Reach (s : MemoryCache) : MemoryCache → Type 0 where
  here : Reach s s
  next : {t u : MemoryCache} → Reach s t → Step t u → Reach s u

-- New
abbrev pub new_cache : MemoryCache
new_cache = record { cache = []; calls = []; answers = [] }
