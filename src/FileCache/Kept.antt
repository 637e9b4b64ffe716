-- ===== src/FileCache/Kept.antt =====
-- How long a kubeconfig is kept.
use kswitch.Prelude.{
  ℕ, Text, ◌==◌, ==_iff, ◌≡◌, refl, ap, ◌∙◌, Bool, true, false, not, Bool-cases, inl, inr,
  if◌then◌else◌, Option, none, some, [], ◌∷◌, keep_if, arith,
}
use kswitch.Prelude.Dict.{Dict, read}
use kswitch.Prelude.Strings.{has_suffix-append, has_suffix}
use kswitch.Prelude.Go.{Go, ok, err, panic, hang}
use kswitch.Kubeconfig.Node.{Node}
use kswitch.Kubeconfig.Open.{new_kubeconfig}
use kswitch.FileCache.{
  CacheFile, Yaml, Error, of_upstream, not_stored, suffix, file_of, parsed, cached, bytes_of,
  stored, from_upstream, answer, get_kubeconfig_for_path, flush,
}

read-keep_if :
    (p : Text × CacheFile → Bool) (q : Text → Bool) (files : Dict CacheFile) (name : Text)
    → ((f : Text × CacheFile) → p f ≡ q f.0)
    → read (keep_if p files) name ≡ (if q name then read files name else none)
unfolding read
read-keep_if p q [] name e = ground arith
read-keep_if p q ((n, file) ∷ files) name e =
    let later = read-keep_if p q files name e in
    elim (Bool-cases (n == name)) [
      | inl same ↦
          let k = (==_iff n name).0 same in
          elim (Bool-cases (q name)) [
            | inl kept ↦ ground (arith, e (n, file), ap q k, kept, same)
            | inr gone ↦ ground (arith, e (n, file), ap q k, gone, later)
          ]
      | inr other ↦ elim (Bool-cases (q n)) [
        | inl kept ↦ ground (arith, e (n, file), kept, other, later)
        | inr gone ↦ ground (arith, e (n, file), gone, other, later)
      ]
    ]

module _ (yaml : Yaml) (hash : Text → Text) (id : Text) (ttl : Option ℕ) where
  uncached :
      (now : ℕ) (path : Text) (files : Dict CacheFile)
      → read files (file_of yaml hash id ttl path) ≡ none
      → cached yaml hash id ttl now path files ≡ none
  unfolding cached parsed
  uncached now path files e = rw e

-- What a store gives, to the caller.
abbrev pub given : Yaml → Option Text → Go Error Text
given yaml none = err of_upstream
given yaml (some bytes) = elim (new_kubeconfig yaml.unmarshal bytes) [
  | ok root ↦ ok bytes
  | err e ↦ err (not_stored e)
  | panic ↦ panic
  | hang ↦ hang
]

module _ (yaml : Yaml) (hash : Text → Text) (id : Text) (ttl : Option ℕ) where
  from_upstream-given :
      (now : ℕ) (path : Text) (files : Dict CacheFile) (upstream : Option Text)
      → (from_upstream yaml hash id ttl now path files upstream).0 ≡ given yaml upstream
  unfolding from_upstream stored
  from_upstream-given now path files none = refl
  from_upstream-given now path files (some bytes) =
      elim (new_kubeconfig yaml.unmarshal bytes)
        as (λ r. (stored yaml hash id ttl now path bytes files r).0 ≡ elim r [
          | ok root ↦ ok bytes
          | err e ↦ err (not_stored e)
          | panic ↦ panic
          | hang ↦ hang
        ]) [ ok root ↦ refl | err e ↦ refl | panic ↦ refl | hang ↦ refl ]

  answered :
      (now : ℕ) (path : Text) (upstream : Option Text) (files : Dict CacheFile) (file : CacheFile)
      (root : Node) (old : Bool)
      → cached yaml hash id ttl now path files ≡ (if old then none else some (file, root))
      → (get_kubeconfig_for_path yaml hash id ttl now path upstream files).0
        ≡ (if old then given yaml upstream else bytes_of yaml hash id ttl (yaml.marshal root))
  unfolding get_kubeconfig_for_path answer
  answered now path upstream files file root true e =
      rw e (from_upstream-given now path files upstream)
  answered now path upstream files file root false e = rw e

-- After the cache of a store is flushed, every file is gone whose name ends in the suffix of the store,
-- all others are as they were, and each call is answered by what the store gives.
pub get_kubeconfig_for_path-flush :
    (yaml : Yaml) (hash : Text → Text) (id : Text) (ttl : Option ℕ) (now : ℕ) (path : Text)
    (upstream : Option Text) (files : Dict CacheFile)
    → ((name : Text)
        → read (flush id files).1 name
          ≡ (if has_suffix name (suffix id) then none else read files name))
      × ((get_kubeconfig_for_path yaml hash id ttl now path upstream (flush id files).1).0
          ≡ given yaml upstream)
unfolding flush get_kubeconfig_for_path answer file_of
get_kubeconfig_for_path-flush yaml hash id ttl now path upstream files =
    let left : (name : Text)
        → read (flush id files).1 name
          ≡ (if has_suffix name (suffix id) then none else read files name) =
      λ name.
        read-keep_if (λ f. not (has_suffix f.0 (suffix id))) (λ n. not (has_suffix n (suffix id)))
          files name (λ f. refl)
        ∙ elim (Bool-cases (has_suffix name (suffix id))) [ inl e ↦ rw e | inr e ↦ rw e ] in
    let gone =
      left (file_of yaml hash id ttl path) ∙ rw (has_suffix-append (hash path) (suffix id)) in
    (
      left,
      rw (uncached yaml hash id ttl now path (flush id files).1 gone)
          (from_upstream-given yaml hash id ttl now path (flush id files).1 upstream),
    )
