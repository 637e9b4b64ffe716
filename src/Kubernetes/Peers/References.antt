-- ===== src/Kubernetes/Peers/References.antt =====
-- Which texts are references to the cluster of another store.
use kswitch.Prelude.{
  Text, ◌≡◌, refl, ap, ◌∙◌, false, is_empty, Option, none, some, [], ◌∷◌, ◌++◌, arith,
}
use mathlib.Core.Logic.{◌↔◌}
use kswitch.Prelude.Cut.{cut, Lacks, cut-append, cut-some}
use kswitch.Prelude.Strings.{strip_prefix, strip_prefix-append, strip_prefix-some}
use kswitch.Prelude.Go.{ok}
use kswitch.Kubernetes.Peers.{store_ref_prefix, reference_of, behind_scheme, parse_store_ref}

-- The scheme, an identity without a slash, a slash, and a path.
abbrev pub IsReference : Text → Text → Text → Type 0
IsReference ref id path =
    (ref ≡ store_ref_prefix ++ (id ++ b'/' ∷ path))
    × Lacks b'/' id
    × (is_empty id ≡ false)
    × (is_empty path ≡ false)

reference_of_ok :
    (r : Option (Text × Text)) (id path : Text)
    → reference_of r ≡ ok (id, path)
    → (r ≡ some (id, path)) × (is_empty id ≡ false) × (is_empty path ≡ false)
unfolding reference_of
reference_of_ok none id path h = absurd (cc)
reference_of_ok (some ([], p)) id path h = absurd (cc)
reference_of_ok (some (c ∷ i, [])) id path h = absurd (cc)
reference_of_ok (some (c ∷ i, d ∷ p)) id path h = (ground arith, ground arith, ground arith)

of_parts :
    (ref id path : Text) (rest : Option Text)
    → strip_prefix store_ref_prefix ref ≡ rest
    → behind_scheme rest ≡ ok (id, path)
    → IsReference ref id path
unfolding behind_scheme
of_parts ref id path none stripped h = absurd (cc)
of_parts ref id path (some rest) stripped h =
    let (cuts, filled, more) = reference_of_ok (cut b'/' rest) id path h in
    let (shape, lacks) = cut-some b'/' rest id path cuts in
    (
      strip_prefix-some store_ref_prefix ref rest stripped ∙ ap (λ t. store_ref_prefix ++ t) shape,
      lacks,
      filled,
      more,
    )

made :
    (id path : Text)
    → Lacks b'/' id
    → is_empty id ≡ false
    → is_empty path ≡ false
    → parse_store_ref (store_ref_prefix ++ (id ++ b'/' ∷ path)) ≡ ok (id, path)
unfolding parse_store_ref reference_of
made id path lacks filled more = rw (
  strip_prefix-append store_ref_prefix (id ++ b'/' ∷ path),
  cut-append b'/' id path lacks,
  filled,
  more,
)

-- A text is parsed as a reference to the store `id` and the path `path` exactly when it is the scheme
-- store://, then `id`, which is not empty and has no slash, then a slash and `path`, which is not empty.
pub parse_store_ref-IsReference :
    (ref id path : Text) → (parse_store_ref ref ≡ ok (id, path)) ↔ IsReference ref id path
unfolding parse_store_ref
parse_store_ref-IsReference ref id path = (
  λ h. of_parts ref id path (strip_prefix store_ref_prefix ref) refl h,
  λ r. ap parse_store_ref r.0 ∙ made id path r.1 r.2 r.3,
)
