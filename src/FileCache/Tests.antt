-- ===== src/FileCache/Tests.antt =====
-- A cache that keeps a kubeconfig for 100 nanoseconds. A file is the text of one scalar here.
use kswitch.Prelude.{Text, text, ◌≡◌, refl, true, false, some, [], ◌∷◌}
use kswitch.Prelude.Dict.{Dict}
use kswitch.Prelude.Strings.{has_suffix}
use kswitch.Kubeconfig.Node.{Node, node, nil, cons, document, mapping, str_node}
use kswitch.FileCache.{CacheFile, Yaml, is_expired, flush}

abbrev root : Node
root = node mapping (text "!!map") [] (cons (str_node (text "a")) (cons (str_node (text "b")) nil))

abbrev yaml : Yaml
yaml = record {
  unmarshal = λ t. some (node document [] [] (cons root nil));
  marshal = λ n. some (text "a: b\n");
  encode = λ n. text "a: b\n";
}

abbrev hash : Text → Text
hash path = path

abbrev id : Text
id = text "vault.default"

in_time : is_expired (some 100) 50 5 ≡ false
unfolding is_expired
in_time = refl

abbrev files : Dict CacheFile
files =
    (text "p.vault.default.cache", record { bytes = text "a: b\n"; modified = 5; private = true })
    ∷ (text "p.gke.default.cache", record { bytes = text "a: b\n"; modified = 5; private = true })
    ∷ []

-- The suffix of one store's files may end that of another's.
other_store_flushed :
    (flush id (
      (text "p.gke.vault.default.cache", record { bytes = []; modified = 5; private = true })
      ∷ [])).0
    ≡ 1
unfolding flush has_suffix
other_store_flushed = refl
