-- ===== src/Filesystem/Tests.antt =====
-- A directory in the home directory, named twice, a file, and a path that is not there.
use kswitch.Prelude.{
  Text, text, ◌==◌, ◌≡◌, refl, true, some, ◌&&◌, ◌++◌, if◌then◌else◌, is_empty, List, [], ◌∷◌,
}
use kswitch.Prelude.Strings.{has_prefix, has_suffix, strip_prefix, trim_prefix}
use kswitch.Prelude.Go.{ok, err, ◌>>=◌}
use kswitch.Filesystem.{
  Stat, not_there, directory, file, System, none_there, expand, verify_paths,
  verify_kubeconfig_paths,
}
use kswitch.Filesystem.Verified.{
  is_directory, is_file, distinct, those, first_unreadable, verify_kubeconfig_paths_lem,
}
use kswitch.Search.{path_found}
use kswitch.Filesystem.Walk.{
  link, regular, folder, Tree, found, walk_inner, walk_follow_symlinks, search_directory,
}
use kswitch.Filesystem.Walk.Links.{matching, search_directory-matching}

abbrev stat : Text → Stat
stat path =
    if path == text "/home/me/.kube"
    then directory
    else if path == text "/etc/kubeconfig"
    then file
    else not_there

abbrev system : System
system = record {
  home = text "/home/me";
  join = λ a b. a ++ text "/" ++ b;
  stat = stat;
  parent = λ path. text ".kube";
}

abbrev paths : List Text
paths = text "~/.kube" ∷ text "/etc/kubeconfig" ∷ text "~/.kube" ∷ text "/gone" ∷ []

searched :
    verify_kubeconfig_paths system paths
    ≡ ok (record {
      kubeconfig_directories = text "/home/me/.kube" ∷ [];
      kubeconfig_filepaths = text "/etc/kubeconfig" ∷ [];
    })
unfolding verify_kubeconfig_paths verify_paths expand has_prefix strip_prefix trim_prefix ◌==◌
searched = refl

verify_kubeconfig_paths_lem_example : verify_kubeconfig_paths system paths ≡ (
    first_unreadable system (distinct [] paths) >>= λ u.
    if is_empty (those system is_directory (distinct [] paths))
      && is_empty (those system is_file (distinct [] paths))
    then err none_there
    else ok (record {
      kubeconfig_directories = those system is_directory (distinct [] paths);
      kubeconfig_filepaths = those system is_file (distinct [] paths);
    }))
verify_kubeconfig_paths_lem_example = verify_kubeconfig_paths_lem system paths

-- A directory with a file, a directory of that name, and a link to a directory with another file.
abbrev tree : Tree
tree = record {
  eval_symlinks = λ path. some (if path == text "/d/l" then text "/e" else path);
  walk_dir = λ path.
      if path == text "/d"
      then (text "/d", some folder)
        ∷ (text "/d/config", some regular)
        ∷ (text "/d/l", some link)
        ∷ (text "/d/x/config", some folder)
        ∷ []
      else if path == text "/d/l"
      then (path, some link) ∷ []
      else (text "/e/config", some regular) ∷ [];
  stat_dir = λ path. some true;
  matched = λ path. some (has_suffix path (text "/config"));
}

sent :
    search_directory tree 3 (text "/d")
    ≡ some (path_found (text "/d/config") [] ∷ path_found (text "/d/x/config") [] ∷ [])
unfolding search_directory walk_follow_symlinks walk_inner found has_suffix has_prefix strip_prefix
    ◌==◌
sent = refl

search_directory-matching_example :
    search_directory tree 3 (text "/d") ≡ some (matching tree (tree.walk_dir (text "/d")))
unfolding ◌==◌
search_directory-matching_example =
    search_directory-matching tree 0 (text "/d") (tt, (tt, ((text "/e", refl, refl), (tt, tt))))
