-- ===== src/KindClusters/Tests.antt =====
-- Two clusters, with a blank line between them.
use kswitch.Prelude.{Text, text, ◌≡◌, refl, List, [], ◌∷◌}
use kswitch.Alias.{trim_space, trim_left}
use kswitch.KindClusters.{Run, succeeded, split_newlines, split_lines, cluster_found, start_search}

abbrev run_kind : List Text → Run
run_kind args = succeeded (text "dev\n\n test \n")

both :
    start_search run_kind
    ≡ cluster_found run_kind (text "dev") ∷ cluster_found run_kind (text "test") ∷ []
unfolding start_search split_lines split_newlines trim_space trim_left
both = refl
