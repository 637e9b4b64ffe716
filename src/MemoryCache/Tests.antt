-- ===== src/MemoryCache/Tests.antt =====
-- Two calls for a path that both miss, and get different answers.
use kswitch.Prelude.{Text, text, ◌==◌, refl, some, [], ◌∷◌, All}
use kswitch.Prelude.Dict.{read, assign, delete}
use kswitch.MemoryCache.{
  called, asking, keeping, returned, MemoryCache, call, miss, answered, keep, Reach, here, next,
  new_cache,
}
use kswitch.MemoryCache.Answers.{IsAnswered, IsBacked, get_kubeconfig_for_path-IsAnswered}

abbrev p : Text
p = text "p"

abbrev old : Text
old = text "old"

abbrev new : Text
new = text "new"

abbrev both_done : MemoryCache
both_done = record {
  cache = (p, new) ∷ [];
  calls = returned p (some new) ∷ returned p (some old) ∷ [];
  answers = (p, new) ∷ (p, old) ∷ [];
}

both_run : Reach new_cache both_done
unfolding read assign delete ◌==◌
both_run =
    next
      (next
        (next
          (next
            (next (next (next (next here (call p)) (call p)) (miss [] (called p ∷ []) p refl refl))
              (miss (asking p ∷ []) [] p refl refl))
            (answered (asking p ∷ []) [] p old refl))
          (answered [] (keeping p old ∷ []) p new refl))
        (keep (keeping p new ∷ []) [] p old refl))
      (keep [] (returned p (some old) ∷ []) p new refl)

get_kubeconfig_for_path-IsAnswered_example :
    IsBacked both_done.answers both_done.cache × All (IsAnswered both_done.answers) both_done.calls
get_kubeconfig_for_path-IsAnswered_example = get_kubeconfig_for_path-IsAnswered both_done both_run
