-- ===== src/MemoryCache/Answers.antt =====
-- A call returns nothing that the store did not answer for its path.
use kswitch.Prelude.{
  Text, ◌==◌, ==_iff, ==_refl, ◌≡◌, sym, ◌∙◌, Bool, true, Bool-cases, inl, inr, ◌&&◌, any_of, none,
  some, List, [], ◌∷◌, ◌++◌, All, All-append, arith,
}
use mathlib.Core.Path.{subst}
use kswitch.Prelude.Dict.{Dict, read, assign, read-assign}
use kswitch.MemoryCache.{
  Call, called, asking, keeping, returned, MemoryCache, Step, call, hit, miss, refused, answered,
  keep, Reach, here, next, new_cache,
}

-- The store has answered the path with the bytes.
unfoldable pub was_answered : List (Text × Text) → Text → Text → Bool
was_answered answers path bytes = any_of (λ a. a.0 == path && a.1 == bytes) answers

abbrev pub IsAnswered : List (Text × Text) → Call → Type 0
IsAnswered answers (called path) = Unit
IsAnswered answers (asking path) = Unit
IsAnswered answers (keeping path bytes) = was_answered answers path bytes ≡ true
IsAnswered answers (returned path none) = Unit
IsAnswered answers (returned path (some bytes)) = was_answered answers path bytes ≡ true

abbrev pub IsBacked : List (Text × Text) → Dict Text → Type 0
IsBacked answers cache =
    (path bytes : Text) → read cache path ≡ some bytes → was_answered answers path bytes ≡ true

record IsSound (s : MemoryCache) : Type 0 where
  backed : IsBacked s.answers s.cache
  calls : All (IsAnswered s.answers) s.calls

answered_more :
    (answers : List (Text × Text)) (a : Text × Text) (c : Call)
    → IsAnswered answers c
    → IsAnswered (a ∷ answers) c
unfolding was_answered
answered_more answers a (called path) h = h
answered_more answers a (asking path) h = h
answered_more answers a (keeping path bytes) h = ground (arith, h)
answered_more answers a (returned path none) h = h
answered_more answers a (returned path (some bytes)) h = ground (arith, h)

All-weaken : (P Q : Call → Type 0) (cs : List Call) → ((c : Call) → P c → Q c) → All P cs → All Q cs
All-weaken P Q [] f h = tt
All-weaken P Q (c ∷ cs) f (here_, h) = (f c here_, All-weaken P Q cs f h)

All-split :
    (P : Call → Type 0) (before : List Call) (c : Call) (after : List Call)
    → All P (before ++ c ∷ after)
    → All P before × P c × All P after
All-split P [] c after (here_, h) = (tt, here_, h)
All-split P (b ∷ before) c after (here_, h) =
    let (x, y, z) = All-split P before c after h in ((here_, x), y, z)

replaced :
    (P : Call → Type 0) (calls before : List Call) (c d : Call) (after : List Call)
    → calls ≡ before ++ c ∷ after
    → All P calls
    → (P c → P d)
    → All P (before ++ d ∷ after)
replaced P calls before c d after e h f =
    let (x, y, z) = All-split P before c after (subst (All P) e h) in
    All-append P before (d ∷ after) x (f y, z)

newest :
    (answers : List (Text × Text)) (path bytes : Text)
    → was_answered ((path, bytes) ∷ answers) path bytes ≡ true
unfolding was_answered
newest answers path bytes = rw (==_refl path, ==_refl bytes)

assign-IsBacked :
    (answers : List (Text × Text)) (cache : Dict Text) (path bytes : Text)
    → IsBacked answers cache
    → was_answered answers path bytes ≡ true
    → IsBacked answers (assign cache path bytes)
assign-IsBacked answers cache path bytes backed kept p b r =
    let r' = sym (read-assign cache path p bytes) ∙ r in
    elim (Bool-cases (path == p)) [
      | inl same ↦
          let e : bytes ≡ b = ground (arith, same, r') in
          subst (λ q. was_answered answers q b ≡ true) ((==_iff path p).0 same)
            (subst (λ c. was_answered answers path c ≡ true) e kept)
      | inr other ↦ backed p b (rw other at r')
    ]

Step-IsSound : {s t : MemoryCache} → Step s t → IsSound s → IsSound t
Step-IsSound {s} (call path) h = record { backed = h.backed; calls = (tt, h.calls) }
Step-IsSound {s} (hit before after path bytes e r) h = record {
  backed = h.backed;
  calls =
      replaced (IsAnswered s.answers) s.calls before (called path) (returned path (some bytes))
        after e h.calls (λ u. h.backed path bytes r);
}
Step-IsSound {s} (miss before after path e r) h = record {
  backed = h.backed;
  calls =
      replaced (IsAnswered s.answers) s.calls before (called path) (asking path) after e h.calls
        (λ u. tt);
}
Step-IsSound {s} (refused before after path e) h = record {
  backed = h.backed;
  calls =
      replaced (IsAnswered s.answers) s.calls before (asking path) (returned path none) after e
        h.calls (λ u. tt);
}
Step-IsSound {s} (answered before after path bytes e) h = record {
  backed = λ p b r. answered_more s.answers (path, bytes) (keeping p b) (h.backed p b r);
  calls =
      replaced (IsAnswered ((path, bytes) ∷ s.answers)) s.calls before (asking path)
        (keeping path bytes) after e
        (All-weaken (IsAnswered s.answers) (IsAnswered ((path, bytes) ∷ s.answers)) s.calls
          (answered_more s.answers (path, bytes)) h.calls)
        (λ u. newest s.answers path bytes);
}
Step-IsSound {s} (keep before after path bytes e) h =
    let (x, kept, z) =
      All-split (IsAnswered s.answers) before (keeping path bytes) after
        (subst (All (IsAnswered s.answers)) e h.calls) in
    record {
      backed = λ p b r. assign-IsBacked s.answers s.cache path bytes h.backed kept p b r;
      calls =
          All-append (IsAnswered s.answers) before (returned path (some bytes) ∷ after) x (kept, z);
    }

new_cache-IsSound : IsSound new_cache
unfolding read
new_cache-IsSound = record { backed = λ p b r. absurd (cc); calls = tt }

Reach-IsSound : {s t : MemoryCache} → Reach s t → IsSound s → IsSound t
Reach-IsSound here h = h
Reach-IsSound (next r st) h = Step-IsSound st (Reach-IsSound r h)

-- However calls interleave, with each other and with the answers of the store, which may differ from
-- one time to the next: when a call returns a kubeconfig, the store has answered with it before, for
-- the path of that call; and so the cache holds nothing for a path but an answer for it.
pub get_kubeconfig_for_path-IsAnswered :
    (s : MemoryCache)
    → Reach new_cache s
    → IsBacked s.answers s.cache × All (IsAnswered s.answers) s.calls
get_kubeconfig_for_path-IsAnswered s r =
    let h = Reach-IsSound r new_cache-IsSound in (h.backed, h.calls)
