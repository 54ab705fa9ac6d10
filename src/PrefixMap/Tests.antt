-- ===== src/PrefixMap/Tests.antt =====
-- Runs of server/src/prefix_map.rs on a map of two routes.
use chiselstrike.Prelude.{ℕ, text, refl, [], ◌∷◌}
use chiselstrike.BTree.{bytes_ltb}
use chiselstrike.BTree.Order.{IsSorted}
use chiselstrike.PrefixMap.{PrefixMap, longest_prefix}
use chiselstrike.PrefixMap.Longest.{Answers, longest_prefix-Answers}

abbrev routes : PrefixMap ℕ
routes = record { entries = (text "/a", 1) ∷ (text "/a/b", 2) ∷ [] }

routes-IsSorted : IsSorted routes.entries
unfolding bytes_ltb
routes-IsSorted = ((refl, tt), (tt, tt))

longest_prefix-Answers_example :
    Answers routes.entries (text "/a/b/c") (longest_prefix (text "/a/b/c") routes)
longest_prefix-Answers_example = longest_prefix-Answers (text "/a/b/c") routes routes-IsSorted
