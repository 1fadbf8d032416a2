-- ===== src/LogLimit/Tests.antt =====
-- An indexer that is down for a while.
use den_scout.Prelude.{◌*◌, ◌≡◌, refl, [], ◌∷◌}
use den_scout.AddBudget.{second}
use den_scout.Prelude.Assoc.{lookup, insert}
use den_scout.LogLimit.{log_limited}
use den_scout.LogLimit.History.{Calls, lines}

abbrev down : Calls
down =
    ("torrentio", 0)
    ∷ ("torrentio", 20 * second)
    ∷ ("mediafusion", 20 * second)
    ∷ ("torrentio", 10 * second)
    ∷ ("torrentio", 10 * second)
    ∷ ("torrentio", 1 * second)
    ∷ []

two_lines : lines "torrentio" [] 0 down ≡ 2
unfolding lines log_limited lookup insert
two_lines = refl
