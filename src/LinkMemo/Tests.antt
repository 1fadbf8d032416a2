-- ===== src/LinkMemo/Tests.antt =====
-- The link memo on concrete calls.
use den_scout.Prelude.{ℕ, ◌*◌, ◌≡◌, refl, inl, true, false, none, some, List, [], ◌∷◌, arith}
use den_scout.AddBudget.{minute}
use den_scout.Lru.{find, erase}
use den_scout.LinkMemo.{LinkMemo, get, put, minted, mark, mark_checked, trim}
use den_scout.LinkMemo.Invariant.{IsValid}
use den_scout.LinkMemo.Lookups.{
  Call, gets, puts, marks, memo_run, table_run, memo_step, MissOrAll, memo_run-table_run,
}

abbrev none_yet : LinkMemo
none_yet = []

none_yet-IsValid : IsValid none_yet
none_yet-IsValid = record { distinct = tt; bounded = omega arith }

abbrev plays : List (ℕ × Call)
plays =
    (0, puts "f1" "https://a" false)
    ∷ (1, gets "f1")
    ∷ (2, marks "f1" "https://old")
    ∷ (3, marks "f1" "https://a")
    ∷ (4, gets "f1")
    ∷ (10 * minute, gets "f1")
    ∷ []

-- Marking another link changes nothing; at ten minutes the link is gone.
plays_run :
    memo_run none_yet plays
    ≡ none
      ∷ some (minted "f1" "https://a" false 0)
      ∷ none
      ∷ none
      ∷ some (minted "f1" "https://a" true 0)
      ∷ none
      ∷ []
unfolding memo_run memo_step get put find erase trim minted mark mark_checked
plays_run = refl

memo_run-table_run_example : MissOrAll (memo_run none_yet plays) (table_run (λ k. none) plays)
unfolding find
memo_run-table_run_example =
    memo_run-table_run none_yet (λ k. none) plays none_yet-IsValid (λ k. inl refl)
