-- ===== src/AddBudget/Tests.antt =====
-- The add budget on concrete calls.
use den_scout.Prelude.{
  ℕ, ◌+◌, ◌≤◌, ◌<◌, ◌≡◌, refl, str_eq, Bool-cases, inl, inr, true, false, List, [], ◌∷◌, length,
  arith,
}
use den_scout.Prelude.Assoc.{lookup, insert, filter_values}
use den_scout.AddBudget.{
  AddBudget, live, ceiling, charges, has_live, drop_drained, take, refund, remaining, frees_in,
  lowest, lowest_from, lower_left, count_spent, new_add_budget,
}
use den_scout.AddBudget.Log.{Event, takes, refunds, log_run, log_end}
use den_scout.AddBudget.Refine.{run, step, run-within_limit}
use den_scout.AddBudget.Waits.{IsValid, frees_in-take}

-- Three adds in a window of ten, at 1, 4 and 6; two of them may stand together with no reserve.
abbrev spent_two : AddBudget
spent_two = record {
  limits = record { window = 10; limit = 2; reserve = 1 };
  spent = ("torbox:a", 4 ∷ 1 ∷ []) ∷ [];
}

spent_two-IsValid : IsValid 6 spent_two
unfolding charges lookup
spent_two-IsValid = record {
  is_map = (refl, tt);
  ordered = λ a. elim (Bool-cases (str_eq "torbox:a" a)) [
    | inl hit ↦ rw (hit, charges, lookup) (omega arith)
    | inr miss ↦ rw (miss, charges, lookup) tt
  ];
}

abbrev history : List (ℕ × Event)
history =
    (1, takes "torbox:a" false)
    ∷ (3, takes "torbox:a" true)
    ∷ (2, takes "torbox:a" false)
    ∷ (0, refunds "torbox:a")
    ∷ (9, takes "torbox:a" true)
    ∷ []

-- A limit of six: five kept for Play, so the prefetches are refused.
history_answers : (run (new_add_budget 10 6) 0 history).1 ≡ true ∷ false ∷ true ∷ true ∷ true ∷ []
unfolding run step new_add_budget take refund drop_drained filter_values has_live charges lookup
    insert ceiling
history_answers = refl

run-within_limit_example :
    let b = new_add_budget 10 6 in
    length (live b.limits 15 ((log_run b.limits (λ a. []) 0 history).0 "torbox:a")) ≤ b.limit
unfolding log_end
run-within_limit_example = (run-within_limit 10 6 0 history "torbox:a").1

-- At 6 the account is at its limit; the charge at 1 drains at 11, five later.
frees_in_runs : frees_in spent_two "torbox:a" false 6 ≡ 5
unfolding frees_in charges lookup ceiling
frees_in_runs = refl

frees_in-take_example :
    ((take spent_two "torbox:a" false (6 + frees_in spent_two "torbox:a" false 6)).1 ≡ true)
    × ((later : ℕ)
        → 6 ≤ later
        → later < 6 + frees_in spent_two "torbox:a" false 6
        → (take spent_two "torbox:a" false later).1 ≡ false)
frees_in-take_example =
    frees_in-take spent_two "torbox:a" false 6 spent_two-IsValid (unfold ceiling in omega arith)

-- The account has nothing left, and it is the only one.
lowest_runs : lowest spent_two 6 ≡ (0, 1)
unfolding lowest lowest_from lower_left count_spent remaining charges lookup
lowest_runs = refl
