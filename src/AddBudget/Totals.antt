-- ===== src/AddBudget/Totals.antt =====
-- Refunds, and what `lowest` reports over all accounts.
use native.Mathlib.Nat.{le_trans}
use den_scout.Prelude.{
  ℕ, ◌-◌, ap, str_eq_refl, ◌≤◌, ◌≡◌, ◌≢◌, refl, ◌∙◌, ◌⊎◌, inl, inr, Bool, true, String, none, List,
  [], ◌∷◌, arith, length, str_eq, str_eq_iff, Option-cases, Bool-cases,
}
use den_scout.Prelude.Assoc.{lookup, insert}
use den_scout.AddBudget.{
  AddBudget, live, charges, take, refund, refund_add, not_sent, sent, remaining, lowest,
  lowest_from, drop_drained, lower_left, count_spent,
}
use den_scout.AddBudget.Live.{live-live}
use den_scout.AddBudget.Refine.{live-drop_drained, charges-insert}
use den_scout.AddBudget.Waits.{IsValid}

refund_charged :
    (b : AddBudget) (a : String) (t : ℕ) (ts : List ℕ)
    → charges a b.spent ≡ t ∷ ts
    → refund b a ≡ record b { spent = insert a ts b.spent }
unfolding refund
refund_charged b a t ts e = rw (e, refund)

take_granted :
    (b : AddBudget) (a : String) (p : Bool) (now : ℕ)
    → (take b a p now).1 ≡ true
    → let m = drop_drained b.limits now b.spent in
      (take b a p now).0 ≡ record b { spent = insert a (now ∷ live b.limits now (charges a m)) m }
unfolding take
take_granted b a p now h = ground arith

-- A charge given back because its request was never sent leaves every account with what it had before,
-- and a request that was sent keeps its charge.
pub take-refund_add :
    (b : AddBudget) (a x : String) (p : Bool) (now : ℕ)
    → IsValid now b
    → (take b a p now).1 ≡ true
    → (remaining (refund_add (take b a p now).0 a not_sent) x now ≡ remaining b x now)
      × (refund_add (take b a p now).0 a sent ≡ (take b a p now).0)
unfolding refund_add
take-refund_add b a x p now v h = rw (take_granted b a p now h) (
    rw
      (refund_charged (record b { spent = insert a (now ∷ kept) m }) a now kept
        (rw (charges-insert a a (now ∷ kept) m, str_eq_refl)))
      (unfold remaining in (ap (λ (n : ℕ). b.limit - n) (ap length back), refl)))
  where
    m : List (String × List ℕ)
    m = drop_drained b.limits now b.spent

    kept : List ℕ
    kept = live b.limits now (charges a m)

    pruned : (y : String) → live b.limits now (charges y m) ≡ live b.limits now (charges y b.spent)
    pruned y = (live-drop_drained b.limits now y b.spent v.is_map (v.ordered y)).0

    back :
        live b.limits now (charges x (insert a kept (insert a (now ∷ kept) m)))
        ≡ live b.limits now (charges x b.spent)
    back =
        rw (charges-insert a x kept (insert a (now ∷ kept) m), charges-insert a x (now ∷ kept) m)
          (ground
            (arith, str_eq_iff a x, pruned x, pruned a, live-live b.limits now now (charges a m)))

lower_left-le : (b : AddBudget) (r left : ℕ) → lower_left b r left ≤ left
unfolding lower_left
lower_left-le b r left = ground arith

lower_left-le_right : (b : AddBudget) (r left : ℕ) → left ≤ b.limit → lower_left b r left ≤ r
unfolding lower_left
lower_left-le_right b r left h = ground arith

lower_left-cases :
    (b : AddBudget) (r left : ℕ) → (lower_left b r left ≡ left) ⊎ (lower_left b r left ≡ r)
unfolding lower_left
lower_left-cases b r left = ground arith

-- `lowest` counts down from the limit.
lowest_from-le :
    (b : AddBudget) (now : ℕ) (m : List (String × List ℕ)) (left n : ℕ)
    → (lowest_from b now m left n).0 ≤ left
unfolding lowest_from
lowest_from-le b now [] left n = omega arith
lowest_from-le b now ((a, ts) ∷ m) left n =
    le_trans (lowest_from-le b now m _ _) (lower_left-le b (remaining b a now) left)

lowest_from-key :
    (b : AddBudget) (now : ℕ) (m : List (String × List ℕ)) (left n : ℕ) (a : String)
    → left ≤ b.limit
    → lookup a m ≢ none
    → (lowest_from b now m left n).0 ≤ remaining b a now
unfolding lowest_from lookup
lowest_from-key b now [] left n a h k = absurd (k refl)
lowest_from-key b now ((i, ts) ∷ m) left n a h k = elim (Bool-cases (str_eq i a)) [
  | inl hit ↦
      let e : i ≡ a = (str_eq_iff i a).0 hit in
      rw e
        (le_trans (lowest_from-le b now m _ _) (lower_left-le_right b (remaining b a now) left h))
  | inr miss ↦
      lowest_from-key b now m _ _ a (le_trans (lower_left-le b (remaining b i now) left) h)
        (rw miss at k)
]

lowest_from-attained :
    (b : AddBudget) (now : ℕ) (m : List (String × List ℕ)) (left n : ℕ)
    → ((lowest_from b now m left n).0 ≡ left)
      ⊎ ((a : String) × ((lowest_from b now m left n).0 ≡ remaining b a now))
unfolding lowest_from
lowest_from-attained b now [] left n = inl refl
lowest_from-attained b now ((i, ts) ∷ m) left n =
    elim (lowest_from-attained b now m (lower_left b (remaining b i now) left)
      (count_spent b (remaining b i now) n)) [
        | inl e ↦ elim (lower_left-cases b (remaining b i now) left) [
          | inl f ↦ inl (e ∙ f)
          | inr f ↦ inr (i, e ∙ f)
        ]
        | inr (a, e) ↦ inr (a, e)
      ]

remaining-missing :
    (b : AddBudget) (a : String) (now : ℕ) → lookup a b.spent ≡ none → remaining b a now ≡ b.limit
unfolding remaining charges
remaining-missing b a now h = ground arith

-- What `lowest` reports is no more than any account has left, and is what some account has left, or the
-- whole limit.
pub lowest-least :
    (b : AddBudget) (now : ℕ)
    → ((a : String) → (lowest b now).0 ≤ remaining b a now)
      × (((lowest b now).0 ≡ b.limit) ⊎ ((a : String) × ((lowest b now).0 ≡ remaining b a now)))
unfolding lowest
lowest-least b now = (
  λ a. elim (Option-cases (lookup a b.spent)) [
    | inl e ↦ rw (remaining-missing b a now e) (lowest_from-le b now b.spent b.limit 0)
    | inr (ts, e) ↦ lowest_from-key b now b.spent b.limit 0 a (omega arith) (λ n. cc)
  ],
  lowest_from-attained b now b.spent b.limit 0,
)
