-- ===== src/Rank/Account.antt =====
-- rankDebug: where a list went.
use den_scout.Prelude.{
  ℕ, suc, ◌+◌, ◌-◌, ◌≡◌, ◌≢◌, refl, String, Option, none, some, List, [], ◌∷◌, arith, length,
  length-map, length-take, map, Bool-cases, Option-cases, inl, inr, ltb, str_eq, str_eq_iff,
  if◌then◌else◌, sym, ap, ◌∙◌,
}
use den_scout.Prelude.Sorting.{length-sort_by}
use den_scout.Prelude.Assoc.{lookup, insert, lookup-insert}
use den_scout.Release.{RawStream}
use den_scout.Rank.Filters.{Judges, RankFilters, drop_reason}
use den_scout.Rank.Listing.{
  Scored, RankDebug, count_of, drop_n, before, sort_scored, judge_from, cap_list, debug_score,
  report, rank_streams,
}

-- The sum of all counts.
pub total : List (String × ℕ) → ℕ
total [] = 0
total ((reason, n) ∷ counts) = n + total counts

total-insert :
    (reason : String) (v : ℕ) (counts : List (String × ℕ))
    → total (insert reason v counts) + count_of reason counts ≡ total counts + v
unfolding total insert lookup
total-insert reason v [] = omega arith
total-insert reason v ((held, n) ∷ counts) = ground (arith, total-insert reason v counts)

-- A debug after a release was dropped.
abbrev dropped : RankDebug → String → ℕ → RankDebug
dropped d reason n = record d {
  dropped_by = insert reason (count_of reason d.dropped_by + n) d.dropped_by;
}

dropped-total :
    (d : RankDebug) (reason : String) (n : ℕ)
    → total (dropped d reason n).dropped_by ≡ total d.dropped_by + n
dropped-total d reason n =
    omega (arith, total-insert reason (count_of reason d.dropped_by + n) d.dropped_by)

dropped-count :
    (d : RankDebug) (reason r : String) (n : ℕ)
    → count_of r (dropped d reason n).dropped_by
      ≡ count_of r d.dropped_by + (if str_eq reason r then n else 0)
dropped-count d reason r n = ground (
  arith,
  lookup-insert reason r (count_of reason d.dropped_by + n) d.dropped_by,
  str_eq_iff reason r,
)

length-sort_scored : (l : List Scored) → length (sort_scored l) ≡ length l
unfolding sort_scored
length-sort_scored l = length-sort_by before l

module _ (judges : Judges) (f : RankFilters) where
  -- How many of the streams the filter of that name drops.
  unfoldable pub tally : String → List RawStream → ℕ
  tally r [] = 0
  tally r (s ∷ streams) = elim (drop_reason judges f s) [
    | none ↦ tally r streams
    | some reason ↦ (if str_eq reason r then 1 else 0) + tally r streams
  ]

  -- What the loop over the streams does to the account.
  record IsJudgedInto (i : ℕ) (streams : List RawStream) (d e : RankDebug) : Type 0 where
    result : (judge_from judges f i streams (some d)).1 ≡ some e
    sum :
        length (judge_from judges f i streams (some d)).0 + total e.dropped_by
        ≡ length streams + total d.dropped_by
    counts : (r : String) → count_of r e.dropped_by ≡ count_of r d.dropped_by + tally r streams

  judge_from-account :
      (i : ℕ) (streams : List RawStream) (d : RankDebug)
      → (e : RankDebug) × IsJudgedInto i streams d e
  unfolding judge_from tally drop_n
  judge_from-account i [] d = (d, record { result = refl; sum = refl; counts = λ r. omega arith })
  judge_from-account i (s ∷ streams) d = elim (Option-cases (drop_reason judges f s)) [
    | inl q ↦
        let (e, v) = judge_from-account (suc i) streams d in
        (
          e,
          record {
            result = rw (q, judge_from) v.result;
            sum = rw (q, judge_from) (omega (arith, v.sum));
            counts = λ r. rw (q, tally) (v.counts r);
          },
        )
    | inr (reason, q) ↦
        let (e, v) = judge_from-account (suc i) streams (dropped d reason 1) in
        (
          e,
          record {
            result = rw (q, judge_from) v.result;
            sum = rw (q, judge_from) (omega (arith, v.sum, dropped-total d reason 1));
            counts = λ r. rw (q, tally) (omega (arith, v.counts r, dropped-count d reason r 1));
          },
        )
  ]

  record IsCappedInto (out : List Scored) (d e : RankDebug) : Type 0 where
    result : (cap_list judges f out (some d)).1 ≡ some e
    sum :
        length (cap_list judges f out (some d)).0 + total e.dropped_by
        ≡ length out + total d.dropped_by
    counts : (r : String) → r ≢ "resultCap" → count_of r e.dropped_by ≡ count_of r d.dropped_by

  cap_list-account : (out : List Scored) (d : RankDebug) → (e : RankDebug) × IsCappedInto out d e
  unfolding cap_list drop_n
  cap_list-account out d = elim (Bool-cases (ltb f.result_cap (length out))) [
    | inl q ↦
        let over = length out - f.result_cap in
        let held = count_of "resultCap" d.dropped_by in
        (
          dropped d "resultCap" over,
          record {
            result = rw (q, cap_list) (ground (arith, q));
            sum =
                rw (q, cap_list)
                  (ground
                    (arith, q, dropped-total d "resultCap" over, length-take f.result_cap out));
            counts = λ r h.
                ground (arith, h, dropped-count d "resultCap" r over, str_eq_iff "resultCap" r);
          },
        )
    | inr q ↦ (
      d,
      record { result = rw (q, cap_list) refl; sum = rw (q, cap_list) refl; counts = λ r h. refl },
    )
  ]

  -- The account of one ranking.
  pub record IsAccountOf (streams served : List RawStream) (d e : RankDebug) : Type 0 where
    pub ranked : e.ranked ≡ length served
    pub sum : length served + total e.dropped_by ≡ length streams + total d.dropped_by
    pub counts :
        (r : String)
        → r ≢ "resultCap"
        → count_of r e.dropped_by ≡ count_of r d.dropped_by + tally r streams

  -- A ranking that keeps an account ends with one that balances: its `ranked` is the number of releases
  -- served; those and all drops are the releases given and the drops before; and each filter's count grew
  -- by exactly the number of releases that it dropped.
  pub rank_streams-account :
      (streams : List RawStream) (d : RankDebug)
      → (e : RankDebug) × ((rank_streams judges f streams (some d)).1 ≡ some e)
        × IsAccountOf streams (rank_streams judges f streams (some d)).0 d e
  unfolding rank_streams report
  rank_streams-account streams d =
      let (mid, v) = judge_from-account 0 streams d in
      let judged = (judge_from judges f 0 streams (some d)).0 in
      let (e, w) = cap_list-account (sort_scored judged) mid in
      let capped = (cap_list judges f (sort_scored judged) (some mid)).0 in
      (
        record e { ranked = length capped; kept = map debug_score capped },
        ap
              (λ (x : Option RankDebug).
                let (out, y) = cap_list judges f (sort_scored judged) x in report judges f out y)
              v.result
            ∙ ap (report judges f capped) w.result,
        record {
          ranked = rw (v.result) (sym (length-map capped (λ (a : Scored). a.s)));
          sum = rw (v.result) (
              omega (
                arith,
                v.sum,
                w.sum,
                length-sort_scored judged,
                length-map capped (λ (a : Scored). a.s),
              ));
          counts = λ r h. omega (arith, v.counts r, w.counts r h);
        },
      )
