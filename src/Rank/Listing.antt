-- ===== src/Rank/Listing.antt =====
-- internal/scout/rank.go: rankStreams, and the account that it keeps of what it dropped.
use den_scout.Prelude.{
  ℕ, suc, ◌+◌, ◌-◌, Bool, ◌||◌, String, Option, none, some, List, [], ◌∷◌, ltb, ◌==◌, length, take,
  map, if◌then◌else◌,
}
use den_scout.Prelude.Int.{ℤ, ltb_ℤ}
use den_scout.Prelude.Sorting.{sort_by}
use den_scout.Prelude.Assoc.{lookup, insert}
use den_scout.Pattern.{Text}
use den_scout.Release.{RawStream, to_lower, int_or}
use den_scout.Attributes.Detect.{detect_resolution_lower}
use den_scout.Rank.Filters.{Judges, RankFilters, drop_reason, score}

pub record DebugScore : Type 0 where
  pub title : Text
  pub score : ℤ
  pub resolution : String
  pub cached : Bool

pub record RankDebug : Type 0 where
  pub deduped : ℕ
  pub ranked : ℕ
  pub dropped_by : List (String × ℕ)
  pub kept : List DebugScore
  pub note : String

abbrev pub count_of : String → List (String × ℕ) → ℕ
count_of reason counts = elim (lookup reason counts) [ none ↦ 0 | some n ↦ n ]

-- dropN, of a debug that may be nil.
unfoldable pub drop_n : Option RankDebug → String → ℕ → Option RankDebug
drop_n none reason n = none
drop_n (some d) reason n =
    if n == 0
    then some d
    else some
        (record d { dropped_by = insert reason (count_of reason d.dropped_by + n) d.dropped_by })

pub record Scored : Type 0 where
  pub s : RawStream
  pub idx : ℕ
  pub score : ℤ
  pub seeders : ℕ

-- The comparison of the sort.
unfoldable pub before : Scored → Scored → Bool
before a b =
    if ltb_ℤ b.score a.score || ltb_ℤ a.score b.score
    then ltb_ℤ b.score a.score
    else if ltb b.seeders a.seeders || ltb a.seeders b.seeders
    then ltb b.seeders a.seeders
    else ltb a.idx b.idx

unfoldable pub sort_scored : List Scored → List Scored
unfolding before
sort_scored out = sort_by before out

abbrev pub debug_score : Scored → DebugScore
debug_score a = record {
  title = a.s.title;
  score = a.score;
  resolution = detect_resolution_lower (to_lower a.s.title);
  cached = a.s.cached;
}

module _ (judges : Judges) (f : RankFilters) where
  abbrev pub scored : RawStream → ℕ → Scored
  scored s i = record { s = s; idx = i; score = score judges f s; seeders = int_or s.seeders 0 }

  -- The loop over the streams, from an index on.
  unfoldable pub judge_from : ℕ → List RawStream → Option RankDebug → List Scored × Option RankDebug
  unfolding drop_n
  judge_from i [] debug = ([], debug)
  judge_from i (s ∷ streams) debug = elim (drop_reason judges f s) [
    | some reason ↦ judge_from (suc i) streams (drop_n debug reason 1)
    | none ↦ let (out, d) = judge_from (suc i) streams debug in (scored s i ∷ out, d)
  ]

  -- What is done with the list once it is sorted.
  unfoldable pub cap_list : List Scored → Option RankDebug → List Scored × Option RankDebug
  unfolding drop_n
  cap_list out debug =
      if ltb f.result_cap (length out)
      then (take f.result_cap out, drop_n debug "resultCap" (length out - f.result_cap))
      else (out, debug)

  unfoldable pub report : List Scored → Option RankDebug → Option RankDebug
  report out none = none
  report out (some d) = some (record d { ranked = length out; kept = map debug_score out })

  unfoldable pub rank_streams :
      List RawStream → Option RankDebug → List RawStream × Option RankDebug
  unfolding judge_from sort_scored cap_list report
  rank_streams streams debug =
      let (judged, d) = judge_from 0 streams debug in
      let (out, e) = cap_list (sort_scored judged) d in (map (λ a. a.s) out, report out e)
