-- ===== src/Scrape/Tests.antt =====
-- Sources that answer, fail and repeat each other.
use den_scout.Prelude.{
  ℕ, ◌≡◌, refl, false, String, Option, none, some, List, [], ◌∷◌, Each, keep, map,
}
use den_scout.Prelude.Assoc.{lookup, insert}
use den_scout.Pattern.{codes}
use den_scout.Release.{RawStream}
use den_scout.Scrape.{
  merge, merge_at, take_in, take_all, dedupe, unaskable, http_status, classify_scrape, Attempt,
  streams, error, report_of, reports_of, gathered, any_answered, all_answered, scrape_covered,
  empty, unknown, decide_answer_kind,
}
use den_scout.Scrape.Dedupe.{find, absorb_all, has_hash}
use den_scout.Scrape.Merged.{hash_of, first_hashes, dedupe-merged}
use den_scout.Scrape.Quorum.{HasVoted, empty_is_unanimous}

abbrev seed : String → Option ℕ → Option ℕ → RawStream
seed hash size seeders = record {
  info_hash = hash;
  file_idx = none;
  title = codes "a title";
  size_bytes = size;
  pack_size_bytes = none;
  seeders = seeders;
  cached = false;
  cache_known = false;
  source = "torrentio";
  probe = none;
}

abbrev three_seeds : List RawStream
three_seeds = seed "aa" none (some 3) ∷ seed "bb" none none ∷ seed "aa" (some 7) (some 9) ∷ []

merged_once : dedupe three_seeds ≡ seed "aa" (some 7) (some 9) ∷ seed "bb" none none ∷ []
unfolding dedupe take_all take_in merge_at merge lookup insert
merged_once = refl

dedupe-merged_example :
    (map hash_of (dedupe three_seeds) ≡ first_hashes [] three_seeds)
    × ((h : String) → find h (dedupe three_seeds) ≡ absorb_all none (keep (has_hash h) three_seeds))
dedupe-merged_example = dedupe-merged three_seeds

abbrev nothing_found : List (String × Attempt)
nothing_found = ("torrentio", streams []) ∷ ("mediafusion", error (unaskable false)) ∷ []

all_said_so : decide_answer_kind 0 (scrape_covered nothing_found).complete "" ≡ empty
unfolding decide_answer_kind scrape_covered reports_of report_of classify_scrape all_answered
    any_answered gathered dedupe
all_said_so = refl

one_timed_out :
    decide_answer_kind 0
      (scrape_covered (("comet", error (http_status 502)) ∷ nothing_found)).complete
      ""
    ≡ unknown
unfolding decide_answer_kind scrape_covered reports_of report_of classify_scrape all_answered
    any_answered gathered dedupe
one_timed_out = refl

abbrev none_served : ℕ
none_served = 0

abbrev not_degraded : String
not_degraded = ""

empty_is_unanimous_example : (none_served ≡ 0) × (not_degraded ≡ "") × Each HasVoted nothing_found
empty_is_unanimous_example = empty_is_unanimous nothing_found none_served not_degraded all_said_so
