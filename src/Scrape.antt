-- ===== src/Scrape.antt =====
-- internal/scout/scrape.go and coverage.go: the releases that the indexers answer with, made one list, and
-- what the list says of the indexers.
--
-- The indexers are asked side by side; what each attempt gave is an argument, and so is what errors.Is and
-- errors.As say of an error. Times and the label of a source are only copied, and are left out.
pub mod Dedupe
pub mod Merged
pub mod Quorum
mod Tests
use den_scout.Prelude.{
  ℕ, suc, ◌+◌, Bool, true, false, not, ◌&&◌, ◌||◌, String, Option, none, some, List, [], ◌∷◌, ◌++◌,
  str_eq, ltb, leb, ◌==◌, length, get_elem?, set, if◌then◌else◌,
}
use den_scout.Prelude.Assoc.{lookup, insert}
use den_scout.Release.{RawStream, int_or}

-- What a later release of a hash adds to the first: facts that are missing, and more seeders.
abbrev pub first_said {ℓ} : {A : Type ℓ} → Option A → Option A → Option A
first_said none b = b
first_said (some a) b = some a

abbrev pub more_seeders : Option ℕ → Option ℕ → Option ℕ
more_seeders held new = if ltb (int_or held 0) (int_or new 0) then new else held

unfoldable pub merge : RawStream → RawStream → RawStream
merge e s = record e {
  file_idx = first_said e.file_idx s.file_idx;
  size_bytes = first_said e.size_bytes s.size_bytes;
  seeders = more_seeders e.seeders s.seeders;
}

-- The position of each hash, and the list.
pub record Deduped : Type 0 where
  pub index : List (String × ℕ)
  pub out : List RawStream

unfoldable pub merge_at : ℕ → RawStream → List RawStream → List RawStream
unfolding merge
merge_at pos s out = elim (get_elem? out pos) [ none ↦ out | some e ↦ set out pos (merge e s) ]

unfoldable pub take_in : RawStream → Deduped → Deduped
unfolding merge_at
take_in s d = elim (lookup s.info_hash d.index) [
  | some pos ↦ record d { out = merge_at pos s d.out }
  | none ↦ record { index = insert s.info_hash (length d.out) d.index; out = d.out ++ s ∷ [] }
]

unfoldable pub take_all : List RawStream → Deduped → Deduped
unfolding take_in
take_all [] d = d
take_all (s ∷ seeds) d = take_all seeds (take_in s d)

unfoldable pub dedupe : List RawStream → List RawStream
unfolding take_all
dedupe seeds = (take_all seeds (record { index = []; out = [] })).out

pub data Outcome : Type 0 where
  answered unreachable refused timeout misconfigured quarantined : Outcome

-- How a scrape ended: whether the source can be asked at all, and of what kind its error is.
pub data ScrapeError : Type 0 where
  unaskable : Bool → ScrapeError
  deadline : ScrapeError
  not_public : ScrapeError
  http_status : ℕ → ScrapeError
  other : ScrapeError

unfoldable pub classify_scrape : Option ScrapeError → Outcome
classify_scrape none = answered
classify_scrape (some (unaskable true)) = unreachable
classify_scrape (some (unaskable false)) = misconfigured
classify_scrape (some deadline) = timeout
classify_scrape (some not_public) = refused
classify_scrape (some (http_status code)) =
    if code == 408 then timeout else if leb 400 code && ltb code 500 then refused else unreachable
classify_scrape (some other) = unreachable

abbrev pub excused_from_quorum : Outcome → Bool
excused_from_quorum misconfigured = true
excused_from_quorum quarantined = true
excused_from_quorum _ = false

abbrev pub is_answered : Outcome → Bool
is_answered answered = true
is_answered _ = false

-- What one attempt gave: releases, or an error.
pub data Attempt : Type 0 where
  streams : List RawStream → Attempt
  error : ScrapeError → Attempt

pub record SourceReport : Type 0 where
  pub id : String
  pub outcome : Outcome
  pub items : ℕ

unfoldable pub report_of : String → Attempt → SourceReport
unfolding classify_scrape
report_of id (streams r) = record { id = id; outcome = classify_scrape none; items = length r }
report_of id (error e) = record { id = id; outcome = classify_scrape (some e); items = 0 }

unfoldable pub reports_of : List (String × Attempt) → List SourceReport
unfolding report_of
reports_of [] = []
reports_of ((id, a) ∷ attempts) = report_of id a ∷ reports_of attempts

abbrev pub streams_of : Attempt → List RawStream
streams_of (streams r) = r
streams_of (error e) = []

unfoldable pub gathered : List (String × Attempt) → List RawStream
gathered [] = []
gathered ((id, a) ∷ attempts) = streams_of a ++ gathered attempts

unfoldable pub any_answered : List SourceReport → Bool
any_answered [] = false
any_answered (r ∷ reports) = is_answered r.outcome || any_answered reports

-- Every source that could be asked has answered.
unfoldable pub all_answered : List SourceReport → Bool
all_answered [] = true
all_answered (r ∷ reports) =
    if excused_from_quorum r.outcome
    then all_answered reports
    else if not (is_answered r.outcome)
    then false
    else all_answered reports

pub record ScrapeResult : Type 0 where
  pub seeds : List RawStream
  pub any_ok : Bool
  pub complete : Bool
  pub sources : List SourceReport

unfoldable pub scrape_covered : List (String × Attempt) → ScrapeResult
unfolding reports_of gathered any_answered all_answered dedupe
scrape_covered attempts =
    let reports = reports_of attempts in
    let all = gathered attempts in
    let complete = all_answered reports in
    record {
      seeds = dedupe all;
      any_ok = any_answered reports && (complete || not (length all == 0));
      complete = complete;
      sources = reports;
    }

pub data AnswerKind : Type 0 where
  live partial empty unknown stale : AnswerKind

unfoldable pub decide_answer_kind : ℕ → Bool → String → AnswerKind
decide_answer_kind served complete degraded =
    if served == 0 && (not complete || not (str_eq degraded ""))
    then unknown
    else if served == 0
    then empty
    else if not complete
    then partial
    else live
