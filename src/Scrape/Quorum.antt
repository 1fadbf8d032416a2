-- ===== src/Scrape/Quorum.antt =====
-- What it takes to say that a title has no releases.
use den_scout.Prelude.{
  ℕ, ◌≡◌, refl, true, false, ◌||◌, String, some, List, [], ◌∷◌, str_eq_iff, Each, arith,
}
use den_scout.Scrape.{
  ScrapeError, unaskable, deadline, not_public, http_status, other, classify_scrape,
  excused_from_quorum, is_answered, Attempt, streams, error, report_of, reports_of, all_answered,
  scrape_covered, empty, decide_answer_kind,
}

-- The source gave releases, or none; or it can never be asked.
abbrev pub HasVoted : String × Attempt → Type 0
HasVoted (id, streams r) = Unit
HasVoted (id, error e) = e ≡ unaskable false

classify_scrape-HasVoted :
    (id : String) (e : ScrapeError)
    → (excused_from_quorum (classify_scrape (some e)) || is_answered (classify_scrape (some e)))
      ≡ true
    → HasVoted (id, error e)
unfolding classify_scrape
classify_scrape-HasVoted id (unaskable false) h = refl
classify_scrape-HasVoted id (unaskable true) h = ground (arith, h)
classify_scrape-HasVoted id deadline h = ground (arith, h)
classify_scrape-HasVoted id not_public h = ground (arith, h)
classify_scrape-HasVoted id (http_status code) h = ground (arith, h)
classify_scrape-HasVoted id other h = ground (arith, h)

all_answered-HasVoted :
    (attempts : List (String × Attempt))
    → all_answered (reports_of attempts) ≡ true
    → Each HasVoted attempts
unfolding all_answered reports_of report_of
all_answered-HasVoted [] h = tt
all_answered-HasVoted ((id, streams r) ∷ attempts) h =
    (tt, all_answered-HasVoted attempts (unfold classify_scrape in ground (arith, h)))
all_answered-HasVoted ((id, error e) ∷ attempts) h = (
  classify_scrape-HasVoted id e (ground (arith, h)),
  all_answered-HasVoted attempts (ground (arith, h)),
)

-- A list says that a title has no releases only if it serves none, nothing about it is degraded, and every
-- source voted: each one answered, or can never be asked. One that failed, in whatever way, is enough
-- against it.
pub empty_is_unanimous :
    (attempts : List (String × Attempt)) (served : ℕ) (degraded : String)
    → decide_answer_kind served (scrape_covered attempts).complete degraded ≡ empty
    → (served ≡ 0) × (degraded ≡ "") × Each HasVoted attempts
unfolding decide_answer_kind scrape_covered
empty_is_unanimous attempts served degraded h = (
  ground (arith, h),
  ground (arith, h, str_eq_iff degraded ""),
  all_answered-HasVoted attempts (ground (arith, h)),
)
