-- ===== src/LogLimit.antt =====
-- internal/scout/loglimit.go: one line a minute for each condition.
pub mod History
mod Tests
use den_scout.Prelude.{ℕ, suc, ◌+◌, ◌-◌, ◌*◌, String, Option, none, some, List, ltb, if◌then◌else◌}
use den_scout.Prelude.Assoc.{lookup, insert}
use den_scout.AddBudget.{minute}

abbrev pub log_interval : ℕ
log_interval = minute

pub record LimitedEntry : Type 0 where
  pub at : ℕ
  pub suppressed : ℕ

-- limitedLog.last.
abbrev pub LimitedLog : Type 0
LimitedLog = List (String × LimitedEntry)

-- What becomes of a condition's entry, and the line that is written, if any, by how many it says were
-- held back; 0 is a line that says nothing of them.
unfoldable pub renew : Option LimitedEntry → ℕ → LimitedEntry × Option ℕ
renew none now = (record { at = now; suppressed = 0 }, some 0)
renew (some e) now =
    if ltb (now - e.at) log_interval
    then (record e { suppressed = suc e.suppressed }, none)
    else (record { at = now; suppressed = 0 }, some e.suppressed)

unfoldable pub log_limited : LimitedLog → String → ℕ → LimitedLog × Option ℕ
unfolding renew
log_limited last key now = let (e, line) = renew (lookup key last) now in (insert key e last, line)
