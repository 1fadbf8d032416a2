-- ===== src/Stores.antt =====
-- internal/scout/stores.go: the debrid stores as the pool sees them, and what their calls return.
pub mod Memory
pub mod Pool
pub mod RealDebrid
pub mod Files
use den_scout.Prelude.{ℕ, Bool, true, false, String, Option, List}

-- config.go's DebridService.
pub data Service : Type 0 where
  torbox real_debrid premiumize : Service

abbrev pub same_service : Service → Service → Bool
same_service torbox torbox = true
same_service real_debrid real_debrid = true
same_service premiumize premiumize = true
same_service _ _ = false

pub record ResolveTarget : Type 0 where
  pub info_hash : String
  pub file_idx : Option ℕ
  pub season : Option ℕ
  pub episode : Option ℕ
  pub no_add : Bool
  pub prefetch : Bool
  pub release_size : ℕ
  pub list_files : Bool
  pub title : String
  pub imdb : String

-- The errors of a resolve, as errors.Is and errors.As tell them apart: errAddInFlight, which wraps a
-- StoreUnavailableError; errAddQueued; a StoreUnavailableError, alone or under errScoutSide; a
-- DeadLinkError; and any other. An unavailable service comes with the HTTP status it answered, 0 for none.
pub data StoreError : Type 0 where
  add_in_flight : Service → String → StoreError
  add_queued : StoreError
  unavailable : Service → String → ℕ → StoreError
  scout_side : String → StoreError
  dead_link : String → StoreError
  failure : String → StoreError

pub data Resolved : Type 0 where
  link : String → Resolved
  failed : StoreError → Resolved

-- The progress is the bits of its float, which is only copied; `service` is empty until the pool sets it.
pub record StoreStatus : Type 0 where
  pub progress : ℕ
  pub eta_seconds : Option ℕ
  pub bytes_per_second : Option ℕ
  pub state : String
  pub seeds : Option ℕ
  pub peers : Option ℕ
  pub service : Option Service

pub data StatusAnswer : Type 0 where
  status_no status_downloading status_unknown : StatusAnswer

-- A backend, over the state `W` of the services, the caches and the clock. A status read is given the
-- deadline of its context, if it has one. `status_answer` is there for a store that is a statusAnswerer.
pub record Store (W : Type 0) : Type 0 where
  pub service : Service
  pub cache_check : List String → Option (List (String × Bool))
  pub resolve : ResolveTarget → W → W × Resolved
  pub status : Option ℕ → ResolveTarget → W → W × Option StoreStatus
  pub status_answer : Option (Option ℕ → ResolveTarget → W → W × (StoreStatus × StatusAnswer))
