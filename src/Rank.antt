-- ===== src/Rank.antt =====
-- internal/scout/rank.go: how releases are judged, filtered and ordered.
pub mod JunkPatterns
pub mod Patterns
pub mod Junk
pub mod Score
pub mod Dominance
pub mod Stopwords
pub mod Titles
pub mod Filters
pub mod Listing
pub mod Order
pub mod Account
pub mod Served
pub mod Balance
pub mod Weights
pub mod Seeds
mod Tests
