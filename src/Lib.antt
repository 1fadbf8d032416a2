-- ===== src/Lib.antt =====
-- den-scout: a Stremio stream addon. It scrapes torrent indexers for the releases of a title, asks a
-- debrid account which of them it holds, ranks them for an Apple TV or for a browser, and resolves a
-- play link for the one that is chosen.
--
-- The parts and how they meet. A scrape yields releases (RawStream). Requests to indexers and to the
-- debrid go through a limiter per host (internal/scout/hostlimit.go) and a transport that stops asking
-- an upstream which refused (upstreampause.go); adds to a debrid account are charged to a budget
-- (addbudget.go); bodies are kept in a bounded cache (cache.go) and minted links in a memo
-- (linkmemo.go). rankStreams (rank.go) filters, scores, sorts and caps the releases; the score reads
-- the title by regular expressions, the attributes (attributes.go) join the title with what a probe
-- read from the file, and a browser's report (client.go) turns them into a cost. A household has up to
-- three debrid stores, behind one pool (stores.go): it asks them all which releases are held, with the
-- truth that the ranking uses, and tries them in turn for a play link; each picks the file of a torrent
-- by the patterns of season.go. A list is kept (handler.go) past its freshness, and rebuilt behind the
-- answer under a lease.
--
-- The files:
--   Prelude: booleans, lists, integers and Go's maps over the native numbers. Keep is the filter of a
--     list and what holds of each element.
--   Pattern: the part of Go's regexp and of regexp2 that the patterns use, as a matcher that runs.
--   Decimal: strconv's decimal digits and %02d.
--   Release: rank.go's RawStream, probe.go's Probe, and the text functions of the standard library.
--   Rank: rank.go. Patterns and JunkPatterns (the expressions), Junk (junkClassOf), Score
--     (qualityScoreLower), Titles (releaseYears, yearMismatch, titleTokens, titleOverlap), Filters (the
--     tests and the sinks of one release), Listing (rankStreams), Seeds (capSeeds, realDebridBlocked);
--     Order, Served and Account prove the list, Dominance, Balance and Weights what the weights
--     guarantee.
--   Attributes: attributes.go. Detect (the title), Probed (withProbe, streamAttributes, containerOf).
--   Client: client.go. Its cost, one function to each codec's case; Cost bounds it, Monotone compares
--     two browsers.
--   AddBudget: addbudget.go. Log is a specification that keeps every charge, Refine the refinement.
--   UpstreamPause: upstreampause.go, its headers in UpstreamPause/Headers.
--   HostLimit: hostlimit.go.
--   Lru, MemoryCache and LinkMemo: the list and map that cache.go and linkmemo.go share, and these two.
--   LogLimit: loglimit.go.
--   StreamId: id.go.
--   Matroska: the walk of probe.go to the Tracks element.
--   Season: season.go. Patterns (the expressions), Ranges (a label of several episodes, with its
--     captures), Pick (pickEpisodeFile and the other choices of a file); Cached proves the map of
--     compiled patterns, Chosen the choice.
--   Stores: the stores as stores.go's pool sees them. Pool is StorePool (CacheCheck, ordered,
--     ResolvePreferring, ResolveCachedOnly), proved in Pool/Truth, Pool/Order, Pool/Resolve and
--     Pool/Status, with StatusDetail in Pool/Detail; Files is the choice of a file by each kind of
--     store and rdLinkFor, proved in Files/Choice, Files/Asked and Files/Links. Memory is what a store
--     keeps in the cache of an add it sent, of a refusal and of a queued transfer, over an interface of
--     the cache of which nothing is assumed, with the transfers in Memory/Transfers; RealDebrid is the
--     part of its Resolve that adds a torrent, proved in RealDebrid/Gates and RealDebrid/Stamp.
--   Scrape: scrapeCovered and dedupe of scrape.go, and coverage.go. Dedupe and Merged prove the list,
--     Quorum the judgement.
--   Rebuilds: the leases of handler.go (bookRebuild, releaseRebuild, markOutage, inOutage). History
--     runs them with the rebuilds that are under way, Leases proves the fence.
--   CachedList: splitCached and joinCached of handler.go, and the windows of a stale list.
--
-- Representation. Times and durations are nanoseconds as natural numbers, handed to each operation as
-- `now`; mutexes are not modelled, so an operation is one step. A Go map is an association list with
-- one entry to a key; a slice that is appended to is kept newest first in AddBudget, and container/list
-- is kept oldest first in MemoryCache and LinkMemo. A title is a list of code points, and its
-- lowercasing covers the letters that any pattern names. A pattern is matched by continuations, which
-- decides whether it matches. `math.Round` of a size is exact below 2^50 bytes. The float tokens of a
-- bucket are a signed credit of nanoseconds, `every` of them to a token. Scores are signed integers.
-- The frame rate is the bits of its float. sort.SliceStable is an insertion sort (Prelude/Sorting). The
-- walk over a file's head runs on fuel, of which the length of the head is enough. A marker in the
-- cache may be evicted at any time; the stamp in it is its number of seconds, in place of the decimal.
-- A slice that is out of range, where Go would panic, is a result of its own in Matroska. A store is a
-- record of functions over a state, so the pool's theorems hold of any store. The word boundary and the
-- digit of regexp2 are those of ASCII. A file's index is a natural number. The goroutines of one pass
-- over the stores or the indexers are run in the order of the list, since each writes a place of its
-- own. The digits of a number run on fuel, of which the number is enough. The generation of a lease is
-- a uint64 and wraps around; the freshness of a list is an int64. A catch of a missing position, where
-- Go would panic, is written out where it cannot come about.
--
-- Not modelled here: the pattern with a lookbehind, which a third-party engine matches, and is an
-- argument of the ranking, as are otherShow and otherEpisode (the latter is Season's other_episode);
-- the label of a stream; the parsing of header numbers and dates, of JSON and of URLs, which is
-- net/http's and the standard library's; the HTTP calls of the debrid clients, the rest of their
-- resolves and what they remember of torrents; the HTTP handlers, sealing and tickets, configuration,
-- the tracks of a probe and the choice of what to probe, the disk cache, metrics and the text of logs.
pub mod Prelude
pub mod Pattern
pub mod Release
pub mod AddBudget
pub mod Lru
pub mod MemoryCache
pub mod LinkMemo
pub mod UpstreamPause
pub mod HostLimit
pub mod Attributes
pub mod Client
pub mod Rank
pub mod Matroska
pub mod LogLimit
pub mod StreamId
pub mod Stores
pub mod Decimal
pub mod Season
pub mod Rebuilds
pub mod CachedList
pub mod Scrape
