-- ===== src/MemoryCache.antt =====
-- internal/scout/cache.go: the memory cache, an LRU bounded by bytes with a lifetime per entry.
--
-- Each method holds the mutex throughout, and takes the clock's reading (nanoseconds).
pub mod Bytes
pub mod Invariant
pub mod Lookups
mod Tests
use Prim.Native.String.{len}
use den_scout.Prelude.{
  ℕ, ◌+◌, ◌-◌, Bool, true, false, String, Option, none, some, List, [], ◌∷◌, ◌++◌, ltb,
  if◌then◌else◌,
}
use den_scout.Lru.{find, erase}

pub record CacheEntry : Type 0 where
  pub key : String
  pub value : String
  pub expires : ℕ
  pub size : ℕ

pub record MemoryCache : Type 0 where
  pub ll : List CacheEntry
  pub bytes : ℕ
  pub max_bytes : ℕ

abbrev pub key_of : CacheEntry → String
key_of e = e.key

unfoldable pub new_memory_cache : ℕ → MemoryCache
new_memory_cache max_bytes = record { ll = []; bytes = 0; max_bytes = max_bytes }

unfoldable pub remove : MemoryCache → CacheEntry → MemoryCache
remove c e = record c { ll = erase key_of e.key c.ll; bytes = c.bytes - e.size }

-- `MoveToFront`.
unfoldable pub move_to_front : CacheEntry → List CacheEntry → List CacheEntry
move_to_front e ll = erase key_of e.key ll ++ e ∷ []

unfoldable pub get : MemoryCache → String → ℕ → MemoryCache × Option String
get c key now = elim (find key_of key c.ll) [
  | none ↦ (c, none)
  | some e ↦
      if ltb e.expires now
      then (remove c e, none)
      else (record c { ll = move_to_front e c.ll }, some e.value)
]

-- `for c.bytes > c.maxBytes && c.ll.Len() > 0 { c.remove(c.ll.Back()) }`.
unfoldable pub evict : ℕ → List CacheEntry → ℕ → List CacheEntry × ℕ
evict max_bytes [] bytes = ([], bytes)
evict max_bytes (e ∷ ll) bytes =
    let rest = evict max_bytes ll (bytes - e.size) in
    if ltb max_bytes bytes then rest else (e ∷ ll, bytes)

unfoldable pub entry : String → String → ℕ → ℕ → CacheEntry
entry key value ttl now = record {
  key = key;
  value = value;
  expires = now + ttl;
  size = len key + len value;
}

-- The list and the byte count before the eviction: the entry renewed in place and moved, or a new one.
unfoldable pub store : MemoryCache → CacheEntry → List CacheEntry × ℕ
store c fresh = elim (find key_of fresh.key c.ll) [
  | none ↦ (c.ll ++ fresh ∷ [], c.bytes + fresh.size)
  | some e ↦ (move_to_front fresh c.ll, c.bytes + fresh.size - e.size)
]

unfoldable pub put : MemoryCache → String → String → ℕ → ℕ → MemoryCache
put c key value ttl now =
    let (ll, bytes) = store c (entry key value ttl now) in
    let (ll', bytes') = evict c.max_bytes ll bytes in record c { ll = ll'; bytes = bytes' }
