-- ===== src/MemoryCache/Tests.antt =====
-- The memory cache on concrete entries.
use den_scout.Prelude.{◌≡◌, ◌≢◌, refl, String, none, some, [], ◌∷◌, arith, str_eq_iff}
use den_scout.Lru.{find, erase}
use den_scout.MemoryCache.{MemoryCache, get, put, remove, store, entry, evict, move_to_front}
use den_scout.MemoryCache.Bytes.{Evicted}
use den_scout.MemoryCache.Invariant.{IsValid, put-IsValid, put-Evicted}

-- Room for eight bytes, with two entries of three; "b" was used last.
abbrev two : MemoryCache
two = record {
  ll =
      record { key = "a"; value = "xx"; expires = 10; size = 3 }
      ∷ record { key = "b"; value = "yy"; expires = 20; size = 3 }
      ∷ [];
  bytes = 6;
  max_bytes = 8;
}

two-IsValid : IsValid two
unfolding find
two-IsValid = record { counted = refl; bounded = omega arith; distinct = (refl, (refl, tt)) }

-- A third entry evicts the oldest alone.
put_evicts : (get (put two "c" "zz" 5 6) "a" 6).1 ≡ none
unfolding get put store entry evict find erase move_to_front remove
put_evicts = refl

put_keeps : (get (put two "c" "zz" 5 6) "b" 6).1 ≡ some "yy"
unfolding get put store entry evict find erase move_to_front remove
put_keeps = refl

put-IsValid_example : IsValid (put two "c" "zz" 5 6)
put-IsValid_example = put-IsValid two "c" "zz" 5 6 two-IsValid

put-Evicted_example :
    let c = put two "c" "zz" 5 6 in Evicted 8 (store two (entry "c" "zz" 5 6)).0 (c.ll, c.bytes)
put-Evicted_example = put-Evicted two "c" "zz" 5 6 two-IsValid

b_ne_a : ◌≢◌ {A = String} "c" "a"
b_ne_a = ground (arith, str_eq_iff "c" "a")
