-- ===== src/CachedList/Tests.antt =====
-- An entry as the cache has it.
use den_scout.Prelude.{◌≡◌, refl, true, false, [], ◌∷◌, arith}
use den_scout.Prelude.Int.{pos}
use den_scout.Pattern.{codes}
use den_scout.StreamId.Parse.{is_free}
use den_scout.CachedList.{CachedList, split_cached, join_cached}
use den_scout.CachedList.RoundTrip.{stored, split_cached-join_cached}

abbrev complete_list : CachedList
complete_list = stored true 1_764_000_000 (codes "etag") (codes "{}")

split_cached-join_cached_example : split_cached (join_cached complete_list) ≡ complete_list
unfolding is_free
split_cached-join_cached_example =
    split_cached-join_cached true 1_764_000_000 (codes "etag") (codes "{}") (omega arith) refl

-- An entry of an older build has no stamp, or no flag either.
unstamped :
    split_cached (b'1' ∷ 0 ∷ b'e' ∷ 0 ∷ b'b' ∷ [])
    ≡ record { complete = true; fresh_until = pos 0; etag = b'e' ∷ []; body = b'b' ∷ [] }
unfolding split_cached
unstamped = refl

unflagged :
    split_cached (b'e' ∷ 0 ∷ b'b' ∷ [])
    ≡ record { complete = false; fresh_until = pos 0; etag = b'e' ∷ []; body = b'b' ∷ [] }
unfolding split_cached
unflagged = refl
