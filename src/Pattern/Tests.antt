-- ===== src/Pattern/Tests.antt =====
-- Patterns on concrete texts.
use den_scout.Prelude.{◌≡◌, refl, true, false}
use den_scout.Pattern.{matches, codes, word, lit, joined}

whole_word : matches (word "cam") (codes "movie.2026.cam.x264") ≡ true
unfolding matches
whole_word = refl

inside_word : matches (word "cam") (codes "the.camera.2026") ≡ false
unfolding matches
inside_word = refl

with_separator : matches (joined (lit "web") (lit "dl")) (codes "show web-dl 1080p") ≡ true
unfolding matches
with_separator = refl
