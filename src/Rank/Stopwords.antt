-- ===== src/Rank/Stopwords.antt =====
-- internal/scout/rank.go: the words that say nothing of which film or show a release is.
use den_scout.Prelude.{String, List, [], ◌∷◌}
use den_scout.Pattern.{Text, codes}

abbrev texts : List String → List Text
texts [] = []
texts (s ∷ ss) = codes s ∷ texts ss

abbrev pub title_stop : List Text
title_stop = texts (
    "the" ∷ "a" ∷ "an" ∷ "of" ∷ "and" ∷ "to" ∷ "in" ∷ "el" ∷ "la" ∷ "los" ∷ "las" ∷ "de" ∷ "le"
    ∷ "il" ∷ "2160p" ∷ "1080p" ∷ "720p" ∷ "480p" ∷ "4k" ∷ "uhd" ∷ "hd" ∷ "x264" ∷ "x265" ∷ "h264"
    ∷ "h265" ∷ "hevc" ∷ "av1" ∷ "xvid" ∷ "web" ∷ "webdl" ∷ "webrip" ∷ "bluray" ∷ "bdrip" ∷ "brrip"
    ∷ "hdtv" ∷ "hdts" ∷ "hdtc" ∷ "remux" ∷ "cam" ∷ "camrip" ∷ "ts" ∷ "hdr" ∷ "hdr10" ∷ "dv" ∷ "sdr"
    ∷ "aac" ∷ "ac3" ∷ "dts" ∷ "atmos" ∷ "ddp" ∷ "mp4" ∷ "mkv" ∷ "avi" ∷ "esp" ∷ "eng" ∷ "lat"
    ∷ "dub" ∷ "dubbed" ∷ "sub" ∷ "subs" ∷ "multi" ∷ "dual" ∷ [])

abbrev pub show_noise : List Text
show_noise = texts ("season" ∷ "temporada" ∷ "saison" ∷ "staffel" ∷ "complete" ∷ [])
