-- ===== src/Matroska/Tests.antt =====
-- A small file with a decoy.
use den_scout.Prelude.{◌≡◌, refl, [], ◌∷◌, arith, length}
use den_scout.Matroska.{Bytes, found, absent, find_tracks_payload}
use den_scout.Matroska.Termination.{EndsIn, find_tracks_payload-EndsIn}
use den_scout.Matroska.Encode.{
  Element, encode, encode_all, segment_head, find_tracks_payload-encode_all,
}

abbrev ebml : Element
ebml = record { b0 = 0x1a; b1 = 0x45; b2 = 0xdf; b3 = 0xa3; payload = 1 ∷ 2 ∷ [] }

-- A seek table, which holds the id of Tracks as data.
abbrev seek_head : Element
seek_head = record {
  b0 = 0x11;
  b1 = 0x4d;
  b2 = 0x9b;
  b3 = 0x74;
  payload = 0x16 ∷ 0x54 ∷ 0xae ∷ 0x6b ∷ 0x82 ∷ [];
}

abbrev tracks : Element
tracks = record { b0 = 0x16; b1 = 0x54; b2 = 0xae; b3 = 0x6b; payload = 0xae ∷ 0x80 ∷ [] }

abbrev file : Bytes
file =
    encode_all (ebml ∷ []) (segment_head (encode_all (seek_head ∷ []) (encode tracks (7 ∷ 7 ∷ []))))

find_tracks_payload-encode_all_example :
    find_tracks_payload (length file) file ≡ found (0xae ∷ 0x80 ∷ [])
find_tracks_payload-encode_all_example =
    find_tracks_payload-encode_all (ebml ∷ []) (seek_head ∷ []) tracks (7 ∷ 7 ∷ [])
      (record { first = (omega arith, omega arith); short = omega arith }, refl, tt)
      (record { first = (omega arith, omega arith); short = omega arith }, refl, tt)
      (record { first = (omega arith, omega arith); short = omega arith }) refl

-- A size that passes the end of the file.
abbrev cut_short : Bytes
cut_short = segment_head (0x16 ∷ 0x54 ∷ 0xae ∷ 0x6b ∷ 0x85 ∷ 1 ∷ [])

find_tracks_payload-EndsIn_example : EndsIn cut_short (find_tracks_payload 18 cut_short)
find_tracks_payload-EndsIn_example = find_tracks_payload-EndsIn 18 cut_short (omega arith)

nothing_cut_short : find_tracks_payload 18 cut_short ≡ absent
unfolding find_tracks_payload
nothing_cut_short = refl
