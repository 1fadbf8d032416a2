-- ===== src/Matroska/Encode.antt =====
-- Files as a muxer writes them, and that the walk reads them back.
use den_scout.Prelude.{
  ℕ, zero, suc, ◌+◌, ◌-◌, ◌*◌, ◌/◌, ◌%◌, ◌^◌, ◌≤◌, ◌<◌, ◌≡◌, refl, true, false, some, List, [], ◌∷◌,
  ◌++◌, ltb, ◌==◌, length, length-append, take, drop, arith, if◌then◌else◌, ap, ◌∙◌,
}
use den_scout.Matroska.{
  Bytes, found, id_segment, id_tracks, read_id, read_size_at, leading_length, shift_in, all_ones,
  find_tracks_in, find_tracks_payload, find_tracks_of, slice,
}

-- An element with an id of four bytes, the first of which says so.
pub record Element : Type 0 where
  pub b0 : ℕ
  pub b1 : ℕ
  pub b2 : ℕ
  pub b3 : ℕ
  pub payload : Bytes

-- Of four bytes, and short enough for a size field of two that is not the marker of an unknown size.
pub record IsElement (e : Element) : Type 0 where
  pub first : (16 ≤ e.b0) × (e.b0 < 32)
  pub short : length e.payload < 16_383

abbrev pub id_of : Element → ℕ
id_of e = ((e.b0 * 256 + e.b1) * 256 + e.b2) * 256 + e.b3

-- The element, in front of the rest of a file.
unfoldable pub encode : Element → Bytes → Bytes
encode e rest =
    e.b0
    ∷ e.b1
    ∷ e.b2
    ∷ e.b3
    ∷ (64 + length e.payload / 256)
    ∷ (length e.payload % 256)
    ∷ (e.payload ++ rest)

unfoldable pub encode_all : List Element → Bytes → Bytes
unfolding encode
encode_all [] rest = rest
encode_all (e ∷ es) rest = encode e (encode_all es rest)

-- The head of a Segment of unknown size, as a muxer writes one before it knows the size.
abbrev pub segment_head : Bytes → Bytes
segment_head body =
    0x18 ∷ 0x53 ∷ 0x80 ∷ 0x67 ∷ 1 ∷ 0xff ∷ 0xff ∷ 0xff ∷ 0xff ∷ 0xff ∷ 0xff ∷ 0xff ∷ body

take_own : (p rest : Bytes) → take (length p) (p ++ rest) ≡ p
take_own [] rest = refl
take_own (b ∷ p) rest = ap (λ r. b ∷ r) (take_own p rest)

drop_own : (p rest : Bytes) → drop (length p) (p ++ rest) ≡ rest
drop_own [] rest = refl
drop_own (b ∷ p) rest = drop_own p rest

take_whole : (p : Bytes) → take (length p) p ≡ p
take_whole [] = refl
take_whole (b ∷ p) = ap (λ r. b ∷ r) (take_whole p)

less_head : (head n : ℕ) → head + n - head ≡ n
less_head head n = omega arith

slice-encode :
    (e : Element) (rest : Bytes)
    → slice (4 + 2) (4 + 2 + length e.payload) (encode e rest) ≡ some e.payload
unfolding slice encode
slice-encode e rest = ground (
  arith,
  length-append e.payload rest,
  ap (λ n. take n (e.payload ++ rest)) (less_head (4 + 2) (length e.payload)),
  take_own e.payload rest,
)

slice-segment_head :
    (body : Bytes) → slice 12 (length (segment_head body)) (segment_head body) ≡ some body
unfolding slice
slice-segment_head body =
    let rest : length (segment_head body) - 12 ≡ length body = omega arith in
    ground (arith, ap (λ n. take n body) rest, take_whole body)

read_id-encode :
    (e : Element) (rest : Bytes) → IsElement e → read_id (encode e rest) ≡ some (id_of e, 4)
unfolding read_id encode leading_length shift_in
read_id-encode e rest v = ground (arith, v.first)

read_size-encode :
    (n : ℕ) (rest : Bytes)
    → n < 16_383
    → read_size_at ((64 + n / 256) ∷ (n % 256) ∷ rest)
      ≡ some (record { size = n; width = 2; unknown = false })
unfolding read_size_at leading_length shift_in all_ones
read_size-encode n rest h = ground (arith, h)

fits_itself : (p rest : Bytes) → ltb (length (p ++ rest)) (length p) ≡ false
fits_itself p rest = ground (arith, length-append p rest)

-- One turn of the walk over the children of a Segment.
find_tracks_in-encode :
    (fuel : ℕ) (e : Element) (rest : Bytes)
    → IsElement e
    → find_tracks_in (suc fuel) (encode e rest)
      ≡ (if id_of e == id_tracks then found e.payload else find_tracks_in fuel rest)
unfolding find_tracks_in encode
find_tracks_in-encode fuel e rest v =
    rw
      (
        read_id-encode e rest v,
        find_tracks_in,
        read_size-encode (length e.payload) (e.payload ++ rest) v.short,
      )
      (rw (fits_itself e.payload rest, slice-encode e rest, drop_own e.payload rest) refl)

-- All are elements of another id.
abbrev pub AreOther : ℕ → List Element → Type 0
AreOther id [] = Unit
AreOther id (e ∷ es) = IsElement e × ((id_of e == id) ≡ false) × AreOther id es

find_tracks_in-encode_all :
    (es : List Element) (e : Element) (rest : Bytes) (fuel : ℕ)
    → AreOther id_tracks es
    → IsElement e
    → id_of e ≡ id_tracks
    → length es < fuel
    → find_tracks_in fuel (encode_all es (encode e rest)) ≡ found e.payload
unfolding encode_all
find_tracks_in-encode_all es e rest zero u v same h = elim h [ ]
find_tracks_in-encode_all [] e rest (suc fuel) u v same h =
    rw (find_tracks_in-encode fuel e rest v, same) refl
find_tracks_in-encode_all (f ∷ es) e rest (suc fuel) (w, other, u) v same h =
    rw (find_tracks_in-encode fuel f (encode_all es (encode e rest)) w, other)
      (find_tracks_in-encode_all es e rest fuel u v same (omega arith))

-- The same turn at the top level.
find_tracks_payload-encode :
    (fuel : ℕ) (e : Element) (rest : Bytes)
    → IsElement e
    → (id_of e == id_segment) ≡ false
    → find_tracks_payload (suc fuel) (encode e rest) ≡ find_tracks_payload fuel rest
unfolding find_tracks_payload encode
find_tracks_payload-encode fuel e rest v other =
    rw
      (
        read_id-encode e rest v,
        find_tracks_payload,
        read_size-encode (length e.payload) (e.payload ++ rest) v.short,
        other,
        drop_own e.payload rest,
      )
      refl

read_id-segment : (body : Bytes) → read_id (segment_head body) ≡ some (id_segment, 4)
unfolding read_id leading_length shift_in
read_id-segment body = ground arith

read_size-segment :
    (body : Bytes)
    → read_size_at (drop 4 (segment_head body))
      ≡ some (record { size = 2 ^ 56 - 1; width = 8; unknown = true })
unfolding read_size_at leading_length shift_in all_ones
read_size-segment body = ground arith

find_tracks_payload-segment :
    (fuel : ℕ) (body : Bytes)
    → find_tracks_payload (suc fuel) (segment_head body) ≡ find_tracks_in (length body) body
unfolding find_tracks_payload find_tracks_of
find_tracks_payload-segment fuel body =
    rw (read_id-segment body, find_tracks_payload, read_size-segment body)
      (ap (find_tracks_of (length body)) (slice-segment_head body))

find_tracks_payload-heads :
    (heads : List Element) (body : Bytes) (fuel : ℕ)
    → AreOther id_segment heads
    → length heads < fuel
    → find_tracks_payload fuel (encode_all heads (segment_head body))
      ≡ find_tracks_in (length body) body
unfolding encode_all
find_tracks_payload-heads heads body zero o h = elim h [ ]
find_tracks_payload-heads [] body (suc fuel) o h = find_tracks_payload-segment fuel body
find_tracks_payload-heads (e ∷ heads) body (suc fuel) (v, other, o) h =
    find_tracks_payload-encode fuel e (encode_all heads (segment_head body)) v other
    ∙ find_tracks_payload-heads heads body fuel o (omega arith)

length-encode : (e : Element) (rest : Bytes) → 6 + length rest ≤ length (encode e rest)
unfolding encode
length-encode e rest = omega (arith, length-append e.payload rest)

length-encode_all :
    (es : List Element) (rest : Bytes) → length es + length rest ≤ length (encode_all es rest)
unfolding encode_all
length-encode_all [] rest = omega arith
length-encode_all (e ∷ es) rest =
    omega (arith, length-encode_all es rest, length-encode e (encode_all es rest))

-- The walk finds Tracks. The elements are those of an id of four bytes whose payload is shorter than 16 383
-- bytes, with a size field of two bytes. Behind any such elements that are no Segment, a Segment of unknown
-- size holds any such elements that are no Tracks, and then Tracks, which is such an element too: the walk
-- finds its payload, whatever bytes follow it.
pub find_tracks_payload-encode_all :
    (heads es : List Element) (e : Element) (rest : Bytes)
    → AreOther id_segment heads
    → AreOther id_tracks es
    → IsElement e
    → id_of e ≡ id_tracks
    → let file = encode_all heads (segment_head (encode_all es (encode e rest))) in
      find_tracks_payload (length file) file ≡ found e.payload
find_tracks_payload-encode_all heads es e rest o u v same =
    let body = encode_all es (encode e rest) in
    find_tracks_payload-heads heads body (length (encode_all heads (segment_head body))) o
      (omega (arith, length-encode_all heads (segment_head body)))
    ∙ find_tracks_in-encode_all es e rest (length body) u v same
        (omega (arith, length-encode_all es (encode e rest), length-encode e rest))
