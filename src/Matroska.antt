-- ===== src/Matroska.antt =====
-- internal/scout/probe.go: the walk over a Matroska file's head to its Tracks element. A buffer from a
-- position on is the list of its bytes from there.
pub mod Termination
pub mod Encode
mod Tests
use den_scout.Prelude.{
  ℕ, zero, suc, ◌+◌, ◌-◌, ◌*◌, ◌/◌, ◌%◌, ◌^◌, Bool, true, false, not, ◌&&◌, ◌||◌, Option, none,
  some, List, [], ◌∷◌, ltb, leb, ◌==◌, length, take, drop, if◌then◌else◌,
}

abbrev pub Bytes : Type 0
Bytes = List ℕ

abbrev pub id_segment : ℕ
id_segment = 0x18538067

abbrev pub id_tracks : ℕ
id_tracks = 0x1654ae6b

-- leadingLength, of a byte: the place of its first bit that is set, counted from 1, or 0.
unfoldable pub leading_length : ℕ → ℕ
leading_length b =
    if leb 128 b
    then 1
    else if leb 64 b
    then 2
    else if leb 32 b
    then 3
    else if leb 16 b
    then 4
    else if leb 8 b
    then 5
    else if leb 4 b
    then 6
    else if leb 2 b
    then 7
    else if leb 1 b
    then 8
    else 0

-- `v<<8 | byte`, over the first so many bytes.
unfoldable pub shift_in : ℕ → ℕ → Bytes → ℕ
shift_in zero v buf = v
shift_in (suc n) v [] = v
shift_in (suc n) v (b ∷ buf) = shift_in n (v * 256 + b) buf

-- readID: the id and its length, none where the source's length is 0. Four bytes fit a uint32.
unfoldable pub read_id : Bytes → Option (ℕ × ℕ)
unfolding leading_length shift_in
read_id [] = none
read_id (b ∷ buf) =
    let n = leading_length b in
    if n == 0 || ltb 4 n || ltb (suc (length buf)) n then none else some (shift_in n 0 (b ∷ buf), n)

unfoldable pub all_ones : ℕ → Bytes → Bool
all_ones zero buf = true
all_ones (suc n) [] = true
all_ones (suc n) (b ∷ buf) = b == 0xff && all_ones n buf

-- readSizeAt: the size, the width of its field, and whether it is the marker of an unknown size. Eight
-- bytes hold 56 bits of value.
pub record Size : Type 0 where
  pub size : ℕ
  pub width : ℕ
  pub unknown : Bool

unfoldable pub read_size_at : Bytes → Option Size
unfolding leading_length shift_in all_ones
read_size_at [] = none
read_size_at (b ∷ buf) =
    let n = leading_length b in
    let bits = 2 ^ (8 - n) in
    if n == 0 || ltb (suc (length buf)) n
    then none
    else some (record {
      size = shift_in (n - 1) (b % bits) buf;
      width = n;
      unknown = b % bits == bits - 1 && all_ones (n - 1) buf;
    })

-- What a walk ends with.
pub data Walk : Type 0 where
  found : Bytes → Walk
  absent : Walk
  out_of_fuel : Walk
  panicked : Walk

-- `buf[lo:hi]`, which panics where it is out of range.
unfoldable pub slice : ℕ → ℕ → Bytes → Option Bytes
slice lo hi buf =
    if ltb hi lo || ltb (length buf) hi then none else some (take (hi - lo) (drop lo buf))

abbrev pub found_in : Option Bytes → Walk
found_in none = panicked
found_in (some payload) = found payload

-- findTracksIn: one turn of the loop for each unit of fuel.
unfoldable pub find_tracks_in : ℕ → Bytes → Walk
unfolding read_id read_size_at slice
find_tracks_in fuel [] = absent
find_tracks_in zero (b ∷ buf) = out_of_fuel
find_tracks_in (suc fuel) (b ∷ buf) = elim (read_id (b ∷ buf)) [
  | none ↦ absent
  | some (id, n) ↦ elim (read_size_at (drop n (b ∷ buf))) [
    | none ↦ absent
    | some s ↦
        let body = drop s.width (drop n (b ∷ buf)) in
        let rest = find_tracks_in fuel (drop s.size body) in
        if s.unknown || ltb (length body) s.size
        then absent
        else if id == id_tracks
        then found_in (slice (n + s.width) (n + s.width + s.size) (b ∷ buf))
        else rest
  ]
]

-- `findTracksIn(head[body:end])`.
unfoldable pub find_tracks_of : ℕ → Option Bytes → Walk
unfolding find_tracks_in
find_tracks_of fuel none = panicked
find_tracks_of fuel (some segment) = find_tracks_in fuel segment

-- The end of a segment, from where its body starts and the length of the head.
abbrev pub segment_end : Size → ℕ → ℕ → ℕ
segment_end s body len = if not s.unknown && ltb (body + s.size) len then body + s.size else len

-- findTracksPayload. A segment of unknown size, or of one that passes the end, runs to the end.
unfoldable pub find_tracks_payload : ℕ → Bytes → Walk
unfolding read_id read_size_at find_tracks_of slice
find_tracks_payload fuel [] = absent
find_tracks_payload zero (b ∷ buf) = out_of_fuel
find_tracks_payload (suc fuel) (b ∷ buf) = elim (read_id (b ∷ buf)) [
  | none ↦ absent
  | some (id, n) ↦ elim (read_size_at (drop n (b ∷ buf))) [
    | none ↦ absent
    | some s ↦
        let body = drop s.width (drop n (b ∷ buf)) in
        let rest = find_tracks_payload fuel (drop s.size body) in
        if id == id_segment
        then find_tracks_of (length body)
            (slice (n + s.width) (segment_end s (n + s.width) (length (b ∷ buf))) (b ∷ buf))
        else if s.unknown
        then absent
        else rest
  ]
]
