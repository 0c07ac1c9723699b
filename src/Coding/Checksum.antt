-- ===== src/Coding/Checksum.antt =====
-- `update_cksum_ipv4` of app/network_coding_for_transport/rawsock_helpers.py
-- and the check of a receiver.
use comnetsemu.Prelude.{
  ℕ, zero, suc, ◌+◌, ◌*◌, ◌/◌, ◌%◌, ◌≤◌, ◌<◌, some, [], ◌∷◌, length, set, take, drop, All, ◌≡◌,
  refl, ap, ◌∙◌, arith, length-take, length-drop, length-set,
}
use native.Mathlib.Nat.{zero-add}
use comnetsemu.Coding.Bytes.{Bytes, slice, pack_short, pack_short_le}
use comnetsemu.Coding.Header.{update_cksum_ipv4, fold_complement}
use comnetsemu.Coding.Words.{
  le_sum, be_sum, be_sum-le_sum, add_carries, fold_complement-mod, fold_complement_bounds,
  add_carries_full, dbl, dbl-eq, be_sum-lt, le_sum-le-be_sum, le_sum-lt, sum_words_lem, slice-set,
  set_pair_twice, le_sum-set_pair,
}

-- The receiver's check: the words in network order, with the carries added in, give all ones.
abbrev pub IsVerified : Bytes → Type 0
IsVerified hd = add_carries (add_carries (be_sum hd)) ≡ 65535

-- The header with a 16-bit value, lower byte first, in the place of the checksum.
abbrev with_cksum : Bytes → ℕ → Bytes
with_cksum hd c = set (set hd 10 (c % 256)) 11 (c / 256)

le_sum-with_cksum :
    (hd : Bytes) (c : ℕ) → 12 ≤ length hd → le_sum (with_cksum hd c) ≡ le_sum (with_cksum hd 0) + c
le_sum-with_cksum hd c h = omega (
  arith,
  le_sum-set_pair 5 hd (c % 256) (c / 256) (omega arith),
  le_sum-set_pair 5 hd 0 0 (omega arith),
)

set-All : (P : ℕ → Type 0) (i : ℕ) (xs : Bytes) (v : ℕ) → All P xs → P v → All P (set xs i v)
set-All P i [] v h p = tt
set-All P zero (x ∷ xs) v h p = (p, h.1)
set-All P (suc i) (x ∷ xs) v h p = (h.0, set-All P i xs v h.1 p)

take-All : (P : ℕ → Type 0) (n : ℕ) (xs : Bytes) → All P xs → All P (take n xs)
take-All P zero xs h = tt
take-All P (suc n) [] h = tt
take-All P (suc n) (x ∷ xs) h = (h.0, take-All P n xs h.1)

drop-All : (P : ℕ → Type 0) (n : ℕ) (xs : Bytes) → All P xs → All P (drop n xs)
drop-All P zero xs h = h
drop-All P (suc n) [] h = tt
drop-All P (suc n) (x ∷ xs) h = drop-All P n xs h.1

abbrev pub IsByte : ℕ → Type 0
IsByte x = x < 256

with_cksum-All : (hd : Bytes) (c : ℕ) → All IsByte hd → c < 65536 → All IsByte (with_cksum hd c)
with_cksum-All hd c h small =
    set-All IsByte 11 (set hd 10 (c % 256)) (c / 256)
      (set-All IsByte 10 hd (c % 256) h (omega arith)) (omega arith)

length-with_cksum : (hd : Bytes) (c : ℕ) → length (with_cksum hd c) ≡ length hd
length-with_cksum hd c = length-set (set hd 10 (c % 256)) 11 (c / 256) ∙ length-set hd 10 (c % 256)

-- A header of up to 30 words with its checksum in place is verified.
with_cksum-IsVerified :
    (hd : Bytes) (n : ℕ)
    → All IsByte hd
    → length hd ≡ dbl n
    → 6 ≤ n
    → n ≤ 30
    → IsVerified (with_cksum hd (fold_complement (le_sum (with_cksum hd 0))))
with_cksum-IsVerified hd n bytes len low high =
    let z = le_sum (with_cksum hd 0) in
    let c = fold_complement z in
    let twelve : 12 ≤ length hd = omega (arith, dbl-eq n) in
    let zeroed : z ≤ 65535 * n =
      le_sum-lt n (with_cksum hd 0) (with_cksum-All hd 0 bytes (omega arith))
        (omega (arith, length-with_cksum hd 0)) in
    let bound = fold_complement_bounds z (omega arith) in
    let total : le_sum (with_cksum hd c) ≡ z + c = le_sum-with_cksum hd c twelve in
    let divides : (z + c) % 65535 ≡ 0 = fold_complement-mod z (omega arith) in
    let all_bytes : All IsByte (with_cksum hd c) = with_cksum-All hd c bytes bound.0 in
    let small : be_sum (with_cksum hd c) ≤ 65535 * n =
      be_sum-lt n (with_cksum hd c) all_bytes (omega (arith, length-with_cksum hd c)) in
    add_carries_full (be_sum (with_cksum hd c)) (omega (arith, be_sum-le_sum (with_cksum hd c)))
      (omega (arith, le_sum-le-be_sum (with_cksum hd c))) (omega arith)

-- The checksum's place in the buffer, seen from the header.
slice-with_cksum :
    (buf : Bytes) (i n c : ℕ)
    → slice (set (set buf (i + 10) (c % 256)) (i + 10 + 1) (c / 256)) i n
      ≡ with_cksum (slice buf i n) c
slice-with_cksum buf i n c =
    let e : i + 10 + 1 ≡ i + 11 = omega arith in
    rw (e, slice-set (set buf (i + 10) (c % 256)) i n 11 (c / 256), slice-set buf i n 10 (c % 256))
      refl

pack_short-some :
    (buf : Bytes) (i v : ℕ)
    → v < 65536
    → i + 1 < length buf
    → pack_short buf i v ≡ some (set (set buf i (v / 256)) (i + 1) (v % 256))
unfolding pack_short
pack_short-some buf i v small fits = ground arith

pack_short_le-some :
    (buf : Bytes) (i v : ℕ)
    → v < 65536
    → i + 1 < length buf
    → pack_short_le buf i v ≡ some (set (set buf i (v % 256)) (i + 1) (v / 256))
unfolding pack_short_le
pack_short_le-some buf i v small fits = ground arith

cksum_twice :
    (buf : Bytes) (j c : ℕ)
    → set (set (set (set buf j 0) (j + 1) 0) j (c % 256)) (j + 1) (c / 256)
      ≡ set (set buf j (c % 256)) (j + 1) (c / 256)
cksum_twice buf j c =
    let e : j + 1 ≡ suc j = omega arith in rw e (set_pair_twice j buf 0 0 (c % 256) (c / 256))

slice-All : (buf : Bytes) (i n : ℕ) → All IsByte buf → All IsByte (slice buf i n)
slice-All buf i n h = take-All IsByte n (drop i buf) (drop-All IsByte i buf h)

-- For a header of 5 to 15 words of 32 bits that lies in the buffer `update_cksum_ipv4` does not fail, it
-- writes the two bytes of the checksum and nothing else, and a receiver verifies the header.
pub update_cksum_ipv4-IsVerified :
    (buf : Bytes) (ip_hd_offset ihl : ℕ)
    → All IsByte buf
    → 5 ≤ ihl
    → ihl ≤ 15
    → ip_hd_offset + 4 * ihl ≤ length buf
    → (c : ℕ) × (c < 65536)
      × (update_cksum_ipv4 buf ip_hd_offset (4 * ihl)
          ≡ some (set (set buf (ip_hd_offset + 10) (c % 256)) (ip_hd_offset + 10 + 1) (c / 256)))
      × IsVerified (
          slice
            (set (set buf (ip_hd_offset + 10) (c % 256)) (ip_hd_offset + 10 + 1) (c / 256))
            ip_hd_offset
            (4 * ihl))
unfolding update_cksum_ipv4
update_cksum_ipv4-IsVerified buf i ihl bytes low high fits =
    let hd = slice buf i (4 * ihl) in
    let n = 2 * ihl in
    let c = fold_complement (le_sum (with_cksum hd 0)) in
    let len : length hd ≡ dbl n =
      omega (arith, length-take (4 * ihl) (drop i buf), length-drop i buf, dbl-eq n) in
    let buf0 : Bytes = set (set buf (i + 10) 0) (i + 10 + 1) 0 in
    let hd0 : slice buf0 i (4 * ihl) ≡ with_cksum hd 0 = slice-with_cksum buf i (4 * ihl) 0 in
    let rounds : (4 * ihl + 1) / 2 ≡ n = omega arith in
    let len0 : length (with_cksum hd 0) ≡ dbl n = length-with_cksum hd 0 ∙ len in
    let long : length buf0 ≡ length buf =
      length-set (set buf (i + 10) 0) (i + 10 + 1) 0 ∙ length-set buf (i + 10) 0 in
    let zeroed : le_sum (with_cksum hd 0) ≤ 65535 * n =
      le_sum-lt n (with_cksum hd 0)
        (with_cksum-All hd 0 (slice-All buf i (4 * ihl) bytes) (omega arith)) (omega arith) in
    let bound = fold_complement_bounds (le_sum (with_cksum hd 0)) (omega arith) in
    (
      c,
      bound.0,
      rw
          (
            pack_short-some buf (i + 10) 0 (omega arith) (omega arith),
            hd0,
            rounds,
            sum_words_lem n (with_cksum hd 0) 0 0 (with_cksum hd 0) refl len0,
            zero-add,
            pack_short_le-some buf0 (i + 10) c bound.0 (omega arith),
          )
          (ap some (cksum_twice buf (i + 10) c)),
      rw (slice-with_cksum buf i (4 * ihl) c) (
          with_cksum-IsVerified hd n (slice-All buf i (4 * ihl) bytes) len (omega arith)
            (omega arith)),
    )
