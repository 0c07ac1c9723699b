-- ===== src/Coding/Words.antt =====
-- Sums of the 16-bit words of a header, for the IPv4 checksum of
-- app/network_coding_for_transport/rawsock_helpers.py.
use comnetsemu.Prelude.{
  ℕ, zero, suc, ◌+◌, ◌*◌, ◌/◌, ◌%◌, ◌≤◌, ◌<◌, some, List, [], ◌∷◌, length, get_elem?, set, take,
  drop, All, ◌≡◌, refl, sym, ap, ◌∙◌, arith,
}
use comnetsemu.Coding.Bytes.{Bytes, slice}
use comnetsemu.Coding.Header.{sum_words, fold_complement}

-- The words as the code reads them, the first byte being the lower one.
abbrev pub le_sum : Bytes → ℕ
le_sum [] = 0
le_sum (a ∷ []) = a
le_sum (a ∷ b ∷ hd) = a + b * 256 + le_sum hd

-- The words in network order, as a receiver adds them up.
abbrev pub be_sum : Bytes → ℕ
be_sum [] = 0
be_sum (a ∷ []) = a * 256
be_sum (a ∷ b ∷ hd) = a * 256 + b + be_sum hd

abbrev pub odd_bytes : Bytes → ℕ
odd_bytes [] = 0
odd_bytes (a ∷ []) = 0
odd_bytes (a ∷ b ∷ hd) = b + odd_bytes hd

-- The sums in the two orders agree modulo 65535, up to the factor 256.
pub be_sum-le_sum : (hd : Bytes) → be_sum hd + 65535 * odd_bytes hd ≡ 256 * le_sum hd
be_sum-le_sum [] = refl
be_sum-le_sum (a ∷ []) = omega arith
be_sum-le_sum (a ∷ b ∷ hd) = omega (arith, be_sum-le_sum hd)

-- One addition of the carries to the lower 16 bits.
abbrev pub add_carries : ℕ → ℕ
add_carries s = s / 65536 + s % 65536

pub fold_complement-mod : (s : ℕ) → s < 2097152 → (s + fold_complement s) % 65535 ≡ 0
unfolding fold_complement
fold_complement-mod s h = omega arith

pub fold_complement_bounds :
    (s : ℕ) → s < 2097152 → (fold_complement s < 65536) × (0 < s + fold_complement s)
unfolding fold_complement
fold_complement_bounds s h = omega arith

pub add_carries_full :
    (s : ℕ) → s % 65535 ≡ 0 → 0 < s → s < 2097152 → add_carries (add_carries s) ≡ 65535
add_carries_full s h pos small = omega arith

abbrev pub dbl : ℕ → ℕ
dbl zero = 0
dbl (suc n) = suc (suc (dbl n))

pub le_sum-lt :
    (n : ℕ) (hd : Bytes) → All (λ x. x < 256) hd → length hd ≤ dbl n → le_sum hd ≤ 65535 * n
le_sum-lt n [] h l = omega arith
le_sum-lt zero (a ∷ hd) h l = absurd (omega arith)
le_sum-lt (suc n) (a ∷ []) h l = omega arith
le_sum-lt (suc n) (a ∷ b ∷ hd) h l = omega (arith, le_sum-lt n hd h.1.1 (omega arith))

pub be_sum-lt :
    (n : ℕ) (hd : Bytes) → All (λ x. x < 256) hd → length hd ≤ dbl n → be_sum hd ≤ 65535 * n
be_sum-lt n [] h l = omega arith
be_sum-lt zero (a ∷ hd) h l = absurd (omega arith)
be_sum-lt (suc n) (a ∷ []) h l = omega arith
be_sum-lt (suc n) (a ∷ b ∷ hd) h l = omega (arith, be_sum-lt n hd h.1.1 (omega arith))

pub le_sum-le-be_sum : (hd : Bytes) → le_sum hd ≤ 256 * be_sum hd
le_sum-le-be_sum [] = omega arith
le_sum-le-be_sum (a ∷ []) = omega arith
le_sum-le-be_sum (a ∷ b ∷ hd) = omega (arith, le_sum-le-be_sum hd)

pub dbl-eq : (n : ℕ) → dbl n ≡ 2 * n
dbl-eq zero = refl
dbl-eq (suc n) = omega (arith, dbl-eq n)

get_elem?-drop :
    {A : Type 0} (i j : ℕ) (xs : List A) → get_elem? (drop i xs) j ≡ get_elem? xs (i + j)
get_elem?-drop zero j xs = let e : 0 + j ≡ j = omega arith in rw e
get_elem?-drop (suc i) j [] = refl
get_elem?-drop (suc i) j (x ∷ xs) =
    let e : suc i + j ≡ suc (i + j) = omega arith in rw e (get_elem?-drop i j xs)

drop-nil : {A : Type 0} (j : ℕ) → drop {A = A} j [] ≡ []
drop-nil zero = refl
drop-nil (suc j) = refl

drop-drop : {A : Type 0} (i j : ℕ) (xs : List A) → drop j (drop i xs) ≡ drop (i + j) xs
drop-drop zero j xs = let e : 0 + j ≡ j = omega arith in rw e
drop-drop (suc i) j [] = drop-nil j ∙ sym (drop-nil (suc i + j))
drop-drop (suc i) j (x ∷ xs) =
    let e : suc i + j ≡ suc (i + j) = omega arith in rw e (drop-drop i j xs)

-- The loop adds up the words from its index on, if the header has as many.
pub sum_words_lem :
    (n : ℕ) (hd : Bytes) (i s : ℕ) (xs : Bytes)
    → drop i hd ≡ xs
    → length xs ≡ dbl n
    → sum_words n hd i s ≡ some (s + le_sum xs)
unfolding sum_words
sum_words_lem zero hd i s [] e l = ap some (omega arith)
sum_words_lem zero hd i s (x ∷ xs) e l = absurd (omega arith)
sum_words_lem (suc n) hd i s [] e l = absurd (omega arith)
sum_words_lem (suc n) hd i s (a ∷ []) e l = absurd (omega arith)
sum_words_lem (suc n) hd i s (a ∷ b ∷ xs) e l =
    let e0 : i + 0 ≡ i = omega arith in
    let first : get_elem? hd i ≡ some a =
      rw (← e0) (sym (get_elem?-drop i 0 hd) ∙ ap (λ t. get_elem? t 0) e) in
    let second : get_elem? hd (i + 1) ≡ some b =
      sym (get_elem?-drop i 1 hd) ∙ ap (λ t. get_elem? t 1) e in
    let rest : drop (i + 2) hd ≡ xs = sym (drop-drop i 2 hd) ∙ ap (λ t. drop 2 t) e in
    rw (first, second)
      (sum_words_lem n hd (i + 2) (s + (a + b * 256)) xs rest (omega arith) ∙ ap some (omega arith))

drop-set :
    {A : Type 0} (i j : ℕ) (xs : List A) (v : A) → drop i (set xs (i + j) v) ≡ set (drop i xs) j v
drop-set zero j xs v = let e : 0 + j ≡ j = omega arith in rw e
drop-set (suc i) j [] v = refl
drop-set (suc i) j (x ∷ xs) v =
    let e : suc i + j ≡ suc (i + j) = omega arith in rw e (drop-set i j xs v)

take-set : {A : Type 0} (n j : ℕ) (xs : List A) (v : A) → take n (set xs j v) ≡ set (take n xs) j v
take-set zero j xs v = refl
take-set (suc n) j [] v = refl
take-set (suc n) zero (x ∷ xs) v = refl
take-set (suc n) (suc j) (x ∷ xs) v = ap (λ t. x ∷ t) (take-set n j xs v)

pub slice-set :
    (buf : Bytes) (i n j v : ℕ) → slice (set buf (i + j) v) i n ≡ set (slice buf i n) j v
slice-set buf i n j v = ap (λ t. take n t) (drop-set i j buf v) ∙ take-set n j (drop i buf) v

-- Two neighbours that are written twice have the values of the second time.
pub set_pair_twice :
    (i : ℕ) (xs : Bytes) (a b c d : ℕ)
    → set (set (set (set xs i a) (suc i) b) i c) (suc i) d ≡ set (set xs i c) (suc i) d
set_pair_twice i [] a b c d = refl
set_pair_twice zero (x ∷ []) a b c d = refl
set_pair_twice zero (x ∷ y ∷ xs) a b c d = refl
set_pair_twice (suc i) (x ∷ xs) a b c d = ap (λ t. x ∷ t) (set_pair_twice i xs a b c d)

abbrev pub word_at : ℕ → Bytes → ℕ
word_at k [] = 0
word_at k (a ∷ []) = 0
word_at zero (a ∷ b ∷ hd) = a + b * 256
word_at (suc k) (a ∷ b ∷ hd) = word_at k hd

pub le_sum-set_pair :
    (k : ℕ) (hd : Bytes) (a b : ℕ)
    → suc (dbl k) < length hd
    → le_sum (set (set hd (dbl k) a) (suc (dbl k)) b) + word_at k hd ≡ le_sum hd + (a + b * 256)
le_sum-set_pair k [] a b h = absurd (omega arith)
le_sum-set_pair k (x ∷ []) a b h = absurd (omega arith)
le_sum-set_pair zero (x ∷ y ∷ hd) a b h = omega arith
le_sum-set_pair (suc k) (x ∷ y ∷ hd) a b h = omega (arith, le_sum-set_pair k hd a b (omega arith))
