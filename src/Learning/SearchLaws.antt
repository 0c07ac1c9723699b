-- ===== src/Learning/SearchLaws.antt =====
-- The rounds of `get_paths` of learning_module.py.
use comnetsemu.Prelude.{
  ℕ, Bool, zero, suc, ◌+◌, ◌≤◌, ◌<◌, true, false, if◌then◌else◌, ◌==◌, nat_eq, nat_beq_iff, List,
  [], ◌∷◌, ◌++◌, length, ◌≡◌, inl, inr, refl, arith, Memᴰ, Bool-cases,
}
use mathlib.Core.List.Memᴰ
use comnetsemu.Learning.Data.{Hops}
use comnetsemu.Learning.Merging.{is_in}
use comnetsemu.Learning.Search.{Stack, outside, pushed}

-- The test of the destination by its number.
abbrev pub equals : ℕ → ℕ → Bool
equals dst n = n == dst

abbrev pub times : ℕ → ℕ → ℕ
times zero x = 0
times (suc d) x = x + times d x

-- How many rounds are enough for a switch, where so many others are not on the path and each has at most `d` links.
abbrev pub rounds_for : ℕ → ℕ → ℕ
rounds_for d zero = 1
rounds_for d (suc n) = suc (times d (rounds_for d n))

-- How many of the switches are not on the path.
abbrev pub left : Hops → List ℕ → ℕ
left path [] = 0
left path (n ∷ ns) = if is_in n path then left path ns else suc (left path ns)

times_le : (d x y : ℕ) → x ≤ y → times d x ≤ times d y
times_le zero x y h = omega arith
times_le (suc d) x y h = omega (arith, times_le d x y h, h)

times_more : (c d x : ℕ) → c ≤ d → times c x ≤ times d x
times_more zero d x h = omega arith
times_more (suc c) zero x h = absurd (omega (arith, h))
times_more (suc c) (suc d) x h = omega (arith, times_more c d x (omega (arith, h)))

rounds_for-suc : (d n : ℕ) → rounds_for d n ≤ rounds_for d (suc n)
rounds_for-suc d zero = omega arith
rounds_for-suc d (suc n) =
    let h = times_le d (rounds_for d n) (rounds_for d (suc n)) (rounds_for-suc d n) in
    omega (arith, h)

rounds_for_le : (d m n : ℕ) → m ≤ n → rounds_for d m ≤ rounds_for d n
rounds_for_le d m zero h = rw (zero_only m h) (omega arith)
  where
    zero_only : (m : ℕ) → m ≤ 0 → m ≡ 0
    zero_only m h = omega (arith, h)
rounds_for_le d m (suc n) h = elim (Bool-cases (m == suc n)) [
  | inl same ↦ rw ((nat_beq_iff m (suc n)).0 same) (omega arith)
  | inr other ↦
      let k = rounds_for_le d m n (ground (arith, h, other, nat_beq_iff m (suc n))) in
      let s = rounds_for-suc d n in omega (arith, k, s)
]

pub is_in-append :
    (x n : ℕ) (path : Hops) → is_in x (path ++ n ∷ []) ≡ (if n == x then true else is_in x path)
is_in-append x n [] = refl
is_in-append x n (y ∷ path) = ground (arith, is_in-append x n path)

left_le : (path : Hops) (n : ℕ) (ns : List ℕ) → left (path ++ n ∷ []) ns ≤ left path ns
left_le path n [] = omega arith
left_le path n (m ∷ ns) = ground (arith, is_in-append m n path, left_le path n ns)

left_less :
    (path : Hops) (n : ℕ) (ns : List ℕ)
    → Memᴰ n ns
    → is_in n path ≡ false
    → left (path ++ n ∷ []) ns < left path ns
left_less path n [] m h = absurd (Memᴰ.not-nil m)
left_less path n (k ∷ ns) m h = elim (Memᴰ.cases_cons m) [
  | inl e ↦
      let here : is_in k path ≡ false = rw (← e) h in
      let same : (n == k) ≡ true = (nat_beq_iff n k).1 e in
      let rest = left_le path n ns in rw (is_in-append k n path, same, here) (omega (arith, rest))
  | inr t ↦ ground (arith, is_in-append k n path, left_less path n ns t h)
]

-- The rounds that are enough for the items of a stack.
abbrev pub rounds_of : ℕ → List ℕ → Stack → ℕ
rounds_of d nodes [] = 0
rounds_of d nodes (item ∷ stack) = rounds_for d (left item.1 nodes) + rounds_of d nodes stack

pushed_rounds :
    (d : ℕ) (nodes : List ℕ) (dst : ℕ) (path : Hops) (k : ℕ) (next : List ℕ) (stack : Stack)
    → ((n : ℕ) → Memᴰ n next → rounds_for d (left (path ++ n ∷ []) nodes) ≤ k)
    → rounds_of d nodes (pushed (equals dst) path next stack)
      ≤ times (length next) k + rounds_of d nodes stack
unfolding pushed
pushed_rounds d nodes dst path k [] stack h = omega arith
pushed_rounds d nodes dst path k (n ∷ next) stack h = elim (Bool-cases (n == dst)) [
  | inl there ↦
      let rest = pushed_rounds d nodes dst path k next stack (λ m t. h m (Memᴰ.tail t)) in
      rw there (omega (arith, rest))
  | inr on ↦
      let rest =
        pushed_rounds d nodes dst path k next ((n, path ++ n ∷ []) ∷ stack)
          (λ m t. h m (Memᴰ.tail t)) in
      let here = h n (Memᴰ.head refl) in rw on (omega (arith, rest, here))
]

length-outside : (ns : List ℕ) (path : Hops) → length (outside ns path) ≤ length ns
unfolding outside
length-outside [] path = omega arith
length-outside (n ∷ ns) path = elim (Bool-cases (is_in n path)) [
  | inl h ↦ let k = length-outside ns path in rw h (omega (arith, k))
  | inr h ↦ let k = length-outside ns path in rw h (omega (arith, k))
]

pub Memᴰ-outside :
    (x : ℕ) (ns : List ℕ) (path : Hops)
    → Memᴰ x (outside ns path)
    → Memᴰ x ns × (is_in x path ≡ false)
unfolding outside
Memᴰ-outside x [] path m = absurd (Memᴰ.not-nil m)
Memᴰ-outside x (n ∷ ns) path m = elim (Bool-cases (is_in n path)) [
  | inl h ↦ let (t, k) = Memᴰ-outside x ns path (rw (outside, h) at m) in (Memᴰ.tail t, k)
  | inr h ↦ elim (Memᴰ.cases_cons (rw (outside, h) at m)) [
    | inl e ↦ (Memᴰ.head e, rw e h)
    | inr t ↦ let (u, k) = Memᴰ-outside x ns path t in (Memᴰ.tail u, k)
  ]
]

pub outside-Memᴰ :
    (x : ℕ) (ns : List ℕ) (path : Hops)
    → Memᴰ x ns
    → is_in x path ≡ false
    → Memᴰ x (outside ns path)
unfolding outside
outside-Memᴰ x [] path m h = m
outside-Memᴰ x (n ∷ ns) path m h = elim (Memᴰ.cases_cons m) [
  | inl e ↦ let here : is_in n path ≡ false = rw (← e) h in rw (outside, here) (Memᴰ.head e)
  | inr t ↦ elim (Bool-cases (is_in n path)) [
    | inl k ↦ rw (outside, k) (outside-Memᴰ x ns path t h)
    | inr k ↦ rw (outside, k) (Memᴰ.tail (outside-Memᴰ x ns path t h))
  ]
]

pub rounds_for_pos : (d n : ℕ) → 1 ≤ rounds_for d n
rounds_for_pos d zero = omega arith
rounds_for_pos d (suc n) = omega arith

-- After a round, the rounds that are enough are fewer.
pub pushed-rounds_of :
    (d : ℕ) (nodes : List ℕ) (dst node : ℕ) (path : Hops) (ns : List ℕ) (stack : Stack)
    → length ns ≤ d
    → ((n : ℕ) → Memᴰ n ns → Memᴰ n nodes)
    → suc (rounds_of d nodes (pushed (equals dst) path (outside ns path) stack))
      ≤ rounds_of d nodes ((node, path) ∷ stack)
unfolding pushed outside
pushed-rounds_of d nodes dst node path ns stack few known = bounded (left path nodes) refl
  where
    step_less : (n : ℕ) → Memᴰ n (outside ns path) → left (path ++ n ∷ []) nodes < left path nodes
    step_less n m = let (t, k) = Memᴰ-outside n ns path m in left_less path n nodes (known n t) k

    bounded :
        (k : ℕ)
        → left path nodes ≡ k
        → suc (rounds_of d nodes (pushed (equals dst) path (outside ns path) stack))
          ≤ rounds_for d (left path nodes) + rounds_of d nodes stack
    bounded zero e =
        let h =
          pushed_rounds d nodes dst path 0 (outside ns path) stack
            (λ n m. absurd (omega (arith, step_less n m, e))) in
        let z = times_zero (length (outside ns path)) in rw e (omega (arith, h, z))
      where
        times_zero : (c : ℕ) → times c 0 ≡ 0
        times_zero zero = refl
        times_zero (suc c) = omega (arith, times_zero c)
    bounded (suc k) e =
        let h = pushed_rounds d nodes dst path (rounds_for d k) (outside ns path) stack (λ n m.
          rounds_for_le d (left (path ++ n ∷ []) nodes) k (omega (arith, step_less n m, e))) in
        let size = length-outside ns path in
        let more =
          times_more (length (outside ns path)) d (rounds_for d k) (omega (arith, size, few)) in
        rw e (omega (arith, h, more))
