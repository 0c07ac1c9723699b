-- ===== src/Coding/Bytes.antt =====
-- Byte buffers and the formats of Python's `struct` that app/network_coding_for_transport uses.
-- `none` is an exception (`struct.error`, `AssertionError`, `ValueError`), which ends the program.
use comnetsemu.Prelude.{
  ℕ, ◌+◌, ◌-◌, ◌*◌, ◌/◌, ◌%◌, ◌^◌, Option, none, some, List, [], ◌∷◌, ◌++◌, Bool, ◌&&◌,
  if◌then◌else◌, ltb, length, get_elem?, set, take, drop,
}
use comnetsemu.Prelude.Int.{ℤ, pos, negsuc}

abbrev pub Bytes : Type 0
Bytes = List ℕ

infixl 5 ◌>>=◌ ◌>>◌
abbrev pub ◌>>=◌ : {A B : Type 0} → Option A → (A → Option B) → Option B
none >>= f = none
some a >>= f = f a

abbrev pub ◌>>◌ : {B : Type 0} → Option (Unit {0}) → Option B → Option B
m >> k = m >>= λ _. k

-- `assert`
abbrev pub assert : Bool → Option (Unit {0})
assert b = if b then some tt else none

-- `struct.unpack_from(">B", buf, i)[0]`
abbrev pub unpack_byte : Bytes → ℕ → Option ℕ
unpack_byte buf i = get_elem? buf i

-- `struct.unpack_from(">H", buf, i)[0]`
unfoldable pub unpack_short : Bytes → ℕ → Option ℕ
unpack_short buf i = do a ← get_elem? buf i; b ← get_elem? buf (i + 1); some (a * 256 + b)

-- `struct.unpack_from(">i", buf, i)[0]`, a signed number in two's complement.
unfoldable pub unpack_int : Bytes → ℕ → Option ℤ
unfolding unpack_short
unpack_int buf i = do
  hi ← unpack_short buf i
  lo ← unpack_short buf (i + 2)
  let v = hi * 65536 + lo
  some (if ltb v (2 ^ 31) then pos v else negsuc (2 ^ 32 - v - 1))

-- `struct.pack(">i", v)` of a natural number; the other branch is `struct.error`.
unfoldable pub pack_int : ℕ → Option Bytes
pack_int v =
    if ltb v (2 ^ 31)
    then some (v / 2 ^ 24 ∷ v / 2 ^ 16 % 256 ∷ v / 256 % 256 ∷ v % 256 ∷ [])
    else none

-- `struct.pack_into(">B", buf, i, v)`
unfoldable pub pack_byte : Bytes → ℕ → ℕ → Option Bytes
pack_byte buf i v = if ltb v 256 && ltb i (length buf) then some (set buf i v) else none

-- `struct.pack_into(">H", buf, i, v)`
unfoldable pub pack_short : Bytes → ℕ → ℕ → Option Bytes
pack_short buf i v =
    if ltb v 65536 && ltb (i + 1) (length buf)
    then some (set (set buf i (v / 256)) (i + 1) (v % 256))
    else none

-- `struct.pack_into("<H", buf, i, v)`
unfoldable pub pack_short_le : Bytes → ℕ → ℕ → Option Bytes
pack_short_le buf i v =
    if ltb v 65536 && ltb (i + 1) (length buf)
    then some (set (set buf i (v % 256)) (i + 1) (v / 256))
    else none

-- `buf[i : i + n]`
abbrev pub slice : Bytes → ℕ → ℕ → Bytes
slice buf i n = take n (drop i buf)

-- `buf[i : i + n] = new`, where the replaced part may have another length than the new one.
unfoldable pub splice : Bytes → ℕ → ℕ → Bytes → Bytes
splice buf i n new = take i buf ++ (new ++ drop (i + n) buf)
