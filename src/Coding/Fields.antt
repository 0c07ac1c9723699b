-- ===== src/Coding/Fields.antt =====
-- The header fields of app/network_coding_for_transport/common.py and rawsock_helpers.py as they are
-- written and read back.
use comnetsemu.Prelude.{
  ℕ, ◌+◌, ◌/◌, ◌%◌, ◌<◌, Option, none, some, length, get_elem?, set, ◌≡◌, ◌≢◌, refl, ap, ◌∙◌, arith,
  length-set, get_elem?-set_self, get_elem?-set_ne,
}
use comnetsemu.Coding.Bytes.{Bytes, ◌>>=◌, unpack_short, pack_byte, pack_short}
use comnetsemu.Coding.Header.{Metadata, pull_metadata, push_metadata}

-- What a written 16-bit field leaves in the buffer.
pub pack_short-eq_some :
    (buf : Bytes) (i v : ℕ) (b : Bytes)
    → pack_short buf i v ≡ some b
    → (v < 65536) × (i + 1 < length buf) × (b ≡ set (set buf i (v / 256)) (i + 1) (v % 256))
unfolding pack_short
pack_short-eq_some buf i v b h = ground arith

pack_byte-eq_some :
    (buf : Bytes) (i v : ℕ) (b : Bytes)
    → pack_byte buf i v ≡ some b
    → (v < 256) × (i < length buf) × (b ≡ set buf i v)
unfolding pack_byte
pack_byte-eq_some buf i v b h = ground arith

pub >>=-eq_some :
    {A B : Type 0} (m : Option A) (f : A → Option B) {b : B}
    → (m >>= f) ≡ some b
    → (a : A) × (m ≡ some a) × (f a ≡ some b)
>>=-eq_some none f h = cc
>>=-eq_some (some a) f h = (a, refl, h)

pub unpack_short-pack_short :
    (buf : Bytes) (i v : ℕ) (b : Bytes) → pack_short buf i v ≡ some b → unpack_short b i ≡ some v
unfolding unpack_short
unpack_short-pack_short buf i v b h =
    let (small, fits, e) = pack_short-eq_some buf i v b h in
    let high : get_elem? b i ≡ some (v / 256) = rw e (
      get_elem?-set_ne (set buf i (v / 256)) (i + 1) i (v % 256) (omega arith)
      ∙ get_elem?-set_self buf i (v / 256) (omega arith)) in
    let low : get_elem? b (i + 1) ≡ some (v % 256) = rw e (
      get_elem?-set_self (set buf i (v / 256)) (i + 1) (v % 256)
        (omega (arith, length-set buf i (v / 256)))) in
    rw (high, low) (ap some (omega arith))

pub get_elem?-pack_short :
    (buf : Bytes) (i v j : ℕ) (b : Bytes)
    → pack_short buf i v ≡ some b
    → i ≢ j
    → i + 1 ≢ j
    → get_elem? b j ≡ get_elem? buf j
get_elem?-pack_short buf i v j b h n m =
    let (small, fits, e) = pack_short-eq_some buf i v b h in
    rw e (
      get_elem?-set_ne (set buf i (v / 256)) (i + 1) j (v % 256) m
      ∙ get_elem?-set_ne buf i j (v / 256) n)

-- A header that `push_metadata` has written is read back by `pull_metadata` as it was.
pub pull_metadata-push_metadata :
    (buf b : Bytes) (offset : ℕ) (md : Metadata)
    → push_metadata buf offset md ≡ some b
    → pull_metadata b offset ≡ some md
unfolding push_metadata pull_metadata
pull_metadata-push_metadata buf b offset md h =
    let (b1, h1, k1) = >>=-eq_some (pack_byte buf offset md.md_type) _ h in
    let (b2, h2, k2) = >>=-eq_some (pack_byte b1 (offset + 1) md.generation) _ k1 in
    let (c1, f1, e1) = pack_byte-eq_some buf offset md.md_type b1 h1 in
    let (c2, f2, e2) = pack_byte-eq_some b1 (offset + 1) md.generation b2 h2 in
    let type_read : get_elem? b offset ≡ some md.md_type =
      get_elem?-pack_short b2 (offset + 2) md.md_pl_len offset b k2 (omega arith) (omega arith)
      ∙ rw e2 (
          get_elem?-set_ne b1 (offset + 1) offset md.generation (omega arith)
          ∙ rw e1 (get_elem?-set_self buf offset md.md_type f1)) in
    let generation_read : get_elem? b (offset + 1) ≡ some md.generation =
      get_elem?-pack_short b2 (offset + 2) md.md_pl_len (offset + 1) b k2 (omega arith)
        (omega arith)
      ∙ rw e2 (get_elem?-set_self b1 (offset + 1) md.generation f2) in
    rw (type_read, generation_read, unpack_short-pack_short b2 (offset + 2) md.md_pl_len b k2) refl
