-- ===== src/Coding/Oam.antt =====
-- The segments by which the controller tells the coders (app/network_coding_for_transport: encoder.py and recoder.py) the
-- redundancy.
use comnetsemu.Prelude.{
  ℕ, ◌+◌, ◌/◌, ◌%◌, ◌^◌, ◌<◌, Bool, true, subst, Option, some, [], ◌∷◌, get_elem?, ◌==◌, nat_eq,
  nat_beq_iff, ◌≡◌, refl, arith,
}
use comnetsemu.Prelude.Int.{pos, ltb_ℤ}
use comnetsemu.Coding.Bytes.{Bytes, unpack_short, unpack_int, pack_int}
use comnetsemu.Coding.Header.{Ipv4, Udp, parse_udp, udp_port_oam, symbol_size}
use comnetsemu.Coding.Kodo.{EncoderApi, RecoderApi}
use comnetsemu.Coding.Encoder.{EncoderState, encode_udp}
use comnetsemu.Coding.Recoder.{RecoderState, Action, recode_udp}

-- The bytes stand in the buffer from that place on.
abbrev pub IsAt : Bytes → ℕ → Bytes → Type 0
IsAt buf i b = (j x : ℕ) → get_elem? b j ≡ some x → get_elem? buf (i + j) ≡ some x

pack_int-eq_some :
    (r : ℕ) (b : Bytes)
    → pack_int r ≡ some b
    → (r < 2 ^ 31) × (b ≡ r / 2 ^ 24 ∷ r / 2 ^ 16 % 256 ∷ r / 256 % 256 ∷ r % 256 ∷ [])
unfolding pack_int
pack_int-eq_some r b h = ground arith

unpack_int-pack_int :
    (buf : Bytes) (i r : ℕ) (b : Bytes)
    → pack_int r ≡ some b
    → IsAt buf i b
    → (unpack_int buf i ≡ some (pos r)) × (get_elem? buf i ≡ some (r / 2 ^ 24))
unfolding unpack_int unpack_short
unpack_int-pack_int buf i r b h at =
    let (small, e) = pack_int-eq_some r b h in
    let b0 : get_elem? buf i ≡ some (r / 2 ^ 24) =
      subst (λ n. get_elem? buf n ≡ some (r / 2 ^ 24)) (first i) (at 0 _ (rw e refl)) in
    let b1 : get_elem? buf (i + 1) ≡ some (r / 2 ^ 16 % 256) = at 1 _ (rw e refl) in
    let b2 : get_elem? buf (i + 2) ≡ some (r / 256 % 256) = at 2 _ (rw e refl) in
    let b3 : get_elem? buf (i + 2 + 1) ≡ some (r % 256) =
      subst (λ n. get_elem? buf n ≡ some (r % 256)) (last i) (at 3 _ (rw e refl)) in
    (rw (unpack_int, unpack_short, b0, b1, b2, b3) (ground (arith, small)), b0)
  where
    first : (i : ℕ) → i + 0 ≡ i
    first i = omega arith

    last : (i : ℕ) → i + 3 ≡ i + 2 + 1
    last i = omega arith

module _ {E R : Type 0} (k : EncoderApi E) (disable_systematic : Bool) (kr : RecoderApi R) where
  -- Of a segment for the OAM port with fewer bytes than a symbol, whose payload starts with the redundancy as a 32-bit
  -- number, the encoder takes that number over, and the recoder its first byte, the number divided by 2 ^ 24; nothing
  -- else changes in either.
  pub oam_payload :
      (r : ℕ) (b : Bytes) (ip : Ipv4) (udp : Udp) (action : Action) (dst_mac : Option Bytes)
      (st : EncoderState E) (st' : RecoderState R)
      → pack_int r ≡ some b
      → parse_udp st.buf ip.ip_hd_offset ip.ip_hd_len ≡ some udp
      → parse_udp st'.buf ip.ip_hd_offset ip.ip_hd_len ≡ some udp
      → udp.udp_dst_port ≡ udp_port_oam
      → ltb_ℤ udp.udp_pl_len (pos symbol_size) ≡ true
      → IsAt st.buf udp.udp_pl_offset b
      → IsAt st'.buf udp.udp_pl_offset b
      → (encode_udp k disable_systematic ip st ≡ some (record st { redundancy = pos r }))
        × (recode_udp kr action dst_mac ip st' ≡ some (record st' { redundancy = r / 2 ^ 24 }))
  unfolding encode_udp recode_udp
  oam_payload r b ip udp action dst_mac st st' h parsed parsed' port short at at' =
      let (whole, _) = unpack_int-pack_int st.buf udp.udp_pl_offset r b h at in
      let (_, first) = unpack_int-pack_int st'.buf udp.udp_pl_offset r b h at' in
      let oam : (udp.udp_dst_port == udp_port_oam) ≡ true = (nat_beq_iff _ _).1 port in
      (rw (encode_udp, parsed, short, oam, whole) refl, rw (recode_udp, parsed', oam, first) refl)
