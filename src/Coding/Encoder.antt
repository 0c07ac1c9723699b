-- ===== src/Coding/Encoder.antt =====
-- app/network_coding_for_transport/encoder.py: `run_encoder`, one frame at a time. `none` is an exception
-- that ends the encoder.
use comnetsemu.Prelude.{
  ℕ, zero, suc, ◌+◌, ◌-◌, Option, none, some, List, [], ◌∷◌, ◌++◌, Bool, if◌then◌else◌, ltb, ◌==◌,
  nat_eq, length, set, take, replicate,
}
use comnetsemu.Prelude.Int.{ℤ, pos, negsuc, ltb_ℤ}
use comnetsemu.Coding.Bytes.{Bytes, ◌>>=◌, ◌>>◌, assert, unpack_int, pack_short, slice, splice}
use comnetsemu.Coding.Header.{
  Ipv4, Udp, recv_into, parse_ipv4, parse_udp, update_cksum_ipv4, update_ip_udp_len, push_metadata,
  udp_hdl, ip_proto_udp, meta_data_len, md_type_udp, udp_port_oam, udp_port_data, symbols,
  symbol_size, init_redundancy, mtu,
}
use comnetsemu.Coding.Kodo.{EncoderApi}

-- The variables of the loop; `sent` is what has been sent, in order.
pub record EncoderState (E : Type 0) : Type 0 where
  pub buf : Bytes
  pub udp_cnt : ℕ
  pub generation : ℕ
  pub redundancy : ℤ
  pub encoder : E
  pub symbol_storage : List Bytes
  pub sent : List Bytes

-- A number for an unsigned field of `struct`, which a negative one does not fit.
abbrev pub as_field : ℤ → Option ℕ
as_field (pos n) = some n
as_field (negsuc n) = none

-- `buf[i : i + n] + b"0" * (SYMBOL_SIZE - n)`: filled up with the character 0.
unfoldable pub padded : Bytes → ℕ → ℤ → Bytes
padded buf i (pos n) = slice buf i n ++ replicate (symbol_size - n) b'0'
padded buf i (negsuc n) = replicate (symbol_size + suc n) b'0'

-- `range(1 + redundancy)` has that many rounds.
abbrev pub send_count : ℤ → ℕ
send_count (pos n) = 1 + n
send_count (negsuc n) = 0

-- What the sending loop works on.
pub record Sending (E : Type 0) : Type 0 where
  pub buf : Bytes
  pub frame_len : ℕ
  pub encoder : E
  pub sent : List Bytes

module _ {E : Type 0} (k : EncoderApi E) where
  -- One round of the sending loop. A coded symbol is longer than the payload, so that the new length
  -- of the frame is not negative.
  unfoldable pub send_one : Ipv4 → Udp → ℕ → Sending E → Option (Sending E)
  send_one ip udp generation s =
      let (enc_out, encoder) = k.write_payload s.encoder in
      let buf1 = splice s.buf (udp.udp_pl_offset + meta_data_len) (length enc_out) enc_out in
      do
        md_pl_len ← as_field udp.udp_pl_len
        let frame_len = s.frame_len + length enc_out + meta_data_len - md_pl_len
        buf2 ←
            push_metadata buf1 udp.udp_pl_offset
              (record { md_type = md_type_udp; generation = generation; md_pl_len = md_pl_len })
        let udp_total_len = udp_hdl + meta_data_len + length enc_out
        let ip_total_len = udp_total_len + ip.ip_hd_len
        buf3 ← update_ip_udp_len buf2 ip.ip_hd_offset udp.udp_hd_offset ip_total_len udp_total_len
        buf4 ← pack_short buf3 (udp.udp_hd_offset + 6) 0
        buf5 ← update_cksum_ipv4 buf4 ip.ip_hd_offset ip.ip_hd_len
        some (record {
          buf = buf5;
          frame_len = frame_len;
          encoder = encoder;
          sent = s.sent ++ take frame_len buf5 ∷ [];
        })

  -- `for _ in range(send_num)`
  unfoldable pub send_all : ℕ → Ipv4 → Udp → ℕ → Sending E → Option (Sending E)
  send_all zero ip udp generation s = some s
  send_all (suc n) ip udp generation s = do
    s' ← send_one ip udp generation s
    send_all n ip udp generation s'

module _ {E : Type 0} (k : EncoderApi E) (disable_systematic : Bool) where
  -- A new encoder, as at the start and after each generation.
  unfoldable pub fresh : E
  fresh = if disable_systematic then k.set_systematic_off k.build else k.build

  -- The end of a round: a full encoder is replaced and the generation counts on, modulo 256.
  unfoldable pub next_generation : ℕ → EncoderState E → Option (EncoderState E)
  next_generation rank st =
      if rank == symbols
      then (do
        assert (k.rank k.build == 0)
        some (record st {
          generation = if ltb st.generation 255 then st.generation + 1 else 0;
          encoder = fresh;
        }))
      else some st

  -- A segment for the data port. The log of `send_num` before its first assignment, which fails where the very first
  -- segment fills the encoder, is left out: an encoder of ten symbols is not full after one.
  unfoldable pub encode_data : Ipv4 → Udp → EncoderState E → Option (EncoderState E)
  encode_data ip udp st =
      let rank = k.rank st.encoder in
      let symbol = padded st.buf udp.udp_pl_offset udp.udp_pl_len in
      do
        assert (ltb rank (length st.symbol_storage))
        encoder ← k.set_const_symbol rank symbol st.encoder
        let rank' = k.rank encoder
        let send_num = if ltb rank' symbols then 1 else send_count st.redundancy
        s ←
            send_all k send_num ip udp st.generation
              (record { buf = st.buf; frame_len = ip.frame_len; encoder = encoder; sent = st.sent })
        next_generation rank' (record st {
          buf = s.buf;
          encoder = s.encoder;
          symbol_storage = set st.symbol_storage rank symbol;
          sent = s.sent;
        })

  -- A UDP segment: the length is checked before the port.
  unfoldable pub encode_udp : Ipv4 → EncoderState E → Option (EncoderState E)
  encode_udp ip st = do
    udp ← parse_udp st.buf ip.ip_hd_offset ip.ip_hd_len
    assert (ltb_ℤ udp.udp_pl_len (pos symbol_size))
    (if udp.udp_dst_port == udp_port_oam
        then (do
          redundancy ← unpack_int st.buf udp.udp_pl_offset
          some (record st { redundancy = redundancy }))
        else (if udp.udp_dst_port == udp_port_data then encode_data ip udp st else some st))

  -- What follows `recv_ipv4`: only UDP segments are coded.
  unfoldable pub encode_ipv4 : Option Ipv4 → EncoderState E → Option (EncoderState E)
  encode_ipv4 none st = some st
  encode_ipv4 (some ip) st =
      if ip.ip_proto == ip_proto_udp
      then encode_udp ip (record st { udp_cnt = st.udp_cnt + 1 })
      else some st

  -- One round of the loop, on the frame that the socket gives.
  unfoldable pub encode_step : Bytes → EncoderState E → Option (EncoderState E)
  encode_step frame st =
      let (frame_len, buf) = recv_into frame st.buf mtu in
      do ret ← parse_ipv4 frame_len buf; encode_ipv4 ret (record st { buf = buf })

  -- The state when the loop is entered.
  unfoldable pub encoder_start : EncoderState E
  encoder_start = record {
    buf = replicate 4096 0;
    udp_cnt = 0;
    generation = 0;
    redundancy = pos init_redundancy;
    encoder = fresh;
    symbol_storage = replicate symbols [];
    sent = [];
  }

  -- The loop over the frames that arrive.
  unfoldable pub run_encoder : List Bytes → EncoderState E → Option (EncoderState E)
  run_encoder [] st = some st
  run_encoder (frame ∷ frames) st = do st' ← encode_step frame st; run_encoder frames st'
