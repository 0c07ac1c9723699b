-- ===== src/Coding/Decoder.antt =====
-- app/network_coding_for_transport/decoder.py: `run_decoder`, one frame at a time. `none` is an exception
-- that ends the decoder.
use comnetsemu.Prelude.{
  ℕ, zero, suc, ◌+◌, ◌*◌, Option, none, some, List, [], ◌∷◌, ◌++◌, Bool, true, false, if◌then◌else◌,
  ◌&&◌, ltb, ◌==◌, nat_eq, length, get_elem?, take, replicate,
}
use comnetsemu.Prelude.Int.{pos_part}
use comnetsemu.Coding.Bytes.{Bytes, ◌>>=◌, pack_short, slice, splice}
use comnetsemu.Coding.Header.{
  Ipv4, Udp, Metadata, recv_into, parse_ipv4, parse_udp, update_cksum_ipv4, update_ip_udp_len,
  pull_metadata, eth_hdl, udp_hdl, ip_proto_udp, meta_data_len, md_type_udp, symbols, symbol_size,
  mtu,
}
use comnetsemu.Coding.Kodo.{DecoderApi}

pub record DecoderState (D : Type 0) : Type 0 where
  pub buf : Bytes
  pub udp_cnt : ℕ
  pub generation : ℕ
  pub decoder : D
  -- `not_decoded_indces`
  pub not_decoded : List ℕ
  pub sent : List Bytes

-- `list(range(n))`, from `i` on.
abbrev pub range_from : ℕ → ℕ → List ℕ
range_from zero i = []
range_from (suc n) i = i ∷ range_from n (i + 1)

-- `del l[l.index(i)]`
unfoldable pub delete_first : ℕ → List ℕ → List ℕ
delete_first i [] = []
delete_first i (j ∷ l) = if j == i then l else j ∷ delete_first i l

-- What the loop over the symbols works on.
pub record Delivery : Type 0 where
  pub buf : Bytes
  pub not_decoded : List ℕ
  pub sent : List Bytes

-- Sending the decoded symbol `i`.
unfoldable pub deliver : Ipv4 → Udp → Metadata → Bytes → ℕ → Delivery → Option Delivery
deliver ip udp md decode_buf i s =
    if md.md_type == md_type_udp
    then (let buf1 =
          splice s.buf udp.udp_pl_offset md.md_pl_len
            (slice decode_buf (i * symbol_size) md.md_pl_len) in
        let udp_total_len = udp_hdl + md.md_pl_len in
        let ip_total_len = udp_total_len + ip.ip_hd_len in
        let frame_len = ip_total_len + eth_hdl in
        (do
          buf2 ← update_ip_udp_len buf1 ip.ip_hd_offset udp.udp_hd_offset ip_total_len udp_total_len
          buf3 ← pack_short buf2 (udp.udp_hd_offset + 6) 0
          buf4 ← update_cksum_ipv4 buf3 ip.ip_hd_offset ip.ip_hd_len
          some (record s { buf = buf4; sent = s.sent ++ take frame_len buf4 ∷ [] })))
    else some s

-- `for i in not_decoded_indces`, whose body deletes from that list: Python's loop goes by the
-- position, here `at`. Each round makes it grow, so as many rounds as the list has entries are enough.
unfoldable pub deliver_all :
    ℕ → (ℕ → Bool) → (ℕ → Delivery → Option Delivery) → ℕ → Delivery → Option Delivery
deliver_all zero uncoded send at s = some s
deliver_all (suc rounds) uncoded send at s = elim (get_elem? s.not_decoded at) [
  | none ↦ some s
  | some i ↦ elim (uncoded i) [
    | true ↦
        (send i (record s { not_decoded = delete_first i s.not_decoded }) >>= λ s'.
        deliver_all rounds uncoded send (at + 1) s')
    | false ↦ deliver_all rounds uncoded send (at + 1) s
  ]
]

module _ {D : Type 0} (k : DecoderApi D) where
  -- A new decoder for a generation.
  unfoldable pub restart : ℕ → DecoderState D → DecoderState D
  restart generation st = record st {
    generation = generation;
    decoder = k.build;
    not_decoded = range_from symbols 0;
  }

  -- The generation of a packet is compared with that of the decoder.
  unfoldable pub follow_generation : ℕ → DecoderState D → DecoderState D
  follow_generation cur_gen st =
      if ltb st.generation cur_gen
      then restart cur_gen st
      else (if (cur_gen == 0) && (st.generation == 255) then restart 0 st else st)

  unfoldable pub decode_udp : Ipv4 → DecoderState D → Option (DecoderState D)
  decode_udp ip st = do
    udp ← parse_udp st.buf ip.ip_hd_offset ip.ip_hd_len
    md ← pull_metadata st.buf udp.udp_pl_offset
    let st1 = follow_generation md.generation st
    let head = udp.udp_pl_offset + meta_data_len
    decoder ← k.read_payload (slice st1.buf head (pos_part udp.udp_pl_len)) st1.decoder
    s ←
        deliver_all (length st1.not_decoded) (λ i. k.is_symbol_uncoded i decoder)
          (deliver ip udp md (k.decoded decoder)) 0
          (record { buf = st1.buf; not_decoded = st1.not_decoded; sent = st1.sent })
    some (record st1 { buf = s.buf; decoder = decoder; not_decoded = s.not_decoded; sent = s.sent })

  -- What follows `recv_ipv4`: only UDP segments are handled.
  unfoldable pub decode_ipv4 : Option Ipv4 → DecoderState D → Option (DecoderState D)
  decode_ipv4 none st = some st
  decode_ipv4 (some ip) st =
      if ip.ip_proto == ip_proto_udp
      then decode_udp ip (record st { udp_cnt = st.udp_cnt + 1 })
      else some st

  -- One round of the loop, on the frame that the socket gives.
  unfoldable pub decode_step : Bytes → DecoderState D → Option (DecoderState D)
  decode_step frame st =
      let (frame_len, buf) = recv_into frame st.buf mtu in
      do ret ← parse_ipv4 frame_len buf; decode_ipv4 ret (record st { buf = buf })

  unfoldable pub decoder_start : DecoderState D
  decoder_start = record {
    buf = replicate 4096 0;
    udp_cnt = 0;
    generation = 0;
    decoder = k.build;
    not_decoded = range_from symbols 0;
    sent = [];
  }

  -- The loop over the frames that arrive.
  unfoldable pub run_decoder : List Bytes → DecoderState D → Option (DecoderState D)
  run_decoder [] st = some st
  run_decoder (frame ∷ frames) st = do st' ← decode_step frame st; run_decoder frames st'
