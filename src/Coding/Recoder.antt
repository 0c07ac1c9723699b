-- ===== src/Coding/Recoder.antt =====
-- app/network_coding_for_transport/recoder.py: `run_recoder`, one frame at a time. `none` is an exception
-- that ends the recoder.
use comnetsemu.Prelude.{
  ℕ, zero, suc, ◌+◌, ◌-◌, Option, none, some, List, [], ◌∷◌, ◌++◌, if◌then◌else◌, ltb, ◌==◌, nat_eq,
  length, take, replicate,
}
use comnetsemu.Prelude.Int.{ℤ, pos, negsuc, pos_part}
use comnetsemu.Coding.Bytes.{Bytes, ◌>>=◌, unpack_byte, pack_short, slice, splice}
use comnetsemu.Coding.Header.{
  Ipv4, Udp, recv_into, parse_ipv4, parse_udp, update_cksum_ipv4, pull_metadata, ip_proto_udp,
  meta_data_len, udp_port_oam, udp_port_data, init_redundancy, mtu,
}
use comnetsemu.Coding.Kodo.{RecoderApi}

pub data Action : Type 0 where
  forward recode : Action

pub record RecoderState (R : Type 0) : Type 0 where
  pub buf : Bytes
  pub udp_cnt : ℕ
  pub generation : ℕ
  pub redundancy : ℕ
  pub recoder : R
  pub sent : List Bytes

-- `xs[:n]`, where a negative `n` counts from the end.
abbrev pub prefix_to : ℤ → Bytes → Bytes
prefix_to (pos n) xs = take n xs
prefix_to (negsuc n) xs = take (length xs - suc n) xs

-- What the recoding loop works on.
pub record Recoding (R : Type 0) : Type 0 where
  pub buf : Bytes
  pub recoder : R
  pub sent : List Bytes

-- `buf[0 : len(dst_mac_b)] = dst_mac_b`, if an address is given.
abbrev pub with_dst_mac : Option Bytes → Bytes → Bytes
with_dst_mac none buf = buf
with_dst_mac (some mac) buf = splice buf 0 (length mac) mac

module _ {R : Type 0} (k : RecoderApi R) where
  -- One recoded packet.
  unfoldable pub recode_one : Ipv4 → ℕ → ℤ → Recoding R → Option (Recoding R)
  recode_one ip head udp_pl_len s =
      let (recode_buf, recoder) = k.write_payload s.recoder in
      let buf1 = splice s.buf head (pos_part udp_pl_len) (prefix_to udp_pl_len recode_buf) in
      do
        buf2 ← update_cksum_ipv4 buf1 ip.ip_hd_offset ip.ip_hd_len
        some
            (record { buf = buf2; recoder = recoder; sent = s.sent ++ take ip.frame_len buf2 ∷ [] })

  -- `for i in range(redundancy + 1)`
  unfoldable pub recode_all : ℕ → Ipv4 → ℕ → ℤ → Recoding R → Option (Recoding R)
  recode_all zero ip head udp_pl_len s = some s
  recode_all (suc n) ip head udp_pl_len s = do
    s' ← recode_one ip head udp_pl_len s
    recode_all n ip head udp_pl_len s'

  -- A generation number above the last one starts a new recoder.
  unfoldable pub enter_generation : ℕ → RecoderState R → RecoderState R
  enter_generation cur_gen st =
      if ltb st.generation cur_gen
      then record st { generation = cur_gen; recoder = k.build }
      else st

  -- The payload goes into the recoder, and the recoded packets go out.
  unfoldable pub feed_and_send : Ipv4 → Udp → RecoderState R → Option (RecoderState R)
  feed_and_send ip udp st =
      let head = udp.udp_pl_offset + meta_data_len in
      do
        recoder ← k.read_payload (slice st.buf head (pos_part udp.udp_pl_len)) st.recoder
        s ←
            recode_all (st.redundancy + 1) ip head udp.udp_pl_len
              (record { buf = st.buf; recoder = recoder; sent = st.sent })
        some (record st { buf = s.buf; recoder = s.recoder; sent = s.sent })

  -- A segment for the data port, to be recoded.
  unfoldable pub recode_data : Ipv4 → Udp → RecoderState R → Option (RecoderState R)
  recode_data ip udp st = do
    md ← pull_metadata st.buf udp.udp_pl_offset
    buf ← pack_short st.buf (ip.ip_hd_offset + ip.ip_hd_len + 6) 0
    feed_and_send ip udp (
        enter_generation md.generation
          (record st { buf = buf; sent = st.sent ++ take ip.frame_len buf ∷ [] }))

  unfoldable pub recode_udp :
      Action → Option Bytes → Ipv4 → RecoderState R → Option (RecoderState R)
  recode_udp action dst_mac ip st = do
    udp ← parse_udp st.buf ip.ip_hd_offset ip.ip_hd_len
    (if udp.udp_dst_port == udp_port_oam
        then (do
          redundancy ← unpack_byte st.buf udp.udp_pl_offset
          some (record st { redundancy = redundancy }))
        else (if udp.udp_dst_port == udp_port_data
            then (let buf = with_dst_mac dst_mac st.buf in
                elim action [
                  | forward ↦
                      some (record st { buf = buf; sent = st.sent ++ take ip.frame_len buf ∷ [] })
                  | recode ↦ recode_data ip udp (record st { buf = buf })
                ])
            else some st))

  -- What follows `recv_ipv4`: only UDP segments are handled.
  unfoldable pub recode_ipv4 :
      Action → Option Bytes → Option Ipv4 → RecoderState R → Option (RecoderState R)
  recode_ipv4 action dst_mac none st = some st
  recode_ipv4 action dst_mac (some ip) st =
      if ip.ip_proto == ip_proto_udp
      then recode_udp action dst_mac ip (record st { udp_cnt = st.udp_cnt + 1 })
      else some st

  -- One round of the loop, on the frame that the socket gives.
  unfoldable pub recode_step :
      Action → Option Bytes → Bytes → RecoderState R → Option (RecoderState R)
  recode_step action dst_mac frame st =
      let (frame_len, buf) = recv_into frame st.buf mtu in
      do ret ← parse_ipv4 frame_len buf; recode_ipv4 action dst_mac ret (record st { buf = buf })

  unfoldable pub recoder_start : RecoderState R
  recoder_start = record {
    buf = replicate 4096 0;
    udp_cnt = 0;
    generation = 0;
    redundancy = init_redundancy;
    recoder = k.build;
    sent = [];
  }

  -- The loop over the frames that arrive.
  unfoldable pub run_recoder :
      Action → Option Bytes → List Bytes → RecoderState R → Option (RecoderState R)
  run_recoder action dst_mac [] st = some st
  run_recoder action dst_mac (frame ∷ frames) st = do
    st' ← recode_step action dst_mac frame st
    run_recoder action dst_mac frames st'
