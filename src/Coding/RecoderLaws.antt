-- ===== src/Coding/RecoderLaws.antt =====
-- The recoder (app/network_coding_for_transport/recoder.py): its generation, and how many packets it sends.
use comnetsemu.Prelude.{
  ℕ, zero, suc, ◌+◌, ◌≤◌, Option, none, some, List, [], ◌∷◌, ◌++◌, length, take, ◌≡◌, refl, ◌∙◌, ap,
  arith, length-append,
}
use comnetsemu.Prelude.Int.{ℤ, pos_part}
use comnetsemu.Coding.Bytes.{Bytes, pack_short, slice}
use comnetsemu.Coding.Header.{
  Ipv4, Udp, recv_into, parse_ipv4, parse_udp, pull_metadata, meta_data_len, mtu,
}
use comnetsemu.Coding.Kodo.{RecoderApi}
use comnetsemu.Coding.Fields.{>>=-eq_some}
use comnetsemu.Coding.Recoder.{
  Action, RecoderState, Recoding, recode_one, recode_all, enter_generation, with_dst_mac,
  feed_and_send, recode_data, recode_udp, recode_ipv4, recode_step, run_recoder,
}

module _ {R : Type 0} (k : RecoderApi R) where
  recode_one-sent :
      (ip : Ipv4) (head : ℕ) (pl : ℤ) (s s' : Recoding R)
      → recode_one k ip head pl s ≡ some s'
      → length s'.sent ≡ length s.sent + 1
  unfolding recode_one
  recode_one-sent ip head pl s s' h = grind (arith, length-append)

  recode_all-sent :
      (n : ℕ) (ip : Ipv4) (head : ℕ) (pl : ℤ) (s s' : Recoding R)
      → recode_all k n ip head pl s ≡ some s'
      → length s'.sent ≡ length s.sent + n
  unfolding recode_all
  recode_all-sent zero ip head pl s s' h = ground arith
  recode_all-sent (suc n) ip head pl s s' h =
      let (s1, h1, k1) = >>=-eq_some (recode_one k ip head pl s) _ h in
      omega (arith, recode_one-sent ip head pl s s1 h1, recode_all-sent n ip head pl s1 s' k1)

  enter_generation-le :
      (g : ℕ) (st : RecoderState R) → st.generation ≤ (enter_generation k g st).generation
  unfolding enter_generation
  enter_generation-le g st = ground arith

  enter_generation-sent :
      (g : ℕ) (st : RecoderState R)
      → ((enter_generation k g st).sent ≡ st.sent)
        × ((enter_generation k g st).redundancy ≡ st.redundancy)
  unfolding enter_generation
  enter_generation-sent g st = ground arith

  feed_and_send-sent :
      (ip : Ipv4) (udp : Udp) (st st' : RecoderState R)
      → feed_and_send k ip udp st ≡ some st'
      → (length st'.sent ≡ length st.sent + (st.redundancy + 1))
        × (st'.generation ≡ st.generation)
        × (st'.redundancy ≡ st.redundancy)
  unfolding feed_and_send
  feed_and_send-sent ip udp st st' h =
      let head = udp.udp_pl_offset + meta_data_len in
      let (recoder, _, k1) =
        >>=-eq_some (k.read_payload (slice st.buf head (pos_part udp.udp_pl_len)) st.recoder) _ h in
      let start : Recoding R = record { buf = st.buf; recoder = recoder; sent = st.sent } in
      let (s, h2, k2) =
        >>=-eq_some (recode_all k (st.redundancy + 1) ip head udp.udp_pl_len start) _ k1 in
      let more = recode_all-sent (st.redundancy + 1) ip head udp.udp_pl_len start s h2 in
      ground arith

  -- A data segment that is recoded makes the recoder send the segment itself and then one recoded packet more
  -- than its redundancy, and it does not lower the generation.
  pub recode_data-sent :
      (ip : Ipv4) (udp : Udp) (st st' : RecoderState R)
      → recode_data k ip udp st ≡ some st'
      → (length st'.sent ≡ length st.sent + (1 + (st.redundancy + 1)))
        × (st.generation ≤ st'.generation)
        × (st'.redundancy ≡ st.redundancy)
  unfolding recode_data
  recode_data-sent ip udp st st' h =
      let (md, _, k1) = >>=-eq_some (pull_metadata st.buf udp.udp_pl_offset) _ h in
      let (buf, _, k2) =
        >>=-eq_some (pack_short st.buf (ip.ip_hd_offset + ip.ip_hd_len + 6) 0) _ k1 in
      entered (md.generation) (take ip.frame_len buf)
        (record st { buf = buf; sent = st.sent ++ take ip.frame_len buf ∷ [] }) refl k2
    where
      entered :
          (g : ℕ) (frame : Bytes) (st0 : RecoderState R)
          → st0.sent ≡ st.sent ++ frame ∷ []
          → feed_and_send k ip udp (enter_generation k g st0) ≡ some st'
          → (length st'.sent ≡ length st.sent + (1 + (st0.redundancy + 1)))
            × (st0.generation ≤ st'.generation)
            × (st'.redundancy ≡ st0.redundancy)
      entered g frame st0 e f =
          let after = feed_and_send-sent ip udp (enter_generation k g st0) st' f in
          let same = enter_generation-sent g st0 in
          let up = enter_generation-le g st0 in
          let long = ap length (same.0 ∙ e) ∙ length-append st.sent (frame ∷ []) in
          omega (arith, after, same.1, up, long)

  recode_udp-le :
      (action : Action) (mac : Option Bytes) (ip : Ipv4) (st st' : RecoderState R)
      → recode_udp k action mac ip st ≡ some st'
      → st.generation ≤ st'.generation
  unfolding recode_udp
  recode_udp-le action mac ip st st' h =
      let (udp, _, k1) = >>=-eq_some (parse_udp st.buf ip.ip_hd_offset ip.ip_hd_len) _ h in
      ground (arith, recode_data-sent ip udp (record st { buf = with_dst_mac mac st.buf }) st')

  recode_ipv4-le :
      (action : Action) (mac : Option Bytes) (ret : Option Ipv4) (st st' : RecoderState R)
      → recode_ipv4 k action mac ret st ≡ some st'
      → st.generation ≤ st'.generation
  unfolding recode_ipv4
  recode_ipv4-le action mac none st st' h = ground arith
  recode_ipv4-le action mac (some ip) st st' h =
      ground (arith, recode_udp-le action mac ip (record st { udp_cnt = st.udp_cnt + 1 }) st')

  recode_step-le :
      (action : Action) (mac : Option Bytes) (frame : Bytes) (st st' : RecoderState R)
      → recode_step k action mac frame st ≡ some st'
      → st.generation ≤ st'.generation
  unfolding recode_step
  recode_step-le action mac frame st st' h =
      let (frame_len, buf) = recv_into frame st.buf mtu in
      let (ret, _, k1) = >>=-eq_some (parse_ipv4 frame_len buf) _ h in
      recode_ipv4-le action mac ret (record st { buf = buf }) st' k1

  -- Whatever frames arrive, the recoder's generation never goes down; so it does not follow the encoder from
  -- generation 255 to generation 0.
  pub run_recoder-generation_le :
      (action : Action) (mac : Option Bytes) (frames : List Bytes) (st st' : RecoderState R)
      → run_recoder k action mac frames st ≡ some st'
      → st.generation ≤ st'.generation
  unfolding run_recoder
  run_recoder-generation_le action mac [] st st' h = ground arith
  run_recoder-generation_le action mac (frame ∷ frames) st st' h =
      let (st1, h1, k1) = >>=-eq_some (recode_step k action mac frame st) _ h in
      omega (
        arith,
        recode_step-le action mac frame st st1 h1,
        run_recoder-generation_le action mac frames st1 st' k1,
      )
