-- ===== src/Coding/EncoderLaws.antt =====
-- The encoder (app/network_coding_for_transport/encoder.py): how its generation counts, and what its sending
-- loop does with the length of the frame.
use comnetsemu.Prelude.{
  ℕ, ◌+◌, ◌%◌, ◌≤◌, ◌<◌, Option, none, some, List, [], ◌∷◌, Bool, length, ltb, nat_eq,
  if◌then◌else◌, ◌≡◌, ◌∙◌, arith, ◌⊎◌, length-set, set,
}
use comnetsemu.Prelude.Int.{pos, ltb_ℤ}
use comnetsemu.Coding.Bytes.{Bytes, assert}
use comnetsemu.Coding.Header.{
  Ipv4, Udp, recv_into, parse_ipv4, parse_udp, symbols, symbol_size, mtu,
}
use comnetsemu.Coding.Kodo.{EncoderApi}
use comnetsemu.Coding.Fields.{>>=-eq_some}
use comnetsemu.Coding.Encoder.{
  EncoderState, send_all, next_generation, encode_data, encode_udp, encode_ipv4, encode_step,
  run_encoder, padded, send_count,
}

module _ {E : Type 0} (k : EncoderApi E) (disable_systematic : Bool) where
  -- The counters between two rounds: the generation fits its byte, the storage has its ten places.
  pub record IsValid (st : EncoderState E) : Type 0 where
    pub byte : st.generation < 256
    pub places : length st.symbol_storage ≡ symbols

  -- What a round may do to the counters.
  pub record Advances (st st' : EncoderState E) : Type 0 where
    pub valid : IsValid st'
    pub generation : (st'.generation ≡ st.generation) ⊎ (st'.generation ≡ (st.generation + 1) % 256)
    pub counted : st.udp_cnt ≤ st'.udp_cnt

  next_generation-Advances :
      (rank : ℕ) (st st' : EncoderState E)
      → IsValid st
      → next_generation k disable_systematic rank st ≡ some st'
      → Advances st st'
  unfolding next_generation
  next_generation-Advances rank st st' v h = ground arith

  encode_data-Advances :
      (ip : Ipv4) (udp : Udp) (st st' : EncoderState E)
      → IsValid st
      → encode_data k disable_systematic ip udp st ≡ some st'
      → Advances st st'
  unfolding encode_data
  encode_data-Advances ip udp st st' v h =
      let rank = k.rank st.encoder in
      let symbol = padded st.buf udp.udp_pl_offset udp.udp_pl_len in
      let (_, _, k1) = >>=-eq_some (assert (ltb rank (length st.symbol_storage))) _ h in
      let (encoder, _, k2) = >>=-eq_some (k.set_const_symbol rank symbol st.encoder) _ k1 in
      let rank' = k.rank encoder in
      let send_num = if ltb rank' symbols then 1 else send_count st.redundancy in
      let (s, _, k3) =
        >>=-eq_some
          (send_all k send_num ip udp st.generation
            (record { buf = st.buf; frame_len = ip.frame_len; encoder = encoder; sent = st.sent }))
          _ k2 in
      let st1 : EncoderState E = record st {
        buf = s.buf;
        encoder = s.encoder;
        symbol_storage = set st.symbol_storage rank symbol;
        sent = s.sent;
      } in
      let a =
        next_generation-Advances rank' st1 st'
          (record { byte = v.byte; places = length-set st.symbol_storage rank symbol ∙ v.places })
          k3 in
      record { valid = a.valid; generation = a.generation; counted = a.counted }

  encode_udp-Advances :
      (ip : Ipv4) (st st' : EncoderState E)
      → IsValid st
      → encode_udp k disable_systematic ip st ≡ some st'
      → Advances st st'
  unfolding encode_udp
  encode_udp-Advances ip st st' v h =
      let (udp, _, k1) = >>=-eq_some (parse_udp st.buf ip.ip_hd_offset ip.ip_hd_len) _ h in
      let (_, _, k2) = >>=-eq_some (assert (ltb_ℤ udp.udp_pl_len (pos symbol_size))) _ k1 in
      ground (arith, encode_data-Advances ip udp st st' v)

  encode_ipv4-Advances :
      (ret : Option Ipv4) (st st' : EncoderState E)
      → IsValid st
      → encode_ipv4 k disable_systematic ret st ≡ some st'
      → Advances st st'
  unfolding encode_ipv4
  encode_ipv4-Advances none st st' v h = ground arith
  encode_ipv4-Advances (some ip) st st' v h =
      let st1 : EncoderState E = record st { udp_cnt = st.udp_cnt + 1 } in
      ground (arith, encode_udp-Advances ip st1 st' (record { byte = v.byte; places = v.places }))

  -- After every round the generation fits its byte and the storage has ten places, and the generation is as
  -- before or the next one modulo 256.
  pub encode_step-Advances :
      (frame : Bytes) (st st' : EncoderState E)
      → IsValid st
      → encode_step k disable_systematic frame st ≡ some st'
      → Advances st st'
  unfolding encode_step
  encode_step-Advances frame st st' v h =
      let (frame_len, buf) = recv_into frame st.buf mtu in
      let (ret, _, k1) = >>=-eq_some (parse_ipv4 frame_len buf) _ h in
      let a =
        encode_ipv4-Advances ret (record st { buf = buf }) st'
          (record { byte = v.byte; places = v.places }) k1 in
      record { valid = a.valid; generation = a.generation; counted = a.counted }

  -- Whatever frames arrive, as long as the encoder runs its generation fits its byte and its storage has ten
  -- places.
  pub run_encoder-IsValid :
      (frames : List Bytes) (st st' : EncoderState E)
      → IsValid st
      → run_encoder k disable_systematic frames st ≡ some st'
      → IsValid st'
  unfolding run_encoder
  run_encoder-IsValid [] st st' v h = ground arith
  run_encoder-IsValid (frame ∷ frames) st st' v h =
      let (st1, h1, k1) = >>=-eq_some (encode_step k disable_systematic frame st) _ h in
      run_encoder-IsValid frames st1 st' (encode_step-Advances frame st st1 v h1).valid k1
