-- ===== src/Coding/Tests.antt =====
-- Concrete runs of the coders of app/network_coding_for_transport, on coders that only count.
use comnetsemu.Prelude.{
  IsNodup, ℕ, zero, suc, ◌+◌, ◌%◌, ◌/◌, ◌≤◌, ◌<◌, [], ◌∷◌, ◌++◌, Option, none, some, true, false,
  if◌then◌else◌, ltb, nat_eq, ◌≡◌, refl, arith, length, replicate, set, inr,
}
use comnetsemu.Prelude.Int.{pos}
use comnetsemu.Coding.Bytes.{
  Bytes, pack_int, pack_byte, pack_short, pack_short_le, unpack_short, splice, slice,
}
use comnetsemu.Coding.Header.{
  Ipv4, Udp, Metadata, recv_into, parse_ipv4, parse_udp, last_hex_digit, update_cksum_ipv4,
  update_ip_udp_len, sum_words, fold_complement, pull_metadata, push_metadata,
}
use comnetsemu.Coding.Kodo.{EncoderApi, RecoderApi, DecoderApi}
use comnetsemu.Coding.Encoder.{
  EncoderState, Sending, padded, send_one, send_all, fresh, next_generation, encode_data,
  encode_udp, encode_ipv4, encode_step, run_encoder,
}
use comnetsemu.Coding.Recoder.{
  recode, RecoderState, recode_one, recode_all, enter_generation, feed_and_send, recode_data,
  recode_udp, recode_ipv4, recode_step, run_recoder,
}
use comnetsemu.Coding.Decoder.{
  DecoderState, Delivery, range_from, delete_first, deliver, deliver_all, follow_generation,
}
use comnetsemu.Coding.Fields.{pull_metadata-push_metadata}
use comnetsemu.Coding.Checksum.{IsVerified, update_cksum_ipv4-IsVerified}
use comnetsemu.Coding.EncoderLaws.{IsValid, Advances, encode_step-Advances, run_encoder-IsValid}
use comnetsemu.Coding.Oam.{IsAt, oam_payload}
use comnetsemu.Coding.Delivery.{deliver_all-kept}
use comnetsemu.Coding.RecoderLaws.{recode_data-sent, run_recoder-generation_le}
use comnetsemu.Coding.DecoderLaws.{followed, follow_generation-followed}

abbrev toy_encoder : EncoderApi ℕ
toy_encoder = record {
  build = 0;
  set_systematic_off = λ e. e;
  rank = λ e. e;
  set_const_symbol = λ r s e. if ltb r 10 then some (e + 1) else none;
  write_payload = λ e. (replicate 105 e, e);
}

abbrev toy_recoder : RecoderApi ℕ
toy_recoder = record {
  build = 0;
  read_payload = λ p r. some (r + 1);
  write_payload = λ r. (replicate 105 r, r);
}

abbrev toy_decoder : DecoderApi ℕ
toy_decoder = record {
  build = 0;
  read_payload = λ p r. some (r + 1);
  is_symbol_uncoded = λ i r. ltb i r;
  decoded = λ r. replicate 1000 r;
}

-- An Ethernet header, an IPv4 header and a UDP header for port 9999, with a payload of 3 bytes.
abbrev data_frame : Bytes
data_frame =
    replicate 12 1
    ++ (8 ∷ 0 ∷ 69 ∷ 0 ∷ 0 ∷ 31 ∷ 0 ∷ 0 ∷ 0 ∷ 0 ∷ 64 ∷ 17 ∷ 0 ∷ 0 ∷ 10 ∷ 0 ∷ 0 ∷ 1 ∷ 10 ∷ 0 ∷ 0 ∷ 2
        ∷ 0 ∷ 99 ∷ 39 ∷ 15 ∷ 0 ∷ 11 ∷ 0 ∷ 0 ∷ 7 ∷ 8 ∷ 9 ∷ [])

-- The encoder with nine symbols of its generation 255.
abbrev full_encoder : EncoderState ℕ
full_encoder = record {
  buf = replicate 200 0;
  udp_cnt = 9;
  generation = 255;
  redundancy = pos 1;
  encoder = 9;
  symbol_storage = replicate 10 [];
  sent = [];
}

abbrev or_start : Option (EncoderState ℕ) → EncoderState ℕ
or_start none = full_encoder
or_start (some st) = st

abbrev ip_header : Ipv4
ip_header = record { frame_len = 45; ip_hd_offset = 14; ip_hd_len = 20; ip_proto = 17 }

abbrev udp_header : Udp
udp_header = record {
  udp_hd_offset = 34;
  udp_dst_port = 9999;
  udp_pl_offset = 42;
  udp_pl_len = pos 3;
}

full_encoder-IsValid : IsValid toy_encoder false full_encoder
full_encoder-IsValid = record { byte = omega arith; places = refl }

encode_step-Advances_example :
    Advances toy_encoder false full_encoder
      (or_start (encode_step toy_encoder false data_frame full_encoder))
unfolding encode_step recv_into parse_ipv4 last_hex_digit unpack_short encode_ipv4 encode_udp
    parse_udp encode_data padded send_all send_one splice push_metadata pack_byte pack_short
    update_ip_udp_len update_cksum_ipv4 sum_words fold_complement pack_short_le next_generation
    fresh
encode_step-Advances_example =
    encode_step-Advances toy_encoder false data_frame full_encoder
      (or_start (encode_step toy_encoder false data_frame full_encoder)) full_encoder-IsValid refl

run_encoder-IsValid_example :
    IsValid toy_encoder false
      (or_start (run_encoder toy_encoder false (data_frame ∷ []) full_encoder))
unfolding run_encoder encode_step recv_into parse_ipv4 last_hex_digit unpack_short encode_ipv4
    encode_udp parse_udp encode_data padded send_all send_one splice push_metadata pack_byte
    pack_short update_ip_udp_len update_cksum_ipv4 sum_words fold_complement pack_short_le
    next_generation fresh
run_encoder-IsValid_example =
    run_encoder-IsValid toy_encoder false (data_frame ∷ []) full_encoder
      (or_start (run_encoder toy_encoder false (data_frame ∷ []) full_encoder)) full_encoder-IsValid
      refl

abbrev to_send : Sending ℕ
to_send = record { buf = data_frame ++ replicate 255 0; frame_len = 45; encoder = 9; sent = [] }

abbrev or_to_send : Option (Sending ℕ) → Sending ℕ
or_to_send none = to_send
or_to_send (some s) = s

abbrev some_metadata : Metadata
some_metadata = record { md_type = 0; generation = 255; md_pl_len = 1000 }

pull_metadata-push_metadata_example :
    pull_metadata (9 ∷ 0 ∷ 255 ∷ 3 ∷ 232 ∷ 9 ∷ []) 1 ≡ some some_metadata
unfolding push_metadata pack_byte pack_short
pull_metadata-push_metadata_example =
    pull_metadata-push_metadata (replicate 6 9) (9 ∷ 0 ∷ 255 ∷ 3 ∷ 232 ∷ 9 ∷ []) 1 some_metadata
      refl

-- The controller's segment for port 8888, with the redundancy 7.
abbrev oam_frame : Bytes
oam_frame =
    replicate 12 1
    ++ (8 ∷ 0 ∷ 69 ∷ 0 ∷ 0 ∷ 32 ∷ 0 ∷ 0 ∷ 0 ∷ 0 ∷ 64 ∷ 17 ∷ 0 ∷ 0 ∷ 10 ∷ 0 ∷ 0 ∷ 1 ∷ 10 ∷ 0 ∷ 0 ∷ 2
        ∷ 0 ∷ 99 ∷ 34 ∷ 184 ∷ 0 ∷ 12 ∷ 0 ∷ 0 ∷ 0 ∷ 0 ∷ 0 ∷ 7 ∷ [])

abbrev oam_header : Udp
oam_header = record {
  udp_hd_offset = 34;
  udp_dst_port = 8888;
  udp_pl_offset = 42;
  udp_pl_len = pos 4;
}

abbrev told_encoder : EncoderState ℕ
told_encoder = record full_encoder { buf = oam_frame }

abbrev told_recoder : RecoderState ℕ
told_recoder = record {
  buf = oam_frame;
  udp_cnt = 9;
  generation = 255;
  redundancy = 2;
  recoder = 9;
  sent = [];
}

oam-IsAt : IsAt oam_frame 42 (0 ∷ 0 ∷ 0 ∷ 7 ∷ [])
oam-IsAt zero x h = h
oam-IsAt (suc zero) x h = h
oam-IsAt (suc (suc zero)) x h = h
oam-IsAt (suc (suc (suc zero))) x h = h
oam-IsAt (suc (suc (suc (suc j)))) x h = absurd (cc)

oam_payload_example :
    (encode_udp toy_encoder false ip_header told_encoder
      ≡ some (record told_encoder { redundancy = pos 7 }))
    × (recode_udp toy_recoder recode none ip_header told_recoder
        ≡ some (record told_recoder { redundancy = 0 }))
unfolding pack_int parse_udp unpack_short
oam_payload_example =
    oam_payload toy_encoder false toy_recoder 7 (0 ∷ 0 ∷ 0 ∷ 7 ∷ []) ip_header oam_header recode
      none told_encoder told_recoder refl refl refl refl refl oam-IsAt oam-IsAt

update_cksum_ipv4-IsVerified_example :
    (c : ℕ) × (c < 65536)
    × (update_cksum_ipv4 data_frame 14 20 ≡ some (set (set data_frame 24 (c % 256)) 25 (c / 256)))
    × IsVerified (slice (set (set data_frame 24 (c % 256)) 25 (c / 256)) 14 20)
update_cksum_ipv4-IsVerified_example =
    update_cksum_ipv4-IsVerified data_frame 14 5 (omega arith) (omega arith) (omega arith)
      (omega arith)

-- Four symbols are open and decoded, and two of them are passed over.
abbrev to_deliver : Delivery
to_deliver = record { buf = data_frame ++ replicate 155 0; not_decoded = range_from 4 0; sent = [] }

abbrev or_to_deliver : Option Delivery → Delivery
or_to_deliver none = to_deliver
or_to_deliver (some s) = s

abbrev decoded_metadata : Metadata
decoded_metadata = record { md_type = 0; generation = 0; md_pl_len = 3 }

open-IsNodup : IsNodup (range_from 4 0)
open-IsNodup = (
  (λ e. omega arith, (λ e. omega arith, (λ e. omega arith, tt))),
  ((λ e. omega arith, (λ e. omega arith, tt)), ((λ e. omega arith, tt), (tt, tt))),
)

deliver_all-kept_example :
    (or_to_deliver (
      deliver_all 4
        (λ i. true)
        (deliver ip_header udp_header decoded_metadata (replicate 400 5))
        0
        to_deliver)).not_decoded
    ≡ 1 ∷ 3 ∷ []
unfolding deliver_all deliver delete_first splice pack_short update_ip_udp_len update_cksum_ipv4
    sum_words fold_complement pack_short_le
deliver_all-kept_example =
    deliver_all-kept ip_header udp_header decoded_metadata (replicate 400 5) (λ i. true) to_deliver
      (or_to_deliver (
        deliver_all 4 (λ i. true) (deliver ip_header udp_header decoded_metadata (replicate 400 5))
          0 to_deliver))
      open-IsNodup refl

abbrev some_recoder : RecoderState ℕ
some_recoder = record {
  buf = replicate 200 0;
  udp_cnt = 0;
  generation = 3;
  redundancy = 1;
  recoder = 4;
  sent = [];
}

abbrev or_recoder : Option (RecoderState ℕ) → RecoderState ℕ
or_recoder none = some_recoder
or_recoder (some st) = st

abbrev filled_recoder : RecoderState ℕ
filled_recoder = record some_recoder { buf = data_frame ++ replicate 155 0 }

-- With redundancy 1 three packets leave.
recode_data-sent_example :
    (length (or_recoder (recode_data toy_recoder ip_header udp_header filled_recoder)).sent ≡ 3)
    × (3 ≤ (or_recoder (recode_data toy_recoder ip_header udp_header filled_recoder)).generation)
    × ((or_recoder (recode_data toy_recoder ip_header udp_header filled_recoder)).redundancy ≡ 1)
unfolding recode_data pull_metadata unpack_short enter_generation feed_and_send recode_all
    recode_one splice pack_short update_cksum_ipv4 sum_words fold_complement pack_short_le
recode_data-sent_example =
    recode_data-sent toy_recoder ip_header udp_header filled_recoder
      (or_recoder (recode_data toy_recoder ip_header udp_header filled_recoder)) refl

run_recoder-generation_le_example :
    3 ≤ (or_recoder (run_recoder toy_recoder recode none (data_frame ∷ []) some_recoder)).generation
unfolding run_recoder recode_step recv_into parse_ipv4 last_hex_digit unpack_short recode_ipv4
    recode_udp parse_udp recode_data pull_metadata enter_generation feed_and_send recode_all
    recode_one splice pack_short update_cksum_ipv4 sum_words fold_complement pack_short_le
run_recoder-generation_le_example =
    run_recoder-generation_le toy_recoder recode none (data_frame ∷ []) some_recoder
      (or_recoder (run_recoder toy_recoder recode none (data_frame ∷ []) some_recoder)) refl

abbrev late_decoder : DecoderState ℕ
late_decoder = record {
  buf = [];
  udp_cnt = 9;
  generation = 255;
  decoder = 4;
  not_decoded = 7 ∷ [];
  sent = [];
}

follow_generation-followed_example :
    follow_generation toy_decoder 0 late_decoder ≡ followed toy_decoder 0 late_decoder
follow_generation-followed_example =
    follow_generation-followed toy_decoder 0 late_decoder (omega arith) (inr refl)
