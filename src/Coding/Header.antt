-- ===== src/Coding/Header.antt =====
-- app/network_coding_for_transport/rawsock_helpers.py and common.py: the Ethernet, IPv4 and UDP headers in
-- a receive buffer, the IPv4 checksum, and the coders' own header.
use comnetsemu.Prelude.{
  ℕ, zero, suc, ◌+◌, ◌-◌, ◌*◌, ◌/◌, ◌%◌, Option, none, some, List, [], ◌∷◌, ◌++◌, Bool, true, false,
  if◌then◌else◌, ltb, ◌==◌, nat_eq, length, get_elem?, take, drop,
}
use comnetsemu.Prelude.Int.{ℤ, sub_ℕ}
use comnetsemu.Coding.Bytes.{
  Bytes, ◌>>=◌, unpack_byte, unpack_short, pack_byte, pack_short, pack_short_le, slice,
}

abbrev pub eth_hdl : ℕ
eth_hdl = 14

abbrev pub ip_hdl_min : ℕ
ip_hdl_min = 20

abbrev pub udp_hdl : ℕ
udp_hdl = 8

abbrev pub eth_proto_ipv4 : ℕ
eth_proto_ipv4 = 0x0800

abbrev pub ip_proto_udp : ℕ
ip_proto_udp = 17

abbrev pub meta_data_len : ℕ
meta_data_len = 1 + 2 + 2

abbrev pub md_type_udp : ℕ
md_type_udp = 0

abbrev pub udp_port_oam : ℕ
udp_port_oam = 8888

abbrev pub udp_port_data : ℕ
udp_port_data = 9999

abbrev pub symbols : ℕ
symbols = 10

abbrev pub symbol_size : ℕ
symbol_size = 100

abbrev pub init_redundancy : ℕ
init_redundancy = symbols / 2

abbrev pub mtu : ℕ
mtu = 1500

-- `sock.recv_into(buf, size)`: the frame that the socket has, cut to `size`, over the buffer's start.
unfoldable pub recv_into : Bytes → Bytes → ℕ → ℕ × Bytes
recv_into frame buf size = let got = take size frame in (length got, got ++ drop (length got) buf)

pub record Ipv4 : Type 0 where
  pub frame_len : ℕ
  pub ip_hd_offset : ℕ
  pub ip_hd_len : ℕ
  pub ip_proto : ℕ

-- `int(hex(ver_ihl)[-1])`: the last hexadecimal digit read as a decimal one, else ValueError.
unfoldable pub last_hex_digit : ℕ → Option ℕ
last_hex_digit v = if ltb (v % 16) 10 then some (v % 16) else none

-- `recv_ipv4`, after the frame has been received: `some none` for another type of frame.
unfoldable pub parse_ipv4 : ℕ → Bytes → Option (Option Ipv4)
unfolding unpack_short last_hex_digit
parse_ipv4 frame_len buf = do
  eth_typ ← unpack_short buf 12
  (if eth_typ == eth_proto_ipv4
      then (do
        ver_ihl ← unpack_byte buf eth_hdl
        ihl ← last_hex_digit ver_ihl
        ip_proto ← unpack_byte buf (eth_hdl + 9)
        some (
            some (record {
              frame_len = frame_len;
              ip_hd_offset = eth_hdl;
              ip_hd_len = 4 * ihl;
              ip_proto = ip_proto;
            })))
      else some none)

pub record Udp : Type 0 where
  pub udp_hd_offset : ℕ
  pub udp_dst_port : ℕ
  pub udp_pl_offset : ℕ
  pub udp_pl_len : ℤ

-- `parse_udp`; a length field below 8 makes the payload's length negative.
unfoldable pub parse_udp : Bytes → ℕ → ℕ → Option Udp
unfolding unpack_short
parse_udp buf ip_hd_offset ip_hd_len = do
  let udp_hd_offset = ip_hd_offset + ip_hd_len
  udp_dst_port ← unpack_short buf (udp_hd_offset + 2)
  udp_len ← unpack_short buf (udp_hd_offset + 4)
  some (record {
    udp_hd_offset = udp_hd_offset;
    udp_dst_port = udp_dst_port;
    udp_pl_offset = udp_hd_offset + udp_hdl;
    udp_pl_len = sub_ℕ udp_len udp_hdl;
  })

-- The loop of `update_cksum_ipv4` at index `i` of the header, with `left` rounds to go.
unfoldable pub sum_words : ℕ → Bytes → ℕ → ℕ → Option ℕ
sum_words zero hd i s = some s
sum_words (suc left) hd i s = do
  a ← get_elem? hd i
  b ← get_elem? hd (i + 1)
  sum_words left hd (i + 2) (s + (a + b * 256))

-- Two folds, the complement and the mask.
unfoldable pub fold_complement : ℕ → ℕ
fold_complement s = let s1 = s / 65536 + s % 65536 in let s2 = s1 + s1 / 65536 in 65535 - s2 % 65536

-- `update_cksum_ipv4`
unfoldable pub update_cksum_ipv4 : Bytes → ℕ → ℕ → Option Bytes
update_cksum_ipv4 buf ip_hd_offset ip_hd_len = do
  buf0 ← pack_short buf (ip_hd_offset + 10) 0
  s ← sum_words ((ip_hd_len + 1) / 2) (slice buf0 ip_hd_offset ip_hd_len) 0 0
  pack_short_le buf0 (ip_hd_offset + 10) (fold_complement s)

-- `PacketSocket._calc_cksum`: the same over a header of 20 bytes behind the Ethernet header.
unfoldable pub calc_cksum : Bytes → Option Bytes
calc_cksum buf = do
  buf0 ← pack_short buf (eth_hdl + 10) 0
  s ← sum_words (ip_hdl_min / 2) (slice buf0 eth_hdl ip_hdl_min) 0 0
  pack_short_le buf0 (eth_hdl + 10) (fold_complement s)

-- `update_ip_udp_len`
unfoldable pub update_ip_udp_len : Bytes → ℕ → ℕ → ℕ → ℕ → Option Bytes
unfolding pack_short
update_ip_udp_len buf ip_hd_offset udp_hd_offset ip_total_len udp_total_len = do
  buf' ← pack_short buf (ip_hd_offset + 2) ip_total_len
  pack_short buf' (udp_hd_offset + 4) udp_total_len

pub record Metadata : Type 0 where
  pub md_type : ℕ
  pub generation : ℕ
  pub md_pl_len : ℕ

-- `pull_metadata`
unfoldable pub pull_metadata : Bytes → ℕ → Option Metadata
unfolding unpack_short
pull_metadata buf offset = do
  md_type ← unpack_byte buf offset
  generation ← unpack_byte buf (offset + 1)
  md_pl_len ← unpack_short buf (offset + 2)
  some (record { md_type = md_type; generation = generation; md_pl_len = md_pl_len })

-- `push_metadata`; a value out of its field's range, or a short buffer, is `struct.error`.
unfoldable pub push_metadata : Bytes → ℕ → Metadata → Option Bytes
unfolding pack_byte pack_short
push_metadata buf offset md = do
  buf1 ← pack_byte buf offset md.md_type
  buf2 ← pack_byte buf1 (offset + 1) md.generation
  pack_short buf2 (offset + 2) md.md_pl_len

-- `PacketSocket._check_filter`
unfoldable pub check_filter : List (Bytes → Bool) → Bytes → Bool
check_filter [] buf = true
check_filter (f ∷ fs) buf = if f buf then check_filter fs buf else false

-- `PacketSocket.recv_with_filters`: `none` is the result -1; the buffer is filled either way.
unfoldable pub recv_with_filters : List (Bytes → Bool) → Bytes → Bytes → ℕ → Option ℕ × Bytes
unfolding recv_into check_filter
recv_with_filters filters frame buf size =
    let (frame_len, buf') = recv_into frame buf size in
    (if check_filter filters buf' then some frame_len else none, buf')
