-- ===== src/Coding.antt =====
-- app/network_coding_for_transport: the encoder, recoder and decoder of UDP traffic, the packet
-- helpers that they share.
pub mod Bytes
pub mod Header
pub mod Kodo
pub mod Encoder
pub mod Recoder
pub mod Decoder
pub mod Fields
pub mod Words
pub mod Checksum
pub mod EncoderLaws
pub mod FrameLengths
pub mod Oam
pub mod Delivery
pub mod RecoderLaws
pub mod DecoderLaws
mod Tests
