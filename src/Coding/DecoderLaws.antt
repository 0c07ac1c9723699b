-- ===== src/Coding/DecoderLaws.antt =====
-- The decoder (app/network_coding_for_transport/decoder.py) and the generations of the packets it sees.
use comnetsemu.Prelude.{ℕ, ◌+◌, ◌%◌, ◌<◌, ◌≡◌, arith, ◌⊎◌, if◌then◌else◌, ◌==◌, nat_eq}
use comnetsemu.Coding.Header.{symbols}
use comnetsemu.Coding.Kodo.{DecoderApi}
use comnetsemu.Coding.Decoder.{DecoderState, range_from, restart, follow_generation}

module _ {D : Type 0} (k : DecoderApi D) where
  -- In step with the encoder: a new decoder with all symbols open on each change of the generation.
  abbrev pub followed : ℕ → DecoderState D → DecoderState D
  followed cur_gen st =
      if cur_gen == st.generation
      then st
      else record st { generation = cur_gen; decoder = k.build; not_decoded = range_from symbols 0 }

  -- As long as each packet belongs to the decoder's generation or to the next one modulo 256, the decoder is
  -- in step with the encoder: it enters each new generation with a new decoder and all symbols open,
  -- and otherwise changes nothing.
  pub follow_generation-followed :
      (cur_gen : ℕ) (st : DecoderState D)
      → st.generation < 256
      → (cur_gen ≡ st.generation) ⊎ (cur_gen ≡ (st.generation + 1) % 256)
      → follow_generation k cur_gen st ≡ followed cur_gen st
  unfolding follow_generation restart
  follow_generation-followed cur_gen st byte near = ground arith
