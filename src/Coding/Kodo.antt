-- ===== src/Coding/Kodo.antt =====
-- The kodo library's coders, which are not part of the repository, as records of their calls.
-- `none` is an exception of a call.
use comnetsemu.Prelude.{ℕ, Option, Bool}
use comnetsemu.Coding.Bytes.{Bytes}

pub record EncoderApi (E : Type 0) : Type 0 where
  -- `encoder_factory.build()`
  pub build : E
  pub set_systematic_off : E → E
  pub rank : E → ℕ
  pub set_const_symbol : ℕ → Bytes → E → Option E
  pub write_payload : E → Bytes × E

pub record RecoderApi (R : Type 0) : Type 0 where
  pub build : R
  pub read_payload : Bytes → R → Option R
  pub write_payload : R → Bytes × R

-- `decoded` is the buffer that `set_mutable_symbols` has given to the decoder.
pub record DecoderApi (D : Type 0) : Type 0 where
  pub build : D
  pub read_payload : Bytes → D → Option D
  pub is_symbol_uncoded : ℕ → D → Bool
  pub decoded : D → Bytes
