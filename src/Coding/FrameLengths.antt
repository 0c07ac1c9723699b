-- ===== src/Coding/FrameLengths.antt =====
-- The lengths of the frames that the encoder (app/network_coding_for_transport/encoder.py) sends in one round.
use comnetsemu.Prelude.{ℕ, zero, suc, ◌+◌, List, [], ◌∷◌, length}
use comnetsemu.Coding.Bytes.{Bytes}

abbrev pub lengths : List Bytes → List ℕ
lengths [] = []
lengths (frame ∷ frames) = length frame ∷ lengths frames

-- So many lengths, each by `more` above the one before.
abbrev pub growing : ℕ → ℕ → ℕ → List ℕ
growing zero frame_len more = []
growing (suc n) frame_len more = (frame_len + more) ∷ growing n (frame_len + more) more
