-- ===== src/Msg/Laws.antt =====
-- The header's layout round-trips, and what `prepare_huc_message` makes of a file.
use huc.Base.{ℕ, ◌^◌, ◌<◌, ◌≡◌, arith}
use huc.Memory.{Memory, store_bytes}
use huc.Msg.{Header, header_bytes, header_at}

pub record Fits (h : Header) : Type 0 where
  pub version_fits : h.version < 2 ^ 8
  pub type_fits : h.type < 2 ^ 8
  pub len_fits : h.payload_len < 2 ^ 16

-- A header that is stored at an address is read back from it.
pub header_at-header_bytes :
    (m : Memory) (a : ℕ) (h : Header) → Fits h → header_at (store_bytes m a (header_bytes h)) a ≡ h
unfolding header_at header_bytes store_bytes
header_at-header_bytes m a h f = ground arith
