-- ===== src/Machine/Torn.antt =====
-- A message that comes during a fetch.
use huc.Base.{◌≡◌, true, false, some, arith}
use huc.Memory.{Memory, load_bytes}
use huc.Memory.Laws.{Bytes}
use huc.Msg.{header_at}
use huc.Hucdev.{HucState}
use huc.Driver.{Driver, read, returned, take_word}
use huc.Driver.Window.{read-load_bytes}
use huc.Daemon.Recv.{Calls}
use huc.Daemon.Recv.Whole.{word_len}
use huc.Machine.{Machine}

-- No call of the fetch is disturbed.
abbrev quiet : Calls
quiet = record {
  seek_header = true;
  seek_payload = true;
  malloc = true;
  signalled = λ off. false;
  faults = λ off. false;
}

-- The header's read sets the driver to the length that the header announces.
pub read_header-length :
    (d : Driver) (dev : HucState)
    → Bytes dev.buf
    → d.flag ≡ 2
    → read d dev 16 4 false false
      ≡ returned
          (some 4)
          (load_bytes dev.buf 16 4)
          (record { flag = 1; payload_left = (header_at dev.buf 16).payload_len })
          20
unfolding take_word
read_header-length d dev bytes awake = ground (
  arith,
  read-load_bytes d dev 16 bytes (omega arith) (omega arith) (omega arith),
  word_len dev.buf bytes,
)
