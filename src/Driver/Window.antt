-- ===== src/Driver/Window.antt =====
-- What `read` returns: four bytes of the buffer, through the 64 KiB that the device's mask leaves.
use huc.Base.{ℕ, ◌+◌, ◌*◌, ◌/◌, ◌%◌, ◌^◌, ◌≤◌, ◌<◌, ◌≡◌, ◌≢◌, ap, some, arith, false}
use huc.Memory.{load_bytes, load32}
use huc.Memory.Laws.{Bytes, word_bytes-load32}
use huc.Hucdev.{HucState}
use huc.Hucdev.Mmio.{bufmmio_read}
use huc.Driver.{Driver, ioread32, read, take_word, returned}

load32-lt : (m : ℕ → ℕ) (a : ℕ) → Bytes m → load32 m a < 2 ^ 32
unfolding load32
load32-lt m a h = omega (arith, h a, h (a + 1), h (a + 2), h (a + 3))

-- A read at an aligned offset from 4 up to the end of the window gives the word there.
ioread32-load32 :
    (dev : HucState) (off : ℕ)
    → Bytes dev.buf
    → off % 4 ≡ 0
    → 4 ≤ off
    → off < 65536
    → ioread32 dev off ≡ load32 dev.buf off
unfolding ioread32 bufmmio_read
ioread32-load32 dev off bytes aligned lo hi =
    let here : off % 65536 / 4 * 4 ≡ off = omega arith in
    ground (arith, here, load32-lt dev.buf off bytes, ap (load32 dev.buf) here)

-- Offsets 64 KiB apart are the same word, though the window that the device registers is 256 KiB.
ioread32_wraps : (dev : HucState) (off : ℕ) → ioread32 dev (off + 65536) ≡ ioread32 dev off
unfolding ioread32 bufmmio_read
ioread32_wraps dev off = let same : (off + 65536) % 65536 ≡ off % 65536 = omega arith in rw same

-- A `read` of four bytes at an aligned offset from 4 on below 64 KiB, with the driver awake and no
-- fault, returns 4, hands out the four bytes that lie there and moves on by 4.
pub read-load_bytes :
    (d : Driver) (dev : HucState) (off : ℕ)
    → Bytes dev.buf
    → off % 4 ≡ 0
    → 4 ≤ off
    → off < 65536
    → d.flag ≢ 0
    → read d dev off 4 false false
      ≡ returned (some 4) (load_bytes dev.buf off 4) (take_word d (load32 dev.buf off) 4) (off + 4)
unfolding read
read-load_bytes d dev off bytes aligned lo hi awake =
    ground (arith, ioread32-load32 dev off bytes aligned lo hi, word_bytes-load32 dev.buf off bytes)
