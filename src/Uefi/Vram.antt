-- ===== src/Uefi/Vram.antt =====
-- uefi.rs: the frame buffer of the firmware as a bitmap.
use original_os_with_rust.Prelude.{ℕ}
use original_os_with_rust.Graphics.{Bitmap}

-- The fields that `init_vram` reads.
pub record EfiGraphicsOutputProtocolPixelInfo : Type 0 where
  pub horizontal_resolution : ℕ
  pub vertical_resolution : ℕ
  pub pixels_per_scan_line : ℕ

pub record VramBufferInfo : Type 0 where
  pub width : ℕ
  pub height : ℕ
  pub pixels_per_line : ℕ

-- The part of `init_vram` after the protocol is found; the fields are of 32 bits, so that the casts
-- keep them.
unfoldable pub init_vram : EfiGraphicsOutputProtocolPixelInfo → VramBufferInfo
init_vram info = record {
  width = info.horizontal_resolution;
  height = info.vertical_resolution;
  pixels_per_line = info.pixels_per_scan_line;
}

-- `impl Bitmap for VramBufferInfo`, with what the frame buffer holds.
unfoldable pub vram_bitmap : VramBufferInfo → (ℕ → ℕ) → Bitmap
vram_bitmap v buf = record {
  bytes_per_pixel = 4;
  pixels_per_line = v.pixels_per_line;
  width = v.width;
  height = v.height;
  buf = buf;
}
