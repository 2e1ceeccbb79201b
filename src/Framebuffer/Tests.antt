-- ===== src/Framebuffer/Tests.antt =====
-- A framebuffer of 64 by 32 pixels with a font of 8 by 16.
use ga_os.Base.{ℕ, ◌≤◌, ◌≡◌, arith, true, [], ◌∷◌}
use ga_os.Framebuffer.{Framebuffer, Font, Display, framebuffer_write_string}
use ga_os.Framebuffer.Inside.{IsOutside, Fits, framebuffer_write_string-inside}

abbrev screen : Framebuffer
screen = record { base = 0x10000; width = 64; height = 32; pitch = 256; bpp = 32 }

abbrev small_font : Font
small_font = record {
  magic = λ i. 0;
  header_size = 32;
  glyph_size = 16;
  height = 16;
  width = 8;
  font_glyphs = 0x1000;
}

abbrev display : Display
display = record {
  framebuffer_available = true;
  main_framebuffer = screen;
  main_cursor = record { x = 0; y = 0; colour = 0xFFFFFF };
  font = small_font;
  memory = λ a. 255;
}

screen-Fits : Fits screen small_font
screen-Fits = record {
  pitch = omega arith;
  room = omega arith;
  small = (omega arith, omega arith);
  wide = omega arith;
  high = omega arith;
}

framebuffer_write_string-inside_example :
    ((a : ℕ)
      → IsOutside screen a
      → (framebuffer_write_string (b'o' ∷ b'k' ∷ []) display).memory a ≡ 255)
    × ((framebuffer_write_string (b'o' ∷ b'k' ∷ []) display).main_cursor.x ≤ 64)
framebuffer_write_string-inside_example =
    framebuffer_write_string-inside (b'o' ∷ b'k' ∷ []) display screen-Fits (omega arith)
      (omega arith)
