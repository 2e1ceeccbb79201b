-- ===== src/Framebuffer.antt =====
-- kernel/src/devices/framebuffer: text on the framebuffer, and the device "/fb0". Memory holds the font and the
-- framebuffer. A section under the spinlock is one step; `arch_zero_pages`, which is assembly, clears whole
-- pages. A pixel is four bytes, the low one first.
pub mod Inside
mod Tests
use ga_os.Base.{
  ℕ, zero, suc, ◌+◌, ◌-◌, ◌*◌, ◌/◌, ◌%◌, ◌^◌, ◌||◌, not, Bool, true, false, Option, none, some,
  List, [], ◌∷◌, ◌==◌, ltb, leb, if◌then◌else◌, bit_and,
}
use ga_os.Base.Int.{ℤ, pos}
use ga_os.Libc.Memory.{Memory, store, memcpy, memset, memcmp}
use ga_os.Libc.Strings.{CString, string_at, is_zero}
use ga_os.Filesystem.Node.{Node}
use ga_os.Devices.{Device, Devices, Created, refused, framebuffer, device_create_at}

abbrev pub wrap : ℕ → ℕ
wrap n = n % 2 ^ 64

abbrev pub page : ℕ
page = 4096

-- `framebuffer_t`
pub record Framebuffer : Type 0 where
  pub base : ℕ
  pub width : ℕ
  pub height : ℕ
  pub pitch : ℕ
  pub bpp : ℕ

-- `cursor_t`
pub record Cursor : Type 0 where
  pub x : ℕ
  pub y : ℕ
  pub colour : ℕ

-- The fields of `psf2_header_t` that are read; `font_glyphs` is where the glyphs begin.
pub record Font : Type 0 where
  pub magic : CString
  pub header_size : ℕ
  pub glyph_size : ℕ
  pub height : ℕ
  pub width : ℕ
  pub font_glyphs : ℕ

-- The globals, and memory.
pub record Display : Type 0 where
  pub framebuffer_available : Bool
  pub main_framebuffer : Framebuffer
  pub main_cursor : Cursor
  pub font : Font
  pub memory : Memory

-- A store of 32 bits.
pub store_word : Memory → (address value : ℕ) → Memory
store_word m address value =
    store
      (store (store (store m address (value % 256)) (address + 1) (value / 2 ^ 8 % 256))
        (address + 2) (value / 2 ^ 16 % 256))
      (address + 3) (value / 2 ^ 24 % 256)

pub plot_pixel : Framebuffer → (x y colour : ℕ) → Memory → Memory
plot_pixel f x y colour m = store_word m (f.base + y * f.pitch + 4 * x) colour

-- font_glyphs + c * font->glyph_size, where `c` is a signed byte and the product has 32 bits.
pub glyph_at : Font → ℕ → ℕ
glyph_at font c =
    let widened = if ltb c 128 then c else c + (2 ^ 32 - 256) in
    font.font_glyphs + widened * font.glyph_size % 2 ^ 32

-- The bit of the glyph for a pixel.
pub glyph_bit : Font → Memory → (character xx yy : ℕ) → Bool
glyph_bit font m character xx yy =
    let line_pitch = font.glyph_size / font.height % 256 in
    not (bit_and (m (character + yy * line_pitch % 2 ^ 32 + xx / 8)) (128 / 2 ^ (xx % 8)) == 0)

-- The loop over a line of the glyph, from `xx` on.
pub plot_line : Framebuffer → Font → (character x y yy colour rounds xx : ℕ) → Memory → Memory
plot_line f font character x y yy colour zero xx m = m
plot_line f font character x y yy colour (suc rounds) xx m =
    plot_line f font character x y yy colour rounds (xx + 1) (
      if glyph_bit font m character xx yy
      then plot_pixel f (wrap (x + xx)) (wrap (y + yy)) colour m
      else m)

-- The loop over the lines, from `yy` on.
pub plot_lines : Framebuffer → Font → (character x y colour rounds yy : ℕ) → Memory → Memory
plot_lines f font character x y colour zero yy m = m
plot_lines f font character x y colour (suc rounds) yy m =
    plot_lines f font character x y colour rounds (yy + 1)
      (plot_line f font character x y yy colour font.width 0 m)

pub framebuffer_plot_character : Display → (c x y colour : ℕ) → Memory
framebuffer_plot_character d c x y colour =
    if not d.framebuffer_available
    then d.memory
    else plot_lines d.main_framebuffer d.font (glyph_at d.font c) x y colour d.font.height 0
        d.memory

-- The end of the line.
pub wrap_line : Framebuffer → Font → Cursor → ℕ → Cursor
wrap_line f font cursor c =
    if leb f.width (wrap (cursor.x + font.width)) || (c == b'\n')
    then record cursor { x = 0; y = wrap (cursor.y + font.height) }
    else cursor

-- Too low in the framebuffer: back to the top, and all is cleared.
pub back_to_top : Display → Display
back_to_top d =
    let f = d.main_framebuffer in
    if leb f.height (wrap (d.main_cursor.y + d.font.height))
    then record d {
      main_cursor = record d.main_cursor { x = 0; y = 0 };
      memory = memset f.base 0 (wrap (f.height * f.pitch) / page * page) d.memory;
    }
    else d

-- The end of `framebuffer_write_character`.
pub plot_at_cursor : ℕ → Display → Display
plot_at_cursor c d =
    let at = d.main_cursor in
    record d {
      main_cursor = record at { x = wrap (at.x + d.font.width) };
      memory = framebuffer_plot_character d c at.x at.y at.colour;
    }

pub framebuffer_write_character : ℕ → Display → Display
framebuffer_write_character c d =
    let moved = record d { main_cursor = wrap_line d.main_framebuffer d.font d.main_cursor c } in
    if not d.framebuffer_available
    then d
    else if c == b'\n'
    then moved
    else plot_at_cursor c (back_to_top moved)

-- The string is the bytes before the terminator.
pub framebuffer_write_string : List ℕ → Display → Display
framebuffer_write_string [] d = d
framebuffer_write_string (c ∷ cs) d = framebuffer_write_string cs (framebuffer_write_character c d)

-- \x72\xB5\x4A\x86
abbrev pub psf2_magic : CString
psf2_magic i = if i == 0 then 0x72 else if i == 1 then 0xB5 else if i == 2 then 0x4A else 0x86

-- `framebuffer_init`: `given` is what the boot loader gives, and `embedded` the font at `font_start`. Each
-- failure leaves what was stored before it.
pub framebuffer_init : Option Framebuffer → (embedded : Font) → (font_start : ℕ) → Display → Display
framebuffer_init none embedded font_start d = d
framebuffer_init (some f) embedded font_start d =
    let found = record d { main_framebuffer = f } in
    let with_font = record found {
      font = record embedded { font_glyphs = font_start + embedded.header_size };
    } in
    if not (f.bpp == 32)
    then found
    else if not (is_zero (memcmp embedded.magic psf2_magic 4))
    then with_font
    else record with_font {
      main_cursor = record { x = 0; y = 0; colour = 0xFFFFFF };
      framebuffer_available = true;
    }

-- The callbacks of the device.
pub framebuffer_read : Node → (buffer size : ℕ) → Display → ℤ × Node × Display
framebuffer_read n buffer size d = (
  pos size,
  record n { seek_position = wrap (n.seek_position + size) },
  record d {
    memory = memcpy buffer (wrap (d.main_framebuffer.base + n.seek_position)) size d.memory;
  },
)

-- Where `framebuffer_write` writes to.
pub write_position : Node → ℕ → ℕ
write_position n size =
    if ltb n.max_seek_position (wrap (n.seek_position + size))
    then wrap (n.max_seek_position + (2 ^ 64 - size))
    else n.seek_position

pub framebuffer_write : Node → (buffer size : ℕ) → Display → ℤ × Node × Display
framebuffer_write n buffer size d =
    let position = write_position n size in
    (
      pos size,
      record n { seek_position = wrap (position + size) },
      record d { memory = memcpy (wrap (d.main_framebuffer.base + position)) buffer size d.memory },
    )

pub framebuffer_initialise_node : Node → Display → Node × Display
framebuffer_initialise_node n d =
    let f = d.main_framebuffer in
    (record n { max_seek_position = wrap (f.pitch * f.height + (2 ^ 64 - 1)) }, d)

pub framebuffer_create_device : ℕ → Display → Devices Display → Option (Created Display)
framebuffer_create_device fuel d devices =
    if not d.framebuffer_available
    then some (refused devices)
    else device_create_at fuel (b'/' ∷ b'f' ∷ b'b' ∷ b'0' ∷ [])
        (record {
          name = [];
          name_length = 0;
          device_type = framebuffer;
          on_read = some framebuffer_read;
          on_write = some framebuffer_write;
          initialise_node = some framebuffer_initialise_node;
        })
        devices
