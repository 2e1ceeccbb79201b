-- ===== src/Framebuffer/Inside.antt =====
-- Which memory the text routines and the device of kernel/src/devices/framebuffer write to.
use ga_os.Base.{
  if_then, if_else, ℕ, zero, suc, ◌+◌, ◌-◌, ◌*◌, ◌/◌, ◌^◌, ◌≤◌, ◌<◌, ◌≡◌, ap, sym, ◌⊎◌, inl, inr,
  refl, ◌∙◌, arith, false, Bool-cases, List, [], ◌∷◌, ◌==◌, leb, length, ◌||◌, not,
}
use mathlib.Core.Path.{subst}
use native.Mathlib.Nat.{mul-le-mul_right}
use ga_os.Libc.Memory.{Memory, memset}
use ga_os.Libc.Memory.Moves.{memset_lem, memcpy-outside}
use ga_os.Filesystem.Node.{Node}
use ga_os.Framebuffer.{
  Framebuffer, Cursor, Font, Display, wrap, page, store_word, plot_pixel, glyph_at, glyph_bit,
  plot_line, plot_lines, framebuffer_plot_character, plot_at_cursor, wrap_line, back_to_top,
  framebuffer_write_character, framebuffer_write_string, write_position, framebuffer_write,
}

-- The address does not belong to the framebuffer.
abbrev pub IsOutside : Framebuffer → ℕ → Type 0
IsOutside f a = (a < f.base) ⊎ (f.base + f.height * f.pitch ≤ a)

-- The lines of the framebuffer hold its width and end in the address space, and a character fits.
pub record Fits (f : Framebuffer) (font : Font) : Type 0 where
  pub pitch : 4 * f.width ≤ f.pitch
  pub room : f.base + f.height * f.pitch ≤ 2 ^ 64
  pub small : (f.width < 2 ^ 32) × (f.height < 2 ^ 32)
  pub wide : font.width ≤ f.width
  pub high : font.height ≤ f.height

store_word-outside :
    (m : Memory) (address value a : ℕ)
    → (a < address) ⊎ (address + 4 ≤ a)
    → store_word m address value a ≡ m a
unfolding store_word
store_word-outside m address value a out = ground arith

plot_pixel-outside :
    (f : Framebuffer) (x y colour : ℕ) (m : Memory) (a : ℕ)
    → 4 * f.width ≤ f.pitch
    → x < f.width
    → y < f.height
    → IsOutside f a
    → plot_pixel f x y colour m a ≡ m a
unfolding plot_pixel
plot_pixel-outside f x y colour m a pitch in_line in_height out =
    let lines = mul-le-mul_right f.pitch in_height in
    let next : suc y * f.pitch ≡ y * f.pitch + f.pitch = omega arith in
    store_word-outside m (f.base + y * f.pitch + 4 * x) colour a
      (elim out [ inl below ↦ inl (omega arith) | inr above ↦ inr (omega arith) ])

module _ (f : Framebuffer) (font : Font) (fits : Fits f font) (a : ℕ) (out : IsOutside f a) where
  plot_line-outside :
      (character x y yy colour rounds xx : ℕ) (m : Memory)
      → x + (xx + rounds) ≤ f.width
      → y + yy < f.height
      → plot_line f font character x y yy colour rounds xx m a ≡ m a
  unfolding plot_line
  plot_line-outside character x y yy colour zero xx m in_line in_height = refl
  plot_line-outside character x y yy colour (suc rounds) xx m in_line in_height =
      let across : wrap (x + xx) ≡ x + xx = omega (arith, fits.small) in
      let down : wrap (y + yy) ≡ y + yy = omega (arith, fits.small) in
      let pixel =
        plot_pixel-outside f (x + xx) (y + yy) colour m a fits.pitch (omega arith) in_height out in
      elim (Bool-cases (glyph_bit font m character xx yy)) [
        | inl plotted ↦
            rw (plotted, across, down)
              (plot_line-outside character x y yy colour rounds (xx + 1)
                  (plot_pixel f (x + xx) (y + yy) colour m) (omega arith) in_height
                ∙ pixel)
        | inr blank ↦
            rw blank
              (plot_line-outside character x y yy colour rounds (xx + 1) m (omega arith) in_height)
      ]

  plot_lines-outside :
      (character x y colour rounds yy : ℕ) (m : Memory)
      → x + font.width ≤ f.width
      → y + (yy + rounds) ≤ f.height
      → plot_lines f font character x y colour rounds yy m a ≡ m a
  unfolding plot_lines
  plot_lines-outside character x y colour zero yy m in_line in_height = refl
  plot_lines-outside character x y colour (suc rounds) yy m in_line in_height =
      plot_lines-outside character x y colour rounds (yy + 1)
        (plot_line f font character x y yy colour font.width 0 m) in_line (omega arith)
      ∙ plot_line-outside character x y yy colour font.width 0 m (omega arith) (omega arith)

cleared-outside :
    (f : Framebuffer) (a : ℕ)
    → f.base + f.height * f.pitch ≤ 2 ^ 64
    → IsOutside f a
    → (m : Memory) → memset f.base 0 (wrap (f.height * f.pitch) / page * page) m a ≡ m a
cleared-outside f a room out m =
    let less : wrap (f.height * f.pitch) / page * page ≤ f.height * f.pitch = omega arith in
    ground (arith, memset_lem f.base 0 (wrap (f.height * f.pitch) / page * page) m a)

-- What a step of the text routines keeps, for a cursor that is not behind the end of a line.
pub record IsKept (d d' : Display) : Type 0 where
  pub same_framebuffer : d'.main_framebuffer ≡ d.main_framebuffer
  pub same_font : d'.font ≡ d.font
  pub in_line : d'.main_cursor.x ≤ d.main_framebuffer.width
  pub lower : d'.main_cursor.y ≤ d.main_cursor.y + d.font.height
  pub inside : (a : ℕ) → IsOutside d.main_framebuffer a → d'.memory a ≡ d.memory a

wrap_line_lem :
    (f : Framebuffer) (font : Font) (cursor : Cursor) (c : ℕ)
    → Fits f font
    → cursor.x ≤ f.width
    → cursor.y + font.height < 2 ^ 64
    → ((wrap_line f font cursor c).x ≤ f.width)
      × ((wrap_line f font cursor c).y ≤ cursor.y + font.height)
      × ((c == b'\n') ≡ false → (wrap_line f font cursor c).x + font.width ≤ f.width)
unfolding wrap_line
wrap_line_lem f font cursor c fits in_line low =
    let across : wrap (cursor.x + font.width) ≡ cursor.x + font.width =
      omega (arith, fits.small, fits.wide) in
    let down : wrap (cursor.y + font.height) ≡ cursor.y + font.height = omega arith in
    let wide = fits.wide in
    elim (Bool-cases (leb f.width (wrap (cursor.x + font.width)) || (c == b'\n'))) [
      | inl ends ↦ rw (ends, down) (omega arith, omega arith, λ other. omega arith)
      | inr goes ↦ rw goes (in_line, omega arith, λ other. ground arith)
    ]

-- Where the character is plotted, and what was cleared.
record IsPlaced (d d' : Display) : Type 0 where
  same_framebuffer : d'.main_framebuffer ≡ d.main_framebuffer
  same_font : d'.font ≡ d.font
  still_available : d'.framebuffer_available ≡ d.framebuffer_available
  in_line : d'.main_cursor.x + d.font.width ≤ d.main_framebuffer.width
  in_height : d'.main_cursor.y + d.font.height ≤ d.main_framebuffer.height
  no_lower : d'.main_cursor.y ≤ d.main_cursor.y
  inside : (a : ℕ) → IsOutside d.main_framebuffer a → d'.memory a ≡ d.memory a

back_to_top-IsPlaced :
    (d : Display)
    → Fits d.main_framebuffer d.font
    → d.main_cursor.x + d.font.width ≤ d.main_framebuffer.width
    → d.main_cursor.y + d.font.height < 2 ^ 64
    → IsPlaced d (back_to_top d)
unfolding back_to_top
back_to_top-IsPlaced d fits in_line low =
    let f = d.main_framebuffer in
    let down : wrap (d.main_cursor.y + d.font.height) ≡ d.main_cursor.y + d.font.height =
      omega arith in
    elim (Bool-cases (leb f.height (wrap (d.main_cursor.y + d.font.height)))) [
      | inr fitting ↦ rw fitting (record {
        same_framebuffer = refl;
        same_font = refl;
        still_available = refl;
        in_line = in_line;
        in_height = ground arith;
        no_lower = omega arith;
        inside = λ a out. refl;
      })
      | inl full ↦ rw full (record {
        same_framebuffer = refl;
        same_font = refl;
        still_available = refl;
        in_line = omega (arith, fits.wide);
        in_height = omega (arith, fits.high);
        no_lower = omega arith;
        inside = λ a out. cleared-outside f a fits.room out d.memory;
      })
    ]

plot_at_cursor-IsKept :
    (c : ℕ) (d : Display)
    → Fits d.main_framebuffer d.font
    → d.main_cursor.x + d.font.width ≤ d.main_framebuffer.width
    → d.main_cursor.y + d.font.height ≤ d.main_framebuffer.height
    → IsKept d (plot_at_cursor c d)
unfolding plot_at_cursor framebuffer_plot_character
plot_at_cursor-IsKept c d fits in_line in_height =
    let at = d.main_cursor in
    let across : wrap (at.x + d.font.width) ≡ at.x + d.font.width = omega (arith, fits.small) in
    record {
      same_framebuffer = refl;
      same_font = refl;
      in_line = omega (arith, across);
      lower = omega arith;
      inside = λ a out. elim (Bool-cases d.framebuffer_available) [
        | inr absent ↦ rw absent refl
        | inl present ↦ rw present (
            plot_lines-outside d.main_framebuffer d.font fits a out (glyph_at d.font c) at.x at.y
              at.colour d.font.height 0 d.memory in_line (omega arith))
      ];
    }

printed-IsKept :
    (c : ℕ) (d d1 : Display)
    → IsPlaced d d1
    → Fits d.main_framebuffer d.font
    → IsKept d (plot_at_cursor c d1) × ((plot_at_cursor c d1).main_cursor.y ≤ d.main_cursor.y)
unfolding plot_at_cursor
printed-IsKept c d d1 placed fits =
    let fits1 : Fits d1.main_framebuffer d1.font =
      rw (placed.same_framebuffer, placed.same_font) fits in
    let width = ap (λ f. f.width) placed.same_framebuffer in
    let height = ap (λ f. f.height) placed.same_framebuffer in
    let wide = ap (λ f. f.width) placed.same_font in
    let high = ap (λ f. f.height) placed.same_font in
    let k =
      plot_at_cursor-IsKept c d1 fits1 (omega (arith, placed.in_line, width, wide))
        (omega (arith, placed.in_height, height, high)) in
    (
      record {
        same_framebuffer = k.same_framebuffer ∙ placed.same_framebuffer;
        same_font = k.same_font ∙ placed.same_font;
        in_line = omega (arith, k.in_line, width);
        lower = omega (arith, placed.no_lower);
        inside = λ a out. k.inside a (rw placed.same_framebuffer out) ∙ placed.inside a out;
      },
      placed.no_lower,
    )

framebuffer_write_character-IsKept :
    (c : ℕ) (d : Display)
    → Fits d.main_framebuffer d.font
    → d.main_cursor.x ≤ d.main_framebuffer.width
    → d.main_cursor.y + 2 * d.font.height < 2 ^ 64
    → IsKept d (framebuffer_write_character c d)
unfolding framebuffer_write_character
framebuffer_write_character-IsKept c d fits in_line low =
    let moved : Display = record d {
      main_cursor = wrap_line d.main_framebuffer d.font d.main_cursor c;
    } in
    let (short, down, across) =
      wrap_line_lem d.main_framebuffer d.font d.main_cursor c fits in_line (omega arith) in
    elim (Bool-cases d.framebuffer_available) [
      | inr absent ↦ subst (IsKept d) (sym (if_then _ (ap not absent))) (record {
        same_framebuffer = refl;
        same_font = refl;
        in_line = in_line;
        lower = omega arith;
        inside = λ a out. refl;
      })
      | inl present ↦
          subst (IsKept d) (sym (if_else _ (ap not present))) (elim (Bool-cases (c == b'\n')) [
            | inl newline ↦ subst (IsKept d) (sym (if_then _ newline)) (record {
              same_framebuffer = refl;
              same_font = refl;
              in_line = short;
              lower = down;
              inside = λ a out. refl;
            })
            | inr printed ↦
                let (k, no_lower) =
                  printed-IsKept c moved (back_to_top moved)
                    (back_to_top-IsPlaced moved fits (across printed) (omega arith)) fits in
                subst (IsKept d) (sym (if_else _ printed)) (record {
                  same_framebuffer = k.same_framebuffer;
                  same_font = k.same_font;
                  in_line = k.in_line;
                  lower = omega (arith, no_lower, down);
                  inside = k.inside;
                })
          ])
    ]

IsKept-Fits :
    (d d1 : Display)
    → IsKept d d1
    → Fits d.main_framebuffer d.font
    → Fits d1.main_framebuffer d1.font
IsKept-Fits d d1 k fits = rw (k.same_framebuffer, k.same_font) fits

IsKept-budget :
    (n : ℕ) (d d1 : Display)
    → IsKept d d1
    → d.main_cursor.y + (suc n + 1) * d.font.height < 2 ^ 64
    → d1.main_cursor.y + (n + 1) * d1.font.height < 2 ^ 64
IsKept-budget n d d1 k low =
    let same : d1.font.height ≡ d.font.height = ap (λ f. f.height) k.same_font in
    rw same (omega (arith, k.lower))

-- However long the text, `framebuffer_write_string` writes only to the framebuffer, and leaves the cursor in a
-- line: for a font that fits and a cursor that does not stand behind the end of a line. The bound on the last
-- hypothesis is the address space.
pub framebuffer_write_string-inside :
    (text : List ℕ) (d : Display)
    → Fits d.main_framebuffer d.font
    → d.main_cursor.x ≤ d.main_framebuffer.width
    → d.main_cursor.y + (length text + 1) * d.font.height < 2 ^ 64
    → ((a : ℕ)
        → IsOutside d.main_framebuffer a
        → (framebuffer_write_string text d).memory a ≡ d.memory a)
      × ((framebuffer_write_string text d).main_cursor.x ≤ d.main_framebuffer.width)
unfolding framebuffer_write_string
framebuffer_write_string-inside [] d fits in_line low = (λ a out. refl, in_line)
framebuffer_write_string-inside (c ∷ cs) d fits in_line low =
    let d1 = framebuffer_write_character c d in
    let k = framebuffer_write_character-IsKept c d fits in_line (omega arith) in
    let width = ap (λ f. f.width) k.same_framebuffer in
    let (inside, last) =
      framebuffer_write_string-inside cs d1 (IsKept-Fits d d1 k fits)
        (omega (arith, k.in_line, width)) (IsKept-budget (length cs) d d1 k low) in
    (
      λ a out. inside a (subst (λ f. IsOutside f a) (sym k.same_framebuffer) out) ∙ k.inside a out,
      omega (arith, last, width),
    )

write_position_lem :
    (n : Node) (size : ℕ)
    → n.max_seek_position < 2 ^ 64
    → size ≤ n.max_seek_position
    → n.seek_position + size < 2 ^ 64
    → write_position n size + size ≤ n.max_seek_position
unfolding write_position
write_position_lem n size small fits word = ground arith

-- A write to the device of at most `max_seek_position` bytes, on a node that `framebuffer_initialise_node` has
-- set up, goes to the framebuffer alone, and leaves the position at most at the last one.
pub framebuffer_write-inside :
    (n : Node) (d : Display) (buffer size : ℕ)
    → n.max_seek_position ≡ d.main_framebuffer.pitch * d.main_framebuffer.height - 1
    → d.main_framebuffer.base + d.main_framebuffer.height * d.main_framebuffer.pitch < 2 ^ 64
    → size ≤ n.max_seek_position
    → n.seek_position + size < 2 ^ 64
    → ((framebuffer_write n buffer size d).1.seek_position ≤ n.max_seek_position)
      × ((a : ℕ)
          → IsOutside d.main_framebuffer a
          → (framebuffer_write n buffer size d).2.memory a ≡ d.memory a)
unfolding framebuffer_write
framebuffer_write-inside n d buffer size last room fits word =
    let position = write_position n size in
    let inside = write_position_lem n size (omega arith) fits word in
    let at : wrap (d.main_framebuffer.base + position) ≡ d.main_framebuffer.base + position =
      omega arith in
    (
      omega arith,
      λ a out. rw at (
          memcpy-outside (d.main_framebuffer.base + position) buffer size d.memory a
            (elim out [ inl below ↦ inl (omega arith) | inr above ↦ inr (omega arith) ])),
    )
