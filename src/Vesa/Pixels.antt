-- ===== src/Vesa/Pixels.antt =====
-- kernel/vesa.c: the state of the graphics driver, and single pixels. An int is its 32 bits.
pub mod Place
pub mod Mode
pub mod Laws
use os_u.Prelude.{
  ℕ, zero, suc, ◌+◌, ◌*◌, ◌/◌, ◌%◌, ◌^◌, Bool, true, false, ◌&&◌, ◌||◌, Bytes, update, is_neg, ltb,
  leb, ◌==◌, not, if◌then◌else◌,
}

-- The fields of `vbe_mode_info_t` that vesa_init reads.
pub record VbeModeInfo : Type 0 where
  pub framebuffer : ℕ
  pub width : ℕ
  pub height : ℕ
  pub pitch : ℕ
  pub bpp : ℕ

-- The static variables; `front` is the memory at `vesa_framebuffer`, and `back` the memory at
-- `vesa_backbuffer`, which is there if `has_backbuffer`: its first `backbuffer_max` bytes are the array
-- vesa_backbuffer_store, and the bytes from there on are what lies behind it. No test of the code keeps
-- a mode whose rows are more from being drawn there.
pub record Vesa : Type 0 where
  pub front : Bytes
  pub back : Bytes
  pub width : ℕ
  pub height : ℕ
  pub pitch : ℕ
  pub bpp : ℕ
  pub enabled : Bool
  pub use_backbuffer : Bool
  pub has_backbuffer : Bool

abbrev pub backbuffer_max : ℕ
backbuffer_max = 800 * 600 * 4

-- `vesa_init`
unfoldable vesa_init : Vesa → VbeModeInfo → Vesa
vesa_init v info =
    if info.framebuffer == 0 || (info.width == 0 || (not (info.bpp == 24) && not (info.bpp == 32)))
    then record v { enabled = false }
    else record v {
      width = info.width;
      height = info.height;
      pitch = info.pitch;
      bpp = info.bpp;
      enabled = true;
      has_backbuffer = true;
      use_backbuffer = false;
    }

abbrev pub to_back : Vesa → Bool
to_back v = v.use_backbuffer && v.has_backbuffer

-- `vesa_target`: the memory that is drawn to.
unfoldable pub target : Vesa → Bytes
target v = if to_back v then v.back else v.front

unfoldable pub put_target : Vesa → Bytes → Vesa
put_target v b = if to_back v then record v { back = b } else record v { front = b }

-- Three bytes of a colour, and the four bytes of a word.
unfoldable pub store3 : Bytes → ℕ → ℕ → Bytes
store3 b i color =
    update (update (update b i (color % 256)) (i + 1) (color / 2 ^ 8 % 256)) (i + 2)
      (color / 2 ^ 16 % 256)

unfoldable pub store4 : Bytes → ℕ → ℕ → Bytes
unfolding store3
store4 b i color = update (store3 b i color) (i + 3) (color / 2 ^ 24 % 256)

unfoldable pub fetch3 : Bytes → ℕ → ℕ
fetch3 b i = b (i + 2) * 2 ^ 16 + b (i + 1) * 2 ^ 8 + b i

unfoldable pub fetch4 : Bytes → ℕ → ℕ
unfolding fetch3
fetch4 b i = b (i + 3) * 2 ^ 24 + fetch3 b i

-- The test of vesa_put_pixel and vesa_get_pixel for a place outside the screen.
abbrev pub is_outside : Vesa → ℕ → ℕ → Bool
is_outside v x y = is_neg x || (leb v.width x || (is_neg y || leb v.height y))

-- `offset`
abbrev pub offset : Vesa → ℕ → ℕ → ℕ
offset v x y = (y * v.pitch + x * (v.bpp / 8)) % 2 ^ 32

-- The byte at which the word of a pixel begins.
abbrev pub word_place : Vesa → ℕ → ℕ → ℕ
word_place v x y = (y * (v.pitch / 4) + x) % 2 ^ 32 * 4

-- The write of vesa_put_pixel to a memory, and the read of vesa_get_pixel.
unfoldable pub write_pixel : Vesa → Bytes → ℕ → ℕ → ℕ → Bytes
unfolding store3 store4
write_pixel v b x y color =
    if v.bpp == 32 then store4 b (word_place v x y) color else store3 b (offset v x y) color

unfoldable pub read_pixel : Vesa → Bytes → ℕ → ℕ → ℕ
unfolding fetch3 fetch4
read_pixel v b x y = if v.bpp == 32 then fetch4 b (word_place v x y) else fetch3 b (offset v x y)

-- `vesa_put_pixel`
unfoldable pub vesa_put_pixel : Vesa → ℕ → ℕ → ℕ → Vesa
unfolding write_pixel target put_target
vesa_put_pixel v x y color =
    if not v.enabled || is_outside v x y
    then v
    else put_target v (write_pixel v (target v) x y color)

-- `vesa_get_pixel`
unfoldable pub vesa_get_pixel : Vesa → ℕ → ℕ → ℕ
unfolding read_pixel target
vesa_get_pixel v x y = if not v.enabled || is_outside v x y then 0 else read_pixel v (target v) x y

-- `vesa_set_backbuffer`
unfoldable vesa_set_backbuffer : Vesa → Bool → Vesa
vesa_set_backbuffer v enable = record v { use_backbuffer = enable }

-- The bytes that vesa_present copies.
abbrev present_total : Vesa → ℕ
present_total v =
    let total = v.pitch * v.height % 2 ^ 32 in
    if ltb backbuffer_max total then backbuffer_max else total

-- `vesa_present`
unfoldable pub vesa_present : Vesa → Vesa
vesa_present v =
    if not v.enabled || (not v.use_backbuffer || not v.has_backbuffer)
    then v
    else record v { front = λ i. if ltb i (present_total v) then v.back i else v.front i }

-- The loop of vesa_clear over `n` more words, from the `i`-th on.
unfoldable clear_words : ℕ → ℕ → ℕ → Bytes → Bytes
unfolding store4
clear_words zero i color b = b
clear_words (suc n) i color b = clear_words n (i + 1) color (store4 b (i * 4) color)

-- The loops of vesa_clear over `n` more pixels of the row `y`, and over `n` more rows.
unfoldable clear_pixels : ℕ → ℕ → ℕ → ℕ → ℕ → Bytes → Bytes
unfolding store3
clear_pixels zero x y pitch color b = b
clear_pixels (suc n) x y pitch color b =
    clear_pixels n (x + 1) y pitch color (store3 b ((y * pitch + x * 3) % 2 ^ 32) color)

unfoldable pub clear_rows : ℕ → ℕ → ℕ → ℕ → ℕ → Bytes → Bytes
unfolding clear_pixels
clear_rows zero y width pitch color b = b
clear_rows (suc n) y width pitch color b =
    clear_rows n (y + 1) width pitch color (clear_pixels width 0 y pitch color b)

-- `vesa_clear`
unfoldable pub vesa_clear : Vesa → ℕ → Vesa
unfolding clear_words clear_rows target put_target
vesa_clear v color =
    if not v.enabled
    then v
    else if v.bpp == 32
    then put_target v (clear_words (v.pitch / 4 * v.height % 2 ^ 32) 0 color (target v))
    else put_target v (clear_rows v.height 0 v.width v.pitch color (target v))
