-- ===== src/Vesa/Font.antt =====
-- kernel/vesa.c: the bitmap font.
use os_u.Prelude.{ℕ, List, [], ◌∷◌}

-- A glyph of 16 rows.
abbrev glyph_of : ℕ → ℕ → ℕ → ℕ → ℕ → ℕ → ℕ → ℕ → ℕ → ℕ → ℕ → ℕ → ℕ → ℕ → ℕ → ℕ → List ℕ
glyph_of a b c d e f g h i j k l m n o p =
    a ∷ b ∷ c ∷ d ∷ e ∷ f ∷ g ∷ h ∷ i ∷ j ∷ k ∷ l ∷ m ∷ n ∷ o ∷ p ∷ []

-- `font8x16`: the glyphs of the characters 32 to 127, a byte for each row.
unfoldable pub font8x16 : List (List ℕ)
font8x16 =
    glyph_of 0x00 0x00 0x00 0x00 0x00 0x00 0x00 0x00 0x00 0x00 0x00 0x00 0x00 0x00 0x00 0x00
    ∷ glyph_of 0x00 0x00 0x18 0x3C 0x3C 0x3C 0x18 0x18 0x18 0x00 0x18 0x18 0x00 0x00 0x00 0x00
    ∷ glyph_of 0x00 0x66 0x66 0x66 0x24 0x00 0x00 0x00 0x00 0x00 0x00 0x00 0x00 0x00 0x00 0x00
    ∷ glyph_of 0x00 0x00 0x00 0x6C 0x6C 0xFE 0x6C 0x6C 0x6C 0xFE 0x6C 0x6C 0x00 0x00 0x00 0x00
    ∷ glyph_of 0x18 0x18 0x7C 0xC6 0xC2 0xC0 0x7C 0x06 0x06 0x86 0xC6 0x7C 0x18 0x18 0x00 0x00
    ∷ glyph_of 0x00 0x00 0x00 0x00 0xC2 0xC6 0x0C 0x18 0x30 0x60 0xC6 0x86 0x00 0x00 0x00 0x00
    ∷ glyph_of 0x00 0x00 0x38 0x6C 0x6C 0x38 0x76 0xDC 0xCC 0xCC 0xCC 0x76 0x00 0x00 0x00 0x00
    ∷ glyph_of 0x00 0x30 0x30 0x30 0x60 0x00 0x00 0x00 0x00 0x00 0x00 0x00 0x00 0x00 0x00 0x00
    ∷ glyph_of 0x00 0x00 0x0C 0x18 0x30 0x30 0x30 0x30 0x30 0x30 0x18 0x0C 0x00 0x00 0x00 0x00
    ∷ glyph_of 0x00 0x00 0x30 0x18 0x0C 0x0C 0x0C 0x0C 0x0C 0x0C 0x18 0x30 0x00 0x00 0x00 0x00
    ∷ glyph_of 0x00 0x00 0x00 0x00 0x00 0x66 0x3C 0xFF 0x3C 0x66 0x00 0x00 0x00 0x00 0x00 0x00
    ∷ glyph_of 0x00 0x00 0x00 0x00 0x00 0x18 0x18 0x7E 0x18 0x18 0x00 0x00 0x00 0x00 0x00 0x00
    ∷ glyph_of 0x00 0x00 0x00 0x00 0x00 0x00 0x00 0x00 0x00 0x18 0x18 0x18 0x30 0x00 0x00 0x00
    ∷ glyph_of 0x00 0x00 0x00 0x00 0x00 0x00 0x00 0xFE 0x00 0x00 0x00 0x00 0x00 0x00 0x00 0x00
    ∷ glyph_of 0x00 0x00 0x00 0x00 0x00 0x00 0x00 0x00 0x00 0x00 0x18 0x18 0x00 0x00 0x00 0x00
    ∷ glyph_of 0x00 0x00 0x00 0x00 0x02 0x06 0x0C 0x18 0x30 0x60 0xC0 0x80 0x00 0x00 0x00 0x00
    ∷ glyph_of 0x00 0x00 0x38 0x6C 0xC6 0xC6 0xD6 0xD6 0xC6 0xC6 0x6C 0x38 0x00 0x00 0x00 0x00
    ∷ glyph_of 0x00 0x00 0x18 0x38 0x78 0x18 0x18 0x18 0x18 0x18 0x18 0x7E 0x00 0x00 0x00 0x00
    ∷ glyph_of 0x00 0x00 0x7C 0xC6 0x06 0x0C 0x18 0x30 0x60 0xC0 0xC6 0xFE 0x00 0x00 0x00 0x00
    ∷ glyph_of 0x00 0x00 0x7C 0xC6 0x06 0x06 0x3C 0x06 0x06 0x06 0xC6 0x7C 0x00 0x00 0x00 0x00
    ∷ glyph_of 0x00 0x00 0x0C 0x1C 0x3C 0x6C 0xCC 0xFE 0x0C 0x0C 0x0C 0x1E 0x00 0x00 0x00 0x00
    ∷ glyph_of 0x00 0x00 0xFE 0xC0 0xC0 0xC0 0xFC 0x06 0x06 0x06 0xC6 0x7C 0x00 0x00 0x00 0x00
    ∷ glyph_of 0x00 0x00 0x38 0x60 0xC0 0xC0 0xFC 0xC6 0xC6 0xC6 0xC6 0x7C 0x00 0x00 0x00 0x00
    ∷ glyph_of 0x00 0x00 0xFE 0xC6 0x06 0x06 0x0C 0x18 0x30 0x30 0x30 0x30 0x00 0x00 0x00 0x00
    ∷ glyph_of 0x00 0x00 0x7C 0xC6 0xC6 0xC6 0x7C 0xC6 0xC6 0xC6 0xC6 0x7C 0x00 0x00 0x00 0x00
    ∷ glyph_of 0x00 0x00 0x7C 0xC6 0xC6 0xC6 0x7E 0x06 0x06 0x06 0x0C 0x78 0x00 0x00 0x00 0x00
    ∷ glyph_of 0x00 0x00 0x00 0x00 0x18 0x18 0x00 0x00 0x00 0x18 0x18 0x00 0x00 0x00 0x00 0x00
    ∷ glyph_of 0x00 0x00 0x00 0x00 0x18 0x18 0x00 0x00 0x00 0x18 0x18 0x30 0x00 0x00 0x00 0x00
    ∷ glyph_of 0x00 0x00 0x00 0x06 0x0C 0x18 0x30 0x60 0x30 0x18 0x0C 0x06 0x00 0x00 0x00 0x00
    ∷ glyph_of 0x00 0x00 0x00 0x00 0x00 0x7E 0x00 0x00 0x7E 0x00 0x00 0x00 0x00 0x00 0x00 0x00
    ∷ glyph_of 0x00 0x00 0x00 0x60 0x30 0x18 0x0C 0x06 0x0C 0x18 0x30 0x60 0x00 0x00 0x00 0x00
    ∷ glyph_of 0x00 0x00 0x7C 0xC6 0xC6 0x0C 0x18 0x18 0x18 0x00 0x18 0x18 0x00 0x00 0x00 0x00
    ∷ glyph_of 0x00 0x00 0x00 0x7C 0xC6 0xC6 0xDE 0xDE 0xDE 0xDC 0xC0 0x7C 0x00 0x00 0x00 0x00
    ∷ glyph_of 0x00 0x00 0x10 0x38 0x6C 0xC6 0xC6 0xFE 0xC6 0xC6 0xC6 0xC6 0x00 0x00 0x00 0x00
    ∷ glyph_of 0x00 0x00 0xFC 0x66 0x66 0x66 0x7C 0x66 0x66 0x66 0x66 0xFC 0x00 0x00 0x00 0x00
    ∷ glyph_of 0x00 0x00 0x3C 0x66 0xC2 0xC0 0xC0 0xC0 0xC0 0xC2 0x66 0x3C 0x00 0x00 0x00 0x00
    ∷ glyph_of 0x00 0x00 0xF8 0x6C 0x66 0x66 0x66 0x66 0x66 0x66 0x6C 0xF8 0x00 0x00 0x00 0x00
    ∷ glyph_of 0x00 0x00 0xFE 0x66 0x62 0x68 0x78 0x68 0x60 0x62 0x66 0xFE 0x00 0x00 0x00 0x00
    ∷ glyph_of 0x00 0x00 0xFE 0x66 0x62 0x68 0x78 0x68 0x60 0x60 0x60 0xF0 0x00 0x00 0x00 0x00
    ∷ glyph_of 0x00 0x00 0x3C 0x66 0xC2 0xC0 0xC0 0xDE 0xC6 0xC6 0x66 0x3A 0x00 0x00 0x00 0x00
    ∷ glyph_of 0x00 0x00 0xC6 0xC6 0xC6 0xC6 0xFE 0xC6 0xC6 0xC6 0xC6 0xC6 0x00 0x00 0x00 0x00
    ∷ glyph_of 0x00 0x00 0x3C 0x18 0x18 0x18 0x18 0x18 0x18 0x18 0x18 0x3C 0x00 0x00 0x00 0x00
    ∷ glyph_of 0x00 0x00 0x1E 0x0C 0x0C 0x0C 0x0C 0x0C 0xCC 0xCC 0xCC 0x78 0x00 0x00 0x00 0x00
    ∷ glyph_of 0x00 0x00 0xE6 0x66 0x66 0x6C 0x78 0x78 0x6C 0x66 0x66 0xE6 0x00 0x00 0x00 0x00
    ∷ glyph_of 0x00 0x00 0xF0 0x60 0x60 0x60 0x60 0x60 0x60 0x62 0x66 0xFE 0x00 0x00 0x00 0x00
    ∷ glyph_of 0x00 0x00 0xC6 0xEE 0xFE 0xFE 0xD6 0xC6 0xC6 0xC6 0xC6 0xC6 0x00 0x00 0x00 0x00
    ∷ glyph_of 0x00 0x00 0xC6 0xE6 0xF6 0xFE 0xDE 0xCE 0xC6 0xC6 0xC6 0xC6 0x00 0x00 0x00 0x00
    ∷ glyph_of 0x00 0x00 0x7C 0xC6 0xC6 0xC6 0xC6 0xC6 0xC6 0xC6 0xC6 0x7C 0x00 0x00 0x00 0x00
    ∷ glyph_of 0x00 0x00 0xFC 0x66 0x66 0x66 0x7C 0x60 0x60 0x60 0x60 0xF0 0x00 0x00 0x00 0x00
    ∷ glyph_of 0x00 0x00 0x7C 0xC6 0xC6 0xC6 0xC6 0xC6 0xC6 0xD6 0xDE 0x7C 0x0C 0x0E 0x00 0x00
    ∷ glyph_of 0x00 0x00 0xFC 0x66 0x66 0x66 0x7C 0x6C 0x66 0x66 0x66 0xE6 0x00 0x00 0x00 0x00
    ∷ glyph_of 0x00 0x00 0x7C 0xC6 0xC6 0x60 0x38 0x0C 0x06 0xC6 0xC6 0x7C 0x00 0x00 0x00 0x00
    ∷ glyph_of 0x00 0x00 0x7E 0x7E 0x5A 0x18 0x18 0x18 0x18 0x18 0x18 0x3C 0x00 0x00 0x00 0x00
    ∷ glyph_of 0x00 0x00 0xC6 0xC6 0xC6 0xC6 0xC6 0xC6 0xC6 0xC6 0xC6 0x7C 0x00 0x00 0x00 0x00
    ∷ glyph_of 0x00 0x00 0xC6 0xC6 0xC6 0xC6 0xC6 0xC6 0xC6 0x6C 0x38 0x10 0x00 0x00 0x00 0x00
    ∷ glyph_of 0x00 0x00 0xC6 0xC6 0xC6 0xC6 0xD6 0xD6 0xD6 0xFE 0xEE 0x6C 0x00 0x00 0x00 0x00
    ∷ glyph_of 0x00 0x00 0xC6 0xC6 0x6C 0x7C 0x38 0x38 0x7C 0x6C 0xC6 0xC6 0x00 0x00 0x00 0x00
    ∷ glyph_of 0x00 0x00 0x66 0x66 0x66 0x66 0x3C 0x18 0x18 0x18 0x18 0x3C 0x00 0x00 0x00 0x00
    ∷ glyph_of 0x00 0x00 0xFE 0xC6 0x86 0x0C 0x18 0x30 0x60 0xC2 0xC6 0xFE 0x00 0x00 0x00 0x00
    ∷ glyph_of 0x00 0x00 0x3C 0x30 0x30 0x30 0x30 0x30 0x30 0x30 0x30 0x3C 0x00 0x00 0x00 0x00
    ∷ glyph_of 0x00 0x00 0x00 0x80 0xC0 0xE0 0x70 0x38 0x1C 0x0E 0x06 0x02 0x00 0x00 0x00 0x00
    ∷ glyph_of 0x00 0x00 0x3C 0x0C 0x0C 0x0C 0x0C 0x0C 0x0C 0x0C 0x0C 0x3C 0x00 0x00 0x00 0x00
    ∷ glyph_of 0x10 0x38 0x6C 0xC6 0x00 0x00 0x00 0x00 0x00 0x00 0x00 0x00 0x00 0x00 0x00 0x00
    ∷ glyph_of 0x00 0x00 0x00 0x00 0x00 0x00 0x00 0x00 0x00 0x00 0x00 0x00 0x00 0xFF 0x00 0x00
    ∷ glyph_of 0x30 0x30 0x18 0x00 0x00 0x00 0x00 0x00 0x00 0x00 0x00 0x00 0x00 0x00 0x00 0x00
    ∷ glyph_of 0x00 0x00 0x00 0x00 0x00 0x78 0x0C 0x7C 0xCC 0xCC 0xCC 0x76 0x00 0x00 0x00 0x00
    ∷ glyph_of 0x00 0x00 0xE0 0x60 0x60 0x78 0x6C 0x66 0x66 0x66 0x66 0x7C 0x00 0x00 0x00 0x00
    ∷ glyph_of 0x00 0x00 0x00 0x00 0x00 0x7C 0xC6 0xC0 0xC0 0xC0 0xC6 0x7C 0x00 0x00 0x00 0x00
    ∷ glyph_of 0x00 0x00 0x1C 0x0C 0x0C 0x3C 0x6C 0xCC 0xCC 0xCC 0xCC 0x76 0x00 0x00 0x00 0x00
    ∷ glyph_of 0x00 0x00 0x00 0x00 0x00 0x7C 0xC6 0xFE 0xC0 0xC0 0xC6 0x7C 0x00 0x00 0x00 0x00
    ∷ glyph_of 0x00 0x00 0x38 0x6C 0x64 0x60 0xF0 0x60 0x60 0x60 0x60 0xF0 0x00 0x00 0x00 0x00
    ∷ glyph_of 0x00 0x00 0x00 0x00 0x00 0x76 0xCC 0xCC 0xCC 0xCC 0xCC 0x7C 0x0C 0xCC 0x78 0x00
    ∷ glyph_of 0x00 0x00 0xE0 0x60 0x60 0x6C 0x76 0x66 0x66 0x66 0x66 0xE6 0x00 0x00 0x00 0x00
    ∷ glyph_of 0x00 0x00 0x18 0x18 0x00 0x38 0x18 0x18 0x18 0x18 0x18 0x3C 0x00 0x00 0x00 0x00
    ∷ glyph_of 0x00 0x00 0x06 0x06 0x00 0x0E 0x06 0x06 0x06 0x06 0x06 0x06 0x66 0x66 0x3C 0x00
    ∷ glyph_of 0x00 0x00 0xE0 0x60 0x60 0x66 0x6C 0x78 0x78 0x6C 0x66 0xE6 0x00 0x00 0x00 0x00
    ∷ glyph_of 0x00 0x00 0x38 0x18 0x18 0x18 0x18 0x18 0x18 0x18 0x18 0x3C 0x00 0x00 0x00 0x00
    ∷ glyph_of 0x00 0x00 0x00 0x00 0x00 0xEC 0xFE 0xD6 0xD6 0xD6 0xD6 0xC6 0x00 0x00 0x00 0x00
    ∷ glyph_of 0x00 0x00 0x00 0x00 0x00 0xDC 0x66 0x66 0x66 0x66 0x66 0x66 0x00 0x00 0x00 0x00
    ∷ glyph_of 0x00 0x00 0x00 0x00 0x00 0x7C 0xC6 0xC6 0xC6 0xC6 0xC6 0x7C 0x00 0x00 0x00 0x00
    ∷ glyph_of 0x00 0x00 0x00 0x00 0x00 0xDC 0x66 0x66 0x66 0x66 0x66 0x7C 0x60 0x60 0xF0 0x00
    ∷ glyph_of 0x00 0x00 0x00 0x00 0x00 0x76 0xCC 0xCC 0xCC 0xCC 0xCC 0x7C 0x0C 0x0C 0x1E 0x00
    ∷ glyph_of 0x00 0x00 0x00 0x00 0x00 0xDC 0x76 0x66 0x60 0x60 0x60 0xF0 0x00 0x00 0x00 0x00
    ∷ glyph_of 0x00 0x00 0x00 0x00 0x00 0x7C 0xC6 0x60 0x38 0x0C 0xC6 0x7C 0x00 0x00 0x00 0x00
    ∷ glyph_of 0x00 0x00 0x10 0x30 0x30 0xFC 0x30 0x30 0x30 0x30 0x36 0x1C 0x00 0x00 0x00 0x00
    ∷ glyph_of 0x00 0x00 0x00 0x00 0x00 0xCC 0xCC 0xCC 0xCC 0xCC 0xCC 0x76 0x00 0x00 0x00 0x00
    ∷ glyph_of 0x00 0x00 0x00 0x00 0x00 0x66 0x66 0x66 0x66 0x66 0x3C 0x18 0x00 0x00 0x00 0x00
    ∷ glyph_of 0x00 0x00 0x00 0x00 0x00 0xC6 0xC6 0xD6 0xD6 0xD6 0xFE 0x6C 0x00 0x00 0x00 0x00
    ∷ glyph_of 0x00 0x00 0x00 0x00 0x00 0xC6 0x6C 0x38 0x38 0x38 0x6C 0xC6 0x00 0x00 0x00 0x00
    ∷ glyph_of 0x00 0x00 0x00 0x00 0x00 0xC6 0xC6 0xC6 0xC6 0xC6 0xC6 0x7E 0x06 0x0C 0xF8 0x00
    ∷ glyph_of 0x00 0x00 0x00 0x00 0x00 0xFE 0xCC 0x18 0x30 0x60 0xC6 0xFE 0x00 0x00 0x00 0x00
    ∷ glyph_of 0x00 0x00 0x0E 0x18 0x18 0x18 0x70 0x18 0x18 0x18 0x18 0x0E 0x00 0x00 0x00 0x00
    ∷ glyph_of 0x00 0x00 0x18 0x18 0x18 0x18 0x00 0x18 0x18 0x18 0x18 0x18 0x00 0x00 0x00 0x00
    ∷ glyph_of 0x00 0x00 0x70 0x18 0x18 0x18 0x0E 0x18 0x18 0x18 0x18 0x70 0x00 0x00 0x00 0x00
    ∷ glyph_of 0x00 0x00 0x76 0xDC 0x00 0x00 0x00 0x00 0x00 0x00 0x00 0x00 0x00 0x00 0x00 0x00
    ∷ glyph_of 0x00 0x00 0x00 0x00 0x00 0x00 0x00 0x00 0x00 0x00 0x00 0x00 0x00 0x00 0x00 0x00
    ∷ []
