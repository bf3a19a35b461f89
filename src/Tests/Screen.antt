-- ===== src/Tests/Screen.antt =====
-- vga_printf of kernel/vga.c on a concrete format.
use os_u.Prelude.{◌≡◌, some, List, [], ◌∷◌, codes, neg32}
use os_u.Vga.{Vga}
use os_u.Vga.Printf.{Arg, word, text, vga_printf}
use os_u.Vga.Printf.Laws.{shown, vga_printf_lem}

abbrev blank : Vga
blank = record { mem = λ i. 0; cursor_x = 0; cursor_y = 0; color = 7 }

abbrev arguments : List Arg
arguments = word (neg32 12) ∷ text (some (codes "ok")) ∷ word 255 ∷ []

vga_printf_lem_example :
    vga_printf blank (codes "%d %s %x") arguments ≡ shown blank (some (codes "-12 ok 0x000000FF"))
unfolding os_u.Vga.Printf.Laws.format_text os_u.Vga.Printf.Laws.cstring os_u.Vga.dec_text
    os_u.Vga.dec_digits
vga_printf_lem_example = vga_printf_lem blank (codes "%d %s %x") arguments
