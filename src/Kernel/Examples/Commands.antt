-- ===== src/Kernel/Examples/Commands.antt =====
-- The theorems about the display and the command parser on short texts.
use csdi_jos.Common.{false, inl, inr, refl, [], ◌∷◌, arith}
use csdi_jos.Library.Strings.{Bytes}
use csdi_jos.Kernel.Display.{Crt, cga_putc}
use csdi_jos.Kernel.Display.Cells.{OnScreen, cga_putc-OnScreen}
use csdi_jos.Kernel.Keyboard.{Modifiers}
use csdi_jos.Kernel.Monitor.{parse_args}
use csdi_jos.Kernel.Monitor.Arguments.{ArgsAre, parse_args-ArgsAre}

-- The last cell of the screen.
abbrev full_screen : Crt
full_screen = record { crt_buf = λ i. 0x720; crt_pos = 1999 }

cga_putc-OnScreen_example : OnScreen full_screen (cga_putc 65 full_screen)
cga_putc-OnScreen_example = cga_putc-OnScreen 65 full_screen (omega arith)

-- " a  b" and a 0.
abbrev two_words : Bytes
two_words = 32 ∷ 97 ∷ 32 ∷ 32 ∷ 98 ∷ 0 ∷ []

parse_args-ArgsAre_example : ArgsAre two_words (parse_args two_words)
parse_args-ArgsAre_example = parse_args-ArgsAre two_words (inr (inr (inr (inr (inr (inl refl))))))

abbrev no_modifiers : Modifiers
no_modifiers = record {
  shift = false;
  ctl = false;
  alt = false;
  capslock = false;
  numlock = false;
  scrolllock = false;
  e0esc = false;
}
