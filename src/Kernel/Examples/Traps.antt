-- ===== src/Kernel/Examples/Traps.antt =====
-- The theorems about traps on the small machine.
use csdi_jos.Common.{◌≡◌, refl, ◌&&◌, ◌==◌, if◌then◌else◌, arith}
use csdi_jos.Kernel.State.{Kernel}
use csdi_jos.Kernel.State.Returns.{Returns}
use csdi_jos.Kernel.State.Layout.{Trapframe, zero_trapframe}
use csdi_jos.Kernel.Trap.{push_frame, push_base, asserted}
use csdi_jos.Kernel.Trap.Frame.{Open, Kept, ux_page, push_frame_lem}
use csdi_jos.Kernel.Examples.{machine}

-- A page fault of user mode, on the user's stack.
abbrev page_fault : Trapframe
page_fault = record zero_trapframe { tf_trapno = 14; tf_cs = 0x1b; tf_esp = 0xeebf_df00 }

-- The machine with the exception stack in frame 8.
abbrev stacked : Kernel
stacked = record machine {
  frames = λ f i. if f == 2 && i == 954 then 0x5007 else if f == 5 && i == 1023 then 0x8007 else 0;
}

stacked-Open : Open stacked ux_page 8 5
stacked-Open = record {
  directory = refl;
  table = refl;
  entry = refl;
  frame = refl;
  apart_directory = omega arith;
  apart_table = omega arith;
}

push_frame_lem_example :
    Returns
      (λ r k'. (r ≡ (asserted 0xeebf_df00).0) × Kept stacked ux_page 8 5 k')
      (push_frame 0x1234 (push_base 0xeebf_df00) page_fault stacked)
push_frame_lem_example =
    push_frame_lem 0x1234 page_fault stacked-Open λ on_stack. ground (arith, on_stack)
