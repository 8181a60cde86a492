-- ===== src/Firmware/Startup/Tests.antt =====
-- The boot of an image with two words of `.data` and three of `.bss`.
use sharak.Prelude.{ℕ, ◌+◌, ◌*◌, ◌<◌, ◌≡◌, refl, arith, some, Run, load}
use sharak.Firmware.Startup.{
  Memory, Linker, g_vectors, reset_handler_entry, stack_top, reset_handler,
}
use sharak.Firmware.Startup.Sections.{Outside, reset_handler-sections}

-- The core takes the stack pointer from word 0 and the program counter from word 1.
boots : (load g_vectors 0 ≡ some stack_top) × (load g_vectors 1 ≡ some reset_handler_entry)
boots = (refl, refl)

abbrev image : Linker
image = record {
  sidata = 0x1000;
  sdata = 0x20000000;
  edata = 0x20000008;
  sbss = 0x20000008;
  ebss = 0x20000014;
}

-- Memory at power-on: each word holds its address.
abbrev power_on : Memory
power_on a = a

abbrev look : Memory → Run ℕ
look m = some (m 0x20000004)

reset_handler-sections_example :
    (m' : Memory) × (reset_handler image look 4 power_on ≡ some (m' 0x20000004))
    × ((i : ℕ) → i < 2 → m' (0x20000000 + 4 * i) ≡ 0x1000 + 4 * i)
    × ((i : ℕ) → i < 3 → m' (0x20000008 + 4 * i) ≡ 0)
    × ((a : ℕ) → Outside 0x20000000 2 a → Outside 0x20000008 3 a → m' a ≡ a)
reset_handler-sections_example =
    reset_handler-sections image look 2 3 4 power_on refl refl (omega arith) (omega arith)
      (omega arith) (omega arith)
