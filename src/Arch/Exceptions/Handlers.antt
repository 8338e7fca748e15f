-- ===== src/Arch/Exceptions/Handlers.antt =====
-- The handlers of exceptions.c, on Text/Printk, with the macros of sys/include/lib/log.h.
use Prim.Native.Char.{code}
use Prim.Native.String.{String}
use mksd_old_archive.Base.{ℕ, Bool, true, false, List, [], ◌∷◌, ◌++◌, Memory}
use mksd_old_archive.Base.Outcome.{Outcome, ◌>>=◌}
use mksd_old_archive.Text.Printk.{Terminal, printk}

-- The bytes of a literal.
abbrev pub codes : String → List ℕ
codes String.[] = []
codes (String.◌∷◌ c s) = code c ∷ codes s

abbrev pub printk_kpanic_start : List ℕ
printk_kpanic_start = codes "\u{1b}[1;37m*** \u{1b}[1;31m KERNEL PANIC \u{1b}[1;37m***\n"

abbrev pub printk_kpanic : List ℕ
printk_kpanic = codes "\u{1b}[1;31mkpanic:\u{1b}[1;37m "

-- The memory, the fuel of the loops over strings, and where the literals stand.
pub record Program : Type 0 where
  pub memory : Memory
  pub fuel : ℕ
  pub literal : List ℕ → ℕ

-- Whether the processor takes interrupts, whether it has come to a `hlt`, and the terminal.
pub record Cpu : Type 0 where
  pub interrupts : Bool
  pub halted : Bool
  pub terminal : Terminal

abbrev pub cli : Cpu → Cpu
cli s = record s { interrupts = false }

abbrev pub cli_hlt : Cpu → Cpu
cli_hlt s = record s { interrupts = false; halted = true }

-- `printk` of a literal.
abbrev pub print : Program → List ℕ → Cpu → Outcome Cpu
print k w s =
    printk k.fuel k.memory (k.literal w) [] s.terminal
    >>= (λ t. Outcome.done (record s { terminal = t }))

-- What the handlers share: `cli`, the two lines, and `cli; hlt`.
unfoldable pub panic : String → Program → Cpu → Outcome Cpu
panic what k s =
    print k printk_kpanic_start (cli s)
    >>= (λ s₁. print k (printk_kpanic ++ codes what) s₁ >>= (λ s₂. Outcome.done (cli_hlt s₂)))

unfoldable pub vec_0x0 : Program → Cpu → Outcome Cpu
vec_0x0 = panic "Division by zero\n"

unfoldable pub vec_0x1 : Program → Cpu → Outcome Cpu
vec_0x1 = panic "Debug exception\n"

unfoldable pub vec_0x3 : Program → Cpu → Outcome Cpu
vec_0x3 = panic "Breakpoint exception\n"

unfoldable pub vec_0x4 : Program → Cpu → Outcome Cpu
vec_0x4 = panic "Overflow exception\n"

unfoldable pub vec_0x5 : Program → Cpu → Outcome Cpu
vec_0x5 = panic "BOUND range exceeded\n"

unfoldable pub vec_0x6 : Program → Cpu → Outcome Cpu
vec_0x6 = panic "Invalid opcode\n"

unfoldable pub vec_0x8 : Program → Cpu → Outcome Cpu
vec_0x8 = panic "Double fault\n"

unfoldable pub vec_0xa : Program → Cpu → Outcome Cpu
vec_0xa = panic "Invalid TSS\n"

unfoldable pub vec_0xb : Program → Cpu → Outcome Cpu
vec_0xb = panic "Segment not present\n"

unfoldable pub vec_0xc : Program → Cpu → Outcome Cpu
vec_0xc = panic "Stack segment fault\n"

unfoldable pub vec_0xd : Program → Cpu → Outcome Cpu
vec_0xd = panic "General protection fault\n"

unfoldable pub vec_0xe : Program → Cpu → Outcome Cpu
vec_0xe = panic "Page fault\n"
