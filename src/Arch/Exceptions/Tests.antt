-- ===== src/Arch/Exceptions/Tests.antt =====
-- A program with the literals of one handler, and the theorem on exceptions.c applied there.
use mksd_old_archive.Base.{
  ℕ, suc, ◌+◌, ◌-◌, ◌≡◌, ◌≤◌, refl, ap, ◌∙◌, arith, Bool, true, false, not, ◌&&◌, List, [], ◌∷◌,
  ◌++◌, ◌==◌, ltb, length, if◌then◌else◌, get_or, Memory, IsString,
}
use mksd_old_archive.Base.Outcome.{Outcome}
use mksd_old_archive.Arch.Exceptions.Handlers.{
  Program, Cpu, codes, printk_kpanic_start, printk_kpanic,
}
use mksd_old_archive.Arch.Exceptions.Halt.{handler, dead, Loaded, handler-dead}

abbrev no_zero : List ℕ → Bool
no_zero [] = true
no_zero (c ∷ w) = not (c == 0) && no_zero w

stands :
    (w : List ℕ) (m : Memory) (p : ℕ)
    → no_zero w ≡ true
    → ((i : ℕ) → i ≤ length w → m (p + i) ≡ get_or w i 0)
    → IsString m p w
stands [] m p ok same = ap m {x = p} {y = p + 0} (omega arith) ∙ same 0 (omega arith)
stands (c ∷ w) m p ok same = (
  ap m {x = p} {y = p + 0} (omega arith) ∙ same 0 (omega arith),
  ground arith,
  stands w m (p + 1) (ground arith)
      (λ i l. ap m {x = p + 1 + i} {y = p + suc i} (omega arith) ∙ same (suc i) (omega arith)),
)

abbrev message : List ℕ
message = printk_kpanic ++ codes "Page fault\n"

-- The first line at 0, the second at 100.
abbrev program : Program
program = record {
  memory = λ a. if ltb a 100 then get_or printk_kpanic_start a 0 else get_or message (a - 100) 0;
  fuel = 60;
  literal = λ w. if length w == length printk_kpanic_start then 0 else 100;
}

abbrev cpu : Cpu
cpu = record {
  interrupts = true;
  halted = false;
  terminal = record { written = []; dec_string = λ a. 0; hex_string = λ a. 0 };
}

start_at :
    (i : ℕ)
    → i ≤ length printk_kpanic_start
    → program.memory (0 + i) ≡ get_or printk_kpanic_start i 0
start_at i l =
    let low : ltb (0 + i) 100 ≡ true = ground arith in
    rw low (ap (λ (k : ℕ). get_or printk_kpanic_start k 0) {x = 0 + i} {y = i} (omega arith))

message_at : (i : ℕ) → i ≤ length message → program.memory (100 + i) ≡ get_or message i 0
message_at i l =
    let high : ltb (100 + i) 100 ≡ false = ground arith in
    rw high (ap (λ (k : ℕ). get_or message k 0) {x = 100 + i - 100} {y = i} (omega arith))

start-Loaded : Loaded program printk_kpanic_start
start-Loaded = record {
  stands = stands printk_kpanic_start program.memory 0 refl start_at;
  enough = omega arith;
}

message-Loaded : Loaded program message
message-Loaded = record {
  stands = stands message program.memory 100 refl message_at;
  enough = omega arith;
}

handler-dead_example : handler 14 program cpu ≡ Outcome.done (dead "Page fault\n" cpu)
handler-dead_example = handler-dead 14 program cpu refl start-Loaded message-Loaded
