-- ===== src/Arch/Exceptions/Halt.antt =====
-- What the processor does on an exception that init_exceptions has set a gate for.
use Prim.Native.String.{String}
use mksd_old_archive.Base.{
  ℕ, zero, suc, ◌+◌, ◌<◌, ◌≡◌, refl, ap, sym, ◌∙◌, arith, Bool, true, false, not, ◌&&◌, List, [],
  ◌∷◌, ◌++◌, append-nil, append_assoc, length, ◌==◌, if◌then◌else◌, Memory, IsString,
}
use mksd_old_archive.Base.Outcome.{Outcome}
use mksd_old_archive.Text.Printk.{Terminal, print_from, printk}
use mksd_old_archive.Text.Printk.Prints.{print_from-text}
use mksd_old_archive.Arch.Exceptions.{handled}
use mksd_old_archive.Arch.Exceptions.Handlers.{
  Program, Cpu, codes, printk_kpanic_start, printk_kpanic, panic, vec_0x0, vec_0x1, vec_0x3,
  vec_0x4, vec_0x5, vec_0x6, vec_0x8, vec_0xa, vec_0xb, vec_0xc, vec_0xd, vec_0xe,
}

-- The handler of a vector that `init_exceptions` sets a gate for.
abbrev pub handler : ℕ → Program → Cpu → Outcome Cpu
handler v =
    if v == 0x0
    then vec_0x0
    else if v == 0x1
    then vec_0x1
    else if v == 0x3
    then vec_0x3
    else if v == 0x4
    then vec_0x4
    else if v == 0x5
    then vec_0x5
    else if v == 0x6
    then vec_0x6
    else if v == 0x8
    then vec_0x8
    else if v == 0xA
    then vec_0xa
    else if v == 0xB
    then vec_0xb
    else if v == 0xC
    then vec_0xc
    else if v == 0xD
    then vec_0xd
    else vec_0xe

-- The name of the exception of such a vector.
abbrev pub title : ℕ → String
title v =
    if v == 0x0
    then "Division by zero\n"
    else if v == 0x1
    then "Debug exception\n"
    else if v == 0x3
    then "Breakpoint exception\n"
    else if v == 0x4
    then "Overflow exception\n"
    else if v == 0x5
    then "BOUND range exceeded\n"
    else if v == 0x6
    then "Invalid opcode\n"
    else if v == 0x8
    then "Double fault\n"
    else if v == 0xA
    then "Invalid TSS\n"
    else if v == 0xB
    then "Segment not present\n"
    else if v == 0xC
    then "Stack segment fault\n"
    else if v == 0xD
    then "General protection fault\n"
    else "Page fault\n"

abbrev pub is_plain : List ℕ → Bool
is_plain [] = true
is_plain (c ∷ w) = not (c == b'%') && is_plain w

print_from-plain :
    (w : List ℕ) (n fuel ptr : ℕ) (m : Memory) (t : Terminal)
    → is_plain w ≡ true
    → length w < n
    → IsString m ptr w
    → print_from n fuel m ptr [] t ≡ Outcome.done (record t { written = t.written ++ w })
unfolding print_from
print_from-plain w zero fuel ptr m t ok l h = absurd (omega arith)
print_from-plain [] (suc n) fuel ptr m t ok l h =
    rw (print_from, h)
      (ap (λ (w : List ℕ). Outcome.done (record t { written = w })) (sym (append-nil t.written)))
print_from-plain (c ∷ w) (suc n) fuel ptr m t ok l (e, ne, h) =
    let t₁ : Terminal = record t { written = t.written ++ c ∷ [] } in
    print_from-text n fuel ptr c m [] t e ne (ground arith)
    ∙ print_from-plain w n fuel (ptr + 1) m t₁ (ground arith) (omega arith) h
    ∙ ap (λ (u : List ℕ). Outcome.done (record t { written = u }))
        (append_assoc t.written (c ∷ []) w)

-- The program's literals stand in its memory, and its fuel is enough for each of them.
pub record Loaded (k : Program) (w : List ℕ) : Type 0 where
  pub stands : IsString k.memory (k.literal w) w
  pub enough : length w < k.fuel

-- After a panic: the lines are printed, no interrupt is taken and the processor halts.
abbrev pub dead : String → Cpu → Cpu
dead what s = record {
  interrupts = false;
  halted = true;
  terminal = record s.terminal {
    written = s.terminal.written ++ (printk_kpanic_start ++ (printk_kpanic ++ codes what));
  };
}

panic-dead :
    (what : String) (k : Program) (s : Cpu)
    → is_plain (printk_kpanic ++ codes what) ≡ true
    → Loaded k printk_kpanic_start
    → Loaded k (printk_kpanic ++ codes what)
    → panic what k s ≡ Outcome.done (dead what s)
unfolding panic printk
panic-dead what k s ok first second =
    let line = printk_kpanic ++ codes what in
    let t = s.terminal in
    let t₁ : Terminal = record t { written = t.written ++ printk_kpanic_start } in
    let run₁ =
      print_from-plain printk_kpanic_start k.fuel k.fuel (k.literal printk_kpanic_start) k.memory t
        refl first.enough first.stands in
    let run₂ =
      print_from-plain line k.fuel k.fuel (k.literal line) k.memory t₁ ok second.enough
        second.stands in
    rw (run₁, run₂)
      (ap
        (λ (w : List ℕ).
          let cpu : Cpu = record {
            interrupts = false;
            halted = true;
            terminal = record t { written = w };
          } in
          Outcome.done cpu)
        (append_assoc t.written printk_kpanic_start line))

either_panic :
    (b : Bool) (x y : String) (g : Program → Cpu → Outcome Cpu)
    → g ≡ panic y
    → (if b then panic x else g) ≡ panic (if b then x else y)
either_panic true x y g h = refl
either_panic false x y g h = h

handler-panic : (v : ℕ) → handler v ≡ panic (title v)
unfolding vec_0x0 vec_0x1 vec_0x3 vec_0x4 vec_0x5 vec_0x6 vec_0x8 vec_0xa vec_0xb vec_0xc vec_0xd
    vec_0xe
handler-panic v = either_panic (v == 0x0) _ _ _ (
    either_panic (v == 0x1) _ _ _ (
      either_panic (v == 0x3) _ _ _ (
        either_panic (v == 0x4) _ _ _ (
          either_panic (v == 0x5) _ _ _ (
            either_panic (v == 0x6) _ _ _ (
              either_panic (v == 0x8) _ _ _ (
                either_panic (v == 0xA) _ _ _ (
                  either_panic (v == 0xB) _ _ _
                    (either_panic (v == 0xC) _ _ _ (either_panic (v == 0xD) _ _ _ refl))))))))))

either : (P : String → Type 0) (b : Bool) (x y : String) → P x → P y → P (if b then x else y)
either P true x y h k = h
either P false x y h k = k

title-plain : (v : ℕ) → is_plain (printk_kpanic ++ codes (title v)) ≡ true
title-plain v =
    let P : String → Type 0 = λ w. is_plain (printk_kpanic ++ codes w) ≡ true in
    either P (v == 0x0) _ _ refl (
      either P (v == 0x1) _ _ refl (
        either P (v == 0x3) _ _ refl (
          either P (v == 0x4) _ _ refl (
            either P (v == 0x5) _ _ refl (
              either P (v == 0x6) _ _ refl (
                either P (v == 0x8) _ _ refl (
                  either P (v == 0xA) _ _ refl (
                    either P (v == 0xB) _ _ refl
                      (either P (v == 0xC) _ _ refl (either P (v == 0xD) _ _ refl refl))))))))))

-- On each exception that has a handler, the processor prints the start of a panic and a line that
-- names the exception, and nothing else, and then halts with its interrupts off.
pub handler-dead :
    (v : ℕ) (k : Program) (s : Cpu)
    → handled v ≡ true
    → Loaded k printk_kpanic_start
    → Loaded k (printk_kpanic ++ codes (title v))
    → handler v k s ≡ Outcome.done (dead (title v) s)
handler-dead v k s known first second =
    ap (λ (f : Program → Cpu → Outcome Cpu). f k s) (handler-panic v)
    ∙ panic-dead (title v) k s (title-plain v) first second
