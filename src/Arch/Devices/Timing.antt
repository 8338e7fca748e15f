-- ===== src/Arch/Devices/Timing.antt =====
-- When pit_sleep returns, and what lapic_timer_calibrate comes to.
use mksd_old_archive.Base.{
  ℕ, zero, suc, ◌+◌, ◌-◌, ◌*◌, ◌/◌, ◌^◌, ◌≤◌, ◌<◌, ◌≡◌, inl, inr, refl, ◌∙◌, arith, none, some, ltb,
  ◌==◌, Bool, ◌||◌, all_below, all_below_at, Bool-cases, u32, ◌∷◌, false,
}
use mksd_old_archive.Base.Outcome.{Outcome}
use mksd_old_archive.Arch.Ports.{Access, Log}
use mksd_old_archive.Arch.Devices.{Board, Intr, log_access, pit_get_count, pit_isr, lapic_send_eoi}
use mksd_old_archive.Arch.Devices.Gates.{pit_get_count-low}
use mksd_old_archive.Arch.Devices.Sleep.{
  interrupts, sleep_from, pit_sleep, lapic_rate, arm_timer, wait_count, set_rate,
  lapic_timer_calibrate,
}

interrupts-ticks :
    (board : Board) (n : ℕ) (s : Intr)
    → s.ticks + n < 2 ^ 64
    → (interrupts board n s).ticks ≡ s.ticks + n
unfolding interrupts pit_isr lapic_send_eoi
interrupts-ticks board zero s l = omega arith
interrupts-ticks board (suc n) s l =
    interrupts-ticks board n (pit_isr board s) (omega arith) ∙ omega arith

-- The interrupts in front of the tests from `i` on, `n` of them.
abbrev pub sum_from : (ℕ → ℕ) → ℕ → ℕ → ℕ
sum_from fires i zero = 0
sum_from fires i (suc n) = fires i + sum_from fires (i + 1) n

-- Test number `last` from `i` on ends the loop: it is the first that sees at least `wanted` ticks.
pub record Slept (fires : ℕ → ℕ) (i wanted : ℕ) (s s' : Intr) : Type 0 where
  pub last : ℕ
  pub ticks : s'.ticks ≡ s.ticks + sum_from fires i (suc last)
  pub enough : wanted ≤ s'.ticks
  pub first : (j : ℕ) → j < last → s.ticks + sum_from fires i (suc j) < wanted

Slept-now :
    (fires : ℕ → ℕ) (i wanted : ℕ) (s s₁ : Intr)
    → s₁.ticks ≡ s.ticks + fires i
    → wanted ≤ s₁.ticks
    → Slept fires i wanted s s₁
Slept-now fires i wanted s s₁ e l = record {
  last = 0;
  ticks = omega arith;
  enough = l;
  first = λ j lt. absurd (omega arith);
}

first-next :
    (fires : ℕ → ℕ) (i wanted last : ℕ) (s s₁ : Intr)
    → s₁.ticks ≡ s.ticks + fires i
    → s₁.ticks < wanted
    → ((j : ℕ) → j < last → s₁.ticks + sum_from fires (i + 1) (suc j) < wanted)
    → (j : ℕ) → j < suc last
    → s.ticks + sum_from fires i (suc j) < wanted
first-next fires i wanted last s s₁ e l h zero k = omega (arith, e)
first-next fires i wanted last s s₁ e l h (suc j) k = omega (arith, e, h j (omega arith))

Slept-next :
    (fires : ℕ → ℕ) (i wanted : ℕ) (s s₁ s' : Intr)
    → s₁.ticks ≡ s.ticks + fires i
    → s₁.ticks < wanted
    → Slept fires (i + 1) wanted s₁ s'
    → Slept fires i wanted s s'
Slept-next fires i wanted s s₁ s' e l h = record {
  last = suc h.last;
  ticks = omega (arith, h.ticks, e);
  enough = h.enough;
  first = first-next fires i wanted h.last s s₁ e l h.first;
}

sleep_from-Slept :
    (k fuel i wanted : ℕ) (board : Board) (fires : ℕ → ℕ) (s : Intr)
    → k < fuel
    → wanted ≤ s.ticks + sum_from fires i (suc k)
    → s.ticks + sum_from fires i (suc k) < 2 ^ 64
    → (s' : Intr) × (sleep_from fuel board fires i wanted s ≡ some s') × Slept fires i wanted s s'
unfolding sleep_from
sleep_from-Slept k zero i wanted board fires s h l small = absurd (omega arith)
sleep_from-Slept zero (suc fuel) i wanted board fires s h l small =
    let s₁ = interrupts board (fires i) s in
    let now : s₁.ticks ≡ s.ticks + fires i = interrupts-ticks board (fires i) s (omega arith) in
    let stop : ltb s₁.ticks wanted ≡ false = ground arith in
    (s₁, rw stop refl, Slept-now fires i wanted s s₁ now (omega (arith, now)))
sleep_from-Slept (suc k) (suc fuel) i wanted board fires s h l small =
    let s₁ = interrupts board (fires i) s in
    let now : s₁.ticks ≡ s.ticks + fires i = interrupts-ticks board (fires i) s (omega arith) in
    elim (Bool-cases (ltb s₁.ticks wanted)) [
      | inl e ↦
          let (s', run, slept) =
            sleep_from-Slept k fuel (i + 1) wanted board fires s₁ (omega arith) (omega (arith, now))
              (omega (arith, now)) in
          (s', rw e run, Slept-next fires i wanted s s₁ s' now (ground arith) slept)
      | inr e ↦ (s₁, rw e refl, Slept-now fires i wanted s s₁ now (ground arith))
    ]

-- Below 2 ^ 32 ticks, and with as many interrupts in front of the first `fuel` tests as it asks
-- for, `pit_sleep` returns, at the first test that sees `n_ticks` more ticks than at its start.
pub pit_sleep-Slept :
    (k fuel n_ticks : ℕ) (board : Board) (fires : ℕ → ℕ) (s : Intr)
    → k < fuel
    → n_ticks ≤ sum_from fires 0 (suc k)
    → s.ticks + n_ticks < 2 ^ 32
    → s.ticks + sum_from fires 0 (suc k) < 2 ^ 64
    → (s' : Intr) × (pit_sleep fuel board fires n_ticks s ≡ some s')
      × Slept fires 0 (s.ticks + n_ticks) s s'
unfolding pit_sleep
pit_sleep-Slept k fuel n_ticks board fires s l enough small total =
    let wanted : u32 (s.ticks + n_ticks) ≡ s.ticks + n_ticks = omega arith in
    rw wanted (sleep_from-Slept k fuel 0 (s.ticks + n_ticks) board fires s l (omega arith) total)

-- From 2 ^ 32 ticks on, `pit_sleep` returns at its first test, however long it is to sleep.
pub pit_sleep-late :
    (fuel n_ticks : ℕ) (board : Board) (fires : ℕ → ℕ) (s : Intr)
    → 2 ^ 32 ≤ s.ticks
    → s.ticks + fires 0 < 2 ^ 64
    → pit_sleep (suc fuel) board fires n_ticks s ≡ some (interrupts board (fires 0) s)
unfolding pit_sleep sleep_from
pit_sleep-late fuel n_ticks board fires s late small =
    let now : (interrupts board (fires 0) s).ticks ≡ s.ticks + fires 0 =
      interrupts-ticks board (fires 0) s small in
    let stop : ltb (interrupts board (fires 0) s).ticks (u32 (s.ticks + n_ticks)) ≡ false =
      ground arith in
    rw stop refl

abbrev too_fast : ℕ → Bool
too_fast d = (d == 0) || ltb (2 ^ 31) (0xFFFFF / d * 1193180)

-- The product exceeds an int for every distance of two bytes.
lapic_rate-none : (a b : ℕ) → a < 256 → b < 256 → lapic_rate a b ≡ none
unfolding lapic_rate all_below
lapic_rate-none a b l k =
    let down = all_below_at 256 (a - b) too_fast refl (omega arith) in
    let up = all_below_at 256 (b - a) too_fast refl (omega arith) in ground arith

-- The log after `n` more reads of a register.
abbrev pub read_on : ℕ → ℕ → Log → Log
read_on address zero log = log
read_on address (suc n) log = read_on address n (Access.read32 address ∷ log)

wait_count-some :
    (k fuel : ℕ) (board : Board) (s : Intr)
    → k < fuel
    → let address = board.lapic_mmio_base + 0x0390 in
      u32 (board.mmio (read_on address k s.log) address) ≡ 0
      → (s' : Intr) × (wait_count fuel board s ≡ some s')
unfolding wait_count
wait_count-some k zero board s l e = absurd (omega arith)
wait_count-some zero (suc fuel) board s l e =
    let address = board.lapic_mmio_base + 0x0390 in
    (log_access (Access.read32 address) s, rw e refl)
wait_count-some (suc k) (suc fuel) board s l e =
    let address = board.lapic_mmio_base + 0x0390 in
    let s₁ = log_access (Access.read32 address) s in
    elim (Bool-cases (u32 (board.mmio s.log address) == 0)) [
      | inl now ↦ (s₁, rw now refl)
      | inr later ↦
          let (s', run) = wait_count-some k fuel board s₁ (omega arith) e in (s', rw later run)
    ]

pit_get_count-byte : (board : Board) (s : Intr) → (pit_get_count board s).0 < 256
pit_get_count-byte board s = omega (arith, pit_get_count-low board s)

set_rate-undefined :
    (board : Board) (init_tick : ℕ) (s : Intr)
    → init_tick < 256
    → set_rate board init_tick s ≡ Outcome.undefined
unfolding set_rate
set_rate-undefined board init_tick s l =
    rw
      (
        set_rate,
        lapic_rate-none init_tick ((pit_get_count board s).0) l (pit_get_count-byte board s),
      )
      refl

-- If the counter of the timer is 0 at one of the first `fuel` reads, `lapic_timer_calibrate` leaves
-- its loop and ends in a division by 0 or an overflow of an int, whatever the PIT answers: it never
-- sets the frequency.
pub lapic_timer_calibrate-undefined :
    (k fuel : ℕ) (board : Board) (s : Intr)
    → k < fuel
    → let address = board.lapic_mmio_base + 0x0390 in
      u32 (board.mmio (read_on address k ((arm_timer board s).1).log) address) ≡ 0
      → lapic_timer_calibrate fuel board s ≡ Outcome.undefined
unfolding lapic_timer_calibrate
lapic_timer_calibrate-undefined k fuel board s l e =
    let armed = arm_timer board s in
    let (s', run) = wait_count-some k fuel board armed.1 l e in
    rw (lapic_timer_calibrate, run)
      (set_rate-undefined board armed.0 s' (pit_get_count-byte board _))
