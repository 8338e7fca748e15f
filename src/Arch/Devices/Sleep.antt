-- ===== src/Arch/Devices/Sleep.antt =====
-- pit_sleep of pit.c, and lapic_timer_calibrate and lapic_timer_handler of lapic.c. What the
-- interrupts do between two tests of a loop is an argument.
use mksd_old_archive.Base.{
  ℕ, zero, suc, ◌+◌, ◌-◌, ◌*◌, ◌/◌, ◌^◌, bit_or, Option, none, some, ltb, leb, ◌==◌, if◌then◌else◌,
  u32,
}
use mksd_old_archive.Base.Outcome.{Outcome}
use mksd_old_archive.Arch.Ports.{Access}
use mksd_old_archive.Arch.Devices.{
  Board, Intr, log_access, set_pit_count, pit_get_count, pit_isr, lapic_write, lapic_timer_stop,
  lapic_send_eoi, mask_irq,
}

-- `n` interrupts of the PIT.
unfoldable pub interrupts : Board → ℕ → Intr → Intr
interrupts board zero s = s
interrupts board (suc n) s = interrupts board n (pit_isr board s)

-- The loop of `pit_sleep`; `fires i` interrupts come in front of its test `i`.
unfoldable pub sleep_from : ℕ → Board → (ℕ → ℕ) → ℕ → ℕ → Intr → Option Intr
sleep_from zero board fires i e_ticks s = none
sleep_from (suc fuel) board fires i e_ticks s =
    let s' = interrupts board (fires i) s in
    let rest = sleep_from fuel board fires (i + 1) e_ticks s' in
    if ltb s'.ticks e_ticks then rest else some s'

-- `e_ticks` is a `uint32_t`, and `ticks` has 64 bits.
unfoldable pub pit_sleep : ℕ → Board → (ℕ → ℕ) → ℕ → Intr → Option Intr
pit_sleep fuel board fires n_ticks s = sleep_from fuel board fires 0 (u32 (s.ticks + n_ticks)) s

abbrev pub lapic_timer_handler : Board → Intr → Intr
lapic_timer_handler board s = lapic_send_eoi board s

-- `(samples / total_ticks) * PIT_DIVIDEND` in ints, as a 64-bit word; none is a division by 0 or an
-- overflow.
unfoldable pub lapic_rate : ℕ → ℕ → Option ℕ
lapic_rate init_tick final_tick =
    let down = 0xFFFFF / (init_tick - final_tick) * 1193180 in
    let up = 0xFFFFF / (final_tick - init_tick) * 1193180 in
    if init_tick == final_tick
    then none
    else if ltb final_tick init_tick
    then (if ltb down (2 ^ 31) then some down else none)
    else if leb up (2 ^ 31)
    then some (2 ^ 64 - up)
    else none

-- `while (read_mmio(LAPIC_TCCR) != 0);`
unfoldable pub wait_count : ℕ → Board → Intr → Option Intr
wait_count zero board s = none
wait_count (suc fuel) board s =
    let address = board.lapic_mmio_base + 0x0390 in
    let s' = log_access (Access.read32 address) s in
    let rest = wait_count fuel board s' in
    if u32 (board.mmio s.log address) == 0 then some s' else rest

-- The end of `lapic_timer_calibrate`, once the counter is at 0.
unfoldable pub set_rate : Board → ℕ → Intr → Outcome Intr
set_rate board init_tick s =
    let (final_tick, s₁) = pit_get_count board s in
    elim (lapic_rate init_tick final_tick) [
      | none ↦ Outcome.undefined
      | some rate ↦ Outcome.done (mask_irq board 0 (record s₁ { lapic_freq = rate }))
    ]

-- What `lapic_timer_calibrate` does up to its loop: `init_tick`, and the state.
abbrev pub arm_timer : Board → Intr → ℕ × Intr
arm_timer board s =
    let s₁ = lapic_write board 0x0320 (bit_or (2 ^ 16) 0xFF) (lapic_timer_stop board s) in
    let s₂ = set_pit_count 0xFFFF (lapic_write board 0x03E0 0 s₁) in
    let (init_tick, s₃) = pit_get_count board s₂ in (init_tick, lapic_write board 0x0380 0xFFFFF s₃)

unfoldable pub lapic_timer_calibrate : ℕ → Board → Intr → Outcome Intr
lapic_timer_calibrate fuel board s =
    let (init_tick, s₁) = arm_timer board s in
    elim (wait_count fuel board s₁) [ none ↦ Outcome.waits | some s₂ ↦ set_rate board init_tick s₂ ]
