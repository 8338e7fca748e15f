-- ===== src/Arch/Exceptions.antt =====
-- init_exceptions of sys/src/arch/x64/exceptions.c. `vec v` is the address of the handler vec_0x`v`;
-- the handlers are in Handlers.
pub mod Handlers
pub mod Halt
mod Tests
use mksd_old_archive.Base.{ℕ, ◌≡◌, Bool, true, false, ◌&&◌, ◌||◌, leb, ◌==◌, arith}
use mksd_old_archive.Arch.Devices.{Intr, register_exception_handler, set_desc}

unfoldable pub init_exceptions : (ℕ → ℕ) → Intr → Intr
init_exceptions vec s =
    let s₁ = register_exception_handler 0x0 (vec 0x0) s in
    let s₂ = register_exception_handler 0x1 (vec 0x1) s₁ in
    let s₃ = register_exception_handler 0x3 (vec 0x3) s₂ in
    let s₄ = register_exception_handler 0x4 (vec 0x4) s₃ in
    let s₅ = register_exception_handler 0x5 (vec 0x5) s₄ in
    let s₆ = register_exception_handler 0x6 (vec 0x6) s₅ in
    let s₇ = register_exception_handler 0x8 (vec 0x8) s₆ in
    let s₈ = register_exception_handler 0xA (vec 0xA) s₇ in
    let s₉ = register_exception_handler 0xB (vec 0xB) s₈ in
    let s₁₀ = register_exception_handler 0xC (vec 0xC) s₉ in
    let s₁₁ = register_exception_handler 0xD (vec 0xD) s₁₀ in
    register_exception_handler 0xE (vec 0xE) s₁₁

-- The vectors that have a handler.
abbrev pub handled : ℕ → Bool
handled v = leb v 1 || (leb 3 v && leb v 6) || (v == 8) || (leb 0xA v && leb v 0xE)

-- The gates of all other vectors, the device-not-available exception among them, are untouched.
pub init_exceptions-others :
    (vec : ℕ → ℕ) (s : Intr) (v : ℕ) → handled v ≡ false → (init_exceptions vec s).idt v ≡ s.idt v
unfolding init_exceptions register_exception_handler set_desc
init_exceptions-others vec s v h = ground arith

-- The gate of each of these vectors is that of its own handler, and of no later one.
pub init_exceptions-handled :
    (vec : ℕ → ℕ) (s : Intr) (v : ℕ)
    → handled v ≡ true
    → (init_exceptions vec s).idt v ≡ (register_exception_handler v (vec v) s).idt v
unfolding init_exceptions register_exception_handler set_desc
init_exceptions-handled vec s v h = ground arith
