-- ===== src/Base.antt =====
-- The names that the other modules share: the libraries', passed on, and those of the children.
mod Tests
mod Lists
mod Word
mod Store
mod Loads
pub mod Layout
pub mod Outcome
pub mod Bits
pub use Tests.*
unfoldable pub use Tests.{all_below}
pub use Lists.*
pub use Word.*
unfoldable pub use Store.{memset, memzero, memcpy}
pub use Store.{Memory, store, memset_lem, memzero_lem, memcpy_lem, Apart, IsString, Holds}
pub use Store.{IsString-ext, memcpy-outside, memcpy-forward}
unfoldable pub use Loads.{load, store_word}
pub use Loads.{
  Disjoint, load-ext, store_word-outside, load-store_word, load-store_word_apart, load-lt,
}
pub use Prim.Native.Nat.{ℕ, zero, suc, ◌+◌, ◌-◌, ◌*◌, ◌/◌, ◌%◌, ◌^◌, ◌≤◌, ◌<◌, min, max}
pub use Prim.Native.Nat.{bit_and, bit_or, bit_xor}
pub use mathlib.Core.Path.{◌≡◌, refl, sym, ap, ap₂, ◌∙◌, subst}
pub use mathlib.Core.Logic.{◌≢◌, ◌↔◌, ◌⊎◌, inl, inr}
pub use mathlib.Core.Bool.{Bool, true, false, not, ◌&&◌, ◌||◌}
pub use mathlib.Core.Option.{Option, none, some}
pub use mathlib.Core.List.{List, [], ◌∷◌, ◌++◌, map, append-nil, append_assoc}
pub use native.Mathlib.Omega.{arith}
