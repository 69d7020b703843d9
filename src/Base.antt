-- ===== src/Base.antt =====
-- Names that every part shares: those of the libraries, passed on, and the helpers of the
-- children: tests on numbers, C arrays as lists, machine words, bit operations and byte order.
mod Tests
mod Lists
mod Word
mod Bits
mod Xor
mod Bytes
mod XorBytes
mod Pointer
mod Blocks
mod Results
mod Buffering
unfoldable pub use Tests.*
pub use Lists.*
pub use Word.*
pub use Bits.*
pub use Xor.*
unfoldable pub use Bytes.*
pub use XorBytes.*
pub use Pointer.*
unfoldable pub use Blocks.*
pub use Results.*
pub use Buffering.*
pub use Prim.Native.Nat.{ℕ, zero, suc, ◌+◌, ◌-◌, ◌*◌, ◌/◌, ◌%◌, ◌^◌, ◌≤◌, ◌<◌, min, max}
pub use Prim.Native.Nat.{bit_and, bit_or, bit_xor}
pub use mathlib.Core.Path.{◌≡◌, refl, sym, ap, ap₂, ◌∙◌}
pub use mathlib.Core.Logic.{◌≢◌, ◌↔◌, ◌⊎◌, inl, inr}
pub use mathlib.Core.Bool.{Bool, true, false, ◌&&◌, ◌||◌, not}
pub use mathlib.Core.Option.{Option, none, some}
pub use mathlib.Core.List.{List, [], ◌∷◌, ◌++◌, map, append_assoc, append-nil}
pub use native.Mathlib.Omega.{arith}
