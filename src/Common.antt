-- ===== src/Common.antt =====
-- Names that every module shares: the libraries', passed on, and those of the children, which
-- model what the sources use of the C++ language and its standard library.
mod Tests
mod Lists
mod Results
mod Bytes
mod Digits
pub mod Int
pub mod Logged
pub mod Bits
pub mod Words
pub use Tests.*
pub use Lists.*
pub use Results.*
unfoldable pub use Bytes.{text_eq, c_str, digit, scan, from_chars}
pub use Bytes.*
pub use Prim.Native.Nat.{
  ℕ, zero, suc, ◌+◌, ◌-◌, ◌*◌, ◌/◌, ◌%◌, ◌^◌, ◌≤◌, ◌<◌, min, bit_and, bit_or, bit_xor,
}
pub use Prim.Native.String.{String}
pub use mathlib.Core.Path.{◌≡◌, refl, sym, ap, ap₂, subst, ◌∙◌}
pub use mathlib.Core.Logic.{◌≢◌, ◌↔◌, ◌⊎◌, inl, inr}
pub use mathlib.Core.Bool.{Bool, true, false, not, ◌&&◌, ◌||◌}
pub use mathlib.Core.Option.{Option, none, some}
pub use mathlib.Core.List.{List, [], ◌∷◌, ◌++◌, map, append-nil, append_assoc}
pub use native.Mathlib.Omega.{arith}
