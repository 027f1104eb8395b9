-- ===== src/Base.antt =====
-- The names that the other modules share: those of the libraries, passed on, and those of the
-- children: Boolean tests, lists over the native numbers, Go's `int`, byte strings.
mod Tests
mod Lists
mod Int
mod Strings
mod Perms
pub use Tests.*
pub use Lists.*
pub use Int.*
pub use Perms.{length-Perm, length-range_from, mem-range_from, Nodup-range_from}
unfoldable pub use Perms.{range_from}
pub use Strings.{Bytes, codes, eqb→eq, eqb_refl, eqb_iff, eqb-nil, Lacks}
unfoldable pub use Strings.{eqb, has_prefix}
pub use Prim.Native.Nat.{ℕ, zero, suc, ◌+◌, ◌-◌, ◌*◌, ◌/◌, ◌%◌, ◌^◌, ◌≤◌, ◌<◌}
pub use Prim.Native.String.{String}
pub use mathlib.Core.Path.{◌≡◌, refl, sym, ap, ◌∙◌, subst, fun_ext}
pub use mathlib.Core.Logic.{◌≢◌, ◌↔◌, ◌⊎◌, inl, inr}
pub use mathlib.Core.Bool.{Bool, true, false, not, ◌&&◌, ◌||◌, false≢true}
pub use mathlib.Core.Option.{Option, none, some}
pub use mathlib.Core.List.{List, [], ◌∷◌, ◌++◌, map, append-nil, append_assoc}
pub use native.Mathlib.Omega.{arith}
