-- ===== src/Shared.antt =====
-- Names that every module shares: the libraries' and those of the children.
mod Tests
mod Lists
mod Text
mod Decimal
mod Errors
mod JsonValues
mod Guards
mod Files
unfoldable pub use Tests.{String_discrete}
pub use Tests.*
unfoldable pub use Lists.{contains, set_of, unique, disjoint, subset, same_set}
pub use Lists.*
unfoldable pub use Text.{
  is_sha256, is_artifact_type, is_safe_component, is_agent_id, is_provider_id, is_retrieval_id,
  is_source_id, ends_with, drop_suffix,
}
pub use Text.*
unfoldable pub use Decimal.{digits, decimal}
unfoldable pub use Errors.{check}
pub use Errors.*
pub use JsonValues.*
pub use Guards.*
unfoldable pub use Files.{read, write, FilePath-discrete}
pub use Files.*
pub use Prim.Native.Nat.{ℕ, zero, suc, ◌+◌, ◌-◌, ◌≤◌, ◌<◌}
pub use Prim.Native.String.{String}
pub use mathlib.Core.Path.{◌≡◌, refl, sym, ◌∙◌, ap}
pub use mathlib.Core.Logic.{◌≢◌, ◌↔◌, ◌⊎◌, inl, inr}
pub use mathlib.Core.Bool.{Bool, true, false, ◌&&◌, ◌||◌, not}
pub use mathlib.Core.Option.{Option, none, some}
pub use mathlib.Core.List.{List, [], ◌∷◌, ◌++◌, map}
pub use native.Mathlib.Omega.{arith}
unfoldable pub use native.Mathlib.Decide.{ℕ_discrete}
pub use text.Mathlib.Text.{starts_with}
pub use text.Mathlib.TextEquality.{eq_iff}
