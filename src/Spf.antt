-- ===== src/Spf.antt =====
-- spf.go: merging include domains into an SPF record, and counting its DNS lookups.
mod Count
pub mod Merge
pub mod Recursive
pub mod Splice
pub mod Contents
pub mod Idempotent
pub mod Words
pub mod Stands
pub mod Surface
pub mod Once
mod Tests
unfoldable pub use Count.*
use dns_entree.Base.{
  ℕ, ◌+◌, Bool, true, false, List, [], ◌∷◌, ◌++◌, Option, none, some, ltb, if◌then◌else◌,
}
use dns_entree.Text.{Bytes}
use dns_entree.Record.Errors.{Error, Result, ok, err}
use Merge.{Merged, merge_value}
use Recursive.{Resolver, recursive_count, max_levels}

pub data Warning : Type 0 where
  unparseable : Warning
  count_incomplete : Error → Warning
  over_limit : Warning

pub record MergeResult : Type 0 where
  pub value : Bytes
  pub changed : Bool
  pub broken_input : Bool
  pub lookup_count : ℕ
  pub lookup_limit_exceeded : Bool
  pub warnings : List Warning

-- The count, and the warning where the walk was cut short: then the surface count stands in.
unfoldable pub counted : Bytes → Result ℕ → ℕ × List Warning
counted value (ok total) = (total, [])
counted value (err e) = (count_lookups value, count_incomplete e ∷ [])

unfoldable pub lookups : Option Resolver → Bytes → ℕ × List Warning
unfolding counted
lookups none value = (count_lookups value, [])
lookups (some r) value = counted value (recursive_count r max_levels value []).0

unfoldable pub limit_warning : Bool → List Warning
limit_warning true = over_limit ∷ []
limit_warning false = []

unfoldable pub broken_warning : Bool → List Warning
broken_warning true = unparseable ∷ []
broken_warning false = []

unfoldable pub merge_spf : Option Resolver → Bytes → List Bytes → MergeResult
unfolding lookups limit_warning broken_warning
merge_spf resolver current includes =
    let m = merge_value current includes in
    let (count, notes) = lookups resolver m.value in
    let over = ltb 10 count in
    record {
      value = m.value;
      changed = m.changed;
      broken_input = m.broken;
      lookup_count = count;
      lookup_limit_exceeded = over;
      warnings = broken_warning m.broken ++ (notes ++ limit_warning over);
    }
