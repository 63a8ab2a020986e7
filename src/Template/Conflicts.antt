-- ===== src/Template/Conflicts.antt =====
-- `checkInternalConflicts`: records of one template that cannot stand together.
pub mod Laws
use dns_entree.Base.{
  ℕ, Bool, true, false, ◌&&◌, ◌||◌, not, List, [], ◌∷◌, ◌++◌, Option, none, some, if◌then◌else◌,
  any,
}
use dns_entree.Text.{Bytes, codes, str_eq, to_lower}
use dns_entree.Record.{Record}
use dns_entree.Template.Types.{
  Entry, ProcessError, invalid_data, Processed, good, bad, ◌>>=◌, ◌>>◌, refuse_if,
}
use dns_entree.Template.Names.{is_child_of}

-- What stands at a name so far.
pub record NameInfo : Type 0 where
  pub has_cname : Bool
  pub has_ns : Bool
  pub has_other : Bool

abbrev pub nothing : NameInfo
nothing = record { has_cname = false; has_ns = false; has_other = false }

abbrev pub Names : Type 0
Names = List (Bytes × NameInfo)

unfoldable pub info_of : Bytes → Names → NameInfo
info_of n [] = nothing
info_of n ((k, i) ∷ names) = if str_eq k n then i else info_of n names

-- The types that neither conflict nor are counted.
unfoldable pub is_neutral : Bytes → Bool
is_neutral t =
    str_eq t (codes "SPFM")
    || (str_eq t (codes "TXT") || (str_eq t (codes "REDIR301") || str_eq t (codes "REDIR302")))

-- The info after a record of this type, `none` where it conflicts.
unfoldable pub see_type : Bytes → NameInfo → Option NameInfo
unfolding is_neutral
see_type t i =
    if str_eq t (codes "CNAME")
    then (if i.has_cname || (i.has_other || i.has_ns)
        then none
        else some (record i { has_cname = true }))
    else if str_eq t (codes "NS")
    then (if i.has_cname || i.has_other then none else some (record i { has_ns = true }))
    else if is_neutral t
    then some i
    else if i.has_cname || i.has_ns
    then none
    else some (record i { has_other = true })

unfoldable pub see_names : List Entry → Names → Bool
unfolding info_of see_type
see_names [] names = true
see_names (e ∷ es) names = elim (see_type e.rec.typ (info_of (to_lower e.rec.name) names)) [
  | none ↦ false
  | some i ↦ see_names es ((to_lower e.rec.name, i) ∷ names)
]

unfoldable pub is_ns : Entry → Bool
is_ns e = str_eq e.rec.typ (codes "NS")

-- A record that is no NS record stands below the name.
unfoldable pub below : Bytes → Entry → Bool
unfolding is_ns
below ns_name e = not (is_ns e) && is_child_of (to_lower e.rec.name) ns_name

unfoldable pub cascades : List Entry → Entry → Bool
unfolding below
cascades all e = is_ns e && any (below (to_lower e.rec.name)) all

unfoldable pub check_internal_conflicts : List Entry → Processed (Unit {0})
unfolding see_names cascades
check_internal_conflicts es = do
  refuse_if (not (see_names es [])) invalid_data
  refuse_if (any (cascades es) es) invalid_data
