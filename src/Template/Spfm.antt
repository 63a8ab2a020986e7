-- ===== src/Template/Spfm.antt =====
-- `processSPFM`: SPF rules of a template merged into the SPF record of the zone.
use dns_entree.Base.{
  ℤ, Bool, ◌&&◌, List, [], ◌∷◌, ◌++◌, Option, none, some, if◌then◌else◌, find?, int_eq, ◌≡◌, refl,
}
use dns_entree.Text.{
  Bytes, codes, space, str_eq, has_prefix, has_suffix, contains, trim_prefix, trim_suffix,
}
use dns_entree.Record.{Record, plain}
use dns_entree.Template.Names.{name_eq}

-- The records to add and the records to delete.
pub record Change : Type 0 where
  pub adds : List Record
  pub dels : List Record

abbrev pub spf_prefix : Bytes
spf_prefix = codes "v=spf1 "

unfoldable pub is_spf_at : Bytes → Record → Bool
is_spf_at name r =
    name_eq r.name name && (str_eq r.typ (codes "TXT") && has_prefix r.content spf_prefix)

abbrev pub terminators : List Bytes
terminators = codes " -all" ∷ codes " ~all" ∷ codes " ?all" ∷ []

-- The content without its terminator, and the terminator.
unfoldable pub cut_terminator : Bytes → List Bytes → Bytes × Bytes
cut_terminator content [] = (content, codes " ~all")
cut_terminator content (t ∷ ts) =
    if has_suffix content t then (trim_suffix content t, t) else cut_terminator content ts

unfoldable pub merge_rules : Bytes → Bytes → Bytes
unfolding cut_terminator
merge_rules content rules =
    let cut = cut_terminator content terminators in
    spf_prefix ++ (rules ++ (space ∷ (trim_prefix cut.0 spf_prefix ++ cut.1)))

unfoldable pub merge_into : Option Record → Record → Change
unfolding merge_rules
merge_into none spfm = record {
  adds =
      plain (codes "TXT") spfm.name (spf_prefix ++ (spfm.content ++ codes " ~all"))
        (if int_eq spfm.ttl (ℤ.pos 0) then ℤ.pos 6000 else spfm.ttl)
      ∷ [];
  dels = [];
}
merge_into (some old) spfm =
    if contains old.content spfm.content then record { adds = []; dels = [] } else record {
      adds = plain (codes "TXT") spfm.name (merge_rules old.content spfm.content) old.ttl ∷ [];
      dels = old ∷ [];
    }

unfoldable pub process_spfm : List Record → Record → Change
unfolding is_spf_at merge_into
process_spfm zone spfm = merge_into (find? (is_spf_at spfm.name) zone) spfm

-- A record that holds nothing between the version and its terminator, as `v=spf1 -all`, gets the
-- version a second time, behind the rules.
pub merge_rules-repeats_version :
    (rules : Bytes)
    → merge_rules (codes "v=spf1 -all") rules ≡ codes "v=spf1 " ++ (rules ++ codes " v=spf1 -all")
unfolding merge_rules has_suffix trim_suffix trim_prefix
merge_rules-repeats_version rules = refl
