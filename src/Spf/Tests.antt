-- ===== src/Spf/Tests.antt =====
-- Runs of spf.go, and the theorems at concrete records.
use dns_entree.Base.{
  ◌+◌, true, false, List, [], ◌∷◌, none, ◌≡◌, refl, arith, ◌≤◌, All, cons-ne-nil, length,
  if◌then◌else◌,
}
use dns_entree.Text.{
  Bytes, codes, Lacks, space, contains, fields, str_eq, is_space, to_lower, has_prefix, trim_space,
}
use dns_entree.Record.Errors.{ok}
use dns_entree.Spf.{merge_spf, MergeResult, over_limit, count_lookups}
use dns_entree.Spf.Merge.{merge_value, extend, additions, include_of, Merged}
use dns_entree.Spf.Recursive.{Resolver, recursive_count, max_levels}
use dns_entree.Spf.Contents.{merge_value-longer_domain}
use dns_entree.Spf.Stands.{Stands, merge_value-Stands}
use dns_entree.Spf.Idempotent.{merge_spf_idem}
use dns_entree.Spf.Words.{WordsKept, extend-WordsKept, extend-lookups, IsDomain, IsDomain-of_test}
use dns_entree.Spf.Surface.{count_lookups-le-recursive, IsDistinct}
use dns_entree.Spf.Once.{lookups_at, recursive_count-once}

abbrev old : Bytes
old = codes "v=spf1 mx include:a.example -all"

abbrev wanted : List Bytes
wanted = codes "a.example" ∷ codes "b.example" ∷ []

wanted-domains : All IsDomain wanted
unfolding is_space
wanted-domains =
    (IsDomain-of_test (codes "a.example") refl, (IsDomain-of_test (codes "b.example") refl, tt))

merges : merge_spf none old wanted ≡ record {
  value = codes "v=spf1 mx include:a.example include:b.example -all";
  changed = true;
  broken_input = false;
  lookup_count = 3;
  lookup_limit_exceeded = false;
  warnings = [];
}
unfolding merge_spf merge_value count_lookups str_eq fields trim_space has_prefix to_lower additions
    contains dns_entree.Spf.Merge.insertion_place dns_entree.Text.join
merges = refl

fresh :
    (merge_spf none (codes " ") wanted).value
    ≡ codes "v=spf1 include:a.example include:b.example ~all"
unfolding merge_spf merge_value str_eq trim_space dns_entree.Text.join
fresh = refl

redirects :
    (merge_spf none (codes "v=spf1 redirect=c.example") (codes "b" ∷ [])).value
    ≡ codes "v=spf1 include:b redirect=c.example"
unfolding merge_spf merge_value str_eq trim_space has_prefix to_lower additions contains
    dns_entree.Spf.Merge.insertion_place dns_entree.Text.join
redirects = refl

-- Two domains that include one another.
abbrev loop_resolver : Resolver
loop_resolver name =
    if str_eq name (codes "a.example")
    then ok (codes "x" ∷ codes "v=spf1 include:b.example mx" ∷ [])
    else ok (codes "v=spf1 include:a.example a" ∷ [])

walks : (recursive_count loop_resolver max_levels old []).0 ≡ ok 6
unfolding recursive_count fields str_eq to_lower has_prefix dns_entree.Text.trim_suffix
    dns_entree.Text.trim_prefix trim_space
walks = refl

merge_spf_idem_example :
    ((merge_spf none (merge_spf none old wanted).value wanted).value
      ≡ (merge_spf none old wanted).value)
    × ((merge_spf none (merge_spf none old wanted).value wanted).changed ≡ false)
    × ((merge_spf none (merge_spf none old wanted).value wanted).broken_input ≡ false)
merge_spf_idem_example = merge_spf_idem none none old wanted (omega arith)

merge_value-Stands_example :
    All (λ inc. Stands (trim_space old) (merge_value old wanted).value (include_of inc)) wanted
merge_value-Stands_example = merge_value-Stands old wanted wanted-domains

longer_domain_kept :
    merge_value (codes "v=spf1 include:a.example.org -all") (codes "a.example" ∷ [])
    ≡ record { value = codes "v=spf1 include:a.example.org -all"; changed = false; broken = false }
unfolding trim_space has_prefix to_lower
longer_domain_kept =
    merge_value-longer_domain (codes "v=spf1 ") (codes "a.example") (codes ".org") (codes " -all")
      refl refl

extend-WordsKept_example :
    WordsKept (fields old) (fields (extend old (additions old wanted)).value) (additions old wanted)
unfolding additions contains is_space
extend-WordsKept_example = extend-WordsKept old wanted wanted-domains (cons-ne-nil _ _)

lookups_added :
    count_lookups (extend old (additions old wanted)).value
    ≡ count_lookups old + length (additions old wanted)
lookups_added = extend-lookups old wanted wanted-domains

count_lookups-le-recursive_example : count_lookups old ≤ 6
unfolding recursive_count fields str_eq to_lower has_prefix dns_entree.Text.trim_suffix
    dns_entree.Text.trim_prefix trim_space
count_lookups-le-recursive_example = count_lookups-le-recursive loop_resolver 10 old [] 6 refl

recursive_count-once_example :
    IsDistinct (recursive_count loop_resolver max_levels old []).1
    × (6
        ≤ count_lookups old
          + lookups_at loop_resolver (recursive_count loop_resolver max_levels old []).1)
recursive_count-once_example = recursive_count-once loop_resolver max_levels old 6 walks
