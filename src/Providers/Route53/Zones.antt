-- ===== src/Providers/Route53/Zones.antt =====
-- providers/route53/route53.go, `findZoneID`: the hosted zone with the longest name that is the
-- domain or stands behind one of its dots.
pub mod Longest
use dns_entree.Base.{
  ℕ, Bool, true, false, ◌&&◌, ◌||◌, List, [], ◌∷◌, length, ltb, leb, Option, none, some,
  if◌then◌else◌,
}
use dns_entree.Text.{Bytes, codes, str_eq, has_suffix, trim_suffix, trim_prefix}
use dns_entree.Record.Errors.{Error, other, Result, ok, err}
use dns_entree.Template.Names.{is_empty}

pub record HostedZone : Type 0 where
  pub id : Bytes
  pub name : Bytes

-- `none` is the length -1 that the search starts with.
pub record Best : Type 0 where
  pub best_id : Bytes
  pub best_len : Option ℕ

abbrev pub no_best : Best
no_best = record { best_id = []; best_len = none }

abbrev pub zone_name : HostedZone → Bytes
zone_name z = trim_suffix z.name (codes ".")

unfoldable pub covers : Bytes → HostedZone → Bool
covers domain z = str_eq (zone_name z) domain || has_suffix domain (b'.' ∷ zone_name z)

abbrev pub longer : ℕ → Option ℕ → Bool
longer n none = true
longer n (some m) = ltb m n

abbrev pub zone_id : HostedZone → Bytes
zone_id z = trim_prefix z.id (codes "/hostedzone/")

abbrev pub candidate : HostedZone → Best
candidate z = record { best_id = zone_id z; best_len = some (length (zone_name z)) }

unfoldable pub pick_zone : Bytes → List HostedZone → Best → Best
unfolding covers
pick_zone domain [] b = b
pick_zone domain (z ∷ zs) b =
    pick_zone domain zs
      (if covers domain z && longer (length (zone_name z)) b.best_len then candidate z else b)

unfoldable pub find_zone_id : Bytes → List HostedZone → Result Bytes
unfolding pick_zone is_empty
find_zone_id domain zones =
    let id = (pick_zone domain zones no_best).best_id in
    if is_empty id then err (other (codes "no hosted zone found")) else ok id
