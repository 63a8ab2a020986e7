-- ===== src/Providers/Tests.antt =====
-- Services with one zone, one record and one failure.
use dns_entree.Base.{
  ℕ, ℤ, suc, ◌≡◌, ◌≢◌, refl, Bool, true, false, List, [], ◌∷◌, none, if◌then◌else◌, ltb, arith,
}
use dns_entree.Text.{Bytes, codes, str_eq}
use dns_entree.Record.{Record, plain}
use dns_entree.Record.Errors.{Error, other, Result, ok, err}
use dns_entree.Push.Steps.{VerifyOpts}
use dns_entree.Push.{push_generic_record}
use dns_entree.Providers.Priority.{is_written}
use dns_entree.Providers.Unread.{pushes_mx-Written}
use dns_entree.Providers.Cloudflare
use dns_entree.Providers.Route53
use dns_entree.Providers.Godaddy
use dns_entree.Providers.Namecheap

abbrev domain : Bytes
domain = codes "a.b.c"

unseen : Bytes → VerifyOpts → ℕ → Result Bool
unseen name opts n = ok false

abbrev lost : Error
lost = other (codes "lost")

abbrev cf : Cloudflare.Client (Unit {0})
cf = record {
  zone_id_by_name = λ name s. if str_eq name (codes "b.c") then ok (codes "z1") else err lost;
  list_records = λ zone typ name s. ok [];
  update_record = λ zone r s. (ok tt, s);
  create_record = λ zone r s. (ok tt, s);
  delete_record = λ zone id s. (ok tt, s);
}

resolve_zone_id_run : Cloudflare.resolve_zone_id cf domain tt ≡ ok (codes "z1")
unfolding Cloudflare.resolve_zone_id str_eq dns_entree.Template.Names.is_empty
resolve_zone_id_run = refl

resolve_zone_id-IsNearest_example :
    Cloudflare.Nearest.IsNearest cf tt domain (Cloudflare.resolve_zone_id cf domain tt)
resolve_zone_id-IsNearest_example = Cloudflare.Nearest.resolve_zone_id-IsNearest cf tt domain

abbrev zones : List Route53.Zones.HostedZone
zones =
    record { id = codes "/hostedzone/z2"; name = codes "c." }
    ∷ record { id = codes "/hostedzone/z1"; name = codes "b.c." }
    ∷ record { id = codes "/hostedzone/z3"; name = codes "x.a.b.c." }
    ∷ []

find_zone_id_run : Route53.Zones.find_zone_id domain zones ≡ ok (codes "z1")
unfolding Route53.Zones.find_zone_id str_eq dns_entree.Text.has_suffix dns_entree.Text.trim_suffix
    dns_entree.Text.trim_prefix dns_entree.Template.Names.is_empty
find_zone_id_run = refl

find_zone_id-IsZone_example :
    Route53.Zones.Longest.IsZone domain zones (Route53.Zones.find_zone_id domain zones)
find_zone_id-IsZone_example = Route53.Zones.Longest.find_zone_id-IsZone domain zones

abbrev txt_record : Record
txt_record = plain (codes "TXT") domain (codes "hello") (ℤ.pos 0)

abbrev r53 : Route53.Client (Unit {0})
r53 = record {
  list_zones_by_name = λ name s. ok zones;
  list_record_sets = λ zone s. ok (Route53.Laws.dotted (Route53.to_set txt_record) ∷ []);
  change_record_sets = λ zone change s. (ok tt, s);
}

in_zone_1 : Route53.find_zone r53 domain tt ≡ ok (codes "z1")
unfolding Route53.find_zone
in_zone_1 = find_zone_id_run

content_unquoted : Route53.trim_quotes (codes "hello") ≡ codes "hello"
unfolding Route53.trim_quotes
content_unquoted = refl

name-Lacks_bar : dns_entree.Text.Lacks b'|' domain
name-Lacks_bar = (omega arith, (omega arith, (omega arith, (omega arith, (omega arith, tt)))))

deletion-to_set_example :
    (Route53.read_records r53 domain (codes "TXT") tt
      ≡ ok (Route53.Laws.stored txt_record ∷ Route53.all_records (codes "TXT") []))
    × (Route53.deletion r53 domain (Route53.Laws.stored txt_record).id tt
        ≡ ok (codes "z1", Route53.SetChange.delete_set (Route53.to_set txt_record)))
deletion-to_set_example =
    Route53.Laws.deletion-to_set r53 domain txt_record (codes "z1") [] tt in_zone_1 refl
      content_unquoted name-Lacks_bar

abbrev no_records : Godaddy.Http.Reply
no_records = record { status = 200; retry_after = []; body = ok [] }

-- The state counts the requests: the first one is lost.
abbrev gd : Godaddy.Http.Client ℕ
gd = record {
  base_url = codes "https://api";
  max_retries = 3;
  wait = λ n. (none, n);
  send = λ req n. (if ltb n 1 then err lost else ok no_records, suc n);
  sleep = λ ns n. n;
}

abbrev get_it : Godaddy.Http.HttpRequest
get_it = Godaddy.Http.HttpRequest.get_request (codes "u")

one_lost : Godaddy.Http.Retries.Tries gd get_it 0 1 0 1
one_lost =
    Godaddy.Http.Retries.again (Godaddy.Http.Retries.broken lost refl refl)
      Godaddy.Http.Retries.start

is_answer : Godaddy.Http.is_retryable no_records ≡ false
unfolding Godaddy.Http.is_retryable
is_answer = refl

do_request-answers_example : Godaddy.Http.do_request gd get_it 0 ≡ (ok no_records, 2)
do_request-answers_example =
    Godaddy.Http.Answers.do_request-answers gd get_it 1 2 one_lost refl refl refl is_answer

abbrev mx_record : Record
mx_record = record (plain (codes "MX") domain (codes "mail") (ℤ.pos 300)) { priority = ℤ.pos 10 }

is_mx : str_eq (codes "MX") (codes "MX") ≡ true
unfolding str_eq
is_mx = refl

not_priority_0 : ℤ.pos 10 ≢ ℤ.pos 0
not_priority_0 = ground arith

abbrev cf_n : Cloudflare.Client ℕ
cf_n = record {
  zone_id_by_name = λ name n. ok (codes "z1");
  list_records = λ zone typ name n. ok [];
  update_record = λ zone r n. (ok tt, n);
  create_record = λ zone r n. (ok tt, suc n);
  delete_record = λ zone id n. (ok tt, n);
}

abbrev r53_n : Route53.Client ℕ
r53_n = record {
  list_zones_by_name = λ name n. ok zones;
  list_record_sets = λ zone n. ok (Route53.to_set mx_record ∷ []);
  change_record_sets = λ zone change n. (ok tt, suc n);
}

pushes_mx-Written_example :
    (is_written
        (push_generic_record (Cloudflare.cloudflare cf_n) unseen domain mx_record 0).0.status
      ≡ true)
    × (is_written (push_generic_record (Route53.route53 r53_n) unseen domain mx_record 0).0.status
        ≡ true)
    × (is_written (push_generic_record (Godaddy.godaddy gd) unseen domain mx_record 0).0.status
        ≡ true)
pushes_mx-Written_example =
    pushes_mx-Written cf_n r53_n gd unseen domain mx_record 0 is_mx not_priority_0

-- The first host of the name and type is replaced, whatever it holds.
abbrev verification_host : Namecheap.Host
verification_host = record {
  host_id = codes "7";
  name = codes "@";
  typ = codes "TXT";
  address = codes "site-verification";
  mx_pref = [];
  ttl = codes "1800";
}

merge_record_run :
    Namecheap.merge_record
      (verification_host ∷ [])
      (plain (codes "TXT") domain (codes "v=spf1 -all") (ℤ.pos 0))
      domain
    ≡ record {
      host_id = [];
      name = codes "@";
      typ = codes "TXT";
      address = codes "v=spf1 -all";
      mx_pref = codes "10";
      ttl = codes "1800";
    }
      ∷ []
unfolding Namecheap.merge_record str_eq dns_entree.Text.to_lower dns_entree.Text.trim_suffix
    dns_entree.Text.to_upper
merge_record_run = refl
