-- ===== src/Providers/Unread.antt =====
-- Pushes of MX records through cloudflare, route53 and godaddy.
use dns_entree.Base.{ℤ, ◌≡◌, ◌≢◌, true}
use dns_entree.Text.{Bytes, codes, str_eq}
use dns_entree.Record.{Record}
use dns_entree.Push.Steps.{Verifier}
use dns_entree.Push.{push_generic_record}
use dns_entree.Providers.Cloudflare
use dns_entree.Providers.Route53
use dns_entree.Providers.Godaddy
use dns_entree.Providers.Priority.{is_written, push_mx-Written}
use dns_entree.Providers.Cloudflare.{cloudflare}
use dns_entree.Providers.Route53.{route53}
use dns_entree.Providers.Godaddy.{godaddy}

-- Whatever the services answer: the push of an MX record with a priority other than 0 through
-- cloudflare, route53 or godaddy is never reported as already configured, since their records are
-- read without a priority.
pub pushes_mx-Written :
    {S : Type 0} (c : Cloudflare.Client S) (r : Route53.Client S) (g : Godaddy.Http.Client S)
    (verify : Verifier S) (domain : Bytes) (wanted : Record) (s : S)
    → str_eq wanted.typ (codes "MX") ≡ true
    → wanted.priority ≢ ℤ.pos 0
    → (is_written (push_generic_record (cloudflare c) verify domain wanted s).0.status ≡ true)
      × (is_written (push_generic_record (route53 r) verify domain wanted s).0.status ≡ true)
      × (is_written (push_generic_record (godaddy g) verify domain wanted s).0.status ≡ true)
unfolding cloudflare Cloudflare.get_records route53 godaddy
pushes_mx-Written c r g verify domain wanted s mx d = (
  push_mx-Written (cloudflare c) verify domain wanted s
      (Cloudflare.Laws.list_in-NoPriority c wanted.typ (Cloudflare.resolve_zone_id c domain s) s) mx
      d,
  push_mx-Written (route53 r) verify domain wanted s
      (Route53.Laws.read_records-NoPriority r domain wanted.typ s) mx d,
  push_mx-Written (godaddy g) verify domain wanted s
      (Godaddy.Laws.get_records-NoPriority g domain wanted.typ s) mx d,
)
