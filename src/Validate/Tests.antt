-- ===== src/Validate/Tests.antt =====
-- Validation of concrete names and values.
use dns_entree.Base.{◌≡◌, ◌↔◌, refl, true, false, some}
use dns_entree.Text.{codes, trim_suffix, split, str_eq, to_upper, trim_space}
use dns_entree.Validate.{v4, validate_dns_name, validate_record_value}
use dns_entree.Validate.Laws.{IsDnsName, validate_dns_name_iff}

validate_runs :
    (validate_dns_name (codes "*._dmarc.a.example.") ≡ true)
    × (validate_dns_name (codes "a..example") ≡ false)
    × (validate_dns_name (codes "a.*.example") ≡ false)
    × (validate_record_value (λ s. some v4) (codes "mx") (codes "10 mail.example") ≡ true)
    × (validate_record_value (λ s. some v4) (codes "AAAA") (codes "1.2.3.4") ≡ false)
unfolding validate_dns_name trim_suffix split str_eq validate_record_value to_upper trim_space
validate_runs = (refl, refl, refl, refl, refl)

validate_dns_name_iff_example :
    (validate_dns_name (codes "a.example.") ≡ true) ↔ IsDnsName (codes "a.example.")
validate_dns_name_iff_example = validate_dns_name_iff (codes "a.example.")
