-- ===== src/Push/Tests.antt =====
-- Runs of push.go and apply.go over the fake provider, and the theorems at concrete pushes.
use dns_entree.Base.{ℤ, true, [], ◌∷◌, none, ◌≡◌, refl, arith}
use dns_entree.Text.{
  Bytes, codes, str_eq, str_eq_iff, str_eq_refl, has_prefix, to_lower, Lacks, space, is_some,
}
use dns_entree.Record.{Record, plain}
use dns_entree.Record.Errors.{ok}
use dns_entree.Spf.Merge.{Merged, merge_value, version}
use dns_entree.Push.Steps.{created, fresh_result, Verifier}
use dns_entree.Push.{
  default_ttl, is_generic, is_typed, same_content, same_record, same_host, with_ttl, is_apex_spf,
  current_spf, settle, settle_generic, push_generic_record, settle_txt, push_txt_record, settle_spf,
  merge_spf_records, push_spf_record, settle_cname, push_cname_record,
}
use dns_entree.Push.Outcomes.{IsHonest, pushes-IsHonest}
use dns_entree.Push.Repeat
use dns_entree.Push.Repeat.{in_place, txt_push, push_single}
use dns_entree.Push.RepeatSpf
use dns_entree.Push.RepeatSpf.{Again}
use dns_entree.Push.Apply
use dns_entree.Push.Apply.{Explains, default_apply_records}
use dns_entree.Push.Fake.{Store, fake, fake_lawful}

abbrev seen : Verifier Store
seen domain opts m = ok true

abbrev zone : Bytes
zone = codes "a.example"

abbrev www : Bytes
www = codes "www.a.example"

abbrev start : Store
start = (codes "TXT", plain (codes "TXT") zone (codes "v=spf1 mx -all") default_ttl ∷ []) ∷ []

abbrev mail : Record
mail = record (plain (codes "MX") zone (codes "mail.a.example") (ℤ.pos 0)) { priority = ℤ.pos 10 }

push_twice_status :
    ((push_txt_record fake seen zone www (codes "hello") start).0.status ≡ created)
    × ((push_spf_record fake seen zone (codes "b.example" ∷ []) start).0.record_value
        ≡ codes "v=spf1 mx include:b.example -all")
unfolding push_txt_record dns_entree.Push.Fake.lookup str_eq push_spf_record merge_value
    dns_entree.Text.trim_space has_prefix to_lower dns_entree.Spf.Merge.additions
    dns_entree.Text.contains dns_entree.Spf.Merge.insertion_place dns_entree.Text.join
push_twice_status = (refl, refl)

pushes-IsHonest_example :
    IsHonest (push_generic_record fake seen zone mail start)
    × IsHonest (push_txt_record fake seen zone www (codes "x") start)
    × IsHonest (push_cname_record fake seen zone www (codes "x") start)
    × IsHonest (push_spf_record fake seen zone (codes "b.example" ∷ []) start)
pushes-IsHonest_example =
    pushes-IsHonest fake seen zone mail www (codes "x") (codes "b.example" ∷ []) start

txt_clean : (push_txt_record fake seen zone www (codes "hello") start).1 ≡ none
unfolding push_txt_record dns_entree.Push.Fake.lookup str_eq
txt_clean = refl

push_single_twice_example :
    push_single fake fake_lawful seen zone
      (txt_push www (codes "hello"))
      (push_single fake fake_lawful seen zone (txt_push www (codes "hello")) start).2
    ≡ in_place fake fake_lawful seen zone
        (fresh_result www (codes "hello"))
        (push_single fake fake_lawful seen zone (txt_push www (codes "hello")) start).2
push_single_twice_example =
    Repeat.push_single_twice fake fake_lawful seen zone (txt_push www (codes "hello")) start
      txt_clean

cname_clean : (push_cname_record fake seen zone www (codes "B.example.") start).1 ≡ none
unfolding push_cname_record dns_entree.Push.Fake.lookup str_eq
cname_clean = refl

cname_again :
    push_cname_record fake seen zone www
      (codes "B.example.")
      (push_cname_record fake seen zone www (codes "B.example.") start).2
    ≡ in_place fake fake_lawful seen zone
        (fresh_result www (codes "B.example."))
        (push_cname_record fake seen zone www (codes "B.example.") start).2
cname_again =
    Repeat.push_cname_twice fake fake_lawful seen zone www (codes "B.example.") start cname_clean

generic_clean :
    (is_generic mail.typ ≡ true) × ((push_generic_record fake seen zone mail start).1 ≡ none)
unfolding is_generic str_eq push_generic_record dns_entree.Push.Fake.lookup
generic_clean = (refl, refl)

generic_again :
    push_generic_record fake seen zone mail (push_generic_record fake seen zone mail start).2
    ≡ in_place fake fake_lawful seen zone
        (fresh_result zone (codes "mail.a.example"))
        (push_generic_record fake seen zone mail start).2
generic_again =
    Repeat.push_generic_twice fake fake_lawful seen zone mail start generic_clean.0 generic_clean.1

spf_clean : (push_spf_record fake seen zone (codes "b.example" ∷ []) start).1 ≡ none
unfolding push_spf_record merge_value str_eq dns_entree.Text.trim_space dns_entree.Push.Fake.lookup
    has_prefix to_lower dns_entree.Spf.Merge.additions dns_entree.Text.contains
spf_clean = refl

push_spf_twice_example :
    Again fake fake_lawful seen zone
      (codes "b.example" ∷ [])
      (push_spf_record fake seen zone (codes "b.example" ∷ []) start)
push_spf_twice_example =
    RepeatSpf.push_spf_twice fake fake_lawful seen zone (codes "b.example" ∷ []) start (omega arith)
      spf_clean

default_apply_records-Explains_example :
    Explains fake zone start
      (mail ∷ mail ∷ [])
      (default_apply_records fake zone (mail ∷ mail ∷ []) start)
default_apply_records-Explains_example =
    Apply.default_apply_records-Explains fake zone (mail ∷ mail ∷ []) start
