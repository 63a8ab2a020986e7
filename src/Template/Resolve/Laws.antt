-- ===== src/Template/Resolve/Laws.antt =====
-- What a resolved record is safe of.
use dns_entree.Base.{
  ℕ, ℤ, ◌≤◌, true, false, not, ◌||◌, List, [], ◌∷◌, Option, ◌≡◌, ◌≢◌, refl, arith, ◌⊎◌, All,
  if◌then◌else◌, &&_parts, All-map, All-of_any, false_of_not,
}
use dns_entree.Text.{Bytes, codes, str_eq, str_eq_iff, to_upper, trim_space}
use dns_entree.Record.{Record, plain}
use dns_entree.Record.Errors.{ok, IfOk, if_ok, bind-IfOk, next-IfOk, require-IfOk, if-IfOk}
use dns_entree.Validate.{Ip, is_v4, is_v6}
use dns_entree.Template.Types.{TemplateRecord}
use dns_entree.Template.Names.{is_empty, at}
use dns_entree.Template.Substitute.{Vars}
use dns_entree.Template.Resolve.{
  is_supported_type, ResolvedRecord, substitute, resolve_number, is_forbidden_byte,
  has_forbidden_chars, validate_txt_data, validate_host, has_target, validate_points_to,
  fill_record, resolve_one, resolve_detailed,
}

-- No control character but the tab, and not DEL.
abbrev pub IsPlain : ℕ → Type 0
IsPlain c = ((c ≡ 9) ⊎ (32 ≤ c)) × (c ≢ 127)

byte-IsPlain : (c : ℕ) → is_forbidden_byte c ≡ false → IsPlain c
byte-IsPlain c h = ground arith

chars-IsPlain : (s : Bytes) → has_forbidden_chars s ≡ false → All IsPlain s
unfolding has_forbidden_chars
chars-IsPlain s h = All-map byte-IsPlain s (All-of_any is_forbidden_byte s h)

-- The content, by the type: a TXT record and a record with a target are checked.
pub data IsContent (parse_ip : Bytes → Option Ip) (rec : Record) : Type 0 where
  txt : rec.typ ≡ codes "TXT" → All IsPlain rec.content → IsContent parse_ip rec
  unchecked : rec.typ ≡ codes "SPFM" → IsContent parse_ip rec
  pointed :
      has_target rec.typ ≡ true
      → All IsPlain rec.content
      → rec.content ≢ []
      → (str_eq rec.typ (codes "A") ≡ false)
        ⊎ (rec.content ≡ at)
        ⊎ (is_v4 (parse_ip rec.content) ≡ true)
      → (str_eq rec.typ (codes "AAAA") ≡ false)
        ⊎ (rec.content ≡ at)
        ⊎ (is_v6 (parse_ip rec.content) ≡ true)
      → IsContent parse_ip rec

pub record IsSafe (parse_ip : Bytes → Option Ip) (rec : Record) : Type 0 where
  pub supported : is_supported_type rec.typ ≡ true
  pub name : All IsPlain rec.name
  pub content : IsContent parse_ip rec

host-IsPlain : (host : Bytes) → validate_host host ≡ true → All IsPlain host
unfolding validate_host
host-IsPlain host h =
    chars-IsPlain host
      (false_of_not (has_forbidden_chars host) (&&_parts (not (has_forbidden_chars host)) _ h).0)

nonempty : (s : Bytes) → not (is_empty s) ≡ true → s ≢ []
unfolding is_empty
nonempty [] h e = cc
nonempty (c ∷ s) h e = cc

only_a : (t : Bytes) → str_eq t (codes "A") ≡ true → str_eq t (codes "AAAA") ≡ false
unfolding str_eq
only_a t h = rw ((str_eq_iff t (codes "A")).0 h) refl

targeted :
    (t : Bytes)
    → is_supported_type t ≡ true
    → str_eq t (codes "TXT") ≡ false
    → str_eq t (codes "SPFM") ≡ false
    → has_target t ≡ true
unfolding is_supported_type has_target
targeted t h h₁ h₂ = ground arith

module _ (parse_ip : Bytes → Option Ip) where
  target_content :
      (rec : Record)
      → has_target rec.typ ≡ true
      → validate_points_to parse_ip rec.typ rec.content ≡ true
      → IsContent parse_ip rec
  unfolding validate_points_to
  target_content rec t h =
      let (clean, h₁) = &&_parts (not (has_forbidden_chars rec.content)) _ h in
      let (filled, h₂) = &&_parts (not (is_empty rec.content)) _ h₁ in
      let apex = (str_eq_iff rec.content at).0 in
      pointed t (chars-IsPlain rec.content (false_of_not (has_forbidden_chars rec.content) clean))
        (nonempty rec.content filled) (ground (arith, apex)) (ground (arith, apex, only_a rec.typ))

  module _ (typ host value target : Bytes) (sup : is_supported_type typ ≡ true)
      (checked_host : validate_host host ≡ true)
      (checked_text : not (str_eq typ (codes "TXT")) || validate_txt_data value ≡ true)
      (checked_target : not (has_target typ) || validate_points_to parse_ip typ target ≡ true) where
    txt_content : str_eq typ (codes "TXT") ≡ true → All IsPlain value
    unfolding validate_txt_data
    txt_content y = chars-IsPlain value (ground arith)

    with_target :
        (rec : Record)
        → rec.typ ≡ typ
        → rec.name ≡ host
        → rec.content ≡ target
        → str_eq typ (codes "TXT") ≡ false
        → str_eq typ (codes "SPFM") ≡ false
        → IsSafe parse_ip rec
    with_target rec h h₁ h₂ n n₁ =
        let t = targeted typ sup n n₁ in
        record {
          supported = rw h sup;
          name = rw h₁ (host-IsPlain host checked_host);
          content = target_content rec (rw h t) (rw h (rw h₂ (ground arith)));
        }

    fill_record-IsSafe :
        (r : TemplateRecord) (vars : Vars) (seconds : ℤ)
        → IfOk
            (IsSafe parse_ip)
            (fill_record parse_ip r value target vars (plain typ host [] seconds))
    unfolding fill_record
    fill_record-IsSafe r vars seconds =
        let name = host-IsPlain host checked_host in
        if-IfOk (IsSafe parse_ip) (str_eq typ (codes "TXT")) _ _
          (λ y. record {
            supported = sup;
            name = name;
            content = txt ((str_eq_iff typ (codes "TXT")).0 y) (txt_content y);
          })
          (λ n.
            if-IfOk (IsSafe parse_ip) (str_eq typ (codes "SPFM")) _ _
              (λ y. record {
                supported = sup;
                name = name;
                content = unchecked ((str_eq_iff typ (codes "SPFM")).0 y);
              })
              (λ n₁.
                if-IfOk (IsSafe parse_ip) (str_eq typ (codes "MX")) _ _
                  (λ y.
                    bind-IfOk (IsSafe parse_ip) (resolve_number r.priority vars) _
                      (λ prio. with_target _ refl refl refl n n₁))
                  (λ n₂.
                    if-IfOk (IsSafe parse_ip) (str_eq typ (codes "SRV")) _ _
                      (λ y. bind-IfOk (IsSafe parse_ip) (resolve_number r.priority vars) _ (λ prio.
                        bind-IfOk (IsSafe parse_ip) (resolve_number r.weight vars) _ (λ w.
                          bind-IfOk (IsSafe parse_ip) (resolve_number r.port vars) _
                            (λ p. with_target _ refl refl refl n n₁))))
                      (λ n₃. with_target _ refl refl refl n n₁))))

  resolve_one-IsSafe :
      (r : TemplateRecord) (typ : Bytes) (vars : Vars)
      → is_supported_type typ ≡ true
      → IfOk (IsSafe parse_ip) (resolve_one parse_ip r typ vars)
  unfolding resolve_one
  resolve_one-IsSafe r typ vars sup =
      let Q = IsSafe parse_ip in
      bind-IfOk Q (substitute r.host vars) _ (λ host.
        bind-IfOk Q (substitute (if is_empty r.points_to then r.target else r.points_to) vars) _
          (λ target. bind-IfOk Q (substitute r.text vars) _ (λ value.
            require-IfOk Q (validate_host host) _ _ (λ hh.
              require-IfOk Q (not (str_eq typ (codes "TXT")) || validate_txt_data value) _ _ (λ ht.
                require-IfOk Q (not (has_target typ) || validate_points_to parse_ip typ target) _ _
                  (λ hp. bind-IfOk Q (resolve_number r.ttl vars) _ (λ seconds.
                    fill_record-IsSafe typ host value target sup hh ht hp r vars seconds)))))))

  abbrev AllSafe : List ResolvedRecord → Type 0
  AllSafe = All (λ x. IsSafe parse_ip x.rec)

  resolved_safe :
      (rs : List TemplateRecord) (vars : Vars) → IfOk AllSafe (resolve_detailed parse_ip rs vars)
  unfolding resolve_detailed
  resolved_safe [] vars = tt
  resolved_safe (r ∷ rs) vars =
      let typ = to_upper (trim_space r.typ) in
      if-IfOk AllSafe (is_supported_type typ) _ _
        (λ sup.
          next-IfOk AllSafe (IsSafe parse_ip) (resolve_one parse_ip r typ vars) _
            (resolve_one-IsSafe r typ vars sup)
            (λ rec s. bind-IfOk AllSafe (substitute r.conflict_prefix vars) _ (λ prefix.
              next-IfOk AllSafe AllSafe (resolve_detailed parse_ip rs vars) _
                (resolved_safe rs vars) (λ xs ss. (s, ss)))))
        (λ n. resolved_safe rs vars)

  -- A record that was resolved has a supported type and no control character but the tab in its
  -- name; its content has none either, except for the type SPFM, whose content is not checked; a
  -- target is not empty, and that of an A or AAAA record is `@` or an address of its family.
  pub resolve_detailed-IsSafe :
      (rs : List TemplateRecord) (vars : Vars) (out : List ResolvedRecord)
      → resolve_detailed parse_ip rs vars ≡ ok out
      → All (λ x. IsSafe parse_ip x.rec) out
  resolve_detailed-IsSafe rs vars out h =
      if_ok AllSafe (resolve_detailed parse_ip rs vars) out (resolved_safe rs vars) h
