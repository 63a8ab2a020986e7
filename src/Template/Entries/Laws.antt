-- ===== src/Template/Entries/Laws.antt =====
-- What the entries of a template record are.
use dns_entree.Base.{
  ℤ, ◌≡◌, refl, sym, ap, ◌∙◌, true, false, ◌&&◌, ◌||◌, not, List, ◌++◌, map, arith, Bool-cases, inl,
  inr, All,
}
use dns_entree.Text.{
  Bytes, codes, str_eq, str_eq_iff, contains_any, to_upper, to_upper_idem, trim_space,
}
use dns_entree.Record.{Record, plain}
use dns_entree.Template.Types.{TemplateRecord, Entry, invalid_data, invalid_template}
use dns_entree.Template.Names.{is_apex, is_empty, at, valid_host, valid_ip, valid_target_length}
use dns_entree.Template.Substitute.{process_substitute, resolve_int}
use dns_entree.Template.Entries.{Request, Fields, record_type, prepare}
use dns_entree.Template.Entries.Build.{
  UrlParser, entry, normal_entry, backing, build_redirect, build_apex_cname, build_srv, build_cname,
  build_address, build_mx, build_ns, build_custom, build_text, no_records, valid_redirect,
  valid_protocol,
}
use dns_entree.Template.Entries.Switch.{build, entries_of}
use dns_entree.Template.Entries.Yields.{Yields, good-Yields, refused-Yields, bind-Yields, if-Yields}
use dns_entree.Template.Entries.Kinds.{
  cname, IsKind, one-IsKind, normal-apex, backing-IsKind, not_cname, known-IsKind,
}

-- The checks of the record types, which a record passes or no entry comes out.
module _ (typ : Bytes) where
  abbrev Kind : Entry → Type 0
  Kind = IsKind typ

  text-Yields :
      (tr : TemplateRecord) (f : Fields) (wrap : Record → List Entry) (r : Record)
      → All Kind (wrap r)
      → Yields Kind (build_text tr f wrap r)
  unfolding build_text
  text-Yields tr f wrap r h = refused-Yields Kind _ _ _ (λ _. good-Yields Kind _ h)

  redirect-Yields :
      (parse_url : UrlParser) (q : Request) (tr : TemplateRecord) (f : Fields)
      → str_eq typ cname ≡ false
      → Yields Kind (build_redirect parse_url q tr typ f)
  unfolding build_redirect
  redirect-Yields parse_url q tr f n =
      refused-Yields Kind (no_records q.redirects) invalid_template _ (λ _.
        bind-Yields Kind (process_substitute f.points_raw q.vars) _ (λ target.
          refused-Yields Kind (is_empty target) invalid_data _ (λ _.
            refused-Yields Kind (not (valid_redirect (parse_url target))) invalid_data _ (λ _.
              good-Yields Kind
                (entry tr (plain typ f.host target (ℤ.pos 0))
                  ++ map (backing q.vars f.host) q.redirects)
                (inr (refl, λ y. ground arith), backing-IsKind typ f.host q.vars q.redirects)))))

  apex_other : str_eq (codes "APEXCNAME") cname ≡ false
  unfolding str_eq
  apex_other = refl

  apex_upper : to_upper (codes "APEXCNAME") ≡ codes "APEXCNAME"
  unfolding to_upper
  apex_upper = refl

  apex_cname-Yields :
      (tr : TemplateRecord) (f : Fields)
      → str_eq typ (codes "APEXCNAME") ≡ true
      → Yields Kind (build_apex_cname tr f)
  unfolding build_apex_cname
  apex_cname-Yields tr f y = refused-Yields Kind (not (is_apex f.host)) invalid_data _ (λ _.
      refused-Yields Kind (is_empty f.points_to) invalid_data _ (λ _. good-Yields Kind _ (
        known-IsKind typ (codes "APEXCNAME") y apex_other apex_upper tr
          (plain (codes "APEXCNAME") at f.points_to f.ttl) refl)))

  srv_other : str_eq (codes "SRV") cname ≡ false
  unfolding str_eq
  srv_other = refl

  srv_upper : to_upper (codes "SRV") ≡ codes "SRV"
  unfolding to_upper
  srv_upper = refl

  srv-Yields :
      (q : Request) (tr : TemplateRecord) (f : Fields)
      → str_eq typ (codes "SRV") ≡ true
      → Yields Kind (build_srv q tr f)
  unfolding build_srv
  srv-Yields q tr f y = refused-Yields Kind (not (valid_host f.host)) invalid_data _ (λ _.
      refused-Yields Kind (is_apex f.host && is_empty q.host) invalid_data _ (λ _.
        refused-Yields Kind (not (is_empty f.protocol) && not (valid_protocol f.protocol))
          invalid_data _
          (λ _. refused-Yields Kind (is_empty f.points_to) invalid_data _ (λ _.
            refused-Yields Kind (contains_any f.points_to (codes " \t")) invalid_data _ (λ _.
              refused-Yields Kind (contains_any tr.service (codes " \t")) invalid_data _ (λ _.
                bind-Yields Kind (resolve_int tr.priority q.vars) _ (λ prio.
                  bind-Yields Kind (resolve_int tr.weight q.vars) _ (λ w.
                    bind-Yields Kind (resolve_int tr.port q.vars) _ (λ p. good-Yields Kind _ (
                      known-IsKind typ (codes "SRV") y srv_other srv_upper tr
                        (record (plain (codes "SRV") f.host f.points_to f.ttl) {
                          priority = prio;
                          weight = w;
                          port = p;
                          service = tr.service;
                          protocol = f.protocol;
                        })
                        refl))))))))))

  cname-Yields :
      (tr : TemplateRecord) (f : Fields) → str_eq typ cname ≡ true → Yields Kind (build_cname tr f)
  unfolding build_cname to_upper normal_entry
  cname-Yields tr f y = refused-Yields Kind (not (valid_host f.host)) invalid_data _ (λ _.
      refused-Yields Kind (is_apex f.host) invalid_data _ (λ below.
        refused-Yields Kind (is_empty f.points_to) invalid_data _ (λ _.
          refused-Yields Kind (not (valid_target_length f.points_to)) invalid_data _ (λ _.
            good-Yields Kind (normal_entry tr (plain cname f.host f.points_to f.ttl)) (
              inr (
                sym ((str_eq_iff typ cname).0 y),
                λ _. normal-apex (plain cname f.host f.points_to f.ttl) below,
              ),
              tt,
            )))))

  address-Yields :
      (tr : TemplateRecord) (f : Fields)
      → to_upper typ ≡ typ
      → str_eq typ cname ≡ false
      → Yields Kind (build_address tr typ f)
  unfolding build_address
  address-Yields tr f u n = refused-Yields Kind (not (valid_host f.host)) invalid_data _ (λ _.
      refused-Yields Kind (is_empty f.points_to) invalid_data _ (λ _.
        refused-Yields Kind (not (valid_ip typ f.points_to)) invalid_data _
          (λ _. good-Yields Kind _ (one-IsKind typ tr (plain typ f.host f.points_to f.ttl) u n))))

  mx_other : str_eq (codes "MX") cname ≡ false
  unfolding str_eq
  mx_other = refl

  mx_upper : to_upper (codes "MX") ≡ codes "MX"
  unfolding to_upper
  mx_upper = refl

  mx-Yields :
      (q : Request) (tr : TemplateRecord) (f : Fields)
      → str_eq typ (codes "MX") ≡ true
      → Yields Kind (build_mx q tr f)
  unfolding build_mx
  mx-Yields q tr f y = refused-Yields Kind (not (valid_host f.host)) invalid_data _ (λ _.
      refused-Yields Kind (is_empty f.points_to) invalid_data _ (λ _.
        bind-Yields Kind (resolve_int tr.priority q.vars) _ (λ prio. good-Yields Kind _ (
          known-IsKind typ (codes "MX") y mx_other mx_upper tr
            (record (plain (codes "MX") f.host f.points_to f.ttl) { priority = prio }) refl))))

  ns_other : str_eq (codes "NS") cname ≡ false
  unfolding str_eq
  ns_other = refl

  ns_upper : to_upper (codes "NS") ≡ codes "NS"
  unfolding to_upper
  ns_upper = refl

  ns-Yields :
      (tr : TemplateRecord) (f : Fields)
      → str_eq typ (codes "NS") ≡ true
      → Yields Kind (build_ns tr f)
  unfolding build_ns
  ns-Yields tr f y = refused-Yields Kind (not (valid_host f.host)) invalid_data _ (λ _.
      refused-Yields Kind (is_empty f.points_to) invalid_data _ (λ _.
        refused-Yields Kind (str_eq f.points_sub at) invalid_data _ (λ _. good-Yields Kind _ (
          known-IsKind typ (codes "NS") y ns_other ns_upper tr
            (plain (codes "NS") f.host f.points_to f.ttl) refl))))

  custom-Yields :
      (tr : TemplateRecord) (f : Fields)
      → to_upper typ ≡ typ
      → str_eq typ cname ≡ false
      → Yields Kind (build_custom tr typ f)
  unfolding build_custom
  custom-Yields tr f u n = refused-Yields Kind (not (valid_host f.host)) invalid_data _ (λ _.
      refused-Yields Kind (str_eq f.text at) invalid_data _ (λ _.
        refused-Yields Kind (is_empty f.text) invalid_data _
          (λ _. good-Yields Kind _ (one-IsKind typ tr (plain typ f.host f.text f.ttl) u n))))

  spfm-IsKind :
      (tr : TemplateRecord) (f : Fields)
      → str_eq typ (codes "SPFM") ≡ true
      → All Kind (entry tr (plain (codes "SPFM") f.host f.spf_rules f.ttl))
  unfolding str_eq
  spfm-IsKind tr f y = (
    inr (
      sym ((str_eq_iff typ (codes "SPFM")).0 y),
      λ c. cc (c, not_cname typ (codes "SPFM") y refl),
    ),
    tt,
  )

  redirect_type :
      (str_eq typ (codes "REDIR301") || str_eq typ (codes "REDIR302")) ≡ true
      → str_eq typ cname ≡ false
  unfolding str_eq
  redirect_type y = elim (Bool-cases (str_eq typ (codes "REDIR301"))) [
    | inl a ↦ not_cname typ (codes "REDIR301") a refl
    | inr b ↦
        not_cname typ (codes "REDIR302") (ap (λ x. x || str_eq typ (codes "REDIR302")) (sym b) ∙ y)
          refl
  ]

  txt-IsKind :
      (tr : TemplateRecord) (f : Fields)
      → str_eq typ (codes "TXT") ≡ true
      → All Kind (normal_entry tr (plain (codes "TXT") f.host f.text f.ttl))
  unfolding str_eq to_upper
  txt-IsKind tr f y = known-IsKind typ (codes "TXT") y refl refl tr _ refl

  build-Yields :
      (parse_url : UrlParser) (q : Request) (tr : TemplateRecord) (f : Fields)
      → to_upper typ ≡ typ
      → Yields Kind (build parse_url q tr typ f)
  unfolding build
  build-Yields parse_url q tr f u =
      let split = if-Yields Kind in
      split (str_eq typ (codes "REDIR301") || str_eq typ (codes "REDIR302")) _ _
        (λ y. redirect-Yields parse_url q tr f (redirect_type y))
        (λ _. split (str_eq typ (codes "APEXCNAME")) _ _ (apex_cname-Yields tr f) (λ _.
          split (str_eq typ (codes "SPFM")) _ _
            (λ y. text-Yields tr f (entry tr) _ (spfm-IsKind tr f y))
            (λ _. split (str_eq typ (codes "SRV")) _ _ (srv-Yields q tr f) (λ _.
              split (str_eq typ (codes "TXT")) _ _
                (λ y. text-Yields tr f (normal_entry tr) _ (txt-IsKind tr f y))
                (λ _. split (str_eq typ cname) _ _ (cname-Yields tr f) (λ n.
                  split (str_eq typ (codes "A") || str_eq typ (codes "AAAA")) _ _
                    (λ _. address-Yields tr f u n)
                    (λ _. split (str_eq typ (codes "MX")) _ _ (mx-Yields q tr f) (λ _.
                      split (str_eq typ (codes "NS")) _ _ (ns-Yields tr f)
                        (λ _. custom-Yields tr f u n)))))))))

-- Every entry that a record of a template gives is a backing record of a redirect, or has the type of
-- the record in upper case; and a CNAME stands below the apex.
pub entries_of-IsKind :
    (parse_url : UrlParser) (q : Request) (tr : TemplateRecord)
    → Yields (IsKind (record_type tr)) (entries_of parse_url q tr)
unfolding entries_of record_type
entries_of-IsKind parse_url q tr =
    bind-Yields (IsKind (record_type tr)) (prepare q tr) _
      (λ f. build-Yields (record_type tr) parse_url q tr f (to_upper_idem (trim_space tr.typ)))
