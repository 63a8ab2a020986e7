-- ===== src/Template/Step/Exclusive.antt =====
-- Which records cannot stand beside a record that the loop has added.
use dns_entree.Base.{
  ◌≡◌, refl, sym, ap, ◌∙◌, subst, Bool, false, List, [], ◌∷◌, ◌++◌, if◌then◌else◌, select, any, inl,
  inr, ◌⊎◌, All-of_any, any-of_All, any-or, ◌||◌, All,
}
use dns_entree.Text.{Bytes, codes, str_eq}
use dns_entree.Record.{Record}
use dns_entree.Template.Types.{Entry}
use dns_entree.Template.Substitute.{Vars}
use dns_entree.Template.Names.{name_eq, normal_name}
use dns_entree.Template.Keys.{remove_records}
use dns_entree.Template.Keys.Fields.{
  IsPlain, Respects, record_key-type_name, remove_records-All, any-remove_selected,
}
use dns_entree.Template.Step.{
  Plan, delete, add, delete_where, replace, apply_typed, apply_entry, not_ns_here, address_here,
  type_here,
}

module _ (name : Bytes) where
  not_ns_here-Respects : Respects (not_ns_here name)
  unfolding not_ns_here name_eq normal_name
  not_ns_here-Respects r r' p p' e = let (t, n) = record_key-type_name r r' p p' e in rw (t, n)

  address_here-Respects : Respects (address_here name)
  unfolding address_here name_eq normal_name
  address_here-Respects r r' p p' e = let (t, n) = record_key-type_name r r' p p' e in rw (t, n)

  type_here-Respects : (t : Bytes) → Respects (type_here name t)
  unfolding type_here name_eq normal_name
  type_here-Respects t' r r' p p' e = let (t, n) = record_key-type_name r r' p p' e in rw (t, n)

-- The zone after a replacement is what the rule left, and the new record.
replace-zone :
    (p : Record → Bool) (r : Record) (s : Plan)
    → (replace p r s).zone ≡ remove_records s.zone (select p s.zone) ++ r ∷ []
unfolding replace delete_where delete add
replace-zone p r s = refl

-- `kept` is what stands beside the record that an entry added.
pub record Alone (p : Record → Bool) (r : Record) (s s' : Plan) : Type 0 where
  pub kept : List Record
  pub zone : s'.zone ≡ kept ++ r ∷ []
  pub clear : any p kept ≡ false

replace-Alone :
    (p : Record → Bool)
    → Respects p
    → (r : Record) (s : Plan) → All IsPlain s.zone
    → Alone p r s (replace p r s)
replace-Alone p resp r s h = record {
  kept = remove_records s.zone (select p s.zone);
  zone = replace-zone p r s;
  clear = any-remove_selected p resp s.zone h;
}

entry_rule :
    (t : Bytes) (vars : Vars) (original : List Bytes) (e : Entry) (s : Plan)
    → e.is_backing ≡ false
    → e.rec.typ ≡ t
    → apply_entry vars original e s ≡ apply_typed t vars original e s
unfolding apply_entry
entry_rule t vars original e s b h =
    ap (λ x. if x then add (e.rec ∷ []) s else apply_typed e.rec.typ vars original e s) b
    ∙ ap (λ x. apply_typed x vars original e s) h

cname_rule :
    (vars : Vars) (original : List Bytes) (e : Entry) (s : Plan)
    → apply_typed (codes "CNAME") vars original e s ≡ replace (not_ns_here e.rec.name) e.rec s
unfolding apply_typed str_eq
cname_rule vars original e s = refl

mx_rule :
    (vars : Vars) (original : List Bytes) (e : Entry) (s : Plan)
    → apply_typed (codes "MX") vars original e s
      ≡ replace (type_here e.rec.name (codes "MX")) e.rec s
unfolding apply_typed str_eq
mx_rule vars original e s = refl

address_rule :
    (t : Bytes)
    → (t ≡ codes "A") ⊎ (t ≡ codes "AAAA")
    → (vars : Vars) (original : List Bytes) (e : Entry) (s : Plan)
    → apply_typed t vars original e s
      ≡ replace (type_here e.rec.name (codes "NS")) e.rec (delete_where (address_here e.rec.name) s)
unfolding apply_typed str_eq
address_rule t (inl h) vars original e s = rw h
address_rule t (inr h) vars original e s = rw h

-- In a zone of plain records (types in upper case, no bar in a type or name): after a CNAME entry that
-- is no backing record, the only records at its name are NS records and the CNAME itself.
pub cname-Alone :
    (vars : Vars) (original : List Bytes) (e : Entry) (s : Plan)
    → All IsPlain s.zone
    → e.is_backing ≡ false
    → e.rec.typ ≡ codes "CNAME"
    → Alone (not_ns_here e.rec.name) e.rec s (apply_entry vars original e s)
cname-Alone vars original e s h b t =
    subst (Alone (not_ns_here e.rec.name) e.rec s)
      (sym (entry_rule (codes "CNAME") vars original e s b t ∙ cname_rule vars original e s))
      (replace-Alone (not_ns_here e.rec.name) (not_ns_here-Respects e.rec.name) e.rec s h)

-- In a zone of plain records: after an MX entry that is no backing record, no other MX record stands at
-- its name.
pub mx-Alone :
    (vars : Vars) (original : List Bytes) (e : Entry) (s : Plan)
    → All IsPlain s.zone
    → e.is_backing ≡ false
    → e.rec.typ ≡ codes "MX"
    → Alone (type_here e.rec.name (codes "MX")) e.rec s (apply_entry vars original e s)
mx-Alone vars original e s h b t =
    subst (Alone (type_here e.rec.name (codes "MX")) e.rec s)
      (sym (entry_rule (codes "MX") vars original e s b t ∙ mx_rule vars original e s))
      (replace-Alone (type_here e.rec.name (codes "MX"))
        (type_here-Respects e.rec.name (codes "MX")) e.rec s h)

any-remove :
    (p : Record → Bool) (zone dels : List Record)
    → any p zone ≡ false
    → any p (remove_records zone dels) ≡ false
any-remove p zone dels h =
    any-of_All p (remove_records zone dels)
      (remove_records-All (λ r. p r ≡ false) zone dels (All-of_any p zone h))

-- In a zone of plain records: after an A or AAAA entry that is no backing record, no other address
-- record, no CNAME and no NS record stands at its name.
pub address-Alone :
    (t : Bytes)
    → (t ≡ codes "A") ⊎ (t ≡ codes "AAAA")
    → (vars : Vars) (original : List Bytes) (e : Entry) (s : Plan) → All IsPlain s.zone
    → e.is_backing ≡ false
    → e.rec.typ ≡ t
    → Alone
        (λ r. address_here e.rec.name r || type_here e.rec.name (codes "NS") r)
        e.rec
        s
        (apply_entry vars original e s)
address-Alone t a vars original e s h b q = record {
  kept = remove_records left (select ns left);
  zone =
      ap (λ (p : Plan). p.zone)
        (entry_rule t vars original e s b q ∙ address_rule t a vars original e s)
      ∙ unfold replace delete_where delete add in refl;
  clear =
      any-or (address_here e.rec.name) ns (remove_records left (select ns left))
        (any-remove (address_here e.rec.name) left (select ns left) (
          any-remove_selected (address_here e.rec.name) (address_here-Respects e.rec.name) s.zone
            h))
        (any-remove_selected ns (type_here-Respects e.rec.name (codes "NS")) left
          (remove_records-All IsPlain s.zone (select (address_here e.rec.name) s.zone) h));
}
  where
    ns : Record → Bool
    ns = type_here e.rec.name (codes "NS")

    left : List Record
    left = remove_records s.zone (select (address_here e.rec.name) s.zone)

-- The records that an entry of an exclusive type does not suffer at its name.
pub data HasRivals (e : Entry) : (Record → Bool) → Type 0 where
  alias : e.rec.typ ≡ codes "CNAME" → HasRivals e (not_ns_here e.rec.name)
  exchange : e.rec.typ ≡ codes "MX" → HasRivals e (type_here e.rec.name (codes "MX"))
  ip_address :
      (e.rec.typ ≡ codes "A") ⊎ (e.rec.typ ≡ codes "AAAA")
      → HasRivals e (λ r. address_here e.rec.name r || type_here e.rec.name (codes "NS") r)

-- In a zone of plain records (types in upper case, no bar in a type or name), after an entry that is no
-- backing record: a CNAME stands alone at its name but for NS records, an MX record has no other MX
-- record at its name, and an A or AAAA record no other address record, no CNAME and no NS record.
pub entry-Alone :
    (e : Entry) (rivals : Record → Bool)
    → HasRivals e rivals
    → (vars : Vars) (original : List Bytes) (s : Plan) → All IsPlain s.zone
    → e.is_backing ≡ false
    → Alone rivals e.rec s (apply_entry vars original e s)
entry-Alone e rivals (alias t) vars original s h b = cname-Alone vars original e s h b t
entry-Alone e rivals (exchange t) vars original s h b = mx-Alone vars original e s h b t
entry-Alone e rivals (ip_address t) vars original s h b =
    address-Alone e.rec.typ t vars original e s h b refl
