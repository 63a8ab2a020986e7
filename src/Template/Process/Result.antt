-- ===== src/Template/Process/Result.antt =====
-- What a request that succeeds gives, and what it has passed before.
use dns_entree.Base.{
  ◌≡◌, refl, sym, ap, ◌∙◌, subst, Bool, true, false, ◌&&◌, not, List, ◌++◌, map, Option, none, some,
  if◌then◌else◌, arith, select, ltb, length, All,
}
use dns_entree.Text.{Bytes}
use dns_entree.Template.Types.{Entry, ProcessError, Processed, good, bad, ◌>>=◌, ◌>>◌, refuse_if}
use dns_entree.Template.Keys.{normalize_record}
use dns_entree.Template.Names.{is_empty, dot}
use dns_entree.Template.Step.{Plan}
use dns_entree.Template.Step.Balance.{IsBalanced}
use dns_entree.Template.Conflicts.{check_internal_conflicts, cascades}
use dns_entree.Template.Conflicts.Laws.{AllClear, check_internal_conflicts-AllClear}
use dns_entree.Template.Signature.{Crypto, verify_signature, parse_pub_key_txt, or_bad_signature}
use dns_entree.Template.Entries.Build.{UrlParser}
use dns_entree.Template.Entries.Switch.{resolve_entries}
use dns_entree.Template.Process.{
  ProcessOpts, ProcessResult, plan_of, run_id, process_checked, process_records, check_signature,
  request_of, chosen, is_apex_cname,
}
use dns_entree.Template.Step.Placed.{IsPlaced}
use dns_entree.Template.Process.Placed.{plan_of-IsPlaced}
use dns_entree.Template.Process.Account.{IsReport, finish-IsReport, plan_of-IsBalanced}

-- The steps of a request that succeeded.
pub record IsBooked (parse_url : UrlParser) (o : ProcessOpts) (r : ProcessResult) : Type 0 where
  pub entries : List Entry
  pub plan : Plan
  pub resolved : resolve_entries parse_url (request_of o) (chosen o) ≡ good entries
  pub clear : AllClear entries × All (λ e. cascades entries e ≡ false) entries
  pub one_apex : ltb 1 (length (select is_apex_cname entries)) ≡ false
  pub placed : All (λ e. IsPlaced (map normalize_record o.zone_records) e plan.to_add) entries
  pub balanced : IsBalanced (map normalize_record o.zone_records) plan
  pub reported : IsReport plan r

bind_good {ℓ κ} :
    {A : Type ℓ} {B : Type κ} (m : Processed A) (f : A → Processed B) (b : B)
    → (m >>= f) ≡ good b
    → (a : A) × (m ≡ good a) × (f a ≡ good b)
bind_good (good a) f b h = (a, refl, h)
bind_good (bad e) f b h = cc

refused {κ} :
    {B : Type κ} (t : Bool) (e : ProcessError) (k : Processed B) (b : B)
    → (refuse_if t e >> k) ≡ good b
    → (t ≡ false) × (k ≡ good b)
refused true e k b h = cc
refused false e k b h = (refl, h)

-- A request succeeds only where the chosen records of its template resolve to entries that the
-- conflict check passes, with at most one APEXCNAME. Then the record of every entry is added on the
-- way, with two exceptions. One that is no backing record and whose type is not among CNAME, A, AAAA,
-- MX, NS, SRV, the redirects and APEXCNAME may be left out, but then its type, its name (as names are
-- compared in the template) and its content stand in the zone that was given or among what is added.
-- Of an SPFM entry nothing is stated. The account of the way is balanced, and the result lists each
-- key once that was added, and each once that was deleted.
pub process_checked-IsBooked :
    (parse_url : UrlParser) (random_id : Bytes) (o : ProcessOpts) (r : ProcessResult)
    → process_checked parse_url random_id o ≡ good r
    → IsBooked parse_url o r
unfolding process_checked
process_checked-IsBooked parse_url random_id o r h =
    let (es, resolved, h₁) =
      bind_good (resolve_entries parse_url (request_of o) (chosen o)) _ r h in
    let (done, checked, h₂) = bind_good (check_internal_conflicts es) _ r h₁ in
    let (apex, h₃) = refused (ltb 1 (length (select is_apex_cname es))) _ _ r h₂ in
    let uid : Bytes = run_id o random_id in
    record {
      entries = es;
      plan = plan_of o uid es;
      resolved = resolved;
      clear = check_internal_conflicts-AllClear es checked;
      one_apex = apex;
      placed = plan_of-IsPlaced o uid es;
      balanced = plan_of-IsBalanced o uid es;
      reported =
          subst (IsReport (plan_of o uid es)) (good_inj _ r h₃)
            (finish-IsReport o uid es (plan_of o uid es));
    }
  where
    good_inj : (a b : ProcessResult) → good a ≡ good b → a ≡ b
    good_inj a b e = cc

-- The signature was made with the key that stands at the name of the key host.
pub record IsSigned {K : Type 0} (c : Crypto K) (lookup : Bytes → Option (List Bytes))
    (o : ProcessOpts) : Type 0 where
  pub texts : List Bytes
  pub der : Bytes
  pub key : K
  pub raw : Bytes
  pub found : lookup (o.signing_key ++ (dot ++ o.sync_pub_key_domain)) ≡ some texts
  pub decoded : c.decode_base64 (parse_pub_key_txt texts) ≡ some der
  pub parsed : c.parse_key der ≡ some key
  pub signature : c.decode_base64 o.signature ≡ some raw
  pub verified : c.verify key (c.sum256 o.query_string) raw ≡ true

some_of_good : {A : Type 0} (m : Option A) (a : A) → or_bad_signature m ≡ good a → m ≡ some a
some_of_good none a h = cc
some_of_good (some x) a h = cc

-- A request with a signature that it does not ignore succeeds only where the query is signed by the
-- key at the name of the key host.
pub process_records-IsSigned :
    {K : Type 0} (c : Crypto K) (lookup : Bytes → Option (List Bytes)) (parse_url : UrlParser)
    (random_id : Bytes) (o : ProcessOpts) (r : ProcessResult)
    → (not (is_empty o.signature) && not o.ignore_signature) ≡ true
    → process_records c lookup parse_url random_id o ≡ good r
    → IsSigned c lookup o
unfolding process_records check_signature verify_signature
process_records-IsSigned c lookup parse_url random_id o r s h =
    let (done, checked, _) = bind_good (check_signature c lookup o) _ r h in
    let h₀ =
      sym (
        ap
          (λ b.
            if b
            then verify_signature c o.query_string o.signature o.signing_key o.sync_pub_key_domain
                lookup
            else good tt)
          s)
      ∙ checked in
    let (_, h₁) = refused (is_empty o.signature) _ _ tt h₀ in
    let (_, h₂) = refused (is_empty o.signing_key) _ _ tt h₁ in
    let (_, h₃) = refused (is_empty o.sync_pub_key_domain) _ _ tt h₂ in
    let (texts, found, h₄) =
      bind_good (or_bad_signature (lookup (o.signing_key ++ (dot ++ o.sync_pub_key_domain)))) _ tt
        h₃ in
    let (_, h₅) = refused (is_empty (parse_pub_key_txt texts)) _ _ tt h₄ in
    let (der, decoded, h₆) =
      bind_good (or_bad_signature (c.decode_base64 (parse_pub_key_txt texts))) _ tt h₅ in
    let (key, parsed, h₇) = bind_good (or_bad_signature (c.parse_key der)) _ tt h₆ in
    let (raw, signature, h₈) = bind_good (or_bad_signature (c.decode_base64 o.signature)) _ tt h₇ in
    record {
      texts = texts;
      der = der;
      key = key;
      raw = raw;
      found = some_of_good _ texts found;
      decoded = some_of_good _ der decoded;
      parsed = some_of_good _ key parsed;
      signature = some_of_good _ raw signature;
      verified = ground arith;
    }
