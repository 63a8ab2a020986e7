-- ===== src/Template/Resolve.antt =====
-- resolve.go: the records of a template with the variables put in, and the checks of what comes out.
pub mod Laws
use dns_entree.Base.{
  ℕ, ℤ, Bool, true, false, ◌&&◌, ◌||◌, not, List, [], ◌∷◌, Option, none, some, leb, ltb, ◌==◌,
  if◌then◌else◌, length, any, map,
}
use dns_entree.Text.{
  Bytes, codes, str_eq, to_upper, trim_space, trim_prefix, trim_suffix, contains, contains_any,
  split,
}
use dns_entree.Record.{Record, plain}
use dns_entree.Record.Errors.{other, Result, ok, err, ◌>>=◌, ◌>>◌, require}
use dns_entree.Validate.{Ip, is_v4, is_v6}
use dns_entree.Template.Types.{FlexInt, TemplateRecord, bad, good}
use dns_entree.Template.Substitute.{Vars, expand, resolve_int}
use dns_entree.Template.Substitute.Tokens.{pieces}
use dns_entree.Template.Names.{
  is_empty, dot, at, all_bytes, first_is, last_is, is_label_byte, is_bare,
}

-- `supportedTypes`.
unfoldable pub is_supported_type : Bytes → Bool
is_supported_type t = any (str_eq t) (
    codes "TXT"
    ∷ codes "CNAME"
    ∷ codes "A"
    ∷ codes "AAAA"
    ∷ codes "MX"
    ∷ codes "NS"
    ∷ codes "SRV"
    ∷ codes "SPFM"
    ∷ [])

pub record ResolvedRecord : Type 0 where
  pub rec : Record
  pub mode : Bytes
  pub prefix : Bytes

-- A variable without a value is an error; its name is not kept.
unfoldable pub substitute : Bytes → Vars → Result Bytes
unfolding expand pieces
substitute input vars = elim (expand vars (pieces input)) [
  | good s ↦ ok s
  | bad e ↦ err (other (codes "missing variable"))
]

-- `flexInt.resolve`; its errors are not told apart.
unfoldable pub resolve_number : FlexInt → Vars → Result ℤ
unfolding resolve_int
resolve_number f vars = elim (resolve_int f vars) [
  | good n ↦ ok n
  | bad e ↦ err (other (codes "integer field"))
]

-- A control character other than the tab, or DEL.
abbrev pub is_forbidden_byte : ℕ → Bool
is_forbidden_byte c = c == 0 || (c == 13 || (c == 10 || ((ltb c 32 && not (c == 9)) || c == 127)))

unfoldable pub has_forbidden_chars : Bytes → Bool
has_forbidden_chars s = any is_forbidden_byte s

-- True where `validateTXTData` returns nil, and so for the other checks.
unfoldable pub validate_txt_data : Bytes → Bool
unfolding has_forbidden_chars
validate_txt_data s = not (has_forbidden_chars s)

unfoldable pub validate_dns_label : Bytes → Bool
unfolding is_empty first_is last_is all_bytes
validate_dns_label l =
    not (is_empty l)
    && (not (ltb 63 (length l))
        && (is_bare l || (not (first_is b'-' l || last_is b'-' l) && all_bytes is_label_byte l)))

unfoldable pub validate_dns_labels : List Bytes → Bool
unfolding validate_dns_label
validate_dns_labels [] = true
validate_dns_labels (l ∷ ls) = validate_dns_label l && validate_dns_labels ls

-- A leading and a trailing dot are not read.
unfoldable pub trim_dots : Bytes → Bytes
trim_dots s = trim_prefix (trim_suffix s dot) dot

unfoldable pub validate_host : Bytes → Bool
unfolding has_forbidden_chars trim_dots is_empty validate_dns_labels
validate_host host =
    let h = trim_dots host in
    not (has_forbidden_chars host)
    && ((is_empty h || str_eq h at)
        || (not (contains_any h (codes " \t;"))
            && (not (ltb 253 (length h)) && validate_dns_labels (split h b'.'))))

-- The end of `validatePointsTo`, for the types that name a host.
unfoldable pub validate_target_host : Bytes → Bool
unfolding trim_dots is_empty validate_dns_labels
validate_target_host val =
    let h = trim_dots val in
    not (contains val (codes ":"))
    && (not (is_empty h) && (not (ltb 253 (length h)) && validate_dns_labels (split h b'.')))

-- The types whose target is checked.
unfoldable pub has_target : Bytes → Bool
has_target t =
    any (str_eq t)
      (codes "CNAME" ∷ codes "A" ∷ codes "AAAA" ∷ codes "MX" ∷ codes "NS" ∷ codes "SRV" ∷ [])

module _ (parse_ip : Bytes → Option Ip) where
  unfoldable pub validate_points_to : Bytes → Bytes → Bool
  unfolding has_forbidden_chars is_empty validate_target_host
  validate_points_to typ val =
      not (has_forbidden_chars val)
      && (not (is_empty val)
          && (str_eq val at
              || (not (contains_any val (codes " \t;"))
                  && (not (contains val (codes "://"))
                      && (not (contains_any val (codes "/?#"))
                          && (if str_eq typ (codes "A")
                              then is_v4 (parse_ip val)
                              else if str_eq typ (codes "AAAA")
                              then is_v6 (parse_ip val)
                              else validate_target_host val))))))

  -- The switch on the type that ends `resolveOne`.
  unfoldable pub fill_record : TemplateRecord → Bytes → Bytes → Vars → Record → Result Record
  unfolding resolve_number is_empty
  fill_record r text target vars rec =
      if str_eq rec.typ (codes "TXT")
      then ok (record rec { content = text })
      else if str_eq rec.typ (codes "SPFM")
      then ok (record rec { content = if is_empty text then target else text })
      else if str_eq rec.typ (codes "MX")
      then (do
        prio ← resolve_number r.priority vars
        ok (record rec { content = target; priority = prio }))
      else if str_eq rec.typ (codes "SRV")
      then (do
        prio ← resolve_number r.priority vars
        w ← resolve_number r.weight vars
        p ← resolve_number r.port vars
        ok (record rec {
          content = target;
          priority = prio;
          weight = w;
          port = p;
          service = r.service;
          protocol = r.protocol;
        }))
      else ok (record rec { content = target })

  unfoldable pub resolve_one : TemplateRecord → Bytes → Vars → Result Record
  unfolding is_empty substitute validate_host validate_txt_data has_target validate_points_to
      resolve_number fill_record
  resolve_one r typ vars = do
    host ← substitute r.host vars
    target ← substitute (if is_empty r.points_to then r.target else r.points_to) vars
    text ← substitute r.text vars
    require (validate_host host) (codes "host")
    require (not (str_eq typ (codes "TXT")) || validate_txt_data text) (codes "data")
    require (not (has_target typ) || validate_points_to typ target) (codes "pointsTo")
    seconds ← resolve_number r.ttl vars
    fill_record r text target vars (plain typ host [] seconds)

  -- An unknown type is skipped; the first error ends the whole resolution.
  unfoldable pub resolve_detailed : List TemplateRecord → Vars → Result (List ResolvedRecord)
  unfolding is_supported_type resolve_one substitute
  resolve_detailed [] vars = ok []
  resolve_detailed (r ∷ rs) vars =
      let rest = resolve_detailed rs vars in
      let typ = to_upper (trim_space r.typ) in
      if is_supported_type typ
      then (do
        rec ← resolve_one r typ vars
        prefix ← substitute r.conflict_prefix vars
        out ← rest
        ok (record { rec = rec; mode = r.conflict_mode; prefix = prefix } ∷ out))
      else rest

  unfoldable pub resolve : List TemplateRecord → Vars → Result (List Record)
  unfolding resolve_detailed
  resolve rs vars = do out ← resolve_detailed rs vars; ok (map (λ x. x.rec) out)
