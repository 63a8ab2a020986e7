-- ===== src/Template/Entries/Switch.antt =====
-- The `switch typ` of `ProcessRecords` and the loop around it.
use dns_entree.Base.{◌||◌, List, [], ◌∷◌, ◌++◌, if◌then◌else◌}
use dns_entree.Text.{Bytes, codes, str_eq}
use dns_entree.Record.{plain}
use dns_entree.Template.Types.{TemplateRecord, Entry, Processed, good, ◌>>=◌}
use dns_entree.Template.Entries.{Request, Fields, record_type, prepare}
use dns_entree.Template.Entries.Build.{
  UrlParser, entry, normal_entry, build_redirect, build_apex_cname, build_srv, build_cname,
  build_address, build_mx, build_ns, build_custom, build_text,
}

module _ (parse_url : UrlParser) where
  unfoldable pub build : Request → TemplateRecord → Bytes → Fields → Processed (List Entry)
  unfolding build_redirect build_apex_cname build_srv build_cname build_address build_mx build_ns
      build_custom build_text normal_entry
  build q tr typ f =
      if str_eq typ (codes "REDIR301") || str_eq typ (codes "REDIR302")
      then build_redirect parse_url q tr typ f
      else if str_eq typ (codes "APEXCNAME")
      then build_apex_cname tr f
      else if str_eq typ (codes "SPFM")
      then build_text tr f (entry tr) (plain (codes "SPFM") f.host f.spf_rules f.ttl)
      else if str_eq typ (codes "SRV")
      then build_srv q tr f
      else if str_eq typ (codes "TXT")
      then build_text tr f (normal_entry tr) (plain (codes "TXT") f.host f.text f.ttl)
      else if str_eq typ (codes "CNAME")
      then build_cname tr f
      else if str_eq typ (codes "A") || str_eq typ (codes "AAAA")
      then build_address tr typ f
      else if str_eq typ (codes "MX")
      then build_mx q tr f
      else if str_eq typ (codes "NS")
      then build_ns tr f
      else build_custom tr typ f

  unfoldable pub entries_of : Request → TemplateRecord → Processed (List Entry)
  unfolding prepare build record_type
  entries_of q tr = do f ← prepare q tr; build q tr (record_type tr) f

  -- The first error ends the loop.
  unfoldable pub resolve_entries : Request → List TemplateRecord → Processed (List Entry)
  unfolding entries_of
  resolve_entries q [] = good []
  resolve_entries q (tr ∷ trs) = do
    es ← entries_of q tr
    rest ← resolve_entries q trs
    good (es ++ rest)
