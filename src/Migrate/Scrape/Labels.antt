-- ===== src/Migrate/Scrape/Labels.antt =====
-- labels.go: the well-known names that the walk starts with.
use dns_entree.Base.{List, [], ◌∷◌, ◌++◌}
use dns_entree.Text.{Bytes, codes}

unfoldable pub default_labels : List Bytes
default_labels =
    codes "@"
    ∷ codes "*"
    ∷ codes "www"
    ∷ codes "mail"
    ∷ codes "webmail"
    ∷ codes "autodiscover"
    ∷ codes "autoconfig"
    ∷ codes "ftp"
    ∷ codes "sftp"
    ∷ codes "vpn"
    ∷ codes "ns1"
    ∷ codes "ns2"
    ∷ codes "ns3"
    ∷ codes "ns4"
    ∷ codes "api"
    ∷ codes "app"
    ∷ codes "admin"
    ∷ codes "dev"
    ∷ codes "staging"
    ∷ codes "beta"
    ∷ codes "blog"
    ∷ codes "shop"
    ∷ codes "cdn"
    ∷ codes "static"
    ∷ codes "assets"
    ∷ codes "files"
    ∷ codes "docs"
    ∷ codes "status"
    ∷ codes "support"
    ∷ codes "help"
    ∷ codes "_dmarc"
    ∷ codes "_domainkey"
    ∷ codes "_mta-sts"
    ∷ codes "_smtp._tls"
    ∷ codes "_acme-challenge"
    ∷ codes "selector1._domainkey"
    ∷ codes "selector2._domainkey"
    ∷ codes "google._domainkey"
    ∷ codes "k1._domainkey"
    ∷ codes "k2._domainkey"
    ∷ codes "s1._domainkey"
    ∷ codes "s2._domainkey"
    ∷ codes "default._domainkey"
    ∷ codes "smtp._domainkey"
    ∷ codes "mandrill._domainkey"
    ∷ codes "_github-challenge"
    ∷ codes "_globalsign-domain-verification"
    ∷ codes "_atproto"
    ∷ codes "_spf"
    ∷ codes "_psl"
    ∷ codes "_domainconnect"
    ∷ []

unfoldable pub labels : List Bytes → List Bytes → List Bytes
unfolding default_labels
labels only extra = elim only [ [] ↦ default_labels ++ extra | l ∷ ls ↦ l ∷ ls ]
