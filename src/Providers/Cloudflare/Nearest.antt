-- ===== src/Providers/Cloudflare/Nearest.antt =====
-- providers/cloudflare/cloudflare.go, `resolveZoneID`: the nearest name that the service knows.
use dns_entree.Base.{
  ℕ, ◌≡◌, ◌≢◌, refl, sym, ap, ◌∙◌, subst, true, false, not, ◌&&◌, [], ◌∷◌, ◌++◌, length, ltb,
  if◌then◌else◌, ◌==◌, arith, Bool-cases, inl, inr, cons-ne-nil,
}
use dns_entree.Text.{Bytes}
use dns_entree.Record.Errors.{Error, Result, ok, err}
use dns_entree.Template.Names.{is_empty}
use dns_entree.Providers.Cloudflare.{Client, first_ok, try_parents, resolve_zone_id}

cons_tail : {c d : ℕ} {s t : Bytes} → ◌≡◌ {A = Bytes} (c ∷ s) (d ∷ t) → s ≡ t
cons_tail h = cc

cons_parts : {c d : ℕ} {s t : Bytes} → ◌≡◌ {A = Bytes} (c ∷ s) (d ∷ t) → (c ≡ d) × (s ≡ t)
cons_parts h = (cc, cc)

abbrev pub Fails : Result Bytes → Type 0
Fails (ok id) = ⊥
Fails (err e) = Unit

module _ {S : Type 0} (client : Client S) (s : S) where
  abbrev pub lookup : Bytes → Result Bytes
  lookup name = client.zone_id_by_name name s

  -- `name` stands behind a dot of `domain`, after `before`.
  pub record IsParent (domain before name : Bytes) : Type 0 where
    pub parts : domain ≡ before ++ (b'.' ∷ name)
    pub named : name ≢ []

  pub data IsFirst (domain : Bytes) : Result Bytes → Type 0 where
    unknown :
        {e : Error}
        → ((before name : Bytes) → IsParent domain before name → Fails (lookup name))
        → IsFirst domain (err e)
    known :
        {id : Bytes} (before name : Bytes)
        → IsParent domain before name
        → lookup name ≡ ok id
        → ((before' name' : Bytes)
            → IsParent domain before' name'
            → ltb (length before') (length before) ≡ true
            → Fails (lookup name'))
        → IsFirst domain (ok id)

  tail-IsParent :
      (c d : ℕ) (domain before name : Bytes)
      → IsParent (c ∷ domain) (d ∷ before) name
      → IsParent domain before name
  tail-IsParent c d domain before name p = record { parts = cons_tail p.parts; named = p.named }

  cons-IsParent :
      (c : ℕ) (domain before name : Bytes)
      → IsParent domain before name
      → IsParent (c ∷ domain) (c ∷ before) name
  cons-IsParent c domain before name p = record { parts = ap (λ x. c ∷ x) p.parts; named = p.named }

  head-IsParent :
      (c : ℕ) (domain name : Bytes) → IsParent (c ∷ domain) [] name → (c ≡ b'.') × (domain ≡ name)
  head-IsParent c domain name p = cons_parts p.parts

  first-Fails :
      (c : ℕ) (domain name : Bytes)
      → (c ≡ b'.' → domain ≢ [] → Fails (lookup domain))
      → IsParent (c ∷ domain) [] name
      → Fails (lookup name)
  first-Fails c domain name h p =
      subst (λ n. Fails (lookup n)) q.1 (h q.0 (λ z. p.named (sym q.1 ∙ z)))
    where
      q : (c ≡ b'.') × (domain ≡ name)
      q = head-IsParent c domain name p

  skip-IsFirst :
      (c : ℕ) (domain : Bytes) (r : Result Bytes)
      → (c ≡ b'.' → domain ≢ [] → Fails (lookup domain))
      → IsFirst domain r
      → IsFirst (c ∷ domain) r
  skip-IsFirst c domain r h (unknown u) = unknown fails
    where
      fails : (before name : Bytes) → IsParent (c ∷ domain) before name → Fails (lookup name)
      fails [] name p = first-Fails c domain name h p
      fails (d ∷ before) name p = u before name (tail-IsParent c d domain before name p)
  skip-IsFirst c domain r h (known before name p k u) =
      known (c ∷ before) name (cons-IsParent c domain before name p) k fails
    where
      fails :
          (before' name' : Bytes)
          → IsParent (c ∷ domain) before' name'
          → ltb (length before') (length (c ∷ before)) ≡ true
          → Fails (lookup name')
      fails [] name' p' l = first-Fails c domain name' h p'
      fails (d ∷ before') name' p' l =
          u before' name' (tail-IsParent c d domain before' name' p') (ground arith)

  never : {A : Type 0} (n : ℕ) → ltb n 0 ≡ true → A
  never n l = ground arith

  no_parent : {A : Type 0} (before name : Bytes) → ◌≡◌ {A = Bytes} [] (before ++ (b'.' ∷ name)) → A
  no_parent [] name h = cc
  no_parent (c ∷ before) name h = cc

  take-IsFirst :
      (domain id : Bytes) → domain ≢ [] → lookup domain ≡ ok id → IsFirst (b'.' ∷ domain) (ok id)
  take-IsFirst domain id d k =
      known [] domain (record { parts = refl; named = d }) k
        (λ before name p l. never (length before) l)

  first_ok-IsFirst :
      (domain : Bytes) (found rest : Result Bytes)
      → domain ≢ []
      → lookup domain ≡ found
      → IsFirst domain rest
      → IsFirst (b'.' ∷ domain) (first_ok client found rest)
  first_ok-IsFirst domain (ok id) rest d e p = take-IsFirst domain id d e
  first_ok-IsFirst domain (err x) rest d e p =
      skip-IsFirst b'.' domain rest (λ _ _. subst Fails (sym e) tt) p

  is_dot : (c : ℕ) → (c == b'.') ≡ true → c ≡ b'.'
  is_dot c h = ground arith

  no_dot : {A : Type 0} (c : ℕ) → (c == b'.') ≡ false → c ≡ b'.' → A
  no_dot c h e = ground arith

  step-IsFirst :
      (c : ℕ) (domain : Bytes) (rest : Result Bytes)
      → IsFirst domain rest
      → IsFirst (c ∷ domain) (
          if (c == b'.') && not (is_empty domain)
          then first_ok client (lookup domain) rest
          else rest)
  unfolding is_empty
  step-IsFirst c [] rest p = elim (Bool-cases (c == b'.')) [
    | inl y ↦ rw y (skip-IsFirst c [] rest (λ _ d. absurd (d refl)) p)
    | inr n ↦ rw n (skip-IsFirst c [] rest (λ _ d. absurd (d refl)) p)
  ]
  step-IsFirst c (d ∷ domain) rest p = elim (Bool-cases (c == b'.')) [
    | inl y ↦ rw y (
        subst (λ x. IsFirst (x ∷ d ∷ domain) (first_ok client (lookup (d ∷ domain)) rest))
          (sym (is_dot c y))
          (first_ok-IsFirst (d ∷ domain) (lookup (d ∷ domain)) rest (cons-ne-nil d domain) refl p))
    | inr n ↦ rw n (skip-IsFirst c (d ∷ domain) rest (λ e _. no_dot c n e) p)
  ]

  try_parents-IsFirst : (domain : Bytes) → IsFirst domain (try_parents client domain s)
  unfolding try_parents
  try_parents-IsFirst [] = unknown (λ before name p. no_parent before name p.parts)
  try_parents-IsFirst (c ∷ domain) =
      step-IsFirst c domain (try_parents client domain s) (try_parents-IsFirst domain)

  -- The id of the domain's own zone; where that lookup fails, of its nearest parent that has one.
  pub data IsNearest (domain : Bytes) (r : Result Bytes) : Type 0 where
    own : (id : Bytes) → lookup domain ≡ ok id → r ≡ ok id → IsNearest domain r
    parent : Fails (lookup domain) → IsFirst domain r → IsNearest domain r

  -- The id is the service's for the domain; where the service knows no zone of that name, it is that
  -- of the nearest parent, a text behind one of its dots that is not empty, which the service knows;
  -- there is an error only where it knows neither the domain nor a parent.
  pub resolve_zone_id-IsNearest :
      (domain : Bytes) → IsNearest domain (resolve_zone_id client domain s)
  unfolding resolve_zone_id
  resolve_zone_id-IsNearest domain = at (lookup domain) refl
    where
      at :
          (r : Result Bytes)
          → lookup domain ≡ r
          → IsNearest domain (first_ok client r (try_parents client domain s))
      at (ok id) e = own id e refl
      at (err x) e = parent (subst Fails (sym e) tt) (try_parents-IsFirst domain)
