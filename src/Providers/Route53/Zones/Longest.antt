-- ===== src/Providers/Route53/Zones/Longest.antt =====
-- providers/route53/route53.go, `findZoneID`: which hosted zone is chosen.
use dns_entree.Base.{
  ℕ, ◌≡◌, refl, ap, subst, Bool, true, false, ◌&&◌, List, [], ◌∷◌, ◌++◌, length, ltb, leb, Option,
  none, some, if◌then◌else◌, arith, All, Bool-cases, inl, inr,
}
use dns_entree.Text.{Bytes, codes}
use dns_entree.Record.Errors.{Error, other, Result, ok, err}
use dns_entree.Template.Names.{is_empty}
use dns_entree.Providers.Route53.Zones.{
  HostedZone, Best, no_best, zone_name, covers, longer, candidate, zone_id, pick_zone, find_zone_id,
}

module _ (domain : Bytes) where
  abbrev Within : ℕ → HostedZone → Type 0
  Within n z = covers domain z ≡ true → leb (length (zone_name z)) n ≡ true

  -- The zone is one of the list, is the domain or above it, and has the longest name of those.
  pub record IsLongest (zones : List HostedZone) (z : HostedZone) : Type 0 where
    pub before : List HostedZone
    pub after : List HostedZone
    pub parts : zones ≡ before ++ (z ∷ after)
    pub covering : covers domain z ≡ true
    pub longest : All (Within (length (zone_name z))) zones

  abbrev Kept : Best → HostedZone → Type 0
  Kept b z = covers domain z ≡ true → longer (length (zone_name z)) b.best_len ≡ false

  data IsPicked (zones : List HostedZone) (b r : Best) : Type 0 where
    kept : r ≡ b → All (Kept b) zones → IsPicked zones b r
    found :
        (z : HostedZone)
        → IsLongest zones z
        → r ≡ candidate z
        → longer (length (zone_name z)) b.best_len ≡ true
        → IsPicked zones b r

  longer_trans : (n m : ℕ) (o : Option ℕ) → ltb m n ≡ true → longer m o ≡ true → longer n o ≡ true
  longer_trans n m none h k = refl
  longer_trans n m (some i) h k = ground arith

  longer-leb : (n m : ℕ) (o : Option ℕ) → longer n o ≡ false → longer m o ≡ true → leb n m ≡ true
  longer-leb n m (some i) h k = ground arith
  longer-leb n m none h k = cc

  not_longer : (n m : ℕ) → ltb m n ≡ false → leb n m ≡ true
  not_longer n m h = ground arith

  shorter :
      (z : HostedZone) (zs : List HostedZone)
      → All (Kept (candidate z)) zs
      → All (Within (length (zone_name z))) zs
  shorter z [] h = tt
  shorter z (y ∷ ys) (k, h) = (λ c. not_longer _ _ (k c), shorter z ys h)

  later :
      (z : HostedZone) (zs : List HostedZone) (y : HostedZone)
      → IsLongest zs y
      → Within (length (zone_name y)) z
      → IsLongest (z ∷ zs) y
  later z zs y p w = record {
    before = z ∷ p.before;
    after = p.after;
    parts = ap (λ xs. z ∷ xs) p.parts;
    covering = p.covering;
    longest = (w, p.longest);
  }

  first_IsPicked :
      (z : HostedZone) (zs : List HostedZone) (b r : Best)
      → covers domain z ≡ true
      → longer (length (zone_name z)) b.best_len ≡ true
      → IsPicked zs (candidate z) r
      → IsPicked (z ∷ zs) b r
  first_IsPicked z zs b r c l (kept e h) =
      found z
        (record {
          before = [];
          after = zs;
          parts = refl;
          covering = c;
          longest = (λ _. ground arith, shorter z zs h);
        })
        e l
  first_IsPicked z zs b r c l (found y p e m) =
      found y (later z zs y p (λ _. ground arith)) e (longer_trans _ _ _ m l)

  next_IsPicked :
      (z : HostedZone) (zs : List HostedZone) (b r : Best)
      → Kept b z
      → IsPicked zs b r
      → IsPicked (z ∷ zs) b r
  next_IsPicked z zs b r k (kept e h) = kept e (k, h)
  next_IsPicked z zs b r k (found y p e m) =
      found y (later z zs y p (λ c. longer-leb _ _ b.best_len (k c) m)) e m

  second : {a b : Bool} → a ≡ true → (a && b) ≡ false → b ≡ false
  second h k = ground arith

  both : {a b : Bool} → (a && b) ≡ true → (a ≡ true) × (b ≡ true)
  both h = ground arith

  pick_zone-IsPicked : (zs : List HostedZone) (b : Best) → IsPicked zs b (pick_zone domain zs b)
  unfolding pick_zone
  pick_zone-IsPicked [] b = kept refl tt
  pick_zone-IsPicked (z ∷ zs) b =
      elim (Bool-cases (covers domain z && longer (length (zone_name z)) b.best_len)) [
        | inl y ↦
            rw y
              (first_IsPicked z zs b _ (both y).0 (both y).1 (pick_zone-IsPicked zs (candidate z)))
        | inr n ↦ rw n (next_IsPicked z zs b _ (λ c. second c n) (pick_zone-IsPicked zs b))
      ]

  -- What `find_zone_id` returns.
  pub data IsZone (zones : List HostedZone) : Result Bytes → Type 0 where
    nowhere : {e : Error} → All (λ z. covers domain z ≡ false) zones → IsZone zones (err e)
    unnamed :
        {e : Error} (z : HostedZone) → IsLongest zones z → zone_id z ≡ [] → IsZone zones (err e)
    chosen : (z : HostedZone) → IsLongest zones z → IsZone zones (ok (zone_id z))

  -- The id is that of a listed zone that is the domain or stands behind one of its dots, and no
  -- such zone has a longer name; there is an error only where no listed zone is such a one, or
  -- where the one with the longest name has an empty id.
  pub find_zone_id-IsZone : (zones : List HostedZone) → IsZone zones (find_zone_id domain zones)
  unfolding find_zone_id
  find_zone_id-IsZone zones =
      picked_zone (pick_zone domain zones no_best) (pick_zone-IsPicked zones no_best)
    where
      none_covers :
          (zs : List HostedZone) → All (Kept no_best) zs → All (λ z. covers domain z ≡ false) zs
      none_covers [] h = tt
      none_covers (z ∷ zs) (k, h) = (ground arith, none_covers zs h)

      by_id :
          (z : HostedZone) (id : Bytes)
          → zone_id z ≡ id
          → IsLongest zones z
          → IsZone zones (if is_empty id then err (other (codes "no hosted zone found")) else ok id)
      by_id z [] e p = unnamed z p e
      by_id z (c ∷ id) e p = subst (λ i. IsZone zones (ok i)) e (chosen z p)

      picked_zone :
          (r : Best)
          → IsPicked zones no_best r
          → IsZone zones (
              if is_empty r.best_id
              then err (other (codes "no hosted zone found"))
              else ok r.best_id)
      picked_zone r (kept e h) = rw e (nowhere (none_covers zones h))
      picked_zone r (found z p e l) = rw e (by_id z (zone_id z) refl p)
