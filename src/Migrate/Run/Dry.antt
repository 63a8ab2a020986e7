-- ===== src/Migrate/Run/Dry.antt =====
-- A migration without `Apply` writes no record.
use dns_entree.Base.{
  ◌≡◌, refl, Bool, true, false, List, [], Option, none, some, if◌then◌else◌, if_rule, inl, inr, ◌⊎◌,
}
use dns_entree.Text.{Bytes}
use dns_entree.Record.{Provider}
use dns_entree.Record.Errors.{Result, ok, err}
use dns_entree.Template.Names.{is_empty}
use dns_entree.Migrate.Scrape.{Zone}
use dns_entree.Migrate.Run.{
  ZoneInfo, Failure, MigrationReport, validate_domain, Adapter, get_adapter,
}
use dns_entree.Migrate.Run.Main.{
  MigrateOptions, source_zone, apply_zone, after_ensure, with_adapter, with_zone, reported, refused,
  with_provider, with_domain, migrate,
}

else_case {ℓ κ} :
    {A : Type ℓ} (P : A → Type κ) (b : Bool) (x y : A) → b ≡ false → P y → P (if b then x else y)
else_case P true x y h p = cc
else_case P false x y h p = p

module _ {S : Type 0} (o : MigrateOptions S) (s : S) where
  -- Nothing was called, or the adapter alone was.
  abbrev pub IsOnlyEnsured : S → Type 0
  IsOnlyEnsured t =
      (t ≡ s)
      ⊎ ((ensure : Adapter S) × (get_adapter o.adapters o.target_slug ≡ some ensure)
          × (t ≡ (ensure o.domain s).1))

  abbrev pub IsPreview : MigrationReport × S → Type 0
  IsPreview r = (r.0.results ≡ []) × IsOnlyEnsured r.1

  module _ (dry : o.is_apply ≡ false) where
    after_ensure-IsPreview :
        (p : Provider S) (zone : Zone) (w : Result ZoneInfo × S) (report : MigrationReport)
        → report.results ≡ []
        → IsOnlyEnsured w.1
        → IsPreview (after_ensure o p zone w report)
    unfolding after_ensure apply_zone
    after_ensure-IsPreview p zone (err e, t) report h k = (h, k)
    after_ensure-IsPreview p zone (ok zi, t) report h k =
        else_case IsPreview o.is_apply _ _ dry (h, k)

    with_adapter-IsPreview :
        (p : Provider S) (zone : Zone) (a : Option (Adapter S)) (report : MigrationReport)
        → get_adapter o.adapters o.target_slug ≡ a
        → report.results ≡ []
        → IsPreview (with_adapter o p zone a report s)
    unfolding with_adapter
    with_adapter-IsPreview p zone none report g h = (h, inl refl)
    with_adapter-IsPreview p zone (some ensure) report g h =
        after_ensure-IsPreview p zone (ensure o.domain s) report h (inr (ensure, g, refl))

    with_zone-IsPreview : (p : Provider S) (z : Result Zone) → IsPreview (with_zone o p z s)
    unfolding with_zone
    with_zone-IsPreview p (err e) = (refl, inl refl)
    with_zone-IsPreview p (ok zone) =
        with_adapter-IsPreview p zone (get_adapter o.adapters o.target_slug) _ refl refl

    abbrev IsOutput : MigrationReport × List Failure × S → Type 0
    IsOutput r = (r.0.results ≡ []) × IsOnlyEnsured r.2

    with_provider-IsOutput : (p : Option (Provider S)) → IsOutput (with_provider o p s)
    unfolding with_provider refused reported
    with_provider-IsOutput none = (refl, inl refl)
    with_provider-IsOutput (some p) = with_zone-IsPreview p (source_zone o)

    with_domain-IsOutput : (d : Option Bytes) → IsOutput (with_domain o d s)
    unfolding with_domain refused
    with_domain-IsOutput (some what) = (refl, inl refl)
    with_domain-IsOutput none =
        if_rule IsOutput (is_empty o.target_slug) _ _ (refl, inl refl)
          (with_provider-IsOutput o.target_provider)

    -- Without `Apply` a migration has no results, and calls nothing but the adapter of the target,
    -- once, to ensure the zone: the state is the one before, or the one after that call.
    pub migrate-IsPreview : ((migrate o s).0.results ≡ []) × IsOnlyEnsured (migrate o s).2
    unfolding migrate
    migrate-IsPreview = with_domain-IsOutput (validate_domain o.domain)
