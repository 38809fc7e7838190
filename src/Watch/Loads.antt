-- ===== src/Watch/Loads.antt =====
-- What it takes for a file to load: the four `load` methods of watch.go.
use example_envoy_xds.Base.{
  List, [], ◌∷◌, Text, Option, some, none, Result, ok, ◌≡◌, refl, ◌↔◌, All, inl, inr, subst, ◌>>=◌,
  bind-ok, err-ne-ok, ok_inj, Option-cases, ap, ◌∙◌, sym,
}
use example_envoy_xds.Config.{CdsConfig, EdsConfig, RdsConfig, LdsConfig}
use example_envoy_xds.Xds.{Proto}
use example_envoy_xds.Watch.World.{Env, Reads}
use example_envoy_xds.Watch.Load.{
  WatchOpt, load_yaml, validate_all, unless_refused, load_cds, load_eds, load_rds, load_lds,
}
use example_envoy_xds.Watch.Steps.{Configs, load_all}

module _ {E A : Type 0} where
  -- the file at the path can be read, and what was read decodes to the configuration
  abbrev pub IsRead : (Text → Result E Text) → (Text → Result E A) → Text → A → Type 0
  IsRead read unmarshal path config =
      (text : Text) × (read path ≡ ok text) × (unmarshal text ≡ ok config)

  load_yaml-IsRead :
      (read : Text → Result E Text) (unmarshal : Text → Result E A) (path : Text) (config : A)
      → (load_yaml read unmarshal path ≡ ok config) ↔ IsRead read unmarshal path config
  unfolding load_yaml
  load_yaml-IsRead read unmarshal path config =
      (λ h. bind-ok (read path) unmarshal h, λ (text, got, decoded). rw got decoded)

  validate_all_iff :
      (validate : A → Option E) (cs : List A)
      → (validate_all validate cs ≡ none) ↔ All (λ c. validate c ≡ none) cs
  unfolding validate_all
  validate_all_iff validate [] = (λ _. tt, λ _. refl)
  validate_all_iff validate (c ∷ cs) = elim (Option-cases (validate c)) [
    | inl good ↦ (
      λ h. (good, (validate_all_iff validate cs).0 (sym (rw (good, validate_all) refl) ∙ h)),
      λ (_, h). rw (good, validate_all) ((validate_all_iff validate cs).1 h),
    )
    | inr (e, bad) ↦ (
      λ h. absurd (some-ne-none {e = e} (sym (rw (bad, validate_all) refl) ∙ h)),
      λ (good, _). absurd (some-ne-none {e = e} (sym bad ∙ good)),
    )
  ]
    where
      some-ne-none : {e : E} → ◌≡◌ {A = Option E} (some e) none → ⊥
      some-ne-none h = cc

  unless_refused_iff :
      (verdict : Option E) (config c : A)
      → (unless_refused verdict config ≡ ok c) ↔ ((verdict ≡ none) × (config ≡ c))
  unfolding unless_refused
  unless_refused_iff none config c = (λ h. (refl, ok_inj h), λ (_, same). ap ok same)
  unless_refused_iff (some e) config c = (λ h. absurd (err-ne-ok h), λ (bad, _). cc)

  -- a load, by what it does after the decoding
  checked_iff :
      (m : Result E A) (verdict : A → Option E) (c : A)
      → ((m >>= λ a. unless_refused (verdict a) a) ≡ ok c) ↔ ((m ≡ ok c) × (verdict c ≡ none))
  checked_iff m verdict c = (
    λ h.
        let (a, got, passed) = bind-ok m _ h in
        let (good, same) = (unless_refused_iff (verdict a) a c).0 passed in
        (got ∙ ap ok same, ap verdict (sym same) ∙ good),
    λ (got, good). rw got ((unless_refused_iff (verdict c) c c).1 (good, refl)),
  )

module _ {p : Proto} (env : Env p) (reads : Reads p) (opt : WatchOpt) where
  abbrev pub IsLoadedCds : List CdsConfig → Type 0
  IsLoadedCds c =
      IsRead reads.cds env.unmarshal_cds opt.cds_yaml c × All (λ x. env.validate_cds x ≡ none) c

  abbrev pub IsLoadedEds : List EdsConfig → Type 0
  IsLoadedEds c =
      IsRead reads.eds env.unmarshal_eds opt.eds_yaml c × All (λ x. env.validate_eds x ≡ none) c

  abbrev pub IsLoadedRds : List RdsConfig → Type 0
  IsLoadedRds c =
      IsRead reads.rds env.unmarshal_rds opt.rds_yaml c × All (λ x. env.validate_rds x ≡ none) c

  abbrev pub IsLoadedLds : LdsConfig → Type 0
  IsLoadedLds c = IsRead reads.lds env.unmarshal_lds opt.lds_yaml c × (env.validate_lds c ≡ none)

  -- Each of the four loads returns a configuration exactly when the file at its own path can be
  -- read, its text decodes to that configuration, and the validator of its kind refuses no part of
  -- it.
  pub loads_iff :
      (c : List CdsConfig) (e : List EdsConfig) (r : List RdsConfig) (l : LdsConfig)
      → ((load_cds env reads.cds opt ≡ ok c) ↔ IsLoadedCds c)
        × ((load_eds env reads.eds opt ≡ ok e) ↔ IsLoadedEds e)
        × ((load_rds env reads.rds opt ≡ ok r) ↔ IsLoadedRds r)
        × ((load_lds env reads.lds opt ≡ ok l) ↔ IsLoadedLds l)
  unfolding load_cds load_eds load_rds load_lds
  loads_iff c e r l = (
    listed reads.cds env.unmarshal_cds env.validate_cds opt.cds_yaml c,
    listed reads.eds env.unmarshal_eds env.validate_eds opt.eds_yaml e,
    listed reads.rds env.unmarshal_rds env.validate_rds opt.rds_yaml r,
    loaded reads.lds env.unmarshal_lds env.validate_lds opt.lds_yaml l,
  )
    where
      loaded :
          {A : Type 0} (read : Text → Result p.Error Text) (unmarshal : Text → Result p.Error A)
          (verdict : A → Option p.Error) (path : Text) (c : A)
          → ((load_yaml read unmarshal path >>= λ a. unless_refused (verdict a) a) ≡ ok c)
            ↔ (IsRead read unmarshal path c × (verdict c ≡ none))
      loaded read unmarshal verdict path c =
          let step = checked_iff (load_yaml read unmarshal path) verdict c in
          let first = load_yaml-IsRead read unmarshal path c in
          (
            λ h. let (got, good) = step.0 h in (first.0 got, good),
            λ (got, good). step.1 (first.1 got, good),
          )

      listed :
          {A : Type 0} (read : Text → Result p.Error Text)
          (unmarshal : Text → Result p.Error (List A)) (validate : A → Option p.Error) (path : Text)
          (c : List A)
          → ((load_yaml read unmarshal path >>= λ a. unless_refused (validate_all validate a) a)
              ≡ ok c)
            ↔ (IsRead read unmarshal path c × All (λ x. validate x ≡ none) c)
      listed read unmarshal validate path c =
          let step = loaded read unmarshal (validate_all validate) path c in
          let all = validate_all_iff validate c in
          (
            λ h. let (got, good) = step.0 h in (got, all.0 good),
            λ (got, good). step.1 (got, all.1 good),
          )

  -- all four files
  abbrev pub AreLoaded : Configs → Type 0
  AreLoaded cs = IsLoadedCds cs.cds × IsLoadedEds cs.eds × IsLoadedRds cs.rds × IsLoadedLds cs.lds

  pub load_all-AreLoaded : (cs : Configs) → load_all env reads opt ≡ ok cs → AreLoaded cs
  load_all-AreLoaded cs h =
      let (c, got_c, h_e) = bind-ok (load_cds env reads.cds opt) _ h in
      let (e, got_e, h_r) = bind-ok (load_eds env reads.eds opt) _ h_e in
      let (r, got_r, h_l) = bind-ok (load_rds env reads.rds opt) _ h_r in
      let (l, got_l, same) = bind-ok (load_lds env reads.lds opt) _ h_l in
      let (on_c, on_e, on_r, on_l) = loads_iff c e r l in
      subst AreLoaded (ok_inj same) (on_c.0 got_c, on_e.0 got_e, on_r.0 got_r, on_l.0 got_l)
