-- ===== src/Program/Exits.antt =====
-- When a run of cmd/sinq/sinq.go exits with success.
use mathlib.Core.Option.{some-injective}
use sinq.Prelude.{
  Option, subst, sym, ℕ, ◌+◌, ◌≡◌, ◌≢◌, ◌↔◌, ◌⊎◌, true, false, not, none, some, List, [], ◌∷◌, ◌++◌,
  Bytes, length, All, Bool-cases, ==_iff, ◌==◌, if◌then◌else◌, inl, inr, refl, ap, ◌∙◌, arith,
}
use sinq.DataSource.{Scenario, bundles, scenario_count}
use sinq.Reporter.{exit_code}
use sinq.Reporter.Exit.{IsGood}
use sinq.Program.{
  Options, System, Parts, populate, parse_file_path, Discovery, discovered, discover,
  after_discovery, after_populate, after_flags, parsed_flags, main,
}
use sinq.Program.Guards.{
  discovered-append, if-false, equal_iff_zero, one_is_not_zero, guard_iff, exit_code_iff,
  discovered-nil,
}

-- The flags that only print are not set.
pub record IsPlain (cfg : Options) : Type 0 where
  pub completes_nothing : cfg.completion ≡ false
  pub helps_nothing : cfg.help ≡ false
  pub tells_no_version : cfg.version ≡ false
  pub lists_nothing : cfg.list ≡ false

module _ (sys : System) (parts : Parts) where
  -- The scenarios under the paths, in their order.
  unfoldable pub all_under : List Bytes → List Scenario
  all_under [] = []
  all_under (p ∷ ps) = parse_file_path sys parts p ++ all_under ps

  -- No signal came while the paths were read.
  unfoldable pub IsUninterrupted : ℕ → List Bytes → Type 0
  IsUninterrupted i [] = Unit
  IsUninterrupted i (p ∷ ps) = (parts.interrupted i ≡ false) × IsUninterrupted (i + 1) ps

  discover_iff :
      (cfg : Options) (i : ℕ) (ps : List Bytes) (d : Discovery)
      → (IsUninterrupted i ps
          × (discover sys parts cfg i ps d ≡ some (discovered cfg d (all_under ps))))
        ⊎ ((¬ IsUninterrupted i ps) × (discover sys parts cfg i ps d ≡ none))
  unfolding discover all_under IsUninterrupted
  discover_iff cfg i [] d = inl (tt, ap some (discovered-nil cfg d))
  discover_iff cfg i (p ∷ ps) d = elim (Bool-cases (parts.interrupted i)) [
    | inl stop ↦ inr ((λ u. ground arith), rw (stop) refl)
    | inr go ↦ elim (discover_iff cfg (i + 1) ps (discovered cfg d (parse_file_path sys parts p))) [
      | inl (u, e) ↦ inl ((go, u), rw (go) (e ∙ ap some (discovered-append cfg d _ (all_under ps))))
      | inr (u, e) ↦ inr ((λ h. u h.1), rw (go) e)
    ]
  ]

  nonzero_iff : (n : ℕ) (code : ℕ) → ((if n == 0 then 1 else code) ≡ 0) ↔ ((n ≢ 0) × (code ≡ 0))
  nonzero_iff n code = elim (Bool-cases (n == 0)) [
    | inl z ↦ rw z ((λ e. ground arith), λ h. absurd (h.0 ((==_iff n 0).0 z)))
    | inr z ↦ rw z ((λ e. ((λ n0. ground arith), e)), λ h. h.1)
  ]

  -- What the parts do from the end of the discovery on, in a run that exits with success.
  abbrev Runs : Options → Discovery → Type 0
  Runs cfg d =
      (d.found_count ≢ 0)
      × (parts.runner cfg ≡ true)
      × (All IsGood (parts.run_scenarios d.all_scenarios)
          × (length (parts.run_scenarios d.all_scenarios) ≡ d.found_count))

  after_discovery_iff :
      (cfg : Options) (d : Discovery)
      → cfg.list ≡ false
      → (after_discovery parts cfg (some d) ≡ 0) ↔ Runs cfg d
  unfolding after_discovery
  after_discovery_iff cfg d l =
      let results = parts.run_scenarios d.all_scenarios in
      let code = exit_code results d.found_count in
      let guarded = if not (parts.runner cfg) then 1 else code in
      let counted = if d.found_count == 0 then 1 else guarded in
      equal_iff_zero _ counted (if-false cfg.list _ counted l) (
        (λ e.
            let (some_found, e₁) = (nonzero_iff d.found_count guarded).0 e in
            let (made, e₂) = (guard_iff (parts.runner cfg) code).0 e₁ in
            (some_found, made, (exit_code_iff results d.found_count).0 e₂)),
        λ h. (nonzero_iff d.found_count guarded).1 (
          h.0,
          (guard_iff (parts.runner cfg) code).1 (h.1, (exit_code_iff results d.found_count).1 h.2),
        ),
      )

  abbrev nothing_found : Discovery
  nothing_found = record { found_count = 0; all_scenarios = [] }

  -- All that is all_under under the paths.
  abbrev all_found : Options → Discovery
  all_found cfg = record {
    found_count = scenario_count cfg.included cfg.count (all_under cfg.paths);
    all_scenarios = bundles cfg.included cfg.count (all_under cfg.paths);
  }

  discovered-all_found :
      (cfg : Options) → discovered cfg nothing_found (all_under cfg.paths) ≡ all_found cfg
  unfolding discovered
  discovered-all_found cfg =
      let total = scenario_count cfg.included cfg.count (all_under cfg.paths) in
      let count : 0 + total ≡ total = omega arith in
      ap (λ n. record (all_found cfg) { found_count = n }) count

  discovery_iff :
      (cfg : Options)
      → cfg.list ≡ false
      → (after_discovery parts cfg (discover sys parts cfg 0 cfg.paths nothing_found) ≡ 0)
        ↔ (IsUninterrupted 0 cfg.paths × Runs cfg (all_found cfg))
  unfolding after_discovery
  discovery_iff cfg l = elim (discover_iff cfg 0 cfg.paths nothing_found) [
    | inl (u, e) ↦
        let after = after_discovery_iff cfg (all_found cfg) l in
        equal_iff_zero _ _ (ap (after_discovery parts cfg) (e ∙ ap some (discovered-all_found cfg)))
          ((λ z. (u, after.0 z)), λ h. after.1 h.1)
    | inr (n, e) ↦
        equal_iff_zero _ 1 (ap (after_discovery parts cfg) e)
          ((λ z. absurd (one_is_not_zero z)), λ h. absurd (n h.0))
  ]

  -- What a run that exits with success has: the parts of the program could be made, no signal came while
  -- the paths were read, at least one scenario was counted, and as many were reported, all of them good.
  pub record IsSuccess (cfg : Options) : Type 0 where
    pub info_printer_made : parts.info_printer ≡ true
    pub writer_set : parts.set_writer ≡ true
    pub treewalker_made : parts.treewalker cfg ≡ true
    pub secrets_parsed : parts.parse_secrets ≡ true
    pub uninterrupted : IsUninterrupted 0 cfg.paths
    pub some_found : scenario_count cfg.included cfg.count (all_under cfg.paths) ≢ 0
    pub runner_made : parts.runner cfg ≡ true
    pub all_good :
        All IsGood (parts.run_scenarios (bundles cfg.included cfg.count (all_under cfg.paths)))
    pub all_reported :
        length (parts.run_scenarios (bundles cfg.included cfg.count (all_under cfg.paths)))
        ≡ scenario_count cfg.included cfg.count (all_under cfg.paths)

  flags_iff :
      (cfg : Options)
      → cfg.completion ≡ false
      → cfg.help ≡ false
      → cfg.version ≡ false
      → cfg.list ≡ false
      → (after_flags sys parts cfg ≡ 0) ↔ IsSuccess (populate sys cfg)
  unfolding after_flags after_populate populate
  flags_iff cfg c h v l =
      let made = populate sys cfg in
      let body = discovery_iff made l in
      let rest = after_discovery parts made (discover sys parts made 0 made.paths nothing_found) in
      let walked = if not parts.parse_secrets then 1 else rest in
      let main_part = if not (parts.treewalker made) then 1 else walked in
      let written = if not parts.set_writer then 1 else main_part in
      equal_iff_zero _ (if not parts.info_printer then 1 else written)
        (if-false cfg.completion _ _ c
          ∙ ap (λ code. if not parts.info_printer then 1 else code)
              (if-false cfg.help _ _ h ∙ if-false cfg.version _ written v))
        (
          (λ e.
              let (p, e₁) = (guard_iff parts.info_printer written).0 e in
              let (w, e₂) = (guard_iff parts.set_writer main_part).0 e₁ in
              let (t, e₃) = (guard_iff (parts.treewalker made) walked).0 e₂ in
              let (s, e₄) = (guard_iff parts.parse_secrets rest).0 e₃ in
              let (u, (n, r, (good, all))) = body.0 e₄ in
              record {
                info_printer_made = p;
                writer_set = w;
                treewalker_made = t;
                secrets_parsed = s;
                uninterrupted = u;
                some_found = n;
                runner_made = r;
                all_good = good;
                all_reported = all;
              }),
          λ y. (guard_iff parts.info_printer written).1 (
            y.info_printer_made,
            (guard_iff parts.set_writer main_part).1 (
              y.writer_set,
              (guard_iff (parts.treewalker made) walked).1 (
                y.treewalker_made,
                (guard_iff parts.parse_secrets rest).1 (
                  y.secrets_parsed,
                  body.1 (
                    y.uninterrupted,
                    (y.some_found, y.runner_made, (y.all_good, y.all_reported)),
                  ),
                ),
              ),
            ),
          ),
        )

  parsed_flags_iff :
      (accepted : Option Options)
      → ((cfg : Options) → accepted ≡ some cfg → IsPlain cfg)
      → (parsed_flags sys parts accepted ≡ 0)
        ↔ ((cfg : Options) × (accepted ≡ some cfg) × IsSuccess (populate sys cfg))
  unfolding parsed_flags
  parsed_flags_iff none plain = ((λ e. absurd (one_is_not_zero e)), λ h. absurd (cc))
  parsed_flags_iff (some cfg) plain =
      let p = plain cfg refl in
      let flags =
        flags_iff cfg p.completes_nothing p.helps_nothing p.tells_no_version p.lists_nothing in
      (
        (λ e. (cfg, refl, flags.0 e)),
        λ h.
            flags.1
              (subst (λ c. IsSuccess (populate sys c)) (sym (some-injective cfg h.0 h.1)) h.2),
      )

  -- Where the flags, if they are accepted, have none of those that only print: the program exits with
  -- success exactly if the flags are accepted, the parts of the program could be made, no signal came while
  -- the paths were read, at least one scenario was counted, and as many were reported as were counted, each
  -- of which, with its requests, ended in no failure, error or abort.
  pub main_iff :
      (args : List Bytes)
      → ((cfg : Options) → parts.parse_flags args ≡ some cfg → IsPlain cfg)
      → (main sys parts args ≡ 0)
        ↔ ((cfg : Options) × (parts.parse_flags args ≡ some cfg) × IsSuccess (populate sys cfg))
  unfolding main
  main_iff args plain = parsed_flags_iff (parts.parse_flags args) plain
