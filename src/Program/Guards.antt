-- ===== src/Program/Guards.antt =====
-- The steps of cmd/sinq/sinq.go that end it, and the counts of its discovery.
use sinq.Prelude.{
  ℕ, zero, suc, ◌+◌, ◌≡◌, ◌↔◌, Bool, true, false, not, List, [], ◌∷◌, ◌++◌, length, All,
  if◌then◌else◌, refl, ap, sym, ◌∙◌, arith, append_assoc, append-nil,
}
use sinq.DataSource.{Scenario, bundles, scenario_count}
use sinq.Runner.{ScenarioResult}
use sinq.Reporter.{succeeds, exit_code}
use sinq.Reporter.Exit.{IsGood, succeeds_iff}
use sinq.Program.{Options, Discovery, discovered}

scenario_count-append :
    (included : Scenario → Bool) (count : ℕ) (xs ys : List Scenario)
    → scenario_count included count (xs ++ ys)
      ≡ scenario_count included count xs + scenario_count included count ys
unfolding scenario_count
scenario_count-append included count [] ys = omega arith
scenario_count-append included count (x ∷ xs) ys =
    omega (arith, scenario_count-append included count xs ys)

bundles-append :
    (included : Scenario → Bool) (count : ℕ) (xs ys : List Scenario)
    → bundles included count (xs ++ ys) ≡ bundles included count xs ++ bundles included count ys
unfolding bundles
bundles-append included count [] ys = refl
bundles-append included count (x ∷ xs) ys = rw (bundles-append included count xs ys) refl

pub discovered-append :
    (cfg : Options) (d : Discovery) (xs ys : List Scenario)
    → discovered cfg (discovered cfg d xs) ys ≡ discovered cfg d (xs ++ ys)
unfolding discovered
discovered-append cfg d xs ys =
    let counts : (d.found_count + scenario_count cfg.included cfg.count xs)
          + scenario_count cfg.included cfg.count ys
        ≡ d.found_count + scenario_count cfg.included cfg.count (xs ++ ys) =
      omega (arith, scenario_count-append cfg.included cfg.count xs ys) in
    let lists : (d.all_scenarios ++ bundles cfg.included cfg.count xs)
          ++ bundles cfg.included cfg.count ys
        ≡ d.all_scenarios ++ bundles cfg.included cfg.count (xs ++ ys) =
      append_assoc d.all_scenarios _ _
      ∙ ap (λ bs. d.all_scenarios ++ bs) (sym (bundles-append cfg.included cfg.count xs ys)) in
    rw (counts, lists) refl

pub if-false : (b : Bool) (x y : ℕ) → b ≡ false → (if b then x else y) ≡ y
if-false true x y e = ground arith
if-false false x y e = refl

pub equal_iff_zero : (m n : ℕ) {P : Type 0} → m ≡ n → ((n ≡ 0) ↔ P) → ((m ≡ 0) ↔ P)
equal_iff_zero m n e h = ((λ z. h.0 (sym e ∙ z)), λ p. e ∙ h.1 p)

pub one_is_not_zero : (e : suc zero ≡ 0) → ⊥
one_is_not_zero e = omega arith

-- A guard that ends the program.
pub guard_iff :
    (b : Bool) (code : ℕ) → ((if not b then 1 else code) ≡ 0) ↔ ((b ≡ true) × (code ≡ 0))
guard_iff true code = ((λ e. (refl, e)), λ h. h.1)
guard_iff false code = ground arith

abbrev code_of : Bool → ℕ
code_of b = if b then 0 else 1

if_iff : (b : Bool) → (code_of b ≡ 0) ↔ (b ≡ true)
if_iff true = ((λ e. refl), λ e. refl)
if_iff false = ground arith

pub exit_code_iff :
    (rs : List ScenarioResult) (n : ℕ) → (exit_code rs n ≡ 0) ↔ (All IsGood rs × (length rs ≡ n))
unfolding exit_code
exit_code_iff rs n = (
  (λ e. (succeeds_iff rs n).0 ((if_iff (succeeds rs n)).0 e)),
  λ h. (if_iff (succeeds rs n)).1 ((succeeds_iff rs n).1 h),
)

pub discovered-nil : (cfg : Options) (d : Discovery) → d ≡ discovered cfg d []
unfolding discovered scenario_count bundles
discovered-nil cfg d =
    let count : d.found_count + 0 ≡ d.found_count = omega arith in
    rw (count, append-nil d.all_scenarios) refl
