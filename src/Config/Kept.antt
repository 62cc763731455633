-- ===== src/Config/Kept.antt =====
-- What the filters keep.
use sinq.Prelude.{
  ◌≡◌, ◌↔◌, refl, sym, subst, Bool, true, false, not, ◌&&◌, ◌||◌, ◌⊎◌, inl, inr, List, [], ◌∷◌,
  Bytes, equal, equal_iff, arith, Bool-cases, if◌then◌else◌,
}
use sinq.Config.{Filters, has_tag, any_tag, any_match, is_empty_list, should_include}

-- Membership, and that some element has a property, as types that compute.
abbrev pub Has : List Bytes → Bytes → Type 0
Has [] t = ⊥
Has (x ∷ xs) t = (x ≡ t) ⊎ Has xs t

abbrev pub Some {ℓ} : {A : Type ℓ} → (A → Type 0) → List A → Type 0
Some P [] = ⊥
Some P (x ∷ xs) = P x ⊎ Some P xs

has_tag_iff : (tags : List Bytes) (t : Bytes) → (has_tag tags t ≡ true) ↔ Has tags t
unfolding has_tag
has_tag_iff [] t = ((λ e. absurd (cc)), λ h. absurd h)
has_tag_iff (x ∷ tags) t = elim (Bool-cases (equal x t)) [
  | inl y ↦ rw y ((λ e. inl ((equal_iff x t).0 y)), λ h. refl)
  | inr n ↦ rw n (
    (λ e. inr ((has_tag_iff tags t).0 e)),
    λ h. elim h [ inl e ↦ absurd (cc ((equal_iff x t).1 e)) | inr k ↦ (has_tag_iff tags t).1 k ],
  )
]

any_tag_iff : (ts tags : List Bytes) → (any_tag ts tags ≡ true) ↔ Some (Has tags) ts
unfolding any_tag
any_tag_iff [] tags = ((λ e. absurd (cc)), λ h. absurd h)
any_tag_iff (t ∷ ts) tags = elim (Bool-cases (has_tag tags t)) [
  | inl y ↦ rw y ((λ e. inl ((has_tag_iff tags t).0 y)), λ h. refl)
  | inr n ↦ rw n (
    (λ e. inr ((any_tag_iff ts tags).0 e)),
    λ h. elim h [
      | inl e ↦ absurd (cc ((has_tag_iff tags t).1 e))
      | inr k ↦ (any_tag_iff ts tags).1 k
    ],
  )
]

abbrev Matches : Bytes → (Bytes → Bool) → Type 0
Matches name r = r name ≡ true

any_match_iff :
    (rs : List (Bytes → Bool)) (name : Bytes) → (any_match rs name ≡ true) ↔ Some (Matches name) rs
unfolding any_match
any_match_iff [] name = ((λ e. absurd (cc)), λ h. absurd h)
any_match_iff (r ∷ rs) name = elim (Bool-cases (r name)) [
  | inl y ↦ rw y ((λ e. inl refl), λ h. refl)
  | inr n ↦ rw n (
    (λ e. inr ((any_match_iff rs name).0 e)),
    λ h. elim h [ inl e ↦ absurd (cc) | inr k ↦ (any_match_iff rs name).1 k ],
  )
]

is_empty_list_iff {ℓ} : {A : Type ℓ} (xs : List A) → (is_empty_list xs ≡ true) ↔ (xs ≡ [])
unfolding is_empty_list
is_empty_list_iff [] = ((λ e. refl), λ e. refl)
is_empty_list_iff (x ∷ xs) = ((λ e. absurd (cc)), λ e. absurd (cc))

-- A scenario is kept if no excluded tag or name fits it, and the included tags and names, where
-- there are any, each have one that fits.
pub record IsKept (c : Filters) (tags : List Bytes) (name : Bytes) : Type 0 where
  pub no_tag : ¬ Some (Has tags) c.tags_exclude
  pub no_name : ¬ Some (Matches name) c.names_exclude
  pub some_tag : (c.tags_include ≡ []) ⊎ Some (Has tags) c.tags_include
  pub some_name : (c.names_include ≡ []) ⊎ Some (Matches name) c.names_include

-- An alternative that a test decides, and one that an emptiness test decides.
either : (b e : Bool) (P Q : Type 0) → (b ≡ true) ↔ P → (e ≡ true) ↔ Q → ((b || e) ≡ true) ↔ (Q ⊎ P)
either true e P Q p q = ((λ h. inr (p.0 refl)), λ h. refl)
either false e P Q p q =
    ((λ h. inl (q.0 h)), λ h. elim h [ inl y ↦ q.1 y | inr y ↦ absurd (cc (p.1 y)) ])

-- The code as one Boolean formula.
should_include-formula :
    (te ne ti ni et en : Bool)
    → (if te
        then false
        else if ne
        then false
        else if ni
        then if ti then true else et
        else ((if ti then true else et) && en))
      ≡ ((not te && not ne) && ((ti || et) && (ni || en)))
should_include-formula te ne ti ni et en = ground arith

-- A test that fails.
not_iff : (b : Bool) (P : Type 0) → (b ≡ true) ↔ P → (not b ≡ true) ↔ (¬ P)
not_iff true P p = ((λ h. absurd (cc)), λ h. absurd (h (p.0 refl)))
not_iff false P p = ((λ h x. absurd (cc (p.1 x))), λ h. refl)

-- Four tests that all hold.
four_iff :
    (a b c d : Bool) (A B C D : Type 0)
    → (a ≡ true) ↔ A
    → (b ≡ true) ↔ B
    → (c ≡ true) ↔ C
    → (d ≡ true) ↔ D
    → (((a && b) && (c && d)) ≡ true) ↔ (A × B × C × D)
four_iff true true true true A B C D p q r s =
    ((λ h. (p.0 refl, q.0 refl, r.0 refl, s.0 refl)), λ h. refl)
four_iff false b c d A B C D p q r s = ((λ h. absurd (cc)), λ h. absurd (cc (p.1 h.0)))
four_iff true false c d A B C D p q r s = ((λ h. absurd (cc)), λ h. absurd (cc (q.1 h.1)))
four_iff true true false d A B C D p q r s = ((λ h. absurd (cc)), λ h. absurd (cc (r.1 h.2)))
four_iff true true true false A B C D p q r s = ((λ h. absurd (cc)), λ h. absurd (cc (s.1 h.3)))

-- The four tests of a kept scenario, in the order of the fields.
IsKept-iff :
    (c : Filters) (tags : List Bytes) (name : Bytes)
    → (((not (any_tag c.tags_exclude tags) && not (any_match c.names_exclude name))
          && ((any_tag c.tags_include tags || is_empty_list c.tags_include)
              && (any_match c.names_include name || is_empty_list c.names_include)))
        ≡ true)
      ↔ IsKept c tags name
IsKept-iff c tags name =
    let tests =
      four_iff _ _ _ _ _ _ _ _ (not_iff _ _ (any_tag_iff c.tags_exclude tags))
        (not_iff _ _ (any_match_iff c.names_exclude name))
        (either _ _ _ _ (any_tag_iff c.tags_include tags) (is_empty_list_iff c.tags_include))
        (either _ _ _ _ (any_match_iff c.names_include name) (is_empty_list_iff c.names_include)) in
    (
      (λ h. record {
        no_tag = (tests.0 h).0;
        no_name = (tests.0 h).1;
        some_tag = (tests.0 h).2;
        some_name = (tests.0 h).3;
      }),
      λ k. tests.1 (k.no_tag, k.no_name, k.some_tag, k.some_name),
    )

-- The code keeps exactly the scenarios that are to be kept: a scenario is included if and only if
-- none of its tags and no part of its name is excluded, and both the included tags and the
-- included names are either not given or have one that fits.
pub should_include_iff :
    (c : Filters) (tags : List Bytes) (name : Bytes)
    → (should_include c tags name ≡ true) ↔ IsKept c tags name
unfolding should_include
should_include_iff c tags name =
    subst (λ b. (b ≡ true) ↔ IsKept c tags name)
      (sym (
        should_include-formula (any_tag c.tags_exclude tags) (any_match c.names_exclude name)
          (any_tag c.tags_include tags) (any_match c.names_include name)
          (is_empty_list c.tags_include) (is_empty_list c.names_include)))
      (IsKept-iff c tags name)
