-- ===== src/Model/Modifiers/Canonical.antt =====
-- What `canonicalised_features` keeps of the modifiers, and what it leaves in.
use gardenlinux.Prelude.{
  ℕ, ◌≡◌, refl, sym, ap, subst, ◌∙◌, ◌↔◌, inl, inr, String, true, false, List, [], ◌∷◌, map, ◌==◌,
  string_eq, Bool-cases, contains, to_set, difference, sorted, upper, IsSorted, sorted-IsSorted,
  contains-sorted, contains-to_set, contains-keep, contains-difference, eq_of_beq, beq_refl, arith,
}
use gardenlinux.Prelude.Result.{ok, >>=-ok, map_result}
use gardenlinux.Model.Features.{
  FeatureDescriptor, descriptor_eq, feature_by_name, included_features,
}
use gardenlinux.Model.Features.Closure.{Reaches}
use gardenlinux.Model.Features.Included.{included_features_iff}
use gardenlinux.Model.Modifiers.{
  descriptor, text, generator, item_eq, subtract_platform, drop_included, canonicalised_features,
}
use gardenlinux.Model.Modifiers.Idempotent.{feature_by_name-Reaches}
use gardenlinux.Model.Modifiers.Selected.{found-map_result, map_result-found}

-- No descriptor is among the names and the generator that are subtracted.
contains-text :
    (ms : List String) (f : FeatureDescriptor) → contains (map text ms) (descriptor f) ≡ false
unfolding contains
contains-text [] f = refl
contains-text (m ∷ ms) f = contains-text ms f

nothing_subtracted :
    (ms : List String) (f : FeatureDescriptor)
    → contains (to_set (generator ∷ map text ms)) (descriptor f) ≡ false
unfolding contains
nothing_subtracted ms f =
    contains-to_set (generator ∷ map text ms) (descriptor f) ∙ contains-text ms f

contains-subtract_platform :
    (ms : List String) (fs : List FeatureDescriptor) (g : FeatureDescriptor)
    → contains (subtract_platform ms fs) g ≡ contains fs g
unfolding subtract_platform
contains-subtract_platform ms fs g = contains-keep _ fs g ∙ ground (arith, nothing_subtracted ms g)

module _ (features : List FeatureDescriptor) (depth : ℕ) where
  -- Some modifier depends on `g`.
  pub data IsImplied (modifiers : List String) (g : FeatureDescriptor) : Type 0 where
    by :
        (m : String) (f : FeatureDescriptor)
        → contains modifiers m ≡ true
        → feature_by_name features m ≡ ok f
        → Reaches features f g
        → IsImplied modifiers g

  IsImplied-cons :
      (m : String) {ms : List String} {g : FeatureDescriptor}
      → IsImplied ms g
      → IsImplied (m ∷ ms) g
  unfolding contains
  IsImplied-cons m (by n f d b r) = by n f (ground arith) b r

  -- The set that the loop starts from holds the features that the modifiers name.
  pub start_members :
      (modifiers : List String) (found : List FeatureDescriptor) (g : FeatureDescriptor)
      → map_result (feature_by_name features) modifiers ≡ ok found
      → (contains (subtract_platform modifiers (to_set found)) g ≡ true)
        ↔ ((contains modifiers g.name ≡ true) × (feature_by_name features g.name ≡ ok g))
  start_members modifiers found g e = (
    λ c. found-map_result features modifiers found g e (
        ground
          (arith, contains-subtract_platform modifiers (to_set found) g, contains-to_set found g)),
    λ (d, b).
        let (f, b', c) = map_result-found features modifiers found g.name e d in
        let same : f ≡ g = cc in
        contains-subtract_platform modifiers (to_set found) g
        ∙ (contains-to_set found g ∙ (ap (contains found) (sym same) ∙ c)),
  )

  pub drop_included-cons :
      (m : String) (ms : List String) (minimal l : List FeatureDescriptor)
      → drop_included features depth (m ∷ ms) minimal ≡ ok l
      → (f : FeatureDescriptor) × (included : List FeatureDescriptor) × (feature_by_name features m
          ≡ ok f)
        × (included_features features depth true f ≡ ok included)
        × (drop_included features depth ms (difference minimal included) ≡ ok l)
  unfolding drop_included
  drop_included-cons m ms minimal l e =
      let (f, p, e₁) = >>=-ok (feature_by_name features m) _ e in
      let (inc, q, e₂) = >>=-ok (included_features features depth true f) _ e₁ in (f, inc, p, q, e₂)

  drop_included_sound :
      (ms : List String) (minimal l : List FeatureDescriptor) (g : FeatureDescriptor)
      → drop_included features depth ms minimal ≡ ok l
      → contains l g ≡ true
      → (contains minimal g ≡ true) × (¬ IsImplied ms g)
  unfolding drop_included contains
  drop_included_sound [] minimal l g e h = (ground arith, λ i. elim i [ by m f c b r ↦ cc ])
  drop_included_sound (m ∷ ms) minimal l g e h =
      let (f, inc, p, q, e') = drop_included-cons m ms minimal l e in
      let (c, k) = drop_included_sound ms (difference minimal inc) l g e' h in
      let stays = contains-difference minimal inc g in
      (
        ground (arith, stays, c),
        λ i. elim i [
          | by n f' d b r ↦ elim (Bool-cases (m == n)) [
            | inl same ↦
                let same' : f' ≡ f = cc (eq_of_beq m n same) in
                let listed =
                  (included_features_iff features depth f g inc q).1
                    (subst (λ x. Reaches features x g) same' r) in
                absurd (ground (arith, stays, c, listed))
            | inr other ↦ k (by n f' (ground (arith, d)) b r)
          ]
        ],
      )

  drop_included_complete :
      (ms : List String) (minimal l : List FeatureDescriptor) (g : FeatureDescriptor)
      → drop_included features depth ms minimal ≡ ok l
      → contains minimal g ≡ true
      → ¬ IsImplied ms g
      → contains l g ≡ true
  unfolding drop_included contains
  drop_included_complete [] minimal l g e c k = ground arith
  drop_included_complete (m ∷ ms) minimal l g e c k =
      let (f, inc, p, q, e') = drop_included-cons m ms minimal l e in
      drop_included_complete ms (difference minimal inc) l g e'
        (elim (Bool-cases (contains inc g)) [
          | inl listed ↦ absurd (
              k (
                by m f (ground (arith, beq_refl m)) p
                  ((included_features_iff features depth f g inc q).0 listed)))
          | inr absent ↦ ground (arith, contains-difference minimal inc g)
        ])
        (λ i. k (IsImplied-cons m i))

  -- A result that is returned begins with the feature of the platform. The rest is sorted by the
  -- upper-cased names and holds exactly the features that are named by a modifier and that no
  -- modifier depends on, whether or not the platform depends on them: what only the platform depends
  -- on is not removed.
  pub canonicalised_features_members :
      (platform : String) (modifiers : List String) (l : List FeatureDescriptor)
      → canonicalised_features features depth platform modifiers ≡ ok l
      → (p : FeatureDescriptor) × (rest : List FeatureDescriptor) × (l ≡ p ∷ rest)
        × (feature_by_name features platform ≡ ok p)
        × IsSorted (λ (m : FeatureDescriptor). upper m.name) rest
        × ((g : FeatureDescriptor)
            → (contains rest g ≡ true) ↔ (
                (contains modifiers g.name ≡ true)
                × (feature_by_name features g.name ≡ ok g)
                × (¬ IsImplied modifiers g)))
  unfolding canonicalised_features
  canonicalised_features_members platform modifiers l e =
      let (p, ep, e₁) = >>=-ok (feature_by_name features platform) _ e in
      let (found, ef, e₂) = >>=-ok (map_result (feature_by_name features) modifiers) _ e₁ in
      let (minimal, em, e₃) = >>=-ok (drop_included features depth modifiers _) _ e₂ in
      let key : FeatureDescriptor → List ℕ = λ m. upper m.name in
      (
        p,
        sorted key minimal,
        cc e₃,
        ep,
        sorted-IsSorted key minimal,
        λ g. (
          λ h.
              let (c, k) =
                drop_included_sound modifiers _ minimal g em
                  (sym (contains-sorted key minimal g) ∙ h) in
              let (d, b) = (start_members modifiers found g ef).0 c in (d, b, k),
          λ (d, b, apart).
              contains-sorted key minimal g
              ∙ drop_included_complete modifiers _ minimal g em
                  ((start_members modifiers found g ef).1 (d, b)) apart,
        ),
      )

  -- A modifier that no modifier depends on stays in a result that is returned also where the
  -- platform depends on it already.
  pub canonicalised_features_keep :
      (platform : String) (modifiers : List String) (l : List FeatureDescriptor)
      (p g : FeatureDescriptor)
      → canonicalised_features features depth platform modifiers ≡ ok l
      → feature_by_name features platform ≡ ok p
      → Reaches features p g
      → contains modifiers g.name ≡ true
      → ¬ IsImplied modifiers g
      → contains l g ≡ true
  unfolding contains
  canonicalised_features_keep platform modifiers l p g e b r c apart =
      let (q, rest, split, b', s, members) =
        canonicalised_features_members platform modifiers l e in
      let within = (members g).1 (c, feature_by_name-Reaches features r, apart) in
      ap (λ xs. contains xs g) split ∙ ground (arith, within)
