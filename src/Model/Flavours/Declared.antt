-- ===== src/Model/Flavours/Declared.antt =====
-- Which flavours a flavour set yields, and how many.
use gardenlinux.Prelude.{
  ℕ, ◌+◌, ◌*◌, ◌≡◌, refl, sym, ap, ◌∙◌, ◌↔◌, String, true, List, [], ◌∷◌, length, length-append,
  length-map, length-flat_map, subst, flat_map, contains, contains-to_set, is_nil-difference,
  is_nil, to_set, difference, In, In-map, map-In, In-flat_map, flat_map-In, In-map_result,
  map_result-In, length-map_result, arith, string_eq,
}
use gardenlinux.Prelude.Result.{ok, value_error, >>=-ok, guard}
use gardenlinux.Model.Features.{FeatureDescriptor, platform, modifier, of_type}
use gardenlinux.Model.Modifiers.{names, normalised_modifiers}
use gardenlinux.Model.Flavours.{
  Architecture, Flavour, FlavourCombination, FlavourSet, product, choices, flavour,
  normalised_flavour, flavours,
}

module _ {ℓ} {A B C : Type ℓ} where
  In-product :
      {a : A} {b : B} {c : C} {as' : List A} {bs : List B} {cs : List C}
      → In a as'
      → In b bs
      → In c cs
      → In (a, b, c) (product as' bs cs)
  unfolding product
  In-product ma mb mc = In-flat_map _ ma (In-flat_map _ mb (In-map _ mc))

  product-In :
      (as' : List A) (bs : List B) (cs : List C) {t : A × B × C}
      → In t (product as' bs cs)
      → (In t.0 as') × (In t.1 bs) × (In t.2 cs)
  unfolding product
  product-In as' bs cs m =
      let (a, ma, h) = flat_map-In _ as' m in
      let (b, mb, k) = flat_map-In _ bs h in
      let (c, mc, e) = map-In _ cs k in
      subst (λ (u : A × B × C). (In u.0 as') × (In u.1 bs) × (In u.2 cs)) e (ma, mb, mc)

  length-product :
      (as' : List A) (bs : List B) (cs : List C)
      → length (product as' bs cs) ≡ length as' * (length bs * length cs)
  unfolding product
  length-product as' bs cs =
      length-flat_map _ (length bs * length cs) as'
        (λ a. length-flat_map _ (length cs) bs (λ b. length-map cs (λ c. (a, b, c))))

-- The choices of a set: how many flavours it declares.
pub declared_count : List FlavourCombination → ℕ
declared_count [] = 0
declared_count (c ∷ cs) =
    length c.architectures * (length c.platforms * length c.modifiers) + declared_count cs

In-choices :
    {t : Architecture × String × List String} {c : FlavourCombination}
    {cs : List FlavourCombination}
    → In c cs
    → In t (product c.architectures c.platforms c.modifiers)
    → In t (choices cs)
unfolding choices
In-choices mc m = In-flat_map _ mc m

choices-In :
    (cs : List FlavourCombination) {t : Architecture × String × List String}
    → In t (choices cs)
    → (c : FlavourCombination) × In c cs × In t (product c.architectures c.platforms c.modifiers)
unfolding choices
choices-In cs m = flat_map-In _ cs m

length-choices : (cs : List FlavourCombination) → length (choices cs) ≡ declared_count cs
unfolding choices declared_count flat_map
length-choices [] = refl
length-choices (c ∷ cs) =
    length-append (product c.architectures c.platforms c.modifiers) (choices cs)
    ∙ omega (arith, length-product c.architectures c.platforms c.modifiers, length-choices cs)

module _ (features : List FeatureDescriptor) where
  -- What `__post_init__` asks for: the platform is the name of a feature of that type, and so is
  -- each modifier.
  pub record IsValid (f : Flavour) : Type 0 where
    pub platform_known : contains (names (of_type platform features)) f.platform ≡ true
    pub modifiers_known :
        (m : String)
        → contains f.modifiers m ≡ true
        → contains (names (of_type modifier features)) m ≡ true

  flavour_iff :
      (a : Architecture) (p : String) (mods : List String) (f : Flavour)
      → (flavour features a p mods ≡ ok f)
        ↔ ((record { architecture = a; platform = p; modifiers = mods } ≡ f) × IsValid f)
  unfolding flavour
  flavour_iff a p mods f = (
    λ e.
        let (u, known, e₁) = >>=-ok (guard (contains platform_set p) value_error) _ e in
        let (v, all_known, e₂) = >>=-ok (guard (is_nil unknown) value_error) _ e₁ in
        let same : built ≡ f = cc e₂ in
        (
          same,
          subst IsValid same (record {
            platform_known =
                ground (arith, known, contains-to_set (names (of_type platform features)) p);
            modifiers_known = λ m c. ground (
              arith,
              all_known,
              (is_nil-difference (to_set mods) modifier_set).0 (ground arith) m,
              contains-to_set mods m,
              contains-to_set (names (of_type modifier features)) m,
            );
          }),
        ),
    λ (same, valid).
        let v : IsValid built = subst IsValid (sym same) valid in
        rw
          (
            contains-to_set (names (of_type platform features)) p ∙ v.platform_known,
            (is_nil-difference (to_set mods) modifier_set).1 (λ m c.
                contains-to_set (names (of_type modifier features)) m
                ∙ v.modifiers_known m (sym (contains-to_set mods m) ∙ c)),
          )
          (ap ok same),
  )
    where
      built : Flavour
      built = record { architecture = a; platform = p; modifiers = mods }

      platform_set : List String
      platform_set = to_set (names (of_type platform features))

      modifier_set : List String
      modifier_set = to_set (names (of_type modifier features))

      unknown : List String
      unknown = difference (to_set mods) modifier_set

  module _ (depth : ℕ) where
    -- `f` is a valid flavour whose modifiers are those of a declared choice, normalised.
    pub data IsDeclared (s : FlavourSet) (f : Flavour) : Type 0 where
      declared :
          (c : FlavourCombination) (mods : List String)
          → In c s.flavour_combinations
          → In f.architecture c.architectures
          → In f.platform c.platforms
          → In mods c.modifiers
          → normalised_modifiers features depth f.platform mods ≡ ok f.modifiers
          → IsValid f
          → IsDeclared s f

    normalised_flavour_iff :
        (a : Architecture) (p : String) (mods : List String) (f : Flavour)
        → normalised_flavour features depth (a, p, mods) ≡ ok f
        → (a ≡ f.architecture)
          × (p ≡ f.platform)
          × (normalised_modifiers features depth f.platform mods ≡ ok f.modifiers)
          × IsValid f
    unfolding normalised_flavour
    normalised_flavour_iff a p mods f e =
        let (ms, q, e₁) = >>=-ok (normalised_modifiers features depth p mods) _ e in
        let (same, v) = (flavour_iff a p ms f).0 e₁ in
        let sp = ap (λ (g : Flavour). g.platform) same in
        (
          ap (λ (g : Flavour). g.architecture) same,
          sp,
          subst (λ x. normalised_modifiers features depth x mods ≡ ok f.modifiers) sp
              (q ∙ ap (λ (g : Flavour). ok g.modifiers) same),
          v,
        )

    normalised_flavour_of :
        (f : Flavour) (mods : List String)
        → normalised_modifiers features depth f.platform mods ≡ ok f.modifiers
        → IsValid f
        → normalised_flavour features depth (f.architecture, f.platform, mods) ≡ ok f
    unfolding normalised_flavour
    normalised_flavour_of f mods q v =
        rw q ((flavour_iff f.architecture f.platform f.modifiers f).1 (refl, v))

    -- Where no choice raises, the flavours of a set are exactly the valid ones that a combination
    -- declares, with normalised modifiers, and there is one for each choice.
    pub flavours-IsDeclared :
        (s : FlavourSet) (l : List Flavour)
        → flavours features depth s ≡ ok l
        → ((f : Flavour) → In f l ↔ IsDeclared s f)
          × (length l ≡ declared_count s.flavour_combinations)
    unfolding flavours
    flavours-IsDeclared s l e = (
      λ f. (
        λ m.
            let ((a, p, mods), h, q) =
              map_result-In (normalised_flavour features depth) (choices s.flavour_combinations) l e
                m in
            let (c, mc, k) = choices-In s.flavour_combinations h in
            let (ma, mp, mm) = product-In c.architectures c.platforms c.modifiers k in
            let (ea, ep, r, v) = normalised_flavour_iff a p mods f q in
            declared c mods mc (subst (λ x. In x c.architectures) ea ma)
              (subst (λ x. In x c.platforms) ep mp) mm r v,
        λ d. elim d [
          | declared c mods mc ma mp mm q v ↦
              In-map_result (normalised_flavour features depth) (choices s.flavour_combinations) l e
                (normalised_flavour_of f mods q v) (In-choices mc (In-product ma mp mm))
        ],
      ),
      length-map_result _ _ l e ∙ length-choices s.flavour_combinations,
    )
