-- ===== src/Model/Features/Included.antt =====
-- What `included_features` yields, and on which features it ends.
use gardenlinux.Prelude.{
  ℕ, zero, suc, ◌<◌, ◌≡◌, ◌≢◌, refl, ◌↔◌, ◌⊎◌, inl, inr, String, true, List, string_eq, contains,
  arith,
}
use gardenlinux.Prelude.Result.{ok}
use gardenlinux.Model.Features.{
  FeatureDescriptor, descriptor_eq, included_feature_names, feature_by_name, included_features,
}
use gardenlinux.Model.Features.Closure.{
  Includes, named, Reaches, one, more, Reaches-trans, contains-feature_by_name, each_included_sound,
  each_included_complete, each_included-reads, each_included_mono, each_included-total,
}

module _ (features : List FeatureDescriptor) where
  included_features-reads :
      (depth : ℕ) {f g : FeatureDescriptor} (l : List FeatureDescriptor)
      → included_features features (suc depth) true f ≡ ok l
      → Includes features f g
      → (inner : List FeatureDescriptor) × (included_features features depth true g ≡ ok inner)
  unfolding included_features
  included_features-reads depth l e (named f g name c p) =
      let (h, inner, p', q) =
        each_included-reads features (included_features features depth true) _ l name e c in
      let same : h ≡ g = cc in (inner, rw (← same) q)

  sound :
      (depth : ℕ) (f g : FeatureDescriptor) (l : List FeatureDescriptor)
      → included_features features depth true f ≡ ok l
      → contains l g ≡ true
      → Reaches features f g
  unfolding included_features
  sound zero f g l e m = cc
  sound (suc d) f g l e m =
      let y = each_included_sound features (included_features features d true) _ l g e m in
      elim y.here [
        | inl same ↦ rw (← same) (one (named f y.feature y.name y.listed y.found))
        | inr within ↦
            more (named f y.feature y.name y.listed y.found)
              (sound d y.feature g y.inner y.ran within)
      ]

  each_complete :
      (depth : ℕ) {f g : FeatureDescriptor} (k : FeatureDescriptor) (l : List FeatureDescriptor)
      → included_features features (suc depth) true f ≡ ok l
      → Includes features f g
      → ((inner : List FeatureDescriptor)
          → included_features features depth true g ≡ ok inner
          → (g ≡ k) ⊎ (contains inner k ≡ true))
      → contains l k ≡ true
  unfolding included_features
  each_complete depth k l e (named f g name c p) h =
      let (inner, q) = included_features-reads depth l e (named f g name c p) in
      each_included_complete features (included_features features depth true) _ l k e (record {
        name = name;
        feature = g;
        inner = inner;
        listed = c;
        found = p;
        ran = q;
        here = h inner q;
      })

  complete :
      (depth : ℕ) {f g : FeatureDescriptor} (l : List FeatureDescriptor)
      → included_features features depth true f ≡ ok l
      → Reaches features f g
      → contains l g ≡ true
  unfolding included_features
  complete zero l e r = cc
  complete (suc d) {g = k} l e (one i) = each_complete d k l e i (λ inner q. inl refl)
  complete (suc d) {g = k} l e (more i r) =
      each_complete d k l e i (λ inner q. inr (complete d inner q r))

  -- A run that ends yields exactly the dependencies of the feature, at whatever depth of calls.
  pub included_features_iff :
      (depth : ℕ) (f g : FeatureDescriptor) (l : List FeatureDescriptor)
      → included_features features depth true f ≡ ok l
      → (contains l g ≡ true) ↔ Reaches features f g
  included_features_iff depth f g l e = (sound depth f g l e, complete depth l e)

  -- A feature that depends on itself has no list of dependencies at any depth: the call raises.
  pub included_features_cycle :
      (depth : ℕ) (f : FeatureDescriptor) (l : List FeatureDescriptor)
      → Reaches features f f
      → included_features features depth true f ≢ ok l
  unfolding included_features
  included_features_cycle zero f l r e = cc
  included_features_cycle (suc d) f l (one i) e =
      let (inner, q) = included_features-reads d l e i in
      included_features_cycle d f inner (one i) q
  included_features_cycle (suc d) f l (more {g = g} i r) e =
      let (inner, q) = included_features-reads d l e i in
      included_features_cycle d g inner (Reaches-trans features r (one i)) q

  pub included_features_mono :
      (depth : ℕ) (f : FeatureDescriptor) (l : List FeatureDescriptor)
      → included_features features depth true f ≡ ok l
      → included_features features (suc depth) true f ≡ ok l
  unfolding included_features
  included_features_mono zero f l e = cc
  included_features_mono (suc d) f l e =
      each_included_mono features (included_features features d true)
        (included_features features (suc d) true) (λ g k. included_features_mono d g k) _ l e

  -- What a feature reaches has its list where the feature has one.
  pub included_features-Reaches :
      (depth : ℕ) {f g : FeatureDescriptor} (l : List FeatureDescriptor)
      → included_features features depth true f ≡ ok l
      → Reaches features f g
      → (k : List FeatureDescriptor) × (included_features features depth true g ≡ ok k)
  unfolding included_features
  included_features-Reaches zero l e r = cc
  included_features-Reaches (suc d) {g = g} l e (one i) =
      let (inner, q) = included_features-reads d l e i in
      (inner, included_features_mono d g inner q)
  included_features-Reaches (suc d) {g = h} l e (more i r) =
      let (inner, q) = included_features-reads d l e i in
      let (k, p) = included_features-Reaches d inner q r in (k, included_features_mono d h k p)

  -- Included names are known, and each inclusion lowers a rank.
  pub record IsAcyclic (rank : FeatureDescriptor → ℕ) : Type 0 where
    pub known :
        (f : FeatureDescriptor) (name : String)
        → contains features f ≡ true
        → contains (included_feature_names f) name ≡ true
        → (g : FeatureDescriptor) × (feature_by_name features name ≡ ok g) × (rank g < rank f)

  -- Where the included names are known and each inclusion lowers a rank, the dependencies of a
  -- feature of the list are found in any depth of calls above its rank.
  pub included_features_total :
      (rank : FeatureDescriptor → ℕ) (depth : ℕ) (f : FeatureDescriptor)
      → IsAcyclic rank
      → contains features f ≡ true
      → rank f < depth
      → (l : List FeatureDescriptor) × (included_features features depth true f ≡ ok l)
  unfolding included_features
  included_features_total rank zero f a m h = absurd (omega arith)
  included_features_total rank (suc d) f a m h =
      each_included-total features (included_features features d true) _ (λ name c.
        let (g, p, lower) = a.known f name m c in
        let (inner, q) =
          included_features_total rank d g a (contains-feature_by_name features name g p)
            (omega arith) in
        (g, inner, p, q))
