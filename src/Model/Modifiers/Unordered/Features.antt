-- ===== src/Model/Modifiers/Unordered/Features.antt =====
-- The canonical features of modifiers in another order.
use mathlib.Core.Path.{ap₂}
use gardenlinux.Prelude.{
  ℕ, nat_eq, ◌≡◌, refl, sym, ap, subst, ◌∙◌, ◌↔◌, inl, inr, String, true, List, [], ◌∷◌, list_eq,
  ◌==◌, string_eq, Bool-cases, contains, to_set, difference, upper, sorted, NoDup, to_set-NoDup,
  keep-NoDup, difference-NoDup, KeyInjective, IsSorted-unique, sorted-NoDup, sorted-IsSorted,
  eq_of_beq, beq_refl, arith,
}
use gardenlinux.Prelude.Result.{ok, >>=-ok, map_result}
use gardenlinux.Model.Features.{
  FeatureDescriptor, descriptor_eq, feature_by_name, included_features,
}
use gardenlinux.Model.Modifiers.{subtract_platform, drop_included, canonicalised_features}
use gardenlinux.Model.Modifiers.Selected.{map_result-found}
use gardenlinux.Model.Modifiers.Idempotent.{both_true, map_result-total}
use gardenlinux.Model.Modifiers.Canonical.{
  IsImplied, by, drop_included-cons, canonicalised_features_members,
}
use gardenlinux.Model.Modifiers.Unordered.{SameNames, IsCased}

module _ (features : List FeatureDescriptor) where
  module _ (depth : ℕ) where
    IsImplied-SameNames :
        {ms ns : List String} {g : FeatureDescriptor}
        → SameNames ms ns
        → IsImplied features depth ms g
        → IsImplied features depth ns g
    IsImplied-SameNames same (by m f h b r) = by m f (sym (same m) ∙ h) b r

    drop_included-reads :
        (ms : List String) (minimal l : List FeatureDescriptor) (m : String)
        → drop_included features depth ms minimal ≡ ok l
        → contains ms m ≡ true
        → (f : FeatureDescriptor) × (k : List FeatureDescriptor) × (feature_by_name features m
            ≡ ok f)
          × (included_features features depth true f ≡ ok k)
    unfolding contains
    drop_included-reads [] minimal l m e c = cc
    drop_included-reads (n ∷ ms) minimal l m e c =
        let (f, k, p, q, e') = drop_included-cons features depth n ms minimal l e in
        elim (Bool-cases (n == m)) [
          | inl same ↦ (f, k, ap (feature_by_name features) (sym (eq_of_beq n m same)) ∙ p, q)
          | inr other ↦ drop_included-reads ms (difference minimal k) l m e' (ground arith)
        ]

    drop_included-total :
        (ms : List String) (minimal : List FeatureDescriptor)
        → ((m : String)
            → contains ms m ≡ true
            → (f : FeatureDescriptor) × (k : List FeatureDescriptor) × (feature_by_name features m
                ≡ ok f)
              × (included_features features depth true f ≡ ok k))
        → (l : List FeatureDescriptor) × (drop_included features depth ms minimal ≡ ok l)
    unfolding drop_included contains
    drop_included-total [] minimal h = (minimal, refl)
    drop_included-total (m ∷ ms) minimal h =
        let (f, k, p, q) = h m (ground (arith, beq_refl m)) in
        let (l, e) = drop_included-total ms (difference minimal k) (λ n c. h n (ground arith)) in
        (l, rw (p, q, e) refl)

    drop_included-NoDup :
        (ms : List String) (minimal l : List FeatureDescriptor)
        → drop_included features depth ms minimal ≡ ok l
        → NoDup minimal
        → NoDup l
    unfolding drop_included
    drop_included-NoDup [] minimal l e h = let same : minimal ≡ l = cc e in rw (← same) h
    drop_included-NoDup (m ∷ ms) minimal l e h =
        let (f, k, p, q, e') = drop_included-cons features depth m ms minimal l e in
        drop_included-NoDup ms (difference minimal k) l e' (difference-NoDup minimal k h)

    abbrev key : FeatureDescriptor → List ℕ
    key m = upper m.name

    -- The values of the variables of a call of `canonicalised_features` that returns.
    record Canonicalised (platform : String) (ms : List String) (l : List FeatureDescriptor)
        : Type 0 where
      p : FeatureDescriptor
      found : List FeatureDescriptor
      minimal : List FeatureDescriptor
      named_platform : feature_by_name features platform ≡ ok p
      named_modifiers : map_result (feature_by_name features) ms ≡ ok found
      dropped : drop_included features depth ms (subtract_platform ms (to_set found)) ≡ ok minimal
      result : p ∷ sorted key minimal ≡ l

    canonicalised :
        (platform : String) (ms : List String) (l : List FeatureDescriptor)
        → canonicalised_features features depth platform ms ≡ ok l
        → Canonicalised platform ms l
    unfolding canonicalised_features
    canonicalised platform ms l e =
        let (p, ep, e₁) = >>=-ok (feature_by_name features platform) _ e in
        let (found, ef, e₂) = >>=-ok (map_result (feature_by_name features) ms) _ e₁ in
        let (minimal, em, e₃) = >>=-ok (drop_included features depth ms _) _ e₂ in
        record {
          p = p;
          found = found;
          minimal = minimal;
          named_platform = ep;
          named_modifiers = ef;
          dropped = em;
          result = cc e₃;
        }

    Canonicalised-SameNames :
        {platform : String} {ms : List String} {l : List FeatureDescriptor} (ns : List String)
        → SameNames ms ns
        → Canonicalised platform ms l
        → (l' : List FeatureDescriptor) × (canonicalised_features features depth platform ns
            ≡ ok l')
    unfolding canonicalised_features
    Canonicalised-SameNames {ms} ns same r =
        let (fs, p) = map_result-total features ns (λ m c.
          let (f, b, _) = map_result-found features ms r.found m r.named_modifiers (same m ∙ c) in
          (f, b)) in
        let (minimal, q) =
          drop_included-total ns (subtract_platform ns (to_set fs))
            (λ m c. drop_included-reads ms _ r.minimal m r.dropped (same m ∙ c)) in
        (r.p ∷ sorted key minimal, rw (r.named_platform, p, q) refl)

    abbrev IsKept : List String → FeatureDescriptor → Type 0
    IsKept ms g =
        (contains ms g.name ≡ true)
        × (feature_by_name features g.name ≡ ok g)
        × (¬ IsImplied features depth ms g)

    IsKept-SameNames :
        {ms : List String} {g : FeatureDescriptor} (ns : List String)
        → SameNames ms ns
        → IsKept ms g
        → IsKept ns g
    IsKept-SameNames {g} ns same (c, b, apart) =
        (sym (same g.name) ∙ c, b, λ i. apart (IsImplied-SameNames (λ x. sym (same x)) i))

    kept :
        (platform : String) (ms : List String) (l : List FeatureDescriptor)
        (r : Canonicalised platform ms l)
        → canonicalised_features features depth platform ms ≡ ok l
        → (g : FeatureDescriptor) → (contains (sorted key r.minimal) g ≡ true) ↔ IsKept ms g
    kept platform ms l r e g =
        let (p, rest, split, _, _, members) =
          canonicalised_features_members features depth platform ms l e in
        let same : rest ≡ sorted key r.minimal = cc (r.result, split) in
        subst (λ xs. (contains xs g ≡ true) ↔ IsKept ms g) same (members g)

    sorted_unique :
        {platform : String} {ms : List String} {l : List FeatureDescriptor}
        (r : Canonicalised platform ms l)
        → NoDup (sorted key r.minimal)
    unfolding subtract_platform
    sorted_unique {ms} r = sorted-NoDup key r.minimal (
        drop_included-NoDup ms _ r.minimal r.dropped
          (keep-NoDup _ (to_set r.found) (to_set-NoDup r.found)))

  -- Where no two features differ in case alone, modifiers with the same names have the same
  -- canonical features.
  pub canonicalised_features_unordered :
      (depth : ℕ) (platform : String) (ms ns : List String) (l : List FeatureDescriptor)
      → IsCased features
      → SameNames ms ns
      → canonicalised_features features depth platform ms ≡ ok l
      → canonicalised_features features depth platform ns ≡ ok l
  canonicalised_features_unordered depth platform ms ns l cased same e =
      let r = canonicalised depth platform ms l e in
      let (l', e') = Canonicalised-SameNames depth ns same r in
      let r' = canonicalised depth platform ns l' e' in
      let has = kept depth platform ms l r e in
      let has' = kept depth platform ns l' r' e' in
      let platforms : r.p ≡ r'.p = cc (r.named_platform, r'.named_platform) in
      let injective : KeyInjective (key depth) (sorted (key depth) r.minimal) = λ a b m n k.
        let (_, p, _) = (has a).0 m in
        let (_, q, _) = (has b).0 n in let named = cased a.name b.name a b p q k in cc in
      let rests : sorted (key depth) r.minimal ≡ sorted (key depth) r'.minimal =
        IsSorted-unique (key depth) _ _ (sorted-IsSorted (key depth) r.minimal)
          (sorted-IsSorted (key depth) r'.minimal) (sorted_unique depth r) (sorted_unique depth r')
          injective
          (λ g.
            both_true _ _ (λ c. (has' g).1 (IsKept-SameNames depth ns same ((has g).0 c)))
              (λ c. (has g).1 (IsKept-SameNames depth ms (λ x. sym (same x)) ((has' g).0 c)))) in
      e' ∙ ap ok (sym r'.result ∙ sym (ap₂ ◌∷◌ platforms rests) ∙ r.result)
