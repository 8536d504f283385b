-- ===== src/Azure/Offers/Plans.antt =====
-- The images of the plans of an offer that was changed.
use gardenlinux.Prelude.{
  ◌≡◌, refl, sym, ap, ◌∙◌, String, ◌&&◌, Option, none, some, List, [], ◌∷◌, ◌==◌, if◌then◌else◌,
  string_eq, Bool-cases, Option-cases, inl, inr, ◌⊎◌, ◌↔◌, arith, beq_refl,
}
use gardenlinux.Prelude.Result.{Result, ok, err, key_error, >>=-ok, ok_injective}
use gardenlinux.Prelude.Dicts.{Dict, lookup, insert, erase, lookup-insert, erase-insert}
use gardenlinux.Azure.Offers.{
  VmImage, PlanSpec, OfferSpec, find_plan_spec, put_plan_spec, or_key_error, with_images,
  add_image_version_to_plan, remove_image_version_from_plan,
}

abbrev or_empty : Option (Dict VmImage) → Dict VmImage
or_empty none = []
or_empty (some images) = images

abbrev images_of : Result PlanSpec → Dict VmImage
images_of (err e) = []
images_of (ok plan) = or_empty plan.vm_images

-- The image of a version in the plan of an identifier.
pub image_of : OfferSpec → String → String → Option VmImage
image_of spec plan_id image_version =
    lookup image_version (images_of (find_plan_spec spec.plans plan_id))

find_plan_spec_id :
    (plans : List PlanSpec) (plan_id : String) (plan : PlanSpec)
    → find_plan_spec plans plan_id ≡ ok plan
    → plan.plan_id ≡ plan_id
unfolding find_plan_spec
find_plan_spec_id [] plan_id plan h = cc
find_plan_spec_id (p ∷ plans) plan_id plan h = elim (Bool-cases (p.plan_id == plan_id)) [
  | inl same ↦
      let e : p ≡ plan = ok_injective (rw same at h) in
      ap (λ (x : PlanSpec). x.plan_id) (sym e) ∙ (string_eq.equals_iff p.plan_id plan_id).0 same
  | inr other ↦ find_plan_spec_id plans plan_id plan (rw other at h)
]

find-put :
    (plans : List PlanSpec) (plan_id : String) (plan changed : PlanSpec) (j : String)
    → find_plan_spec plans plan_id ≡ ok plan
    → changed.plan_id ≡ plan_id
    → find_plan_spec (put_plan_spec changed plans) j
      ≡ (if plan_id == j then ok changed else find_plan_spec plans j)
unfolding find_plan_spec put_plan_spec
find-put [] plan_id plan changed j h e = cc
find-put (p ∷ plans) plan_id plan changed j h e = ground (
  arith,
  find-put plans plan_id plan changed j,
  string_eq.equals_iff p.plan_id plan_id,
  string_eq.equals_iff p.plan_id changed.plan_id,
  string_eq.equals_iff plan_id j,
  string_eq.equals_iff p.plan_id j,
  string_eq.equals_iff changed.plan_id j,
)

put-put :
    (plans : List PlanSpec) (plan changed : PlanSpec)
    → find_plan_spec plans plan.plan_id ≡ ok plan
    → changed.plan_id ≡ plan.plan_id
    → put_plan_spec plan (put_plan_spec changed plans) ≡ plans
unfolding find_plan_spec put_plan_spec
put-put [] plan changed h e = cc
put-put (p ∷ plans) plan changed h e = ground (
  arith,
  put-put plans plan changed,
  string_eq.equals_iff p.plan_id plan.plan_id,
  string_eq.equals_iff p.plan_id changed.plan_id,
  string_eq.equals_iff plan.plan_id changed.plan_id,
  string_eq.equals_iff changed.plan_id plan.plan_id,
)

-- What a change that returns has found.
pub add-found :
    (spec : OfferSpec) (plan_id v url : String) (spec' : OfferSpec)
    → add_image_version_to_plan spec plan_id v url ≡ ok spec'
    → (plan : PlanSpec) × (images : Dict VmImage) × (find_plan_spec spec.plans plan_id ≡ ok plan)
      × (plan.vm_images ≡ some images)
      × (spec' ≡ record spec {
        plans =
            put_plan_spec
              (with_images plan
                (insert v (record { os_vhd_url = url; lun_vhd_details = [] }) images))
              spec.plans;
      })
unfolding add_image_version_to_plan
add-found spec plan_id v url spec' h =
    let (plan, e₁, h₁) = >>=-ok (find_plan_spec spec.plans plan_id) _ h in
    let (images, e₂, h₂) = >>=-ok (or_key_error plan.vm_images) _ h₁ in
    (plan, images, e₁, some_of plan.vm_images e₂, sym (ok_injective h₂))
  where
    some_of : {A : Type 0} (o : Option A) → {a : A} → or_key_error o ≡ ok a → o ≡ some a
    some_of none h = cc
    some_of (some a) h = cc

abbrev with_option : PlanSpec → Option (Dict VmImage) → PlanSpec
with_option plan images = record plan { vm_images = images }

module _ (plans : List PlanSpec) (plan_id : String) (plan : PlanSpec) (images : Dict VmImage)
    (found : find_plan_spec plans plan_id ≡ ok plan) (has : plan.vm_images ≡ some images)
    (v url : String) (image : VmImage) where
  abbrev changed : PlanSpec
  changed = with_images plan (insert v image images)

  image-put :
      (p v' : String)
      → lookup v' (images_of (find_plan_spec (put_plan_spec changed plans) p)) ≡ (
          if plan_id == p && v == v'
          then some image
          else lookup v' (images_of (find_plan_spec plans p)))
  image-put p v' =
      let put =
        find-put plans plan_id plan changed p found (find_plan_spec_id plans plan_id plan found) in
      let law = lookup-insert v v' image images in
      elim (Bool-cases (plan_id == p)) [
        | inl here ↦
            let q : find_plan_spec plans p ≡ ok plan =
              rw (← (string_eq.equals_iff plan_id p).0 here) found in
            rw (put, here, q, has) law
        | inr there ↦ rw (put, there) refl
      ]

  remove-put :
      (other : String)
      → lookup v images ≡ none
      → remove_image_version_from_plan
          (record { plans = put_plan_spec changed plans; other = other })
          plan_id
          v
          url
        ≡ ok (record { plans = plans; other = other })
  unfolding remove_image_version_from_plan
  remove-put other fresh =
      let same = find_plan_spec_id plans plan_id plan found in
      let put = find-put plans plan_id plan changed plan_id found same in
      let there : find_plan_spec (put_plan_spec changed plans) plan_id ≡ ok changed =
        rw (beq_refl plan_id) at put in
      let law = lookup-insert v v image images in
      let held : lookup v (insert v image images) ≡ some image = rw (beq_refl v) at law in
      let back : erase v (insert v image images) ≡ images = erase-insert v image images fresh in
      let kept : with_images plan images ≡ plan = ap (with_option plan) (sym has) in
      let at_id : find_plan_spec plans plan.plan_id ≡ ok plan =
        ap (find_plan_spec plans) same ∙ found in
      let whole : put_plan_spec (with_images plan images) (put_plan_spec changed plans) ≡ plans =
        ap (λ q. put_plan_spec q (put_plan_spec changed plans)) kept
        ∙ put-put plans plan changed at_id refl in
      rw (there, held, back) (ap (λ l. ok (record { plans = l; other = other })) whole)

-- After an image version is added to a plan, the plan has the image under that version; all other
-- versions and all other plans have the images that they had.
pub add_image_version_to_plan-image_of :
    (spec : OfferSpec) (plan_id v url : String) (spec' : OfferSpec)
    → add_image_version_to_plan spec plan_id v url ≡ ok spec'
    → (p v' : String)
    → image_of spec' p v' ≡ (
        if plan_id == p && v == v'
        then some (record { os_vhd_url = url; lun_vhd_details = [] })
        else image_of spec p v')
unfolding image_of
add_image_version_to_plan-image_of spec plan_id v url spec' h p v' =
    let (plan, images, found, has, e) = add-found spec plan_id v url spec' h in
    rw e (
      image-put spec.plans plan_id plan images found has v url
        (record { os_vhd_url = url; lun_vhd_details = [] }) p v')

-- Removing an image version that was added to a plan without it leads back to the offer.
pub remove_image_version_from_plan-add :
    (spec : OfferSpec) (plan_id v url : String) (spec' : OfferSpec)
    → add_image_version_to_plan spec plan_id v url ≡ ok spec'
    → image_of spec plan_id v ≡ none
    → remove_image_version_from_plan spec' plan_id v url ≡ ok spec
unfolding image_of remove_image_version_from_plan
remove_image_version_from_plan-add spec plan_id v url spec' h missing =
    let (plan, images, found, has, e) = add-found spec plan_id v url spec' h in
    let fresh : lookup v images ≡ none = rw (ap images_of found, ap or_empty has) at missing in
    rw e (
      remove-put spec.plans plan_id plan images found has v url
        (record { os_vhd_url = url; lun_vhd_details = [] }) spec.other fresh)

find_plan_spec-cases :
    (plans : List PlanSpec) (plan_id : String)
    → (find_plan_spec plans plan_id ≡ err key_error)
      ⊎ ((plan : PlanSpec) × (find_plan_spec plans plan_id ≡ ok plan))
unfolding find_plan_spec
find_plan_spec-cases [] plan_id = inl refl
find_plan_spec-cases (p ∷ plans) plan_id = elim (Bool-cases (p.plan_id == plan_id)) [
  | inl here ↦ inr (p, rw here refl)
  | inr there ↦ rw there (find_plan_spec-cases plans plan_id)
]

-- Adding raises exactly where the plan is missing or has no dictionary of images, and then a
-- `KeyError`.
pub add_image_version_to_plan_missing :
    (spec : OfferSpec) (plan_id v url : String)
    → (add_image_version_to_plan spec plan_id v url ≡ err key_error)
      ↔ ((plan : PlanSpec) → find_plan_spec spec.plans plan_id ≡ ok plan → plan.vm_images ≡ none)
unfolding add_image_version_to_plan
add_image_version_to_plan_missing spec plan_id v url =
    elim (find_plan_spec-cases spec.plans plan_id) [
      | inl e ↦ (λ h plan found. absurd (ground arith), λ h. rw e refl)
      | inr (plan, e) ↦ elim (Option-cases plan.vm_images) [
        | inl missing ↦ (
          λ h p found. let same : plan ≡ p = ok_injective (sym e ∙ found) in (rw (← same) missing),
          λ h. rw (e, missing) refl,
        )
        | inr (images, has) ↦ (
          λ h p found. absurd (ground (arith, rw (e, has) at h)),
          λ h. absurd (ground (arith, h plan e)),
        )
      ]
    ]
