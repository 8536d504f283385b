-- ===== src/Azure/Offers.antt =====
-- The offers of the Azure Marketplace and how their plans are changed (ci/glci/az.py).
pub mod Plans
use gardenlinux.Prelude.{
  ◌≡◌, String, ◌<>◌, Bool, Option, none, some, List, [], ◌∷◌, ◌==◌, if◌then◌else◌, string_eq,
}
use gardenlinux.Prelude.Result.{Result, ok, err, key_error, ◌>>=◌}
use gardenlinux.Prelude.Dicts.{Dict, lookup, insert, erase}

pub record AzureMarketplaceCfg : Type 0 where
  pub publisher_id : String
  pub offer_id : String
  pub plan_id : String

-- A member of `microsoft-azure-virtualmachines.vmImages`.
pub record VmImage : Type 0 where
  pub os_vhd_url : String
  pub lun_vhd_details : List String

-- A plan of an offer, which may lack the dictionary of images; `other` is the rest of the document.
pub record PlanSpec : Type 0 where
  pub plan_id : String
  pub vm_images : Option (Dict VmImage)
  pub other : String

pub record OfferSpec : Type 0 where
  pub plans : List PlanSpec
  pub other : String

-- The message of the `RuntimeError` for a missing plan reads `id` of an empty dictionary.
unfoldable pub find_plan_spec : List PlanSpec → String → Result PlanSpec
find_plan_spec [] plan_id = err key_error
find_plan_spec (plan ∷ plans) plan_id =
    let rest = find_plan_spec plans plan_id in if plan.plan_id == plan_id then ok plan else rest

-- The plan that was found is changed in place.
unfoldable pub put_plan_spec : PlanSpec → List PlanSpec → List PlanSpec
put_plan_spec changed [] = []
put_plan_spec changed (plan ∷ plans) =
    let rest = put_plan_spec changed plans in
    if plan.plan_id == changed.plan_id then changed ∷ plans else plan ∷ rest

-- `d[k]`
abbrev pub or_key_error : {A : Type 0} → Option A → Result A
or_key_error none = err key_error
or_key_error (some a) = ok a

abbrev pub with_images : PlanSpec → Dict VmImage → PlanSpec
with_images plan_spec images = record plan_spec { vm_images = some images }

unfoldable pub add_image_version_to_plan : OfferSpec → String → String → String → Result OfferSpec
add_image_version_to_plan spec plan_id image_version image_url = do
  plan_spec ← find_plan_spec spec.plans plan_id
  images ← or_key_error plan_spec.vm_images
  let image : VmImage = record { os_vhd_url = image_url; lun_vhd_details = [] }
  ok (record spec {
    plans = put_plan_spec (with_images plan_spec (insert image_version image images)) spec.plans;
  })

unfoldable pub remove_image_version_from_plan :
    OfferSpec → String → String → String → Result OfferSpec
remove_image_version_from_plan spec plan_id image_version image_url = do
  plan_spec ← find_plan_spec spec.plans plan_id
  images ← or_key_error plan_spec.vm_images
  _ ← or_key_error (lookup image_version images)
  ok (record spec {
    plans = put_plan_spec (with_images plan_spec (erase image_version images)) spec.plans;
  })

unfoldable pub generate_urn : AzureMarketplaceCfg → String → String
generate_urn cfg image_version =
    cfg.publisher_id <> (":" <> (cfg.offer_id <> (":" <> (cfg.plan_id <> (":" <> image_version)))))
