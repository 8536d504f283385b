-- ===== src/Alicloud/Served.antt =====
-- Publishing on Alicloud where its services answer.
use gardenlinux.Prelude.{
  ℕ, zero, suc, ◌+◌, ◌*◌, ◌≡◌, ◌<◌, ◌≤◌, refl, ◌⊎◌, inl, inr, String, none, some, false, not, List,
  [], ◌∷◌, ◌==◌, string_eq, ltb, nat_eq, keep, Bool-cases, Option-cases, arith,
}
use gardenlinux.Prelude.Result.{ok}
use gardenlinux.Prelude.Dicts.{Dict, insert}
use gardenlinux.Prelude.Run.{Returns, for_each-Returns, ◌>>◌}
use gardenlinux.Model.Manifests.{OnlineReleaseManifest, alicloud_set, with_published}
use gardenlinux.Alicloud.{
  Acs, Client, AlicloudImageMaker, ImageList, time_out, elapsed_seconds, published_images, share,
  do_action, set_region_id, check_image_existance, available_from, wait_for_image, list_regions,
  copy_image, import_image, share_images, copy_each, make_image,
}
use gardenlinux.Alicloud.Regions.{IsDistributed, make_image-regions}

-- The time goes on, by a minute at most, and nothing is due later than before.
abbrev pub IsBrief : {World : Type 0} → (World → ℕ) → (World → ℕ) → World → World → Type 0
IsBrief clock due w w' = (clock w ≤ clock w') × (clock w' ≤ clock w + 60) × (due w' ≤ due w)

-- Alicloud serves: its calls return, an image is available once it is due, which is 7000 seconds
-- away at most, and a call of the loop that waits for it takes a minute at most.
pub record IsServing (A : Acs) (clock : A.World → ℕ) (due : A.World → ℕ) : Type 0 where
  pub near : (w : A.World) → due w ≤ clock w + 7000
  pub reads :
      (w : A.World)
      → (time : ℕ) × (w' : A.World) × (A.now w ≡ (ok time, w'))
        × (clock w ≤ time)
        × (time ≤ clock w')
        × IsBrief clock due w w'
  pub sleeps :
      (w : A.World)
      → (w' : A.World) × (A.sleep 30 w ≡ (ok tt, w'))
        × (clock w + 30 ≤ clock w')
        × IsBrief clock due w w'
  pub statuses :
      (region image : String) (w : A.World)
      → (status : String) × (w' : A.World) × (A.describe_statuses region image w
          ≡ (ok (status ∷ []), w'))
        × IsBrief clock due w w'
        × ((status ≡ "Available") ⊎ (clock w' < due w'))
  pub lists :
      (region name : String) (w : A.World)
      → (response : ImageList) × (w' : A.World) × (A.describe_images region name w
          ≡ (ok response, w'))
        × ((response.total_count ≡ 0)
            ⊎ ((image : String) × (rest : List String) × (response.image_ids ≡ image ∷ rest)))
  pub imports :
      (region name bucket key : String) (w : A.World)
      → (image : String) × (w' : A.World) × (A.import_image region name bucket key w
          ≡ (ok image, w'))
  pub copies :
      (region image target name : String) (w : A.World)
      → (copy : String) × (w' : A.World) × (A.copy_image region image target name w ≡ (ok copy, w'))
  pub shares :
      (region image : String) (w : A.World)
      → (w' : A.World) × (A.modify_share_permission region image share w ≡ (ok tt, w'))
  pub regions :
      (region : String) (w : A.World)
      → (listed : List String) × (w' : A.World) × (A.describe_regions region w ≡ (ok listed, w'))

elapsed_seconds_in_time :
    (start now : ℕ)
    → start ≤ now
    → now ≤ start + 7200
    → ltb time_out (elapsed_seconds start now) ≡ false
unfolding elapsed_seconds
elapsed_seconds_in_time start now h k = ground arith

module _ (A : Acs) (clock : A.World → ℕ) (due : A.World → ℕ) (serving : IsServing A clock due)
    (self : AlicloudImageMaker) where
  open serving use {near, reads, sleeps, statuses, lists, imports, copies, shares, regions}

  -- The loop ends in time: what is due within 7000 seconds is seen before the time is out.
  available_from_returns :
      (passes : ℕ) (image_id : String) (start : ℕ) (c : Client A)
      → start ≤ clock c.world
      → clock c.world ≤ start + 7060
      → due c.world ≤ start + 7000
      → due c.world + 30 < clock c.world + 30 * passes
      → 0 < passes
      → (c' : Client A) × (available_from A self passes image_id start c ≡ some (ok tt, c'))
  unfolding available_from
  available_from_returns zero image_id start c h₁ h₂ h₃ h₄ h₅ = absurd (omega arith)
  available_from_returns (suc passes) image_id start c h₁ h₂ h₃ h₄ h₅ =
      let (time, w₁, e₁, later, sooner, (after, brief, kept)) = reads c.world in
      let (status, w₂, e₂, (after₂, brief₂, kept₂), which) = statuses c.region_id image_id w₁ in
      let timely = elapsed_seconds_in_time start time (omega arith) (omega arith) in
      elim which [
        | inl done ↦ (record c { world = w₂ }, rw (e₁, timely, e₂, done) refl)
        | inr pending ↦ elim (Bool-cases (status == "Available")) [
          | inl there ↦ (record c { world = w₂ }, rw (e₁, timely, e₂, there) refl)
          | inr absent ↦
              let (w₃, e₃, slept, (after₃, brief₃, kept₃)) = sleeps w₂ in
              let (c', rest) =
                available_from_returns passes image_id start (record c { world = w₃ }) (omega arith)
                  (omega arith) (omega arith) (omega arith) (omega arith) in
              (c', rw (e₁, timely, e₂, absent, e₃) rest)
        ]
      ]

  wait_for_image-Returns :
      (region image_id : String) → Returns (wait_for_image A self 240 region image_id)
  unfolding wait_for_image
  wait_for_image-Returns region image_id c =
      let (start, w₁, e₁, later, sooner, (after, brief, kept)) = reads c.world in
      let here = near c.world in
      let there = near w₁ in
      let (c', e₂) =
        available_from_returns 240 image_id start (record { world = w₁; region_id = region })
          (omega arith) (omega arith) (omega arith) (omega arith) (omega arith) in
      (tt, record c' { region_id = self.region }, rw (e₁, e₂) refl)

  check_image_existance-Returns :
      (region image_name : String) → Returns (check_image_existance A self region image_name)
  unfolding check_image_existance
  check_image_existance-Returns region image_name c =
      let (response, w₁, e, which) = lists region image_name c.world in
      let back : Client A = record { world = w₁; region_id = self.region } in
      elim (Bool-cases (response.total_count == 0)) [
        | inl empty ↦ (none, back, rw (e, empty) refl)
        | inr filled ↦ elim which [
          | inl zero_count ↦ (none, back, rw (e, zero_count) refl)
          | inr (image, rest, found) ↦ (some image, back, rw (e, filled, found) refl)
        ]
      ]

  list_regions-Returns : Returns (list_regions A self)
  unfolding list_regions
  list_regions-Returns c =
      let (listed, w₁, e) = regions c.region_id c.world in
      (
        keep (λ region_id. not (region_id == self.region)) listed,
        record c { world = w₁ },
        rw e refl,
      )

  copy_image-Returns : (image region : String) → Returns (copy_image A self image region)
  unfolding copy_image
  copy_image-Returns image region c =
      let (found, c₁, e₁) = check_image_existance-Returns region self.image_name c in
      elim (Option-cases found) [
        | inr (copy, there) ↦ (copy, c₁, rw (e₁, there) refl)
        | inl missing ↦
            let (copy, w₂, e₂) = copies c₁.region_id image region self.image_name c₁.world in
            (copy, record c₁ { world = w₂ }, rw (e₁, missing, e₂) refl)
      ]

  import_image-Returns : Returns (import_image A self 240)
  unfolding import_image
  import_image-Returns c =
      let (found, c₁, e₁) = check_image_existance-Returns self.region self.image_name c in
      elim (Option-cases found) [
        | inr (image, there) ↦
            let (_, c₂, e₂) = wait_for_image-Returns self.region image c₁ in
            (image, c₂, rw (e₁, there, e₂) refl)
        | inl missing ↦
            let (image, w₂, e₂) =
              imports c₁.region_id self.image_name self.bucket_name self.image_oss_key c₁.world in
            let (_, c₃, e₃) = wait_for_image-Returns self.region image (record c₁ { world = w₂ }) in
            (image, c₃, rw (e₁, missing, e₂, e₃) refl)
      ]

  copy_each-Returns :
      (image : String) (targets : List String) (before : Dict String)
      → Returns (copy_each A self image targets before)
  unfolding copy_each
  copy_each-Returns image [] before c = (before, c, refl)
  copy_each-Returns image (target ∷ targets) before c =
      let (copy, c₁, e₁) = copy_image-Returns image target c in
      let (after, c₂, e₂) = copy_each-Returns image targets (insert target copy before) c₁ in
      (after, c₂, rw (e₁, e₂) refl)

  share_images-Returns : (images : Dict String) → Returns (share_images A self images)
  unfolding share_images
  share_images-Returns images c =
      let (_, c₁, e₁) =
        for_each-Returns
          (λ region_img.
            set_region_id A region_img.0
            >> do_action A (λ r. A.modify_share_permission r region_img.1 share))
          images
          (λ (region, image) c'.
            let (w, e) = shares region image c'.world in
            (tt, record { world = w; region_id = region }, rw e refl))
          c in
      (tt, record c₁ { region_id = self.region }, rw e₁ refl)

  -- Where Alicloud serves, 240 passes of each wait are enough: publishing returns, leaves the client
  -- on the region of the build, and changes nothing of the release but its images: there is one of
  -- them in that region and in each region that Alicloud lists, in no other, and in none two.
  pub make_image_returns :
      (c : Client A)
      → (release' : OnlineReleaseManifest) × (c' : Client A) × (make_image A self 240 c
          ≡ some (ok release', c'))
        × IsDistributed A self c' release'
  unfolding make_image
  make_image_returns c =
      let (image, c₁, e₁) = import_image-Returns c in
      let (others, c₂, e₂) = list_regions-Returns c₁ in
      let (copied, c₃, e₃) = copy_each-Returns image others [] c₂ in
      let (_, c₄, e₄) =
        for_each-Returns (λ region_img. wait_for_image A self 240 region_img.0 region_img.1) copied
          (λ region_img. wait_for_image-Returns region_img.0 region_img.1) c₃ in
      let (_, c₅, e₅) = share_images-Returns (insert self.region image copied) c₄ in
      let release' =
        with_published
          (alicloud_set (published_images self.image_name (insert self.region image copied)))
          self.release in
      let whole : make_image A self 240 c ≡ some (ok release', c₅) = rw (e₁, e₂, e₃, e₄, e₅) refl in
      (release', c₅, whole, make_image-regions A self 240 c c₅ release' whole)
