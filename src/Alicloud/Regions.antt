-- ===== src/Alicloud/Regions.antt =====
-- The regions that images are published in and deleted from, and the one that the client is left on.
use gardenlinux.Prelude.{
  ℕ, ◌≡◌, refl, sym, ap, subst, ◌∙◌, String, false, ◌||◌, not, some, List, [], ◌∷◌, ◌==◌, string_eq,
  map, contains, keep, contains-keep, NoDup, arith,
}
use gardenlinux.Prelude.Result.{Result, ok, err, ok_injective}
use gardenlinux.Prelude.Action.{Action}
use gardenlinux.Prelude.Dicts.{Dict, insert, keys, keys-insert, insert-NoDup}
use gardenlinux.Prelude.Run.{for_each, ◌>>◌, >>=-returned}
use gardenlinux.Model.Manifests.{
  OnlineReleaseManifest, AlicloudPublishedImage, alicloud_set, with_published,
}
use gardenlinux.Alicloud.{
  Acs, Client, AlicloudImageMaker, published_images, do_action, beside, set_region_id, share,
  list_regions, copy_image, copy_each, import_image, wait_for_image, share_images, make_image,
}

-- The region of an image.
abbrev pub region_of : AlicloudPublishedImage → String
region_of image = image.region_id

some_injective : {A : Type 0} {x y : A} → some x ≡ some y → x ≡ y
some_injective e = cc

published-keys :
    (name : String) (d : Dict String) → map region_of (published_images name d) ≡ keys d
published-keys name [] = refl
published-keys name ((r, i) ∷ d) = ap (λ l. r ∷ l) (published-keys name d)

module _ (A : Acs) (self : AlicloudImageMaker) where
  copy_each-keys :
      (image_id : String) (regions : List String) (before after : Dict String) (c c' : Client A)
      → NoDup (keys before)
      → copy_each A self image_id regions before c ≡ some (ok after, c')
      → NoDup (keys after)
        × ((r : String)
            → contains (keys after) r ≡ (contains (keys before) r || contains regions r))
  unfolding copy_each contains
  copy_each-keys image_id [] before after c c' h e =
      let same : before ≡ after = ok_injective (ap (λ p. p.0) (some_injective e)) in
      subst
        (λ d.
          NoDup (keys d)
          × ((r : String) → contains (keys d) r ≡ (contains (keys before) r || false)))
        same (h, λ r. ground arith)
  copy_each-keys image_id (region ∷ regions) before after c c' h e =
      let (copied, u, e₁, k₁) = >>=-returned (copy_image A self image_id region) _ c e in
      let (once, all) =
        copy_each-keys image_id regions (insert region copied before) after u c'
          (insert-NoDup region copied before h) k₁ in
      (once, λ r. ground (arith, all r, keys-insert region r copied before))

  -- Copies to all regions but the own, and the own image.
  shared-keys :
      (image_id : String) (listed : List String) (copies : Dict String)
      → NoDup (keys copies)
      → ((r : String)
          → contains (keys copies) r ≡ contains (keep (λ x. not (x == self.region)) listed) r)
      → NoDup (keys (insert self.region image_id copies))
        × ((r : String)
            → contains (keys (insert self.region image_id copies)) r
              ≡ (self.region == r || contains listed r))
  shared-keys image_id listed copies once all = (
    insert-NoDup self.region image_id copies once,
    λ r. ground (
      arith,
      all r,
      contains-keep (λ x. not (x == self.region)) listed r,
      keys-insert self.region r image_id copies,
      string_eq.equals_iff self.region r,
      string_eq.equals_iff r self.region,
    ),
  )

  do_action-returned :
      {X : Type 0} (request : String → Action A.World X) (c c' : Client A) {x : X}
      → do_action A request c ≡ some (ok x, c')
      → (w : A.World) × (request c.region_id c.world ≡ (ok x, w))
  do_action-returned request c c' h = split c c' (request c.region_id c.world) h
    where
      split :
          {X : Type 0} (c c' : Client A) (r : Result X × A.World) {x : X}
          → beside A c r ≡ some (ok x, c')
          → (w : A.World) × (r ≡ (ok x, w))
      split c c' (ok x, w) h = (w, ap (λ y. (y, w)) (ap (λ p. p.0) (some_injective h)))
      split c c' (err e, w) h = cc

  share_images-region :
      (d : Dict String) (c c' : Client A)
      → share_images A self d c ≡ some (ok tt, c')
      → c'.region_id ≡ self.region
  unfolding share_images
  share_images-region d c c' e =
      let (_, u, e₁, k₁) =
        >>=-returned
          (for_each
            (λ (region_img : String × String). do
              set_region_id A region_img.0
              do_action A (λ r. A.modify_share_permission r region_img.1 share))
            d)
          _ c e in
      ap (λ (x : Client A). x.region_id) (sym (ap (λ p. p.1) (some_injective k₁)))

  list_regions-keep :
      (regions : List String) (c c' : Client A)
      → list_regions A self c ≡ some (ok regions, c')
      → (listed : List String) × (w : A.World) × (A.describe_regions c.region_id c.world
          ≡ (ok listed, w))
        × (regions ≡ keep (λ x. not (x == self.region)) listed)
  unfolding list_regions
  list_regions-keep regions c c' e =
      let (listed, u, e₁, k₁) = >>=-returned (do_action A A.describe_regions) _ c e in
      let (w, described) = do_action-returned A.describe_regions c u e₁ in
      (listed, w, described, sym (ok_injective (ap (λ p. p.0) (some_injective k₁))))

  -- Nothing of the release is changed but its images: there is one of them in the region of the
  -- build and in each region that Alicloud lists, in no other and in none two; the client is left
  -- on the region of the build.
  abbrev pub IsDistributed : Client A → OnlineReleaseManifest → Type 0
  IsDistributed c' release' =
      (listed : List String) × (images : List AlicloudPublishedImage) × (r : String) × (u : A.World)
      × (v : A.World) × (A.describe_regions r u ≡ (ok listed, v))
      × (release' ≡ with_published (alicloud_set images) self.release)
      × ((region : String)
          → contains (map region_of images) region
            ≡ (self.region == region || contains listed region))
      × NoDup (map region_of images)
      × (c'.region_id ≡ self.region)

  -- Publishing that returns leaves the client on the region of the build, and has changed nothing of
  -- the release but its images: there is one of them in that region and in each region that
  -- Alicloud lists, and in no other, and no region has two.
  pub make_image-regions :
      (passes : ℕ) (c c' : Client A) (release' : OnlineReleaseManifest)
      → make_image A self passes c ≡ some (ok release', c')
      → IsDistributed c' release'
  unfolding make_image contains
  make_image-regions passes c c' release' e =
      let (image_id, u₁, e₁, k₁) = >>=-returned (import_image A self passes) _ c e in
      let (regions, u₂, e₂, k₂) = >>=-returned (list_regions A self) _ u₁ k₁ in
      let (copies, u₃, e₃, k₃) = >>=-returned (copy_each A self image_id regions []) _ u₂ k₂ in
      let (_, u₄, e₄, k₄) =
        >>=-returned
          (for_each (λ region_img. wait_for_image A self passes region_img.0 region_img.1) copies) _
          u₃ k₃ in
      let (_, u₅, e₅, k₅) =
        >>=-returned (share_images A self (insert self.region image_id copies)) _ u₄ k₄ in
      let (listed, w, described, kept) = list_regions-keep regions u₁ u₂ e₂ in
      let (once, all) = copy_each-keys image_id regions [] copies u₂ u₃ tt e₃ in
      let (once', all') =
        shared-keys image_id listed copies once (λ r. all r ∙ ap (λ l. contains l r) kept) in
      let whole : with_published
            (alicloud_set (published_images self.image_name (insert self.region image_id copies)))
            self.release
          ≡ release' =
        ok_injective (ap (λ p. p.0) (some_injective k₅)) in
      let same : u₅ ≡ c' = ap (λ p. p.1) (some_injective k₅) in
      (
        listed,
        published_images self.image_name (insert self.region image_id copies),
        u₁.region_id,
        u₁.world,
        w,
        described,
        sym whole,
        rw (published-keys self.image_name (insert self.region image_id copies)) all',
        rw (published-keys self.image_name (insert self.region image_id copies)) once',
        ap (λ (x : Client A). x.region_id) (sym same)
            ∙ share_images-region (insert self.region image_id copies) u₄ u₅ e₅,
      )
