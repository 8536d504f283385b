-- ===== src/Gcp/Public.antt =====
-- How publishing on GCP makes an image public.
use gardenlinux.Prelude.{ℕ, ◌≡◌, refl, sym, String, ◌<>◌, Option, none, some, List, [], ◌∷◌, arith}
use gardenlinux.Prelude.Result.{ok}
use gardenlinux.Prelude.Action.{>>=-returned, lift-returned, return-returned}
use gardenlinux.Model.Features.{FeatureDescriptor}
use gardenlinux.Model.Manifests.{
  OnlineReleaseManifest, gcp_image, with_published, canonical_release_manifest_key_suffix,
}
use gardenlinux.Gcp.{
  Gcp, Binding, with_binding, make_public, without_dots, upload_image_from_gcp_store,
}

abbrev pub all_users : Binding
all_users = record { members = "allAuthenticatedUsers" ∷ []; role = "roles/compute.imageUser" }

with_binding-none :
    (policy : Option (List Binding)) (bindings : List Binding)
    → with_binding policy ≡ ok bindings
    → (policy ≡ none) × (bindings ≡ all_users ∷ [])
unfolding with_binding
with_binding-none none bindings h = (refl, ground (arith, h))
with_binding-none (some old) bindings h = cc

module _ (G : Gcp) where
  open G use {World}

  -- The policy of the image had no bindings, and was set to the one of all users.
  abbrev pub IsPublic : String → String → World → Type 0
  IsPublic project name w' =
      (u : World) × (v : World) × (G.get_iam_policy project name u ≡ (ok none, v))
      × (G.set_iam_policy project name (all_users ∷ []) v ≡ (ok tt, w'))

  make_public-IsPublic :
      (project name : String) (w w' : World)
      → make_public G project name w ≡ (ok tt, w')
      → IsPublic project name w'
  unfolding make_public
  make_public-IsPublic project name w w' e =
      let (policy, v, e₁, k₁) = >>=-returned (G.get_iam_policy project name) _ w e in
      let (bindings, e₂, k₂) =
        lift-returned (with_binding policy) (G.set_iam_policy project name) v k₁ in
      let (bare, only) = with_binding-none policy bindings e₂ in
      (w, v, rw bare at e₁, rw only at k₂)

  -- Publishing that returns has found an image whose policy had no bindings, and has set the one of
  -- all users; the release gets the name of the image and is otherwise unchanged.
  pub upload_image_from_gcp_store-IsPublic :
      (features : List FeatureDescriptor) (depth : ℕ) (bucket blob project : String)
      (release release' : OnlineReleaseManifest) (w w' : World)
      → upload_image_from_gcp_store G features depth bucket blob project release w
        ≡ (ok release', w')
      → (suffix : String) × (canonical_release_manifest_key_suffix features depth release.identifier
          ≡ ok suffix)
        × IsPublic project (without_dots ("gardenlinux-" <> suffix)) w'
        × (release'
            ≡ with_published (gcp_image (without_dots ("gardenlinux-" <> suffix)) project) release)
  unfolding upload_image_from_gcp_store
  upload_image_from_gcp_store-IsPublic features depth bucket blob project release release' w w' e =
      let (suffix, e₁, k₁) =
        lift-returned (canonical_release_manifest_key_suffix features depth release.identifier) _ w
          e in
      let name = without_dots ("gardenlinux-" <> suffix) in
      let (source, u₂, e₂, k₂) = >>=-returned (G.generate_signed_url bucket blob) _ w k₁ in
      let (op, u₃, e₃, k₃) = >>=-returned (G.insert_image project name source) _ u₂ k₂ in
      let (_, u₄, e₄, k₄) = >>=-returned (G.wait project op) _ u₃ k₃ in
      let (_, u₅, e₅, k₅) = >>=-returned (G.delete_blob bucket blob) _ u₄ k₄ in
      let (_, u₆, e₆, k₆) = >>=-returned (make_public G project name) _ u₅ k₅ in
      let (whole, same) =
        return-returned (with_published (gcp_image name project) release) release' u₆ w' k₆ in
      (suffix, e₁, rw same at (make_public-IsPublic project name u₅ u₆ e₆), sym whole)
