-- ===== src/Promote/Image.antt =====
-- `publish_image` of ci/promote.py. What a provider's publishing and clean-up functions do is a
-- parameter, `Publisher`; they change a state of their own and may raise.
pub mod Published
use gardenlinux.Prelude.{
  ◌≡◌, ◌≢◌, refl, ◌⊎◌, inl, inr, String, Bool, true, false, Option, none, some, ◌==◌, if◌then◌else◌,
  string_eq, Bool-cases, arith,
}
use gardenlinux.Prelude.Result.{Result, ok, err, Error}
use gardenlinux.Model.Manifests.{OnlineReleaseManifest}

-- The platforms that have a publishing function.
pub data Provider : Type 0 where
  ali aws gcp azure openstack oci : Provider

-- The chain of tests on `release.platform`.
unfoldable pub provider_of : String → Option Provider
provider_of p =
    if p == "ali"
    then some ali
    else if p == "aws"
    then some aws
    else if p == "gcp"
    then some gcp
    else if p == "azure"
    then some azure
    else if p == "openstack"
    then some openstack
    else if p == "oci"
    then some oci
    else none

-- `cleanup_function is not None`
unfoldable pub has_cleanup : Provider → Bool
has_cleanup ali = true
has_cleanup aws = true
has_cleanup _ = false

pub record Publisher : Type 1 where
  pub World : Type 0
  pub publish_function :
      Provider → OnlineReleaseManifest → World → Result OnlineReleaseManifest × World
  pub cleanup_function : Provider → OnlineReleaseManifest → World → Result (Unit {0}) × World

module _ (P : Publisher) where
  open P use {World, publish_function, cleanup_function}

  -- The end of the `except` block: an exception of the clean-up takes the place of the first one.
  reraise : Error → Result (Unit {0}) × World → Result OnlineReleaseManifest × World
  reraise e (ok _, w) = (err e, w)
  reraise e (err f, w) = (err f, w)

  handled :
      Provider
      → OnlineReleaseManifest
      → Result OnlineReleaseManifest × World
      → Result OnlineReleaseManifest × World
  unfolding has_cleanup reraise
  handled p release (ok m, w) = (ok m, w)
  handled p release (err e, w) =
      if has_cleanup p then reraise e (cleanup_function p release w) else (err e, w)

  published : Option Provider → OnlineReleaseManifest → World → Result OnlineReleaseManifest × World
  unfolding handled
  published none release w = (ok release, w)
  published (some p) release w = handled p release (publish_function p release w)

  unfoldable pub publish_image :
      OnlineReleaseManifest → World → Result OnlineReleaseManifest × World
  unfolding published provider_of
  publish_image release w = published (provider_of release.platform) release w
