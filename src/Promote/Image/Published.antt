-- ===== src/Promote/Image/Published.antt =====
-- What `publish_image` returns, where the publishing functions keep to their contract.
use gardenlinux.Prelude.{
  is_none, ◌≡◌, ◌≢◌, ap, inl, inr, false, none, Bool-cases, Option-cases, arith,
}
use gardenlinux.Prelude.Result.{Result, ok, err, Error}
use gardenlinux.Model.Manifests.{OnlineReleaseManifest}
use gardenlinux.Promote.Image.{
  Provider, provider_of, has_cleanup, Publisher, reraise, handled, published, publish_image,
}

-- A publishing function that returns has set the metadata of the release and kept its identifier.
pub record IsFaithful (P : Publisher) : Type 0 where
  pub publishes :
      (p : Provider) (m : OnlineReleaseManifest) (w : P.World) (m' : OnlineReleaseManifest)
      (w' : P.World)
      → P.publish_function p m w ≡ (ok m', w')
      → (m'.identifier ≡ m.identifier) × (is_none m'.published_image_metadata ≡ false)

module _ (P : Publisher) (F : IsFaithful P) where
  reraise-err :
      (e : Error) (x : Result (Unit {0}) × P.World) (m : OnlineReleaseManifest)
      → (reraise P e x).0 ≢ ok m
  unfolding reraise
  reraise-err e (ok _, w) m h = ground arith
  reraise-err e (err f, w) m h = ground arith

  handled-ok :
      (p : Provider) (r : OnlineReleaseManifest) (x : Result OnlineReleaseManifest × P.World)
      (m : OnlineReleaseManifest)
      → (handled P p r x).0 ≡ ok m
      → x.0 ≡ ok m
  unfolding handled
  handled-ok p r (ok k, w) m e = e
  handled-ok p r (err x, w) m e = elim (Bool-cases (has_cleanup p)) [
    | inl cleans ↦ elim (reraise-err x (P.cleanup_function p r w) m (rw cleans at e)) [ ]
    | inr not ↦ absurd (ground (arith, rw not at e))
  ]

  -- An image that is published has metadata.
  pub publish_image-ok :
      (r : OnlineReleaseManifest) (w : P.World) (m : OnlineReleaseManifest)
      → provider_of r.platform ≢ none
      → (publish_image P r w).0 ≡ ok m
      → (m.identifier ≡ r.identifier) × (is_none m.published_image_metadata ≡ false)
  unfolding publish_image published
  publish_image-ok r w m known e = elim (Option-cases (provider_of r.platform)) [
    | inl unknown ↦ elim (known unknown) [ ]
    | inr (p, same) ↦
        let h = handled-ok p r (P.publish_function p r w) m (rw same at e) in
        F.publishes p r w m (P.publish_function p r w).1
          (ap (λ x. (x, (P.publish_function p r w).1)) h)
  ]
