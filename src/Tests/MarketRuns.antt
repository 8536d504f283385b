-- ===== src/Tests/MarketRuns.antt =====
-- The Azure Marketplace, which says a number of times that an operation is still running.
use gardenlinux.Prelude.{
  ℕ, zero, suc, ◌-◌, ◌≡◌, ◌<◌, refl, ap, subst, ◌⊎◌, inl, inr, String, true, string_eq, none, some,
  [], ◌∷◌, arith,
}
use gardenlinux.Prelude.Result.{Result, ok, ok_injective}
use gardenlinux.Prelude.Dicts.{Dict, lookup, insert}
use gardenlinux.Model.Manifests.{
  OnlineReleaseManifest, publishing, going_live, azure_image, with_published,
}
use gardenlinux.Azure.Offers.{
  AzureMarketplaceCfg, OfferSpec, VmImage, add_image_version_to_plan, find_plan_spec, put_plan_spec,
}
use gardenlinux.Azure.Operations.{
  ongoing_id, succeeded, running, operation_state, transport_dest, ongoing_id,
}
use gardenlinux.Azure.Market.{
  AzureServicePrincipalCfg, Session, Web, access_token, fetch_ongoing_operation_id,
  fetch_operation_state, go_live, marketplace_client, no_body, request_by_default,
}
use gardenlinux.Azure.Market.Tokens.{authorization, request_by_default_stale}
use gardenlinux.Azure.Transport.{AzurePublishedImage, metadata, check_offer_transport_state}
use gardenlinux.Azure.Transport.Diagram.{check_offer_transport_state-IsMoved}
use gardenlinux.Azure.Transport.Moves.{IsChecked}
use gardenlinux.Azure.Transport.Checked.{here, next, IsOnItsWay, Checked-IsOnItsWay}
use gardenlinux.Azure.Transport.Released.{IsServing, poll, out, poll_released}
use gardenlinux.Tests.ReleaseRuns.{first_release}

abbrev pub cfg : AzureMarketplaceCfg
cfg = record { publisher_id = "sap"; offer_id = "gardenlinux"; plan_id = "greatest" }

abbrev pub principal : AzureServicePrincipalCfg
principal = record { tenant_id = "tenant"; client_id = "client"; client_secret = "secret" }

abbrev offer : OfferSpec
offer = record {
  plans =
      record { plan_id = "small"; vm_images = none; other = "" }
      ∷ record {
        plan_id = "greatest";
        vm_images = some (("27.0.0", record { os_vhd_url = "old"; lun_vhd_details = [] }) ∷ []);
        other = "";
      }
      ∷ [];
  other = "";
}

-- An answer tells how often an operation is said to be running from then on.
abbrev pub web : Web
web = record {
  World = ℕ;
  Response = ℕ;
  acquire_token = λ tenant client secret w. (ok (access_token tenant), w);
  request = λ method url headers params body w. (ok w, w - 1);
  is_ok = λ r. true;
  offer_of = λ r. ok offer;
  submissions_of = λ r. ok (
      record { id = "other"; slot = "staging"; submission_state = "succeeded" }
      ∷ record { id = "stage"; slot = "staging"; submission_state = "running" }
      ∷ record { id = "live"; slot = "production"; submission_state = "running" }
      ∷ []);
  status_of = λ r. ok (elim r [ zero ↦ "succeeded" | suc n ↦ "running" ]);
}

abbrev pub session : ℕ → Session web
session n = record { world = n; headers = []; params = [] }

abbrev staged : OnlineReleaseManifest
staged = with_published (azure_image publishing "anticipated" "stage" "") first_release

abbrev live : OnlineReleaseManifest
live = with_published (azure_image going_live "" "stage" "live") first_release

status_which :
    (n : ℕ)
    → (text : String) × (web.status_of n ≡ ok text)
      × ((operation_state text ≡ ok succeeded)
          ⊎ ((operation_state text ≡ ok running) × (n - 1 < n)))
unfolding operation_state
status_which zero = ("succeeded", refl, inl refl)
status_which (suc n) = ("running", refl, inr (refl, omega arith))

answered :
    (w w' r : ℕ)
    → ◌≡◌ {A = Result ℕ × ℕ} (ok w, w - 1) (ok r, w')
    → (text : String) × (web.status_of r ≡ ok text)
      × ((operation_state text ≡ ok succeeded) ⊎ ((operation_state text ≡ ok running) × (w' < w)))
answered w w' r e =
    subst
      (λ v.
        (text : String) × (web.status_of r ≡ ok text)
        × ((operation_state text ≡ ok succeeded) ⊎ ((operation_state text ≡ ok running) × (v < w))))
      (ap (λ p. p.1) e)
      (subst
        (λ q.
          (text : String) × (web.status_of q ≡ ok text)
          × ((operation_state text ≡ ok succeeded)
              ⊎ ((operation_state text ≡ ok running) × (w - 1 < w))))
        (ok_injective (ap (λ p. p.0) e)) (status_which w))

web-IsServing : IsServing cfg web (λ w. w)
unfolding ongoing_id transport_dest operation_state
web-IsServing = record {
  token_lem = λ tenant client secret w. (tenant, w, refl, omega arith);
  answers = λ method url headers params body w. (w, w - 1, refl, refl, omega arith);
  statuses = λ operation_id headers params w w' r e. answered w w' r e;
  submissions = λ headers params w w' r e. (_, "live", refl, refl);
}

poll_released_example :
    (g : String) × (s' : Session web) × (poll cfg web
        (λ w. w)
        web-IsServing
        principal
        4
        staged
        (session 2)
      ≡ (ok (out cfg web (λ w. w) web-IsServing principal staged "stage" g), s'))
poll_released_example =
    poll_released cfg web (λ w. w) web-IsServing principal 4 staged "anticipated" "stage" ""
      (session 2) refl (omega arith)

moved :
    check_offer_transport_state web cfg principal staged (session 0)
    ≡ (ok live, (check_offer_transport_state web cfg principal staged (session 0)).1)
unfolding check_offer_transport_state marketplace_client fetch_operation_state request_by_default
    operation_state go_live fetch_ongoing_operation_id ongoing_id
moved = refl

check_offer_transport_state-IsMoved_example :
    (image : AzurePublishedImage) × (staged.published_image_metadata ≡ some (metadata image))
    × IsChecked cfg web principal staged image live
        (session 0)
        (check_offer_transport_state web cfg principal staged (session 0)).1
check_offer_transport_state-IsMoved_example =
    check_offer_transport_state-IsMoved cfg web principal staged (session 0)
      (check_offer_transport_state web cfg principal staged (session 0)).1 live moved

abbrev staged_image : AzurePublishedImage
staged_image = record {
  transport_state = publishing;
  urn = "anticipated";
  publish_operation_id = "stage";
  golive_operation_id = "";
}

Checked-IsOnItsWay_example : IsOnItsWay cfg web principal staged "stage" live
Checked-IsOnItsWay_example =
    Checked-IsOnItsWay cfg web principal staged staged_image live refl (λ e. cc)
      (next (session 0) (check_offer_transport_state web cfg principal staged (session 0)).1 here
        moved)

request_by_default_stale_example :
    let s' = (request_by_default web "first" "GET" "a" no_body (session 0)).1 in
    (headers : Dict String) × (params : Dict String) × (lookup authorization headers
      ≡ some "Bearer first")
    × ((request_by_default web "second" "GET" "b" no_body s').0
        ≡ (web.request "GET" "b" headers params no_body s'.world).0)
unfolding lookup
request_by_default_stale_example =
    request_by_default_stale web "first" "second" (session 0) "GET" "a" "GET" "b" no_body no_body
      refl

abbrev image_version : VmImage
image_version = record { os_vhd_url = "new"; lun_vhd_details = [] }

abbrev extended : OfferSpec
extended = record {
  plans =
      record { plan_id = "small"; vm_images = none; other = "" }
      ∷ record {
        plan_id = "greatest";
        vm_images = some (
            ("27.0.0", record { os_vhd_url = "old"; lun_vhd_details = [] })
            ∷ ("27.1.0", image_version)
            ∷ []);
        other = "";
      }
      ∷ [];
  other = "";
}

added : add_image_version_to_plan offer "greatest" "27.1.0" "new" ≡ ok extended
unfolding add_image_version_to_plan find_plan_spec put_plan_spec insert
added = refl
