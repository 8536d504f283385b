-- ===== src/Azure/Transport/Released.antt =====
-- The end of the way to a released image on the Azure Marketplace.
use gardenlinux.Prelude.{
  ℕ, zero, suc, ◌+◌, ◌≡◌, ◌≤◌, ◌<◌, refl, sym, ap, subst, String, true, some, List, [], ◌∷◌, ◌⊎◌,
  inl, inr, arith,
}
use gardenlinux.Prelude.Result.{Result, ok}
use gardenlinux.Prelude.Dicts.{Dict}
use gardenlinux.Prelude.Action.{Action, return, ◌>>=◌}
use gardenlinux.Model.Manifests.{
  OnlineReleaseManifest, publishing, going_live, released, azure_image, with_published,
}
use gardenlinux.Azure.Offers.{AzureMarketplaceCfg, generate_urn}
use gardenlinux.Azure.Operations.{
  running, succeeded, production, Submission, operation_state, ongoing_id,
}
use gardenlinux.Azure.Market.{
  Web, Session, Body, no_body, access_token, api_url, AzureServicePrincipalCfg, marketplace_client,
  request_by_default, fetch_operation_state, go_live, fetch_ongoing_operation_id, with_headers,
  with_params,
}
use gardenlinux.Azure.Transport.{azure_published_image, transport, check_offer_transport_state}

module _ (cfg : AzureMarketplaceCfg) (W : Web) where
  open cfg use {publisher_id, offer_id}
  open W use {World, Response}

  -- A marketplace that serves: it gives tokens, answers every request with success, lists an
  -- operation to production that is running, and each time that it says that an operation is still
  -- running it is nearer to the end of it.
  pub record IsServing (rank : World → ℕ) : Type 0 where
    pub token_lem :
        (tenant client secret : String) (w : World)
        → (t : String) × (w' : World) × (W.acquire_token tenant client secret w
            ≡ (ok (access_token t), w'))
          × (rank w' ≤ rank w)
    pub answers :
        (method url : String) (headers params : Dict String) (body : Body) (w : World)
        → (r : Response) × (w' : World) × (W.request method url headers params body w ≡ (ok r, w'))
          × (W.is_ok r ≡ true)
          × (rank w' ≤ rank w)
    pub statuses :
        (operation_id : String) (headers params : Dict String) (w w' : World) (r : Response)
        → W.request "GET"
            (api_url (publisher_id ∷ "offers" ∷ offer_id ∷ "operations" ∷ operation_id ∷ []))
            headers
            params
            no_body
            w
          ≡ (ok r, w')
        → (text : String) × (W.status_of r ≡ ok text)
          × ((operation_state text ≡ ok succeeded)
              ⊎ ((operation_state text ≡ ok running) × (rank w' < rank w)))
    pub submissions :
        (headers params : Dict String) (w w' : World) (r : Response)
        → W.request "GET"
            (api_url (publisher_id ∷ "offers" ∷ offer_id ∷ "submissions" ∷ []))
            headers
            params
            no_body
            w
          ≡ (ok r, w')
        → (l : List Submission) × (id : String) × (W.submissions_of r ≡ ok l)
          × (ongoing_id production l ≡ ok id)

  module _ (rank : World → ℕ) (serving : IsServing rank) where
    -- A step that returns a value with a property, and is no further from the end.
    abbrev Returns :
        {A : Type 0} → (A → Session W → Type 0) → Session W → Result A × Session W → Type 0
    Returns {A} P s r =
        (a : A) × (s' : Session W) × (r ≡ (ok a, s')) × (rank s'.world ≤ rank s.world) × P a s'

    client-Returns :
        (tenant client secret : String) (s : Session W)
        → Returns (λ t s'. Unit) s (marketplace_client W tenant client secret s)
    unfolding marketplace_client
    client-Returns tenant client secret s =
        let (t, w', e, le) = serving.token_lem tenant client secret s.world in
        (t, record s { world = w' }, rw e refl, le, tt)

    go_live-Returns :
        (token : String) (s : Session W)
        → Returns (λ t s'. Unit) s (go_live W token publisher_id offer_id s)
    unfolding go_live request_by_default
    go_live-Returns token s =
        let (r, w', e, success, le) =
          serving.answers "POST" (api_url (publisher_id ∷ "offers" ∷ offer_id ∷ "golive" ∷ []))
            (with_headers token s.headers) (with_params s.params) no_body s.world in
        (
          tt,
          record {
            world = w';
            headers = with_headers token s.headers;
            params = with_params s.params;
          },
          rw (e, success) refl,
          le,
          tt,
        )

    ongoing-Returns :
        (token : String) (s : Session W)
        → Returns
            (λ t s'. Unit)
            s
            (fetch_ongoing_operation_id W token publisher_id offer_id production s)
    unfolding fetch_ongoing_operation_id request_by_default
    ongoing-Returns token s =
        let (r, w', e, success, le) =
          serving.answers "GET" (api_url (publisher_id ∷ "offers" ∷ offer_id ∷ "submissions" ∷ []))
            (with_headers token s.headers) (with_params s.params) no_body s.world in
        let (l, id, e₁, e₂) =
          serving.submissions (with_headers token s.headers) (with_params s.params) s.world w' r
            e in
        (
          id,
          record {
            world = w';
            headers = with_headers token s.headers;
            params = with_params s.params;
          },
          rw (e, success, e₁, e₂) refl,
          le,
          tt,
        )

    state-Returns :
        (token operation_id : String) (s : Session W)
        → Returns
            (λ status s'.
              (status ≡ succeeded) ⊎ ((status ≡ running) × (rank s'.world < rank s.world)))
            s
            (fetch_operation_state W token publisher_id offer_id operation_id s)
    unfolding fetch_operation_state request_by_default
    state-Returns token operation_id s =
        let (r, w', e, success, le) =
          serving.answers "GET"
            (api_url (publisher_id ∷ "offers" ∷ offer_id ∷ "operations" ∷ operation_id ∷ []))
            (with_headers token s.headers) (with_params s.params) no_body s.world in
        let (text, e₁, which) =
          serving.statuses operation_id (with_headers token s.headers) (with_params s.params)
            s.world w' r e in
        let s' : Session W = record {
          world = w';
          headers = with_headers token s.headers;
          params = with_params s.params;
        } in
        elim which [
          | inl done ↦ (succeeded, s', rw (e, success, e₁, done) refl, le, inl refl)
          | inr (more, less) ↦ (running, s', rw (e, success, e₁, more) refl, le, inr (refl, less))
        ]

    module _ (principal : AzureServicePrincipalCfg) where
      -- So many checks, one after the other.
      pub poll : ℕ → OnlineReleaseManifest → Action (Session W) OnlineReleaseManifest
      poll zero release = return release
      poll (suc n) release = check_offer_transport_state W cfg principal release >>= poll n

      -- The release with its image out, with the URN of its version.
      abbrev pub out : OnlineReleaseManifest → String → String → OnlineReleaseManifest
      out release p g =
          with_published (azure_image released (generate_urn cfg release.version) p g) release

      poll_out :
          (n : ℕ) (release : OnlineReleaseManifest) (urn p g : String) (s : Session W)
          → poll n (with_published (azure_image released urn p g) release) s
            ≡ (ok (with_published (azure_image released urn p g) release), s)
      unfolding poll check_offer_transport_state azure_published_image
      poll_out zero release urn p g s = refl
      poll_out (suc n) release urn p g s = poll_out n release urn p g s

      poll_going_live :
          (n : ℕ) (release : OnlineReleaseManifest) (urn p g : String) (s : Session W)
          → rank s.world < n
          → (s' : Session W) × (poll n (with_published (azure_image going_live urn p g) release) s
              ≡ (ok (out release p g), s'))
      unfolding poll check_offer_transport_state azure_published_image transport
      poll_going_live zero release urn p g s h = absurd (omega arith)
      poll_going_live (suc n) release urn p g s h =
          let (t, s₁, e₁, le₁, _) =
            client-Returns principal.tenant_id principal.client_id principal.client_secret s in
          let (status, s₂, e₂, le₂, which) = state-Returns t p s₁ in
          elim which [
            | inl done ↦ (s₂, rw (e₁, e₂, done) (poll_out n release _ p g s₂))
            | inr (more, less) ↦
                let (s', e) = poll_going_live n release urn p g s₂ (omega arith) in
                (s', rw (e₁, e₂, more) e)
          ]

      poll-publishing :
          (n : ℕ) (release : OnlineReleaseManifest) (urn p g : String) (s : Session W)
          → rank s.world + 1 < n
          → (g' : String) × (s' : Session W) × (poll n
                (with_published (azure_image publishing urn p g) release)
                s
              ≡ (ok (out release p g'), s'))
      unfolding poll check_offer_transport_state azure_published_image transport
      poll-publishing zero release urn p g s h = absurd (omega arith)
      poll-publishing (suc n) release urn p g s h =
          let (t, s₁, e₁, le₁, _) =
            client-Returns principal.tenant_id principal.client_id principal.client_secret s in
          let (status, s₂, e₂, le₂, which) = state-Returns t p s₁ in
          elim which [
            | inl done ↦
                let (_, s₃, e₃, le₃, _) = go_live-Returns t s₂ in
                let (g', s₄, e₄, le₄, _) = ongoing-Returns t s₃ in
                let (s', e) = poll_going_live n release "" p g' s₄ (omega arith) in
                (g', s', rw (e₁, e₂, done, e₃, e₄) e)
            | inr (more, less) ↦
                let (g', s', e) = poll-publishing n release urn p g s₂ (omega arith) in
                (g', s', rw (e₁, e₂, more) e)
          ]

      -- At a marketplace that serves, an image whose publishing is under way is released, with the
      -- URN of the version of the release, by two checks more than the rank of the start.
      pub poll_released :
          (n : ℕ) (release : OnlineReleaseManifest) (urn p g : String) (s : Session W)
          → release.published_image_metadata ≡ some (azure_image publishing urn p g)
          → rank s.world + 1 < n
          → (g' : String) × (s' : Session W) × (poll n release s ≡ (ok (out release p g'), s'))
      poll_released n release urn p g s has h =
          let same : release ≡ with_published (azure_image publishing urn p g) release =
            ap
              (λ o. record release {
                manifest = record (release.manifest) { published_image_metadata = o };
              })
              has in
          let (g', s', e) = poll-publishing n release urn p g s h in
          (g', s', subst (λ r. poll n r s ≡ (ok (out release p g'), s')) (sym same) e)
