-- ===== src/Azure/Copied.antt =====
-- What `copy_from_s3` leaves in the storage account.
use gardenlinux.Prelude.{
  ℕ, zero, suc, ◌+◌, ◌-◌, ◌≡◌, ◌≤◌, ◌<◌, refl, ap, subst, ◌∙◌, String, Bool, true, false, ◌&&◌, ltb,
  leb, if◌then◌else◌, Bool-cases, inl, inr, arith,
}
use gardenlinux.Prelude.Result.{Result, ok}
use gardenlinux.Prelude.Action.{>>=-returned, return-returned}
use gardenlinux.Azure.{
  Storage, AzureImageStore, step_of, copy_pages, image_blob_of, copy_from_s3, get_image_url,
  StorageAccountCfg, copy_image_from_s3_to_az_storage_account,
}
use gardenlinux.Azure.Copy.{step_of_bounds}

-- What can be seen of a storage service: the objects to copy, which nothing changes meanwhile, the
-- objects behind URLs, and the blobs.
pub record View (S : Storage) : Type 0 where
  pub object_size : String → String → ℕ
  pub object_byte : String → String → ℕ → ℕ
  pub url_byte : String → ℕ → ℕ
  pub blob_size : S.World → S.BlobClient → ℕ
  pub blob_byte : S.World → S.BlobClient → ℕ → ℕ

-- The documented behaviour: of calls that return, and of one blob at a time.
pub record IsLawfulStorage (S : Storage) (V : View S) : Type 0 where
  pub content_length_lem :
      (bucket key : String) (w w' : S.World) (n : ℕ)
      → S.content_length bucket key w ≡ (ok n, w')
      → n ≡ V.object_size bucket key
  pub generate_presigned_url_lem :
      (bucket key : String) (w w' : S.World) (url : String)
      → S.generate_presigned_url bucket key w ≡ (ok url, w')
      → (i : ℕ) → V.url_byte url i ≡ V.object_byte bucket key i
  pub create_page_blob_lem :
      (blob : S.BlobClient) (n : ℕ) (w w' : S.World)
      → S.create_page_blob blob n w ≡ (ok tt, w')
      → V.blob_size w' blob ≡ n
  pub upload_pages_size :
      (blob : S.BlobClient) (url : String) (offset length source_offset : ℕ) (w w' : S.World)
      → S.upload_pages_from_url blob url offset length source_offset w ≡ (ok tt, w')
      → V.blob_size w' blob ≡ V.blob_size w blob
  pub upload_pages_byte :
      (blob : S.BlobClient) (url : String) (offset length source_offset : ℕ) (w w' : S.World)
      → S.upload_pages_from_url blob url offset length source_offset w ≡ (ok tt, w')
      → (i : ℕ)
      → V.blob_byte w' blob i ≡ (
          if leb offset i && ltb i (offset + length)
          then V.url_byte url (source_offset + (i - offset))
          else V.blob_byte w blob i)
  pub generate_container_sas_lem :
      (account key container token : String) (w w' : S.World)
      → S.generate_container_sas account key container w ≡ (ok token, w')
      → (blob : S.BlobClient)
      → (V.blob_size w' blob ≡ V.blob_size w blob)
        × ((i : ℕ) → V.blob_byte w' blob i ≡ V.blob_byte w blob i)

abbrev pub store_of : StorageAccountCfg → AzureImageStore
store_of cfg = record {
  sa_name = cfg.storage_account_name;
  sa_key = cfg.access_key;
  container_name = cfg.container_name;
}

module _ (S : Storage) (V : View S) where
  -- A blob with the size and the bytes of an object.
  abbrev pub IsCopy : S.BlobClient → String → String → S.World → Type 0
  IsCopy blob bucket key w =
      (V.blob_size w blob ≡ V.object_size bucket key)
      × ((i : ℕ) → i < V.object_size bucket key → V.blob_byte w blob i ≡ V.object_byte bucket key i)

module _ (S : Storage) (V : View S) (lawful : IsLawfulStorage S V) where
  open S use {World, BlobClient}
  open V use {blob_size, blob_byte, url_byte, object_size, object_byte}

  -- The bytes below an offset are there.
  abbrev IsCopied : BlobClient → String → ℕ → World → Type 0
  IsCopied blob url n w = (i : ℕ) → i < n → blob_byte w blob i ≡ url_byte url i

  upload-IsCopied :
      (blob : BlobClient) (url : String) (offset length : ℕ) (w w' : World)
      → S.upload_pages_from_url blob url offset length offset w ≡ (ok tt, w')
      → IsCopied blob url offset w
      → IsCopied blob url (offset + length) w'
  upload-IsCopied blob url offset length w w' e before i below =
      let law = lawful.upload_pages_byte blob url offset length offset w w' e i in
      elim (Bool-cases (leb offset i)) [
        | inl new ↦
            let inside : ltb i (offset + length) ≡ true = ground arith in
            let place : offset + (i - offset) ≡ i = ground arith in rw (new, inside, place) at law
        | inr old ↦ let b = before i (ground arith) in (rw old at law) ∙ b
      ]

  ended :
      (blob : BlobClient) (url : String) (file_size offset : ℕ) (w w' : World)
      → offset ≡ file_size
      → IsCopied blob url offset w
      → ◌≡◌ {A = Result (Unit {0}) × World} (ok tt, w) (ok tt, w')
      → IsCopied blob url file_size w' × (blob_size w' blob ≡ blob_size w blob)
  ended blob url file_size offset w w' all before e =
      let same : w ≡ w' = ap (λ x. x.1) e in
      subst (λ u. IsCopied blob url file_size u × (blob_size u blob ≡ blob_size w blob)) same
        (subst (λ n. IsCopied blob url n w) all before, refl)

  copy_pages-IsCopied :
      (blob : BlobClient) (url : String) (file_size rounds offset : ℕ) (w w' : World)
      → file_size - offset ≤ rounds
      → offset ≤ file_size
      → IsCopied blob url offset w
      → copy_pages S blob url file_size rounds offset w ≡ (ok tt, w')
      → IsCopied blob url file_size w' × (blob_size w' blob ≡ blob_size w blob)
  unfolding copy_pages
  copy_pages-IsCopied blob url file_size zero offset w w' h le before e =
      ended blob url file_size offset w w' (omega arith) before e
  copy_pages-IsCopied blob url file_size (suc rounds) offset w w' h le before e =
      elim (Bool-cases (ltb offset file_size)) [
        | inr done ↦ ended blob url file_size offset w w' (ground arith) before (rw done at e)
        | inl more ↦
            let n = step_of (file_size - offset) in
            let (positive, within, _, _) = step_of_bounds (file_size - offset) (ground arith) in
            let (_, u, e₁, e₂) =
              >>=-returned (S.upload_pages_from_url blob url offset n offset) _ w (rw more at e) in
            let (copied, size) =
              copy_pages-IsCopied blob url file_size rounds (offset + n) u w' (omega arith)
                (omega arith) (upload-IsCopied blob url offset n w u e₁ before) e₂ in
            (copied, size ∙ lawful.upload_pages_size blob url offset n offset w u e₁)
      ]

  -- Where the services behave as documented, a copy that returns leaves a blob of the size of the
  -- object, and with its bytes.
  pub copy_from_s3-object :
      (store : AzureImageStore) (bucket key name : String) (w w' : World)
      → copy_from_s3 S store bucket key name w ≡ (ok tt, w')
      → IsCopy S V (image_blob_of S store name) bucket key w'
  unfolding copy_from_s3
  copy_from_s3-object store bucket key name w w' e =
      let blob = image_blob_of S store name in
      let (n, u₁, e₁, k₁) = >>=-returned (S.content_length bucket key) _ w e in
      let (url, u₂, e₂, k₂) = >>=-returned (S.generate_presigned_url bucket key) _ u₁ k₁ in
      let (_, u₃, e₃, k₃) = >>=-returned (S.create_page_blob blob n) _ u₂ k₂ in
      let (copied, size) =
        copy_pages-IsCopied blob url n n 0 u₃ w' (omega arith) (omega arith)
          (λ i h. absurd (omega arith)) k₃ in
      let whole = lawful.content_length_lem bucket key w u₁ n e₁ in
      (
        size ∙ (lawful.create_page_blob_lem blob n u₂ u₃ e₃ ∙ whole),
        λ i h. copied i (omega arith) ∙ lawful.generate_presigned_url_lem bucket key u₁ u₂ url e₂ i,
      )

  get_image_url-IsCopy :
      (store : AzureImageStore) (bucket key name url : String) (with_sas_token : Bool)
      (w w' : World)
      → IsCopy S V (image_blob_of S store name) bucket key w
      → get_image_url S store name with_sas_token w ≡ (ok url, w')
      → IsCopy S V (image_blob_of S store name) bucket key w'
  unfolding get_image_url
  get_image_url-IsCopy store bucket key name url false w w' copy e =
      subst (IsCopy S V (image_blob_of S store name) bucket key) (ap (λ p. p.1) e) copy
  get_image_url-IsCopy store bucket key name url true w w' (size, bytes) e =
      let (token, u, e₁, e₂) =
        >>=-returned (S.generate_container_sas store.sa_name store.sa_key store.container_name) _ w
          e in
      let (size', bytes') =
        lawful.generate_container_sas_lem store.sa_name store.sa_key store.container_name token w u
          e₁ (image_blob_of S store name) in
      subst (IsCopy S V (image_blob_of S store name) bucket key) (ap (λ p. p.1) e₂)
        (size' ∙ size, λ i h. bytes' i ∙ bytes i h)

  pub copy_image_from_s3_to_az_storage_account-IsCopy :
      (cfg : StorageAccountCfg) (bucket key name url : String) (with_sas_token : Bool)
      (w w' : World)
      → copy_image_from_s3_to_az_storage_account S cfg bucket key name with_sas_token w
        ≡ (ok url, w')
      → IsCopy S V (image_blob_of S (store_of cfg) name) bucket key w'
  unfolding copy_image_from_s3_to_az_storage_account
  copy_image_from_s3_to_az_storage_account-IsCopy cfg bucket key name url with_sas_token w w' e =
      let (_, u, e₁, e₂) = >>=-returned (copy_from_s3 S (store_of cfg) bucket key name) _ w e in
      get_image_url-IsCopy (store_of cfg) bucket key name url with_sas_token u w'
        (copy_from_s3-object (store_of cfg) bucket key name w u e₁) e₂

-- The URL that the copy of an image returns, without a token.
pub copy_image_from_s3_to_az_storage_account-get_image_url :
    (S : Storage) (cfg : StorageAccountCfg) (bucket key name url : String) (w w' : S.World)
    → copy_image_from_s3_to_az_storage_account S cfg bucket key name false w ≡ (ok url, w')
    → (v : S.World) → get_image_url S (store_of cfg) name false v ≡ (ok url, v)
unfolding copy_image_from_s3_to_az_storage_account get_image_url
copy_image_from_s3_to_az_storage_account-get_image_url S cfg bucket key name url w w' e v =
    let (_, u, e₁, e₂) = >>=-returned (copy_from_s3 S (store_of cfg) bucket key name) _ w e in
    let (same, _) = return-returned _ url u w' e₂ in ap (λ x. (ok x, v)) same
