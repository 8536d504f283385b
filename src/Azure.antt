-- ===== src/Azure.antt =====
-- Publishing on Azure (ci/glci/az.py): the copy of an image into a storage account.
pub mod Copy
pub mod Copied
pub mod Offers
pub mod Operations
pub mod Market
pub mod Transport
pub mod Publish
pub mod Gallery
use gardenlinux.Prelude.{
  ℕ, zero, suc, ◌+◌, ◌-◌, ◌≡◌, String, ◌<>◌, Bool, true, false, ltb, if◌then◌else◌,
}
use gardenlinux.Prelude.Result.{Result, ok, err, Error}
use gardenlinux.Prelude.Action.{Action, return, ◌>>=◌, ◌>>◌}

-- `AzureStorageAccountCfg`
pub record StorageAccountCfg : Type 0 where
  pub storage_account_name : String
  pub access_key : String
  pub container_name : String
  pub container_name_sig : String

-- `AzureImageStore`
pub record AzureImageStore : Type 0 where
  pub sa_name : String
  pub sa_key : String
  pub container_name : String

-- What the code uses of the S3 client and of the storage SDK. None of them is part of the
-- repository. The time of a SAS token is part of the state.
pub record Storage : Type 1 where
  pub World : Type 0
  pub BlobClient : Type 0
  -- `BlobClient.from_connection_string(…, blob_type=PageBlob)`: connection, container and blob
  pub from_connection_string : String → String → String → BlobClient
  -- `head_object(…)['ContentLength']`, of a bucket and a key
  pub content_length : String → String → Action World ℕ
  -- `generate_presigned_url('get_object', …)`
  pub generate_presigned_url : String → String → Action World String
  pub create_page_blob : BlobClient → ℕ → Action World (Unit {0})
  -- `upload_pages_from_url`: the URL, the offset, the length and the offset at the source
  pub upload_pages_from_url : BlobClient → String → ℕ → ℕ → ℕ → Action World (Unit {0})
  -- `generate_container_sas`, of the account, its key and the container
  pub generate_container_sas : String → String → String → Action World String

-- `copy_step_length`
abbrev pub copy_step_length : ℕ
copy_step_length = 4_194_304

-- `min(copy_step_length, remaining)`
unfoldable pub step_of : ℕ → ℕ
step_of remaining = if ltb remaining copy_step_length then remaining else copy_step_length

module _ (S : Storage) where
  open S use {
    World, BlobClient, from_connection_string, content_length, generate_presigned_url,
    create_page_blob, upload_pages_from_url, generate_container_sas,
  }

  unfoldable pub image_blob_of : AzureImageStore → String → BlobClient
  image_blob_of store target_blob_name =
      from_connection_string
        ("DefaultEndpointsProtocol=https;AccountName="
          <> (store.sa_name
              <> (";AccountKey=" <> (store.sa_key <> ";EndpointSuffix=core.windows.net"))))
        store.container_name target_blob_name

  -- The `while` loop, for so many rounds at most.
  unfoldable pub copy_pages : BlobClient → String → ℕ → ℕ → ℕ → Action World (Unit {0})
  copy_pages image_blob url file_size zero offset w = return tt w
  copy_pages image_blob url file_size (suc rounds) offset w =
      let actual_cp_bytes = step_of (file_size - offset) in
      let round = (do
        upload_pages_from_url image_blob url offset actual_cp_bytes offset
        copy_pages image_blob url file_size rounds (offset + actual_cp_bytes)) in
      if ltb offset file_size then round w else return tt w

  -- A round copies a byte at least, so there are no more rounds than bytes.
  unfoldable pub copy_from_s3 : AzureImageStore → String → String → String → Action World (Unit {0})
  unfolding copy_pages
  copy_from_s3 store s3_bucket_name s3_object_key target_blob_name = do
    let image_blob = image_blob_of store target_blob_name
    file_size ← content_length s3_bucket_name s3_object_key
    url ← generate_presigned_url s3_bucket_name s3_object_key
    create_page_blob image_blob file_size
    copy_pages image_blob url file_size file_size 0

  unfoldable pub get_image_url : AzureImageStore → String → Bool → Action World String
  get_image_url store image_name with_sas_token =
      let result_url =
        "https://"
        <> (store.sa_name
            <> (".blob.core.windows.net/" <> (store.container_name <> ("/" <> image_name)))) in
      if with_sas_token
      then (do
        container_sas ← generate_container_sas store.sa_name store.sa_key store.container_name
        return (result_url <> ("?" <> container_sas)))
      else return result_url

  -- The warning about names without `.vhd` is left out.
  unfoldable pub copy_image_from_s3_to_az_storage_account :
      StorageAccountCfg → String → String → String → Bool → Action World String
  copy_image_from_s3_to_az_storage_account cfg s3_bucket_name s3_object_key target_blob_name
        with_sas_token =
      let store : AzureImageStore = record {
        sa_name = cfg.storage_account_name;
        sa_key = cfg.access_key;
        container_name = cfg.container_name;
      } in
      (do
        copy_from_s3 store s3_bucket_name s3_object_key target_blob_name
        get_image_url store target_blob_name with_sas_token)
