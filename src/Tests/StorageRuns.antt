-- ===== src/Tests/StorageRuns.antt =====
-- The copy of an image into a storage account that is kept in memory.
use gardenlinux.Prelude.{
  ℕ, ◌+◌, ◌-◌, ◌≡◌, refl, sym, ap, String, ◌&&◌, ltb, leb, if◌then◌else◌, List, arith,
}
use Prim.Native.Nat.{◌%◌}
use gardenlinux.Prelude.Result.{Result, ok, ok_injective}
use gardenlinux.Azure.{step_of, Storage, AzureImageStore, image_blob_of, copy_pages, copy_from_s3}
use gardenlinux.Azure.Copy.{Piece, AllInBounds, Joined, upload_piece, copy_pages-InBounds}
use gardenlinux.Azure.Copied.{View, IsLawfulStorage, IsCopy, copy_from_s3-object}
use gardenlinux.Prelude.Action.{for_each}

-- The size and the bytes of the blob.
pub record Blob : Type 0 where
  pub size : ℕ
  pub byte : ℕ → ℕ

abbrev object_bytes : ℕ → ℕ
object_bytes i = i % 256

-- Two requests copy it.
abbrev object_length : ℕ
object_length = 5_000_000

abbrev pub storage : Storage
storage = record {
  World = Blob;
  BlobClient = String;
  from_connection_string = λ connection container name. name;
  content_length = λ bucket key w. (ok object_length, w);
  generate_presigned_url = λ bucket key w. (ok "url", w);
  create_page_blob = λ blob n w. (ok tt, record { size = n; byte = λ i. 0 });
  upload_pages_from_url = λ blob url offset length source w. (
    ok tt,
    record w {
      byte = λ i.
          if leb offset i && ltb i (offset + length)
          then object_bytes (source + (i - offset))
          else w.byte i;
    },
  );
  generate_container_sas = λ account key container w. (ok "sas", w);
}

abbrev pub view : View storage
view = record {
  object_size = λ bucket key. object_length;
  object_byte = λ bucket key. object_bytes;
  url_byte = λ url. object_bytes;
  blob_size = λ w blob. w.size;
  blob_byte = λ w blob. w.byte;
}

-- What a call that returns has returned.
after :
    {A W : Type 0} {a b : A} {w w' : W}
    → ◌≡◌ {A = Result A × W} (ok a, w) (ok b, w')
    → (a ≡ b) × (w ≡ w')
after e = (ok_injective (ap (λ p. p.0) e), ap (λ p. p.1) e)

pub storage-IsLawful : IsLawfulStorage storage view
storage-IsLawful = record {
  content_length_lem = λ bucket key w w' n e. sym (after e).0;
  generate_presigned_url_lem = λ bucket key w w' url e i. refl;
  create_page_blob_lem = λ blob n w w' e. ap (λ (b : Blob). b.size) (sym (after e).1);
  upload_pages_size =
      λ blob url offset length source w w' e. ap (λ (b : Blob). b.size) (sym (after e).1);
  upload_pages_byte =
      λ blob url offset length source w w' e i. ap (λ (b : Blob). b.byte i) (sym (after e).1);
  generate_container_sas_lem = λ account key container token w w' e blob. (
    ap (λ (b : Blob). b.size) (sym (after e).1),
    λ i. ap (λ (b : Blob). b.byte i) (sym (after e).1),
  );
}

abbrev start : Blob
start = record { size = 0; byte = λ i. 7 }

abbrev store : AzureImageStore
store = record { sa_name = "account"; sa_key = "key"; container_name = "images" }

abbrev copied : Blob
unfolding copy_from_s3
copied = (copy_from_s3 storage store "bucket" "objects/1" "image.vhd" start).1

copied_whole : copy_from_s3 storage store "bucket" "objects/1" "image.vhd" start ≡ (ok tt, copied)
unfolding copy_from_s3 step_of
copied_whole = refl

copy_from_s3-object_example :
    IsCopy storage view (image_blob_of storage store "image.vhd") "bucket" "objects/1" copied
copy_from_s3-object_example =
    copy_from_s3-object storage view storage-IsLawful store "bucket" "objects/1" "image.vhd" start
      copied copied_whole

copy_pages-InBounds_example :
    (pieces : List Piece) × ((w : Blob)
      → copy_pages storage "image.vhd" "url" object_length 5_000_000 0 w
        ≡ for_each (upload_piece storage "image.vhd" "url") pieces w)
    × AllInBounds object_length pieces
    × Joined 0 pieces object_length
copy_pages-InBounds_example =
    copy_pages-InBounds storage "image.vhd" "url" object_length 5_000_000 0 (omega arith)
      (omega arith) (λ h. refl)
