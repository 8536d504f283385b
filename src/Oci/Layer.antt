-- ===== src/Oci/Layer.antt =====
-- The layer that `publish_container_image_from_tarfile` of ci/glci/oci.py makes of a tar file.
use gardenlinux.Prelude.{
  ℕ, ◌+◌, ◌≡◌, refl, sym, ap, ◌∙◌, String, List, [], ◌∷◌, ◌++◌, length, length-append, arith,
}
use mathlib.Core.List.{append_assoc, append-nil}

-- Bytes.
abbrev pub Bytes : Type 0
Bytes = List ℕ

-- What the code uses of `hashlib`, `zlib` and `gziputil`.
pub record Gzip : Type 1 where
  pub Hash : Type 0
  pub sha256 : Hash
  pub update : Hash → Bytes → Hash
  pub hexdigest : Hash → String
  pub Compressor : Type 0
  pub compressobj : Compressor
  pub compress : Compressor → Bytes → Bytes × Compressor
  pub flush : Compressor → Bytes
  -- `crc32(chunk, crc)`
  pub crc32 : Bytes → ℕ → ℕ
  pub gzip_header : Bytes
  -- `gzip_footer(crc32, uncompressed_size)`
  pub gzip_footer : ℕ → ℕ → Bytes

-- The variables of the loop.
pub record Layer (Z : Gzip) : Type 0 where
  pub gzip_file : Bytes
  pub compressed_hash : Z.Hash
  pub uncompressed_hash : Z.Hash
  pub written : ℕ
  pub src_length : ℕ
  pub crc : ℕ
  pub compressor : Z.Compressor

module _ (Z : Gzip) where
  -- `gzip_file.write(data)`, with the hash and the length
  unfoldable pub write : Bytes → Layer Z → Layer Z
  write bytes l = record l {
    gzip_file = l.gzip_file ++ bytes;
    compressed_hash = Z.update l.compressed_hash bytes;
    written = l.written + length bytes;
  }

  unfoldable pub with_chunk : Bytes → Layer Z → Layer Z
  unfolding write
  with_chunk chunk l =
      let (bytes, compressor) = Z.compress l.compressor chunk in
      write bytes (record l {
        uncompressed_hash = Z.update l.uncompressed_hash chunk;
        crc = Z.crc32 chunk l.crc;
        src_length = l.src_length + length chunk;
        compressor = compressor;
      })

  -- `while chunk := f.read(1024)`, of what the reads return.
  unfoldable pub with_chunks : List Bytes → Layer Z → Layer Z
  unfolding with_chunk
  with_chunks [] l = l
  with_chunks ([] ∷ reads) l = l
  with_chunks ((b ∷ chunk) ∷ reads) l = with_chunks reads (with_chunk (b ∷ chunk) l)

  unfoldable pub empty_layer : Layer Z
  empty_layer = record {
    gzip_file = [];
    compressed_hash = Z.sha256;
    uncompressed_hash = Z.sha256;
    written = 0;
    src_length = 0;
    crc = 0;
    compressor = Z.compressobj;
  }

  abbrev with_footer : Layer Z → Layer Z
  with_footer l = write (Z.gzip_footer l.crc l.src_length) l

  abbrev with_remainder : Layer Z → Layer Z
  with_remainder l = write (Z.flush l.compressor) l

  unfoldable pub layer_of : List Bytes → Layer Z
  unfolding with_chunks write empty_layer
  layer_of reads =
      with_footer (with_remainder (with_chunks reads (write Z.gzip_header empty_layer)))

  -- What the reads return up to the end of the file.
  unfoldable pub content : List Bytes → Bytes
  content [] = []
  content ([] ∷ reads) = []
  content ((b ∷ chunk) ∷ reads) = (b ∷ chunk) ++ content reads

  -- The documented behaviour of hashes and checksums: they may be computed in parts.
  pub record IsIncremental : Type 0 where
    pub update_append : (h : Z.Hash) (a b : Bytes) → Z.update (Z.update h a) b ≡ Z.update h (a ++ b)
    pub update_nil : (h : Z.Hash) → Z.update h [] ≡ h
    pub crc32_append : (a b : Bytes) (c : ℕ) → Z.crc32 b (Z.crc32 a c) ≡ Z.crc32 (a ++ b) c
    pub crc32_nil : (c : ℕ) → Z.crc32 [] c ≡ c

  module _ (incremental : IsIncremental) where
    -- The hash and the length are those of the file.
    abbrev pub IsHashed : Layer Z → Type 0
    IsHashed l =
        (l.compressed_hash ≡ Z.update Z.sha256 l.gzip_file) × (l.written ≡ length l.gzip_file)

    write-IsHashed : (bytes : Bytes) (l : Layer Z) → IsHashed l → IsHashed (write bytes l)
    unfolding write
    write-IsHashed bytes l (hash, size) = (
      ap (λ h. Z.update h bytes) hash ∙ incremental.update_append Z.sha256 l.gzip_file bytes,
      omega (arith, length-append l.gzip_file bytes),
    )

    with_chunks-IsHashed :
        (reads : List Bytes) (l : Layer Z) → IsHashed l → IsHashed (with_chunks reads l)
    unfolding with_chunks
    with_chunks-IsHashed [] l h = h
    with_chunks-IsHashed ([] ∷ reads) l h = h
    with_chunks-IsHashed ((b ∷ chunk) ∷ reads) l h =
        with_chunks-IsHashed reads (with_chunk (b ∷ chunk) l) (chunk-IsHashed (b ∷ chunk) l h)
      where
        chunk-IsHashed : (chunk : Bytes) (l : Layer Z) → IsHashed l → IsHashed (with_chunk chunk l)
        chunk-IsHashed chunk l h =
            write-IsHashed (Z.compress l.compressor chunk).0
              (record l {
                uncompressed_hash = Z.update l.uncompressed_hash chunk;
                crc = Z.crc32 chunk l.crc;
                src_length = l.src_length + length chunk;
                compressor = (Z.compress l.compressor chunk).1;
              })
              h

    -- The file is made of the parts that the loop writes, and the checksums are those of what the
    -- reads have returned so far.
    abbrev IsOf : Bytes → Layer Z → Type 0
    IsOf text l =
        (l.uncompressed_hash ≡ Z.update Z.sha256 text)
        × (l.src_length ≡ length text)
        × (l.crc ≡ Z.crc32 text 0)

    with_chunks-IsOf :
        (reads : List Bytes) (text : Bytes) (l : Layer Z)
        → IsOf text l
        → IsOf (text ++ content reads) (with_chunks reads l)
    unfolding with_chunks with_chunk write content
    with_chunks-IsOf [] text l h = rw (append-nil text) h
    with_chunks-IsOf ([] ∷ reads) text l h = rw (append-nil text) h
    with_chunks-IsOf ((b ∷ chunk) ∷ reads) text l (hash, size, crc) =
        rw (← append_assoc text (b ∷ chunk) (content reads)) (
          with_chunks-IsOf reads (text ++ b ∷ chunk) (with_chunk (b ∷ chunk) l) (
            ap (λ h. Z.update h (b ∷ chunk)) hash
                ∙ incremental.update_append Z.sha256 text (b ∷ chunk),
            omega (arith, length-append text (b ∷ chunk)),
            ap (Z.crc32 (b ∷ chunk)) crc ∙ incremental.crc32_append text (b ∷ chunk) 0,
          ))

    -- Where hashes and checksums may be computed in parts, the digest and the length of a layer are
    -- those of the file, the uncompressed digest is that of what was read, and the file ends with
    -- the footer of the checksum and the length of what was read.
    pub layer_of-IsHashed :
        (reads : List Bytes)
        → let l = layer_of reads in
          (l.compressed_hash ≡ Z.update Z.sha256 l.gzip_file)
          × (l.written ≡ length l.gzip_file)
          × (l.uncompressed_hash ≡ Z.update Z.sha256 (content reads))
          × ((body : Bytes) × (l.gzip_file
                ≡ body ++ Z.gzip_footer (Z.crc32 (content reads) 0) (length (content reads))))
    unfolding layer_of
    layer_of-IsHashed reads =
        let first = write Z.gzip_header empty_layer in
        let l = with_chunks reads first in
        let (hash, size) =
          write-IsHashed (Z.gzip_footer (with_remainder l).crc (with_remainder l).src_length)
            (with_remainder l)
            (write-IsHashed (Z.flush l.compressor) l (
              with_chunks-IsHashed reads first (
                write-IsHashed Z.gzip_header empty_layer
                  (sym (incremental.update_nil Z.sha256), refl)))) in
        let (uncompressed, length_of, crc_of) =
          with_chunks-IsOf reads [] first
            (sym (incremental.update_nil Z.sha256), refl, sym (incremental.crc32_nil 0)) in
        (
          hash,
          size,
          uncompressed,
          (l.gzip_file ++ Z.flush l.compressor, rw (crc_of, length_of) refl),
        )
