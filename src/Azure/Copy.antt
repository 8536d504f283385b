-- ===== src/Azure/Copy.antt =====
-- The requests by which `copy_from_s3` copies an image.
use Prim.Native.Nat.{◌%◌}
use gardenlinux.Prelude.{
  ℕ, zero, suc, ◌+◌, ◌-◌, ◌≡◌, ◌≤◌, ◌<◌, refl, ◌⊎◌, String, List, [], ◌∷◌, ltb, Bool-cases, inl,
  inr, arith,
}
use mathlib.Core.Path.{fun_ext}
use gardenlinux.Prelude.Action.{Action, for_each}
use gardenlinux.Azure.{Storage, step_of, copy_step_length, copy_pages}

-- A range of bytes that is copied in one go.
pub record Piece : Type 0 where
  pub offset : ℕ
  pub length : ℕ

-- Within the blob and the limit of the service, not empty, and in whole pages if the blob is.
abbrev pub InBounds : ℕ → Piece → Type 0
InBounds file_size p =
    (0 < p.length)
    × (p.length ≤ copy_step_length)
    × (p.offset + p.length ≤ file_size)
    × (p.offset % 512 ≡ 0)
    × (file_size % 512 ≡ 0 → p.length % 512 ≡ 0)

-- One piece begins where the other ends, from an offset to another.
abbrev pub Joined : ℕ → List Piece → ℕ → Type 0
Joined from [] end = from ≡ end
Joined from (p ∷ ps) end = (p.offset ≡ from) × Joined (from + p.length) ps end

abbrev pub AllInBounds : ℕ → List Piece → Type 0
AllInBounds file_size [] = Unit
AllInBounds file_size (p ∷ ps) = InBounds file_size p × AllInBounds file_size ps

pub step_of_bounds :
    (r : ℕ)
    → 0 < r
    → (0 < step_of r)
      × (step_of r ≤ r)
      × (step_of r ≤ copy_step_length)
      × ((step_of r ≡ r) ⊎ (step_of r % 512 ≡ 0))
unfolding step_of
step_of_bounds r h = elim (Bool-cases (ltb r copy_step_length)) [
  | inl less ↦ rw less (h, omega arith, ground arith, inl refl)
  | inr more ↦ rw more (omega arith, ground arith, omega arith, inr refl)
]

module _ (S : Storage) (blob : S.BlobClient) (url : String) where
  open S use {World, upload_pages_from_url}

  abbrev pub upload_piece : Piece → Action World (Unit {0})
  upload_piece p = upload_pages_from_url blob url p.offset p.length p.offset

  -- With a round for each byte left to copy, from an offset within the blob that begins a page or
  -- ends the blob, `copy_from_s3` uploads pieces that join up to the size of the blob: none is
  -- empty, exceeds the limit of the service or the blob, or begins inside a page, and each has
  -- whole pages if the blob has.
  pub copy_pages-InBounds :
      (file_size rounds offset : ℕ)
      → file_size - offset ≤ rounds
      → offset ≤ file_size
      → (offset < file_size → offset % 512 ≡ 0)
      → (pieces : List Piece) × ((w : World)
          → copy_pages S blob url file_size rounds offset w ≡ for_each upload_piece pieces w)
        × AllInBounds file_size pieces
        × Joined offset pieces file_size
  unfolding copy_pages for_each
  copy_pages-InBounds file_size zero offset h le aligned = ([], λ w. refl, tt, omega arith)
  copy_pages-InBounds file_size (suc rounds) offset h le aligned =
      elim (Bool-cases (ltb offset file_size)) [
        | inr done ↦ ([], λ w. rw done refl, tt, ground arith)
        | inl more ↦
            let less : offset < file_size = ground arith in
            let begins : offset % 512 ≡ 0 = aligned less in
            let n = step_of (file_size - offset) in
            let (positive, within, limited, whole) =
              step_of_bounds (file_size - offset) (omega arith) in
            let (pieces, same, bounds, joined) =
              copy_pages-InBounds file_size rounds (offset + n) (omega arith) (omega arith)
                (λ more_left. ground arith) in
            (
              record { offset = offset; length = n } ∷ pieces,
              λ w. rw (more, fun_ext same) refl,
              ((positive, limited, omega arith, begins, λ e. ground arith), bounds),
              (refl, joined),
            )
      ]
