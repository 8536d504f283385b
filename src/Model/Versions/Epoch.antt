-- ===== src/Model/Versions/Epoch.antt =====
-- `gardenlinux_epoch` and `snapshot_date` against the calendar of days.
use gardenlinux.Prelude.{ℕ, ◌+◌, ◌-◌, ◌*◌, ◌≡◌, ◌≤◌, ◌<◌, ◌↔◌, ltb, Bool-cases, inl, inr, ap, arith}
use gardenlinux.Prelude.Result.{ok, ok_injective}
use gardenlinux.Model.Versions.{day, gardenlinux_epoch, snapshot_date}

-- The epoch of a date is `n` exactly if the date lies on the `n`-th day, counted from one, that
-- begins at the epoch date.
pub gardenlinux_epoch_iff :
    (epoch_date date n : ℕ)
    → (gardenlinux_epoch epoch_date date ≡ ok n)
      ↔ ((1 ≤ n) × (epoch_date + (n - 1) * day ≤ date) × (date < epoch_date + n * day))
unfolding gardenlinux_epoch
gardenlinux_epoch_iff epoch_date date n = elim (Bool-cases (ltb date epoch_date)) [
  | inl early ↦ rw early (λ e. absurd (ground arith), λ (a, b, c). absurd (ground arith))
  | inr later ↦ rw later (
    λ e.
        let same = ok_injective e in
        (omega (arith, same), ground (arith, same), ground (arith, same)),
    λ (a, b, c). ap ok (ground arith),
  )
]

-- A moment of the day of the snapshot date of an epoch has that epoch.
pub gardenlinux_epoch-snapshot_date :
    (epoch_date n d time : ℕ)
    → snapshot_date epoch_date n ≡ ok d
    → time < day
    → gardenlinux_epoch epoch_date (d + time) ≡ ok n
unfolding snapshot_date
gardenlinux_epoch-snapshot_date epoch_date n d time e h = elim (Bool-cases (ltb n 1)) [
  | inl early ↦ absurd (ground (arith, rw early at e))
  | inr later ↦
      let same = ok_injective (rw later at e) in
      (gardenlinux_epoch_iff epoch_date (d + time) n).1
        (ground arith, omega (arith, same), ground (arith, same))
]
