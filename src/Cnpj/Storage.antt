-- ===== src/Cnpj/Storage.antt =====
-- The room for a download: `assess_download_capacity` and `_check_quota` of
-- apps/sources/cnpj/storage.py, and `storage_status` of apps/jobs/operations.py.
use sniper_synapse.Base.{ℕ, ◌+◌, ◌≤◌, ◌<◌, ◌≡◌, ◌↔◌, Bool, true, false, arith, if◌then◌else◌, ltb}
use sniper_synapse.Base.Int.{ℤ, pos, ◌-ℤ◌, ltb_ℤ, leb_ℤ, min_ℤ, max_ℤ}

-- The settings, and the free bytes that the disk reports at the call.
pub record Disk : Type 0 where
  pub max_temp_bytes : ℕ
  pub min_free_bytes : ℕ
  pub free_bytes : ℕ

pub data Reason : Type 0 where
  exceeds_quota reserve_reached available : Reason

pub record CnpjCapacity : Type 0 where
  pub expected_bytes : ℕ
  pub free_bytes : ℕ
  pub remaining_bytes : ℤ
  pub max_temp_bytes : ℕ
  pub min_free_bytes : ℕ
  pub allowed : Bool
  pub reason : Reason

abbrev pub is_available : Reason → Bool
is_available available = true
is_available _ = false

module _ (disk : Disk) where
  unfoldable pub reason_for : ℕ → Reason
  reason_for expected_bytes =
      if ltb disk.max_temp_bytes expected_bytes
      then exceeds_quota
      else if ltb_ℤ (pos disk.free_bytes -ℤ pos expected_bytes) (pos disk.min_free_bytes)
      then reserve_reached
      else available

  unfoldable pub assess_download_capacity : ℕ → CnpjCapacity
  assess_download_capacity expected_bytes = record {
    expected_bytes = expected_bytes;
    free_bytes = disk.free_bytes;
    remaining_bytes = pos disk.free_bytes -ℤ pos expected_bytes;
    max_temp_bytes = disk.max_temp_bytes;
    min_free_bytes = disk.min_free_bytes;
    allowed = is_available (reason_for expected_bytes);
    reason = reason_for expected_bytes;
  }

  -- `safe_cnpj_capacity_bytes` of `storage_status`
  unfoldable pub safe_capacity : ℤ
  safe_capacity =
      max_ℤ (pos 0)
        (min_ℤ (pos disk.max_temp_bytes) (pos disk.free_bytes -ℤ pos disk.min_free_bytes))

  reason_for-fits :
      (n : ℕ)
      → is_available (reason_for n) ≡ true
      → (n ≤ disk.max_temp_bytes) × (n + disk.min_free_bytes ≤ disk.free_bytes)
  unfolding reason_for ◌-ℤ◌
  reason_for-fits n h = ground (arith, h)

  fits-reason_for :
      (n : ℕ)
      → n ≤ disk.max_temp_bytes
      → n + disk.min_free_bytes ≤ disk.free_bytes
      → is_available (reason_for n) ≡ true
  unfolding reason_for ◌-ℤ◌
  fits-reason_for n h k = ground (arith, h, k)

  safe_capacity-fits :
      (n : ℕ)
      → 0 < n
      → leb_ℤ (pos n) safe_capacity ≡ true
      → (n ≤ disk.max_temp_bytes) × (n + disk.min_free_bytes ≤ disk.free_bytes)
  unfolding safe_capacity ◌-ℤ◌
  safe_capacity-fits n p h = ground (arith, p, h)

  fits-safe_capacity :
      (n : ℕ)
      → n ≤ disk.max_temp_bytes
      → n + disk.min_free_bytes ≤ disk.free_bytes
      → leb_ℤ (pos n) safe_capacity ≡ true
  unfolding safe_capacity ◌-ℤ◌
  fits-safe_capacity n h k = ground (arith, h, k)

  -- A download of n bytes is allowed if and only if n is within the quota and leaves the reserve.
  pub assess_download_capacity-allowed :
      (n : ℕ)
      → ((assess_download_capacity n).allowed ≡ true)
        ↔ ((n ≤ disk.max_temp_bytes) × (n + disk.min_free_bytes ≤ disk.free_bytes))
  unfolding assess_download_capacity
  assess_download_capacity-allowed n = (reason_for-fits n, λ h. fits-reason_for n h.0 h.1)

  -- For a file of at least one byte, the check before a download and the capacity that the health
  -- of the manifest is judged by agree.
  pub capacity_agrees :
      (n : ℕ)
      → 0 < n
      → ((assess_download_capacity n).allowed ≡ true) ↔ (leb_ℤ (pos n) safe_capacity ≡ true)
  unfolding assess_download_capacity
  capacity_agrees n p = (
    (λ h. let (a, b) = reason_for-fits n h in fits-safe_capacity n a b),
    (λ h. let (a, b) = safe_capacity-fits n p h in fits-reason_for n a b),
  )
