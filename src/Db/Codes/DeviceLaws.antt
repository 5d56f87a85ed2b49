-- ===== src/Db/Codes/DeviceLaws.antt =====
-- Laws of the table of device codes.
use open_id_connect_wasi_hub.Prelude.{
  ℕ, ◌≡◌, ◌≢◌, refl, subst, String, List, [], ◌∷◌, none, some, inl, inr, false, All, arith, eq_iff,
  ◌==◌, string_eq, Bool-cases,
}
use open_id_connect_wasi_hub.Models.{DeviceCode}
use open_id_connect_wasi_hub.Db.Codes.{find_by_device_code, mark_device_code_used}

-- Device codes are drawn at random: no two rows have the same digest.
abbrev pub DistinctDeviceCodes : List DeviceCode → Type 0
DistinctDeviceCodes [] = Unit
DistinctDeviceCodes (x ∷ xs) = All (λ y. y.device_code ≢ x.device_code) xs × DistinctDeviceCodes xs

All-mark_device_code_used :
    (id : ℕ) (h : String) (t : List DeviceCode)
    → All (λ y. y.device_code ≢ h) t
    → All (λ y. y.device_code ≢ h) (mark_device_code_used id t)
unfolding mark_device_code_used
All-mark_device_code_used id h [] a = tt
All-mark_device_code_used id h (y ∷ t) (ne, a) = (ground arith, All-mark_device_code_used id h t a)

module _ (hash : String) where
  pub find_by_device_code_sound :
      (now : ℕ) (t : List DeviceCode) (dc : DeviceCode)
      → find_by_device_code hash now t ≡ some dc
      → dc.used ≡ false
  unfolding find_by_device_code
  find_by_device_code_sound now [] dc h = cc
  find_by_device_code_sound now (y ∷ t) dc h = ground (arith, find_by_device_code_sound now t dc)

  find_by_device_code_absent :
      (now : ℕ) (t : List DeviceCode)
      → All (λ y. y.device_code ≢ hash) t
      → find_by_device_code hash now t ≡ none
  unfolding find_by_device_code
  find_by_device_code_absent now [] h = refl
  find_by_device_code_absent now (y ∷ t) (ne, h) =
      ground (arith, eq_iff y.device_code hash, find_by_device_code_absent now t h)

  -- Once its row is marked as used a device code is not found again, at any time.
  pub find_by_device_code-mark_device_code_used :
      (now later : ℕ) (t : List DeviceCode) (dc : DeviceCode)
      → DistinctDeviceCodes t
      → find_by_device_code hash now t ≡ some dc
      → find_by_device_code hash later (mark_device_code_used dc.id t) ≡ none
  unfolding find_by_device_code mark_device_code_used
  find_by_device_code-mark_device_code_used now later [] dc d h = cc
  find_by_device_code-mark_device_code_used now later (y ∷ t) dc (d, ds) h =
      elim (Bool-cases (y.device_code == hash)) [
        | inl hit ↦
            let others =
              subst (λ c. All (λ z. z.device_code ≢ c) t) ((eq_iff y.device_code hash).0 hit) d in
            ground (
              arith,
              hit,
              find_by_device_code_absent now t others,
              find_by_device_code_absent later (mark_device_code_used dc.id t)
                  (All-mark_device_code_used dc.id hash t others),
            )
        | inr miss ↦
            ground (arith, miss, find_by_device_code-mark_device_code_used now later t dc ds)
      ]
