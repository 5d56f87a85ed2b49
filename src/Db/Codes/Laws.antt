-- ===== src/Db/Codes/Laws.antt =====
-- Laws of the table of authorization codes.
use open_id_connect_wasi_hub.Prelude.{
  ℕ, ◌≡◌, ◌≢◌, refl, subst, String, List, [], ◌∷◌, none, some, inl, inr, All, arith, eq_iff, ◌==◌,
  string_eq, Bool-cases,
}
use open_id_connect_wasi_hub.External.{External}
use open_id_connect_wasi_hub.Token.{sha2_256_hex}
use open_id_connect_wasi_hub.Models.{AuthCode}
use open_id_connect_wasi_hub.Db.Codes.{find_by_code, mark_code_used}

-- `code TEXT NOT NULL UNIQUE`, on the rows as a list.
abbrev pub DistinctCodes : List AuthCode → Type 0
DistinctCodes [] = Unit
DistinctCodes (x ∷ xs) = All (λ y. y.code ≢ x.code) xs × DistinctCodes xs

All-mark_code_used :
    (id : ℕ) (h : String) (t : List AuthCode)
    → All (λ y. y.code ≢ h) t
    → All (λ y. y.code ≢ h) (mark_code_used id t)
unfolding mark_code_used
All-mark_code_used id h [] a = tt
All-mark_code_used id h (y ∷ t) (ne, a) = (ground arith, All-mark_code_used id h t a)

module _ (ext : External) (code : String) where
  find_by_code_absent :
      (now : ℕ) (t : List AuthCode)
      → All (λ y. y.code ≢ sha2_256_hex ext code) t
      → find_by_code ext code now t ≡ none
  unfolding find_by_code
  find_by_code_absent now [] h = refl
  find_by_code_absent now (y ∷ t) (ne, h) =
      ground (arith, eq_iff y.code (sha2_256_hex ext code), find_by_code_absent now t h)

  -- Once its row is marked as used a code is not found again, at any time.
  pub find_by_code-mark_code_used :
      (now later : ℕ) (t : List AuthCode) (auth_code : AuthCode)
      → DistinctCodes t
      → find_by_code ext code now t ≡ some auth_code
      → find_by_code ext code later (mark_code_used auth_code.id t) ≡ none
  unfolding find_by_code mark_code_used
  find_by_code-mark_code_used now later [] auth_code d h = cc
  find_by_code-mark_code_used now later (y ∷ t) auth_code (d, ds) h =
      elim (Bool-cases (y.code == sha2_256_hex ext code)) [
        | inl hit ↦
            let same = (eq_iff y.code (sha2_256_hex ext code)).0 hit in
            let others = subst (λ c. All (λ z. z.code ≢ c) t) same d in
            ground (
              arith,
              hit,
              find_by_code_absent now t others,
              find_by_code_absent later (mark_code_used auth_code.id t)
                  (All-mark_code_used auth_code.id (sha2_256_hex ext code) t others),
            )
        | inr miss ↦ ground (arith, miss, find_by_code-mark_code_used now later t auth_code ds)
      ]
