-- ===== src/Db/Attempt.antt =====
-- A body of `with_transaction!` that writes before it fails: the tables are carried through errors too,
-- and the macro drops them when the body ends in an error.
use open_id_connect_wasi_hub.Prelude.{◌≡◌, refl, arith}
use open_id_connect_wasi_hub.Error.{Result, ok, err}

abbrev pub Attempt : Type 0 → Type 0 → Type 0
Attempt S A = S → Result A × S

module _ {S : Type 0} where
  then_continue : {A B : Type 0} → Result A → S → (A → Attempt S B) → Result B × S
  then_continue (err e) s next = (err e, s)
  then_continue (ok a) s next = next a s

  -- `?`, with the writes made so far.
  infixl 5 ◌>>=◌ ◌>>◌
  unfoldable pub ◌>>=◌ : {A B : Type 0} → Attempt S A → (A → Attempt S B) → Attempt S B
  unfolding then_continue
  (m >>= next) s = then_continue (m s).0 (m s).1 next

  abbrev pub ◌>>◌ : {B : Type 0} → Attempt S (Unit {0}) → Attempt S B → Attempt S B
  m >> next = m >>= λ _. next

  -- A step that writes nothing.
  abbrev pub reads : {A : Type 0} → (S → Result A) → Attempt S A
  reads f s = (f s, s)

  abbrev pub writes : (S → S) → Attempt S (Unit {0})
  writes f s = (ok tt, f s)

  -- What the macro does with the end of the body: it commits a success and rolls back an error.
  abbrev pub settled : {A : Type 0} → Result A × S → Result (A × S)
  settled (err e, s) = err e
  settled (ok a, s) = ok (a, s)

  then_continue-ok :
      {A B : Type 0} (r : Result A) (mid s' : S) (next : A → Attempt S B) {b : B}
      → then_continue r mid next ≡ (ok b, s')
      → (a : A) × (r ≡ ok a) × (next a mid ≡ (ok b, s'))
  unfolding then_continue
  then_continue-ok (err e) mid s' next h = absurd (ground arith)
  then_continue-ok (ok a) mid s' next h = (a, refl, h)

  pub >>=-eq-ok :
      {A B : Type 0} (m : Attempt S A) (next : A → Attempt S B) (s s' : S) {b : B}
      → (m >>= next) s ≡ (ok b, s')
      → (a : A) × (mid : S) × (m s ≡ (ok a, mid)) × (next a mid ≡ (ok b, s'))
  unfolding ◌>>=◌
  >>=-eq-ok m next s s' h =
      let (a, e, rest) = then_continue-ok (m s).0 (m s).1 s' next h in
      (a, (m s).1, (λ i. (e i, (m s).1)), rest)

  -- A step that writes nothing, and what follows it.
  pub reads_then :
      {A B : Type 0} (f : S → Result A) (next : A → Attempt S B) (s s' : S) {b : B}
      → (reads f >>= next) s ≡ (ok b, s')
      → (a : A) × (f s ≡ ok a) × (next a s ≡ (ok b, s'))
  unfolding ◌>>=◌
  reads_then f next s s' h = then_continue-ok (f s) s s' next h

  pub settled-ok :
      {A : Type 0} (p : Result A × S) (s' : S) {a : A} → settled p ≡ ok (a, s') → p ≡ (ok a, s')
  settled-ok (err e, s) s' h = absurd (ground arith)
  settled-ok (ok b, s) s' h = ground arith
