-- ===== src/Actions/Order.antt =====
-- The pending actions come in the configured order, each once, where the order names every kind.
use open_id_connect_wasi_hub.Prelude.{
  ℕ, ◌≡◌, ◌<◌, ◌≤◌, refl, List, [], ◌∷◌, ◌++◌, ◌||◌, true, ◌==◌, arith, contains, All, leb,
  if◌then◌else◌, Bool-cases, inl, inr,
}
use open_id_connect_wasi_hub.Models.{User}
use open_id_connect_wasi_hub.Actions.{
  RequiredActionKind, update_password, verify_email, update_profile, configure_mfa, accept_terms,
  kind_eq, kind_beq_iff, AuthenticationFlowConfig, normal_order, push_new, all_kinds,
}
use open_id_connect_wasi_hub.Actions.Store.{ActionTables}
use open_id_connect_wasi_hub.Actions.Needed.{contains-append}
use open_id_connect_wasi_hub.Actions.Pending.{
  position, insert_by, sort_by_key, keep_unless_repeated, dedup, gathered, pending_actions,
}

module _ (key : RequiredActionKind → ℕ) where
  abbrev Sorted : List RequiredActionKind → Type 0
  Sorted [] = Unit
  Sorted (x ∷ xs) = All (λ y. key x ≤ key y) xs × Sorted xs

  -- Each action stands before all later ones, so that none comes twice.
  abbrev pub Ascending : List RequiredActionKind → Type 0
  Ascending [] = Unit
  Ascending (x ∷ xs) = All (λ y. key x < key y) xs × Ascending xs

  All-insert_by :
      (n : ℕ) (x : RequiredActionKind) (xs : List RequiredActionKind)
      → n ≤ key x
      → All (λ y. n ≤ key y) xs
      → All (λ y. n ≤ key y) (insert_by key x xs)
  unfolding insert_by
  All-insert_by n x [] h a = (h, tt)
  All-insert_by n x (y ∷ ys) h (a, rest) = elim (Bool-cases (leb (key x) (key y))) [
    | inl before ↦ rw before (h, (a, rest))
    | inr after ↦ rw after (a, All-insert_by n x ys h rest)
  ]

  All-later :
      (m n : ℕ) (xs : List RequiredActionKind)
      → m ≤ n
      → All (λ y. n ≤ key y) xs
      → All (λ y. m ≤ key y) xs
  All-later m n [] h a = tt
  All-later m n (y ∷ ys) h (a, rest) = (omega arith, All-later m n ys h rest)

  insert_by-Sorted :
      (x : RequiredActionKind) (xs : List RequiredActionKind)
      → Sorted xs
      → Sorted (insert_by key x xs)
  unfolding insert_by
  insert_by-Sorted x [] s = (tt, tt)
  insert_by-Sorted x (y ∷ ys) (a, s) = elim (Bool-cases (leb (key x) (key y))) [
    | inl before ↦
        let le : key x ≤ key y = ground (arith, before) in
        rw before ((le, All-later (key x) (key y) ys le a), (a, s))
    | inr after ↦
        let le : key y ≤ key x = ground (arith, after) in
        rw after (All-insert_by (key y) x ys le a, insert_by-Sorted x ys s)
  ]

  sort_by_key-Sorted : (xs : List RequiredActionKind) → Sorted (sort_by_key key xs)
  unfolding sort_by_key
  sort_by_key-Sorted [] = tt
  sort_by_key-Sorted (x ∷ xs) = insert_by-Sorted x (sort_by_key key xs) (sort_by_key-Sorted xs)

  All-keep :
      (n : ℕ) (x : RequiredActionKind) (xs : List RequiredActionKind)
      → n ≤ key x
      → All (λ y. n ≤ key y) xs
      → All (λ y. n ≤ key y) (keep_unless_repeated x xs)
  unfolding keep_unless_repeated
  All-keep n x [] h a = (h, tt)
  All-keep n x (y ∷ ys) h a = elim (Bool-cases (x == y)) [
    | inl same ↦ rw same a
    | inr other ↦ rw other (h, a)
  ]

  All-dedup :
      (n : ℕ) (xs : List RequiredActionKind)
      → All (λ y. n ≤ key y) xs
      → All (λ y. n ≤ key y) (dedup xs)
  unfolding dedup
  All-dedup n [] a = tt
  All-dedup n (x ∷ xs) (a, rest) = All-keep n x (dedup xs) a (All-dedup n xs rest)

  All-beyond :
      (m n : ℕ) (xs : List RequiredActionKind)
      → m < n
      → All (λ y. n < key y) xs
      → All (λ y. m < key y) xs
  All-beyond m n [] h a = tt
  All-beyond m n (y ∷ ys) h (a, rest) = (omega arith, All-beyond m n ys h rest)

  module _ (injective : (a b : RequiredActionKind) → key a ≡ key b → a ≡ b) where
    keep-Ascending :
        (x : RequiredActionKind) (xs : List RequiredActionKind)
        → All (λ y. key x ≤ key y) xs
        → Ascending xs
        → Ascending (keep_unless_repeated x xs)
    unfolding keep_unless_repeated
    keep-Ascending x [] a s = (tt, tt)
    keep-Ascending x (y ∷ ys) (a, rest) (b, s) = elim (Bool-cases (x == y)) [
      | inl same ↦ rw same (b, s)
      | inr other ↦
          let apart : key x < key y = ground (arith, kind_beq_iff x y, injective x y) in
          rw other ((apart, All-beyond (key x) (key y) ys apart b), (b, s))
    ]

    dedup-Ascending : (xs : List RequiredActionKind) → Sorted xs → Ascending (dedup xs)
    unfolding dedup
    dedup-Ascending [] s = tt
    dedup-Ascending (x ∷ xs) (a, s) =
        keep-Ascending x (dedup xs) (All-dedup (key x) xs a) (dedup-Ascending xs s)

position_injective :
    (order : List RequiredActionKind) (a b : RequiredActionKind)
    → contains order a ≡ true
    → position order a ≡ position order b
    → a ≡ b
unfolding position
position_injective [] a b there h = cc
position_injective (v ∷ vs) a b there h =
    ground (arith, kind_beq_iff v a, kind_beq_iff v b, position_injective vs a b)

-- Where the configured order names every kind, the pending actions come in that order and none comes
-- twice.
pub pending_actions-Ascending :
    (flow : AuthenticationFlowConfig) (user : User) (tables : ActionTables)
    → ((k : RequiredActionKind) → contains flow.action_order k ≡ true)
    → Ascending (position flow.action_order) (pending_actions flow user tables)
unfolding pending_actions
pending_actions-Ascending flow user tables every =
    dedup-Ascending (position flow.action_order)
      (λ a b. position_injective flow.action_order a b (every a))
      (sort_by_key (position flow.action_order) (gathered flow user tables))
      (sort_by_key-Sorted (position flow.action_order) (gathered flow user tables))

contains-push_new :
    (k : RequiredActionKind) (order actions : List RequiredActionKind)
    → contains (push_new order actions) k ≡ (contains order k || contains actions k)
unfolding push_new
contains-push_new k order [] = ground arith
contains-push_new k order (x ∷ xs) = ground (
  arith,
  contains-append k order (x ∷ []),
  contains-push_new k (if contains order x then order else order ++ x ∷ []) xs,
  kind_beq_iff x k,
)

contains-all_kinds : (k : RequiredActionKind) → contains all_kinds k ≡ true
contains-all_kinds update_password = refl
contains-all_kinds verify_email = refl
contains-all_kinds update_profile = refl
contains-all_kinds configure_mfa = refl
contains-all_kinds accept_terms = refl

-- A normalized order names every kind.
pub contains-normal_order :
    (order : List RequiredActionKind) (k : RequiredActionKind)
    → contains (normal_order order) k ≡ true
unfolding normal_order
contains-normal_order order k = ground (
  arith,
  contains-push_new k [] (order ++ all_kinds),
  contains-append k order all_kinds,
  contains-all_kinds k,
)
