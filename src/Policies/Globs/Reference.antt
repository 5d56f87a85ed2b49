-- ===== src/Policies/Globs/Reference.antt =====
-- What a glob pattern means, and the facts that let the search forget all stars but the last.
use open_id_connect_wasi_hub.Prelude.{
  ℕ, ◌≤◌, ◌≡◌, refl, arith, List, [], ◌∷◌, Bool, true, false, ◌&&◌, ◌||◌, ◌==◌, nat_eq, is_empty,
  length, if◌then◌else◌,
}
use open_id_connect_wasi_hub.Policies.Globs.{star_byte, any_byte}

-- Some rest of the value is accepted.
abbrev pub somewhere : (List ℕ → Bool) → List ℕ → Bool
somewhere m [] = m []
somewhere m (c ∷ v) = m (c ∷ v) || somewhere m v

-- The first byte is `d`, or any byte where `d` is a question mark, and the rest is accepted.
abbrev pub first : ℕ → (List ℕ → Bool) → List ℕ → Bool
first d m [] = false
first d m (c ∷ v) = (d == any_byte || d == c) && m v

-- The meaning of a pattern: a star stands for any text, a question mark for any byte.
unfoldable pub matches : List ℕ → List ℕ → Bool
matches [] = is_empty
matches (d ∷ p) = let rest = matches p in if d == star_byte then somewhere rest else first d rest

pub somewhere-here : (m : List ℕ → Bool) (v : List ℕ) → m v ≡ true → somewhere m v ≡ true
somewhere-here m [] h = h
somewhere-here m (c ∷ v) h = ground arith

pub somewhere-somewhere :
    (m : List ℕ → Bool) (v : List ℕ) → somewhere (somewhere m) v ≡ true → somewhere m v ≡ true
somewhere-somewhere m [] h = h
somewhere-somewhere m (c ∷ v) h = ground (arith, somewhere-somewhere m v)

pub somewhere-first :
    (d c : ℕ) (m : List ℕ → Bool) (v : List ℕ)
    → somewhere (first d m) (c ∷ v) ≡ true
    → somewhere m v ≡ true
somewhere-first d c m [] h = ground arith
somewhere-first d c m (e ∷ v) h = ground (arith, somewhere-first d e m v, somewhere-here m (e ∷ v))

-- The pattern and the value have been compared byte by byte, from `ps` and `cv` to `p` and `v`.
pub data Aligned (p v : List ℕ) : List ℕ → List ℕ → Type 0 where
  here : Aligned p v p v
  step :
      {ps cv : List ℕ} (d c : ℕ)
      → (d == star_byte) ≡ false
      → Aligned p v ps cv
      → Aligned p v (d ∷ ps) (c ∷ cv)

pub Aligned-next :
    (d c : ℕ) {p v ps cv : List ℕ}
    → (d == star_byte) ≡ false
    → Aligned (d ∷ p) (c ∷ v) ps cv
    → Aligned p v ps cv
Aligned-next d c h here = step d c h here
Aligned-next d c h (step d' c' h' a) = step d' c' h' (Aligned-next d c h a)

pub Aligned-length : {p v ps cv : List ℕ} → Aligned p v ps cv → length v ≤ length cv
Aligned-length here = omega arith
Aligned-length (step d c h a) = omega (arith, Aligned-length a)

pub matches-first :
    (d : ℕ) (p v : List ℕ)
    → (d == star_byte) ≡ false
    → somewhere (matches (d ∷ p)) v ≡ somewhere (first d (matches p)) v
unfolding matches
matches-first d p v h = rw h refl

pub matches-first_at :
    (d : ℕ) (p v : List ℕ) → (d == star_byte) ≡ false → matches (d ∷ p) v ≡ first d (matches p) v
unfolding matches
matches-first_at d p v h = rw h refl

somewhere-star :
    (d : ℕ) (p v : List ℕ)
    → (d == star_byte) ≡ true
    → somewhere (matches (d ∷ p)) v ≡ somewhere (somewhere (matches p)) v
unfolding matches
somewhere-star d p v h = rw h refl

pub matches-star :
    (d : ℕ) (p v : List ℕ) → (d == star_byte) ≡ true → matches (d ∷ p) v ≡ somewhere (matches p) v
unfolding matches
matches-star d p v h = rw h refl

-- What an older star could still reach, a newer one reaches as well.
pub Aligned-somewhere :
    (e : ℕ) {p v ps cv : List ℕ}
    → (e == star_byte) ≡ true
    → Aligned (e ∷ p) v ps cv
    → somewhere (matches ps) cv ≡ true
    → somewhere (matches p) v ≡ true
Aligned-somewhere e {p} {v} h here m =
    somewhere-somewhere (matches p) v (ground (arith, somewhere-star e p v h))
Aligned-somewhere e h (step {ps} {cv} d c h' a) m =
    Aligned-somewhere e h a
      (somewhere-first d c (matches ps) cv (ground (arith, matches-first d ps (c ∷ cv) h')))

pub somewhere-split :
    (m : List ℕ → Bool) (c : ℕ) (v : List ℕ) → somewhere m (c ∷ v) ≡ (m (c ∷ v) || somewhere m v)
somewhere-split m c v = refl
