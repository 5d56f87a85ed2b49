-- ===== src/Policies/Globs/Matching.antt =====
-- The search of `glob_matches` ends, and answers what the pattern means.
use Prim.Native.Nat.{◌*◌}
use open_id_connect_wasi_hub.Prelude.{
  ℕ, ◌+◌, ◌≤◌, ◌<◌, ◌≡◌, refl, arith, zero, suc, String, List, [], ◌∷◌, Bool, true, false, Option,
  none, some, ◌||◌, ◌==◌, nat_eq, nat_beq_iff, length, Bool-cases, inl, inr, All,
}
use open_id_connect_wasi_hub.Policies.Globs.{
  star_byte, any_byte, only_stars, Star, retry, backtrack, follow, turn, scan, fuel_for, bytes,
  glob_matches,
}
use open_id_connect_wasi_hub.Policies.Globs.Reference.{
  somewhere, matches, somewhere-first, Aligned, here, step, Aligned-next, Aligned-length,
  matches-first, matches-first_at, matches-star, Aligned-somewhere,
}

only_stars_lem : (p : List ℕ) → only_stars p ≡ matches p []
unfolding only_stars matches
only_stars_lem [] = refl
only_stars_lem (d ∷ p) = elim (Bool-cases (d == star_byte)) [
  | inl e ↦ ground (arith, e, only_stars_lem p, matches-star d p [] e)
  | inr e ↦ ground (arith, e, only_stars_lem p, matches-first_at d p [] e)
]

-- What the last star can still reach, from the next checkpoint on.
abbrev behind_from : List ℕ → List ℕ → Bool
behind_from ps [] = false
behind_from ps (c ∷ cv) = somewhere (matches ps) cv

abbrev behind : Option Star → Bool
behind none = false
behind (some star) = behind_from star.after star.checkpoint

abbrev IsAligned : List ℕ → List ℕ → Option Star → Type 0
IsAligned p v none = Unit
IsAligned p v (some star) = Aligned p v star.after star.checkpoint

-- At the end of the value no other checkpoint helps.
Aligned-end :
    {p ps cv : List ℕ} → Aligned p [] ps cv → behind_from ps cv ≡ true → matches p [] ≡ true
Aligned-end here h = ground arith
Aligned-end (step {ps} {cv = []} d c e a) h = absurd (ground (arith, matches-first_at d ps [] e))
Aligned-end (step {ps} {cv = c' ∷ cv} d c e a) h =
    Aligned-end a
      (somewhere-first d c' (matches ps) cv (ground (arith, matches-first d ps (c' ∷ cv) e)))

-- `r` passes of at most `k` turns each.
abbrev times : ℕ → ℕ → ℕ
times zero k = 0
times (suc r) k = k + times r k

times-le : (r s k : ℕ) → r ≤ s → times r k ≤ times s k
times-le zero s k h = omega arith
times-le (suc r) zero k h = omega arith
times-le (suc r) (suc s) k h = omega (arith, times-le r s k)

-- How many checkpoints are still to come.
abbrev restarts : List ℕ → Option Star → ℕ
restarts v none = length v
restarts v (some star) = length star.checkpoint

abbrev pub IsPlain : List ℕ → Type 0
IsPlain v = All (λ c. (c == star_byte) ≡ false) v

abbrev PlainBehind : Option Star → Type 0
PlainBehind none = Unit
PlainBehind (some star) = IsPlain star.checkpoint

abbrev FitsBehind : ℕ → Option Star → Type 0
FitsBehind k none = Unit
FitsBehind k (some star) = length star.after + length star.checkpoint < k

-- What holds at every turn of the loop, `n` turns before the fuel ends.
record IsRunning (k n : ℕ) (p v : List ℕ) (star : Option Star) : Type 0 where
  aligned : IsAligned p v star
  plain : IsPlain v
  plain_behind : PlainBehind star
  fits : length p + length v < k
  fits_behind : FitsBehind k star
  fuel : times (restarts v star) k + length p + length v < n

-- Every run of the rest of the loop on `n` turns is right.
abbrev IsRight : ℕ → ℕ → Type 0
IsRight k n =
    (p v : List ℕ) (star : Option Star)
    → IsRunning k n p v star
    → scan n p v star ≡ some (matches p v || behind star)

behind_from_lem :
    (ps cv : List ℕ) → (matches ps cv || behind_from ps cv) ≡ somewhere (matches ps) cv
behind_from_lem ps [] = ground arith
behind_from_lem ps (c ∷ cv) = refl

-- A mismatch goes back to the last star, one byte further on.
retry_lem :
    (k n : ℕ) (p v : List ℕ) (ps cv : List ℕ)
    → IsRight k n
    → IsRunning k (suc n) p v (some (record { after = ps; checkpoint = cv }))
    → follow (scan n) (retry ps cv) ≡ some (behind_from ps cv)
retry_lem k n p v ps [] right r = refl
retry_lem k n p v ps (c ∷ cv) right r =
    rw
      (
        right ps cv (some (record { after = ps; checkpoint = cv })) (record {
          aligned = here;
          plain = r.plain_behind.1;
          plain_behind = r.plain_behind.1;
          fits = omega (arith, r.fits_behind);
          fits_behind = omega (arith, r.fits_behind);
          fuel = omega (arith, r.fuel, r.fits_behind);
        }),
        behind_from_lem ps cv,
      )
      refl

backtrack_lem :
    (k n : ℕ) (p v : List ℕ) (star : Option Star)
    → IsRight k n
    → IsRunning k (suc n) p v star
    → follow (scan n) (backtrack star) ≡ some (behind star)
backtrack_lem k n p v none right r = refl
backtrack_lem k n p v (some s) right r = retry_lem k n p v s.after s.checkpoint right r

ends_lem :
    (p : List ℕ) (star : Option Star)
    → IsAligned p [] star
    → only_stars p ≡ (matches p [] || behind star)
ends_lem p none a = ground (arith, only_stars_lem p)
ends_lem p (some s) a = ground (arith, only_stars_lem p, Aligned-end a)

-- The next byte of the pattern takes the next byte of the value.
matched :
    (k n d c : ℕ) (p v : List ℕ) (star : Option Star)
    → (d == star_byte) ≡ false
    → IsRunning k (suc n) (d ∷ p) (c ∷ v) star
    → IsRunning k n p v star
matched k n d c p v none e r = record {
  aligned = tt;
  plain = r.plain.1;
  plain_behind = tt;
  fits = omega (arith, r.fits);
  fits_behind = tt;
  fuel = omega (arith, r.fuel);
}
matched k n d c p v (some s) e r = record {
  aligned = Aligned-next d c e r.aligned;
  plain = r.plain.1;
  plain_behind = r.plain_behind;
  fits = omega (arith, r.fits);
  fits_behind = r.fits_behind;
  fuel = omega (arith, r.fuel);
}

restarts-le : (p v : List ℕ) (star : Option Star) → IsAligned p v star → length v ≤ restarts v star
restarts-le p v none a = omega arith
restarts-le p v (some s) a = Aligned-length a

-- A new star replaces the old one.
starred :
    (k n d c : ℕ) (p v : List ℕ) (star : Option Star)
    → IsRunning k (suc n) (d ∷ p) (c ∷ v) star
    → IsRunning k n p (c ∷ v) (some (record { after = p; checkpoint = c ∷ v }))
starred k n d c p v star r = record {
  aligned = here;
  plain = r.plain;
  plain_behind = r.plain;
  fits = omega (arith, r.fits);
  fits_behind = omega (arith, r.fits);
  fuel = omega (
    arith,
    r.fuel,
    times-le (suc (length v)) (restarts (c ∷ v) star) k
        (restarts-le (d ∷ p) (c ∷ v) star r.aligned),
  );
}

forgotten :
    (d c : ℕ) (p v : List ℕ) (star : Option Star)
    → (d == star_byte) ≡ true
    → IsAligned (d ∷ p) (c ∷ v) star
    → behind star ≡ true
    → somewhere (matches p) (c ∷ v) ≡ true
forgotten d c p v none e a h = absurd (ground arith)
forgotten d c p v (some s) e a h = Aligned-somewhere d e a (reached s.after s.checkpoint h)
  where
    reached : (ps cv : List ℕ) → behind_from ps cv ≡ true → somewhere (matches ps) cv ≡ true
    reached ps [] h = absurd (ground arith)
    reached ps (c ∷ cv) h = ground arith

matches-nil : (c : ℕ) (v : List ℕ) → matches [] (c ∷ v) ≡ false
unfolding matches
matches-nil c v = refl

scan_lem : (k n : ℕ) → IsRight k n
unfolding scan turn
scan_lem k zero p v star r = absurd (omega (arith, r.fuel))
scan_lem k (suc n) p [] star r = ground (arith, ends_lem p star r.aligned)
scan_lem k (suc n) [] (c ∷ v) star r =
    ground (arith, backtrack_lem k n [] (c ∷ v) star (scan_lem k n) r, matches-nil c v)
scan_lem k (suc n) (d ∷ p) (c ∷ v) star r = elim (Bool-cases (d == any_byte || d == c)) [
  | inl hit ↦
      let e : (d == star_byte) ≡ false =
        ground (arith, hit, nat_beq_iff d c, nat_beq_iff d any_byte, r.plain.0) in
      ground (
        arith,
        hit,
        scan_lem k n p v star (matched k n d c p v star e r),
        matches-first_at d p (c ∷ v) e,
      )
  | inr miss ↦ elim (Bool-cases (d == star_byte)) [
    | inl e ↦ ground (
      arith,
      miss,
      e,
      scan_lem k n p (c ∷ v) (some (record { after = p; checkpoint = c ∷ v }))
          (starred k n d c p v star r),
      matches-star d p (c ∷ v) e,
      forgotten d c p v star e r.aligned,
    )
    | inr e ↦ ground (
      arith,
      miss,
      e,
      backtrack_lem k n (d ∷ p) (c ∷ v) star (scan_lem k n) r,
      matches-first_at d p (c ∷ v) e,
    )
  ]
]

times_lem : (r k : ℕ) → times (suc r) k ≤ (r + 2) * k
times_lem zero k = omega arith
times_lem (suc r) k = omega (arith, times_lem r k)

-- On a value without a byte `*` the search ends within its fuel, and its answer is what the pattern
-- means: a star stands for any text, a question mark for any one byte, all else for itself.
pub glob_matches_lem :
    (pattern value : String)
    → IsPlain (bytes value)
    → glob_matches pattern value ≡ some (matches (bytes pattern) (bytes value))
unfolding glob_matches
glob_matches_lem pattern value plain =
    let p = bytes pattern in
    let v = bytes value in
    let k = length p + length v + 1 in
    let running : IsRunning k (fuel_for p v) p v none = record {
      aligned = tt;
      plain = plain;
      plain_behind = tt;
      fits = omega arith;
      fits_behind = tt;
      fuel = omega (arith, times_lem (length v) k);
    } in
    ground (arith, scan_lem k (fuel_for p v) p v none running)
