-- ===== src/Policies/Passwords/Acceptance.antt =====
-- Which passwords a policy accepts.
use open_id_connect_wasi_hub.Prelude.{
  ℕ, ◌+◌, ◌≤◌, ◌≡◌, ◌≢◌, ◌↔◌, refl, arith, String, List, [], ◌∷◌, ◌++◌, Bool, true, false, none,
  some, not, ◌&&◌, ◌||◌, ◌==◌, nat_eq, nat_beq_iff, string_eq, option_eq, any, is_empty, length,
  ltb, if◌then◌else◌, codes, utf8_bytes, max, Bool-cases, inl, inr, All,
}
use open_id_connect_wasi_hub.Policies.Passwords.{
  PasswordPolicy, accepted, is_ascii_uppercase, is_ascii_lowercase, is_ascii_digit, Classes,
  classify, classes_from, no_classes, unique_chars, max_run_from, is_disallowed, push_if, violated,
  validate_password,
}

-- How many of the next characters are `c`.
abbrev pub leading : ℕ → List ℕ → ℕ
leading c [] = 0
leading c (d ∷ ds) = let more = leading c ds in if d == c then more + 1 else 0

-- The length of the longest run of one character.
abbrev pub longest_run : List ℕ → ℕ
longest_run [] = 0
longest_run (c ∷ cs) = max (leading c cs + 1) (longest_run cs)

-- The loop of the source finds the longest run.
max_run_from_lem :
    (m n c : ℕ) (cs : List ℕ)
    → n ≤ m
    → 1 ≤ m
    → max_run_from m n (some c) cs ≡ max m (max (n + leading c cs) (longest_run cs))
unfolding max_run_from
max_run_from_lem m n c [] h k = ground arith
max_run_from_lem m n c (d ∷ ds) h k = elim (Bool-cases (d == c)) [
  | inl same ↦ ground (
    arith,
    same,
    nat_beq_iff d c,
    max_run_from_lem (if ltb m (n + 1) then n + 1 else m) (n + 1) d ds,
  )
  | inr other ↦ ground (arith, other, max_run_from_lem m 1 d ds)
]

max_run_lem : (cs : List ℕ) → is_empty cs ≡ false → max_run_from 1 1 none cs ≡ longest_run cs
unfolding max_run_from
max_run_lem [] h = cc
max_run_lem (c ∷ cs) h = ground (arith, max_run_from_lem 1 1 c cs)

-- The classes found are those of the characters.
abbrev pub is_special : ℕ → Bool
is_special c = not (is_ascii_uppercase c || is_ascii_lowercase c || is_ascii_digit c)

classes_from_lem :
    (k : Classes) (cs : List ℕ)
    → classes_from k cs ≡ record {
      has_upper = k.has_upper || any is_ascii_uppercase cs;
      has_lower = k.has_lower || any is_ascii_lowercase cs;
      has_digit = k.has_digit || any is_ascii_digit cs;
      has_special = k.has_special || any is_special cs;
    }
unfolding classes_from
classes_from_lem k [] = ground arith
classes_from_lem k (c ∷ cs) = ground (arith, classes_from_lem (classify k c) cs)

push_if-nil :
    (b : Bool) (r : String) (rs : List String)
    → (push_if b r ++ rs ≡ []) ↔ ((b ≡ false) × (rs ≡ []))
push_if-nil true r rs = ground arith
push_if-nil false r rs = ground arith

validate_password-violated :
    (to_lowercase : String → String) (policy : PasswordPolicy) (password : String)
    → (validate_password to_lowercase policy password ≡ accepted)
      ↔ (violated to_lowercase policy password ≡ [])
unfolding validate_password
validate_password-violated to_lowercase policy password = ground arith

-- Nine reports are empty exactly where none is made.
reports-nil :
    (a b c d e f g h i : Bool) (p q r s t u v w x : String)
    → (push_if a p
          ++ push_if b q
          ++ push_if c r
          ++ push_if d s
          ++ push_if e t
          ++ push_if f u
          ++ push_if g v
          ++ push_if h w
          ++ push_if i x
        ≡ [])
      ↔ (All (λ z. z ≡ false) (a ∷ b ∷ c ∷ d ∷ e ∷ f ∷ g ∷ h ∷ i ∷ []))
reports-nil a b c d e f g h i p q r s t u v w x = ground (
  arith,
  push_if-nil a p (
      push_if b q
      ++ push_if c r
      ++ push_if d s
      ++ push_if e t
      ++ push_if f u
      ++ push_if g v
      ++ push_if h w
      ++ push_if i x),
  push_if-nil b q (
      push_if c r
      ++ push_if d s
      ++ push_if e t
      ++ push_if f u
      ++ push_if g v
      ++ push_if h w
      ++ push_if i x),
  push_if-nil c r
      (push_if d s ++ push_if e t ++ push_if f u ++ push_if g v ++ push_if h w ++ push_if i x),
  push_if-nil d s (push_if e t ++ push_if f u ++ push_if g v ++ push_if h w ++ push_if i x),
  push_if-nil e t (push_if f u ++ push_if g v ++ push_if h w ++ push_if i x),
  push_if-nil f u (push_if g v ++ push_if h w ++ push_if i x),
  push_if-nil g v (push_if h w ++ push_if i x),
  push_if-nil h w (push_if i x),
)

-- What a policy asks of a password. Lengths are in bytes of UTF-8.
pub record IsAcceptable (to_lowercase : String → String) (policy : PasswordPolicy)
    (password : String) : Type 0 where
  pub long : policy.min_length ≤ length (utf8_bytes (codes password))
  pub short : length (utf8_bytes (codes password)) ≤ policy.max_length
  pub upper : policy.require_uppercase ≡ true → any is_ascii_uppercase (codes password) ≡ true
  pub lower : policy.require_lowercase ≡ true → any is_ascii_lowercase (codes password) ≡ true
  pub digit : policy.require_digit ≡ true → any is_ascii_digit (codes password) ≡ true
  pub special : policy.require_special ≡ true → any is_special (codes password) ≡ true
  pub varied : policy.min_unique_chars ≤ length (unique_chars (codes password))
  pub runs :
      policy.max_identical_consecutive ≢ 0
      → longest_run (codes password) ≤ policy.max_identical_consecutive
  pub allowed : is_disallowed to_lowercase policy password ≡ false

-- The nine tests, each true where its rule is violated.
abbrev flags : (String → String) → PasswordPolicy → String → List Bool
flags to_lowercase policy password =
    let chars = codes password in
    let k = classes_from no_classes chars in
    ltb (length (utf8_bytes chars)) policy.min_length
    ∷ ltb policy.max_length (length (utf8_bytes chars))
    ∷ (policy.require_uppercase && not k.has_upper)
    ∷ (policy.require_lowercase && not k.has_lower)
    ∷ (policy.require_digit && not k.has_digit)
    ∷ (policy.require_special && not k.has_special)
    ∷ (ltb 0 policy.min_unique_chars && ltb (length (unique_chars chars)) policy.min_unique_chars)
    ∷ (ltb 0 policy.max_identical_consecutive
        && not (is_empty chars)
        && ltb policy.max_identical_consecutive (max_run_from 1 1 none chars))
    ∷ is_disallowed to_lowercase policy password
    ∷ []

validate_password-flags :
    (to_lowercase : String → String) (policy : PasswordPolicy) (password : String)
    → (validate_password to_lowercase policy password ≡ accepted)
      ↔ All (λ z. z ≡ false) (flags to_lowercase policy password)
unfolding violated
validate_password-flags to_lowercase policy password =
    let by_rules = validate_password-violated to_lowercase policy password in
    let reports = reports-nil _ _ _ _ _ _ _ _ _ _ _ _ _ _ _ _ _ _ in
    (λ h. reports.0 (by_rules.0 h), λ h. by_rules.1 (reports.1 h))

run_flag :
    (k : ℕ) (chars : List ℕ)
    → ((ltb 0 k && not (is_empty chars) && ltb k (max_run_from 1 1 none chars)) ≡ false)
      ↔ (k ≢ 0 → longest_run chars ≤ k)
run_flag k [] = (λ h n. omega arith, λ h. ground arith)
run_flag k (c ∷ cs) = ground (arith, max_run_lem (c ∷ cs) refl)

flags-IsAcceptable :
    (to_lowercase : String → String) (policy : PasswordPolicy) (password : String)
    → All (λ z. z ≡ false) (flags to_lowercase policy password)
    → IsAcceptable to_lowercase policy password
flags-IsAcceptable to_lowercase policy password (a, (b, (c, (d, (e, (f, (g, (h, (i, _))))))))) =
    let classes = classes_from_lem no_classes (codes password) in
    record {
      long = ground arith;
      short = ground arith;
      upper = ground (arith, classes);
      lower = ground (arith, classes);
      digit = ground (arith, classes);
      special = ground (arith, classes);
      varied = ground arith;
      runs = (run_flag policy.max_identical_consecutive (codes password)).0 h;
      allowed = i;
    }

IsAcceptable-flags :
    (to_lowercase : String → String) (policy : PasswordPolicy) (password : String)
    → IsAcceptable to_lowercase policy password
    → All (λ z. z ≡ false) (flags to_lowercase policy password)
IsAcceptable-flags to_lowercase policy password ok =
    let classes = classes_from_lem no_classes (codes password) in
    (
      ground (arith, ok.long),
      (
        ground (arith, ok.short),
        (
          ground (arith, classes, ok.upper),
          (
            ground (arith, classes, ok.lower),
            (
              ground (arith, classes, ok.digit),
              (
                ground (arith, classes, ok.special),
                (
                  ground (arith, ok.varied),
                  (
                    (run_flag policy.max_identical_consecutive (codes password)).1 ok.runs,
                    (ok.allowed, tt),
                  ),
                ),
              ),
            ),
          ),
        ),
      ),
    )

-- A password is accepted exactly where it satisfies every rule of the policy: the single pass over
-- its characters finds their classes, and the loop over runs the length of the longest one.
pub validate_password_iff :
    (to_lowercase : String → String) (policy : PasswordPolicy) (password : String)
    → (validate_password to_lowercase policy password ≡ accepted)
      ↔ IsAcceptable to_lowercase policy password
validate_password_iff to_lowercase policy password =
    let flags = validate_password-flags to_lowercase policy password in
    (
      λ h. flags-IsAcceptable to_lowercase policy password (flags.0 h),
      λ h. flags.1 (IsAcceptable-flags to_lowercase policy password h),
    )
