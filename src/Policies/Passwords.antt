-- ===== src/Policies/Passwords.antt =====
-- crates/oidc-core/src/models/password_policy.rs: the password policy of a realm.
pub mod Acceptance
use open_id_connect_wasi_hub.Prelude.{
  ℕ, ◌+◌, String, List, [], ◌∷◌, ◌++◌, Bool, true, false, Option, none, some, not, ◌&&◌, ◌||◌, ◌==◌,
  nat_eq, string_eq, option_eq, contains, any, is_empty, length, ltb, leb, if◌then◌else◌, codes,
  utf8_bytes,
}

pub record PasswordPolicy : Type 0 where
  pub min_length : ℕ
  pub max_length : ℕ
  pub require_uppercase : Bool
  pub require_lowercase : Bool
  pub require_digit : Bool
  pub require_special : Bool
  pub min_unique_chars : ℕ
  pub password_history_count : ℕ
  pub max_identical_consecutive : ℕ
  pub disallowed_passwords : List String

abbrev pub default_policy : PasswordPolicy
default_policy = record {
  min_length = 8;
  max_length = 128;
  require_uppercase = true;
  require_lowercase = true;
  require_digit = true;
  require_special = false;
  min_unique_chars = 0;
  password_history_count = 0;
  max_identical_consecutive = 0;
  disallowed_passwords = [];
}

-- `Result<(), PasswordPolicyViolation>`, with the names of the violated rules.
pub data Verdict : Type 0 where
  accepted : Verdict
  violation : List String → Verdict

-- `is_ascii_uppercase`, `is_ascii_lowercase` and `is_ascii_digit`, on code points.
abbrev pub is_ascii_uppercase : ℕ → Bool
is_ascii_uppercase c = leb 65 c && leb c 90

abbrev pub is_ascii_lowercase : ℕ → Bool
is_ascii_lowercase c = leb 97 c && leb c 122

abbrev pub is_ascii_digit : ℕ → Bool
is_ascii_digit c = leb 48 c && leb c 57

pub record Classes : Type 0 where
  pub has_upper : Bool
  pub has_lower : Bool
  pub has_digit : Bool
  pub has_special : Bool

abbrev pub classify : Classes → ℕ → Classes
classify k c =
    if is_ascii_uppercase c
    then record k { has_upper = true }
    else if is_ascii_lowercase c
    then record k { has_lower = true }
    else if is_ascii_digit c
    then record k { has_digit = true }
    else record k { has_special = true }

unfoldable pub classes_from : Classes → List ℕ → Classes
classes_from k [] = k
classes_from k (c ∷ cs) = classes_from (classify k c) cs

abbrev pub no_classes : Classes
no_classes = record { has_upper = false; has_lower = false; has_digit = false; has_special = false }

-- The elements of the `HashSet` of the characters.
unfoldable pub unique_chars : List ℕ → List ℕ
unique_chars [] = []
unique_chars (c ∷ cs) = let rest = unique_chars cs in if contains rest c then rest else c ∷ rest

-- The loop over runs of identical characters.
unfoldable pub max_run_from : ℕ → ℕ → Option ℕ → List ℕ → ℕ
max_run_from max_run current_run prev [] = max_run
max_run_from max_run current_run prev (ch ∷ chs) =
    let same = some ch == prev in
    let run = if same then current_run + 1 else 1 in
    max_run_from (if same && ltb max_run run then run else max_run) run (some ch) chs

unfoldable pub is_disallowed : (String → String) → PasswordPolicy → String → Bool
is_disallowed to_lowercase policy password =
    any (λ disallowed. to_lowercase password == to_lowercase disallowed) policy.disallowed_passwords

abbrev pub push_if : Bool → String → List String
push_if true rule = rule ∷ []
push_if false rule = []

-- The rules that the password violates, in the order of the source. `to_lowercase` is that of the
-- standard library, on all of Unicode.
unfoldable pub violated : (String → String) → PasswordPolicy → String → List String
violated to_lowercase policy password =
    let chars = codes password in
    let k = classes_from no_classes chars in
    push_if (ltb (length (utf8_bytes chars)) policy.min_length) "min_length"
    ++ push_if (ltb policy.max_length (length (utf8_bytes chars))) "max_length"
    ++ push_if (policy.require_uppercase && not k.has_upper) "require_uppercase"
    ++ push_if (policy.require_lowercase && not k.has_lower) "require_lowercase"
    ++ push_if (policy.require_digit && not k.has_digit) "require_digit"
    ++ push_if (policy.require_special && not k.has_special) "require_special"
    ++ push_if
        (ltb 0 policy.min_unique_chars && ltb (length (unique_chars chars)) policy.min_unique_chars)
        "min_unique_chars"
    ++ push_if
        (ltb 0 policy.max_identical_consecutive
          && not (is_empty chars)
          && ltb policy.max_identical_consecutive (max_run_from 1 1 none chars))
        "max_identical_consecutive"
    ++ push_if (is_disallowed to_lowercase policy password) "disallowed_password"

unfoldable pub validate_password : (String → String) → PasswordPolicy → String → Verdict
validate_password to_lowercase policy password = elim (violated to_lowercase policy password) [
  | [] ↦ accepted
  | r ∷ rs ↦ violation (r ∷ rs)
]
