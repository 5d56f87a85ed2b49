-- ===== src/Actions.antt =====
-- crates/oidc-core/src/models/required_action.rs: what a user has to do before a sign-in completes, and
-- a realm's configuration of it.
pub mod Store
pub mod Pending
pub mod Needed
pub mod Order
use open_id_connect_wasi_hub.Prelude.{
  ℕ, ℤ, ◌≡◌, ◌↔◌, refl, ap, sym, ◌∙◌, String, List, [], ◌∷◌, ◌++◌, Option, none, some, Bool, true,
  false, not, ◌==◌, ◌&&◌, Eq, nat_eq, string_eq, nat_beq, nat_beq_iff, find, contains, is_blank,
  pos, negsuc, if◌then◌else◌,
}

pub data RequiredActionKind : Type 0 where
  update_password verify_email update_profile configure_mfa accept_terms : RequiredActionKind

-- `PartialEq` of the enum, by the place of a constructor.
abbrev pub discriminant : RequiredActionKind → ℕ
discriminant update_password = 0
discriminant verify_email = 1
discriminant update_profile = 2
discriminant configure_mfa = 3
discriminant accept_terms = 4

kind_at : ℕ → RequiredActionKind
kind_at n =
    if n == 0
    then update_password
    else if n == 1
    then verify_email
    else if n == 2
    then update_profile
    else if n == 3
    then configure_mfa
    else accept_terms

kind_at-discriminant : (k : RequiredActionKind) → kind_at (discriminant k) ≡ k
unfolding kind_at
kind_at-discriminant update_password = refl
kind_at-discriminant verify_email = refl
kind_at-discriminant update_profile = refl
kind_at-discriminant configure_mfa = refl
kind_at-discriminant accept_terms = refl

abbrev pub kind_beq : RequiredActionKind → RequiredActionKind → Bool
kind_beq a b = nat_beq (discriminant a) (discriminant b)

pub kind_beq_iff : (a b : RequiredActionKind) → (kind_beq a b ≡ true) ↔ (a ≡ b)
kind_beq_iff a b = (
  (λ h.
      sym (kind_at-discriminant a)
      ∙ ap kind_at ((nat_beq_iff (discriminant a) (discriminant b)).0 h)
      ∙ kind_at-discriminant b),
  (λ e. (nat_beq_iff (discriminant a) (discriminant b)).1 (ap discriminant e)),
)

instance abbrev pub kind_eq : Eq RequiredActionKind
kind_eq = record { beq = kind_beq; beq_iff = kind_beq_iff }

-- `RequiredActionKind::ALL`
abbrev pub all_kinds : List RequiredActionKind
all_kinds = update_password ∷ verify_email ∷ update_profile ∷ configure_mfa ∷ accept_terms ∷ []

unfoldable pub as_str : RequiredActionKind → String
as_str update_password = "update_password"
as_str verify_email = "verify_email"
as_str update_profile = "update_profile"
as_str configure_mfa = "configure_mfa"
as_str accept_terms = "accept_terms"

-- `FromStr::from_str`
unfoldable pub from_str : String → Option RequiredActionKind
from_str value = find (λ v. as_str v == value) all_kinds

pub record TermsPolicy : Type 0 where
  pub enabled : Bool
  pub version : String
  pub text : String

pub record StepUpPolicy : Type 0 where
  pub enabled : Bool
  pub client_ids : List String
  pub scopes : List String
  pub max_auth_age_seconds : Option ℤ

pub record AuthenticationFlowConfig : Type 0 where
  pub enabled : Bool
  pub action_order : List RequiredActionKind
  pub require_verified_email : Bool
  pub require_complete_profile : Bool
  pub require_mfa : Bool
  pub terms : TermsPolicy
  pub step_up : StepUpPolicy

unfoldable pub default_flow : AuthenticationFlowConfig
default_flow = record {
  enabled = false;
  action_order = all_kinds;
  require_verified_email = false;
  require_complete_profile = false;
  require_mfa = false;
  terms = record { enabled = false; version = ""; text = "" };
  step_up = record { enabled = false; client_ids = []; scopes = []; max_auth_age_seconds = none };
}

-- The loop of `normalize` over the configured order and all the kinds.
unfoldable pub push_new :
    List RequiredActionKind → List RequiredActionKind → List RequiredActionKind
push_new order [] = order
push_new order (action ∷ actions) =
    push_new (if contains order action then order else order ++ action ∷ []) actions

-- The `action_order` after `normalize`.
unfoldable pub normal_order : List RequiredActionKind → List RequiredActionKind
unfolding push_new
normal_order action_order = push_new [] (action_order ++ all_kinds)

is_negative : Option ℤ → Bool
is_negative none = false
is_negative (some (pos n)) = false
is_negative (some (negsuc n)) = true

-- The message of the first rule that is broken.
unfoldable pub validate : AuthenticationFlowConfig → Option String
unfolding is_negative
validate flow =
    if flow.terms.enabled && is_blank flow.terms.version
    then some "A terms version is required when terms acceptance is enabled"
    else if flow.terms.enabled && is_blank flow.terms.text
    then some "Terms text is required when terms acceptance is enabled"
    else if is_negative flow.step_up.max_auth_age_seconds
    then some "Maximum authentication age cannot be negative"
    else none

-- Each kind is read back from its text.
pub from_str-as_str : (k : RequiredActionKind) → from_str (as_str k) ≡ some k
unfolding from_str as_str
from_str-as_str update_password = refl
from_str-as_str verify_email = refl
from_str-as_str update_profile = refl
from_str-as_str configure_mfa = refl
from_str-as_str accept_terms = refl
