-- ===== src/Accounts.antt =====
-- Accounts (src/services/authService.js) and the part of src/services/workspace.js that lets a user in.
-- Hashing, the comparison of a password with its hash, case folding and mail belong to the platform;
-- new ids, tokens and the time are arguments.
pub mod Passwords
pub mod Links
pub mod SentLinks
pub mod Joining
pub mod Children
pub mod Family
pub mod Parents
pub mod Roles
pub mod Reach
mod Tests
use coparentes_backend.Common.{ℕ, Bool, true, false, Option, none, some, String}
use coparentes_backend.Common.Store.{Store}
use coparentes_backend.Custody.Pattern.{Role}
use coparentes_backend.Sessions.{Session}
use coparentes_backend.Otp.{Challenge}

pub record Account : Type 0 where
  pub id : ℕ
  pub workspace_id : Option ℕ
  pub name : String
  pub email : String
  pub password_hash : String
  pub role : Role
  pub child_profile_id : Option ℕ
  pub public_key : Option String
  pub private_key_envelope : Option String
  pub recovery_key_envelope : Option String
  pub must_change_password : Bool
  pub deleted_at : Option ℕ

-- `PasswordResetToken`
pub record ResetToken : Type 0 where
  pub id : ℕ
  pub token_hash : String
  pub user_id : ℕ
  pub expires_at : ℕ
  pub used_at : Option ℕ

pub record TrustedDevice : Type 0 where
  pub id : ℕ
  pub user_id : ℕ
  pub token_hash : String
  pub expires_at : ℕ

-- The tables that an account's operations write, those that `deleteOwnAccount` only clears left out.
pub record AccountDb (s : Store) : Type 0 where
  pub users : s.Table Account
  pub sessions : s.Table Session
  pub challenges : s.Table Challenge
  pub devices : s.Table TrustedDevice
  pub reset_tokens : s.Table ResetToken

-- What the service takes from the platform.
pub record Platform : Type 0 where
  pub hash : String → String
  pub compare : String → String → Bool
  pub is_x25519_key : String → Bool
  pub length : String → ℕ
  pub placeholder_email : ℕ → String
  pub anonymized_name : String
