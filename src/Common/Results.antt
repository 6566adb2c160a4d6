-- ===== src/Common/Results.antt =====
-- Results of calls that may throw. `Code` lists the `error.code` strings that the modelled services
-- throw or return.
use mathlib.Core.Path.{◌≡◌, refl}
use mathlib.Core.Bool.{Bool, true, false}
use mathlib.Core.Option.{Option, none, some}
use mathlib.Core.Logic.{◌⊎◌, inl, inr}

pub data Code : Type 0 where
  invalid_id invalid_request : Code
  forbidden_status_transition invalid_paid_by child_not_found : Code
  invalid_document_category workspace_document_limit_reached workspace_storage_limit_reached : Code
  receipt_missing receipt_empty receipt_too_large receipt_unsupported_format : Code
  record_not_found : Code
  document_not_found forbidden unsupported_file_type : Code
  message_not_found invalid_reaction message_empty not_system_channel : Code
  invalid_thread_keys invalid_category thread_not_found thread_key_not_found : Code
  invalid_thread_audience already_exists : Code
  schedule_not_allowed invalid_date_range schedule_not_pending schedule_not_active : Code
  exception_not_pending exception_not_allowed slot_not_allowed schedule_locked : Code
  swap_not_allowed event_not_found : Code
  invalid_challenge resend_cooldown otp_expired otp_locked invalid_otp otp_email_failed : Code
  missing_token invalid_session role_not_supported workspace_required workspace_forbidden : Code
  required_consents_missing invalid_consent_type required_consent_locked : Code
  invalid_credentials invalid_public_key private_key_envelope_required : Code
  invalid_or_expired_token invalid_password email_in_use : Code
  cannot_invite_self invite_not_found invite_not_active inviter_missing_workspace : Code
  invite_email_mismatch workspace_conflict : Code
  workspace_not_found parent_already_joined invite_expired user_missing_workspace : Code
  child_profile_required child_profile_taken child_name_required child_dob_mismatch : Code
  ambiguous_child_profile invalid_invite invalid_date_of_birth no_recovery_contact : Code
  reactions_unavailable attachment_not_found ambiguous_child_login : Code
  too_many_attachments invalid_attachment attachment_too_large : Code

pub data Result {ℓ} (Answer : Type ℓ) : Type ℓ where
  err : Code → Result Answer
  ok : Answer → Result Answer

-- `if (c) throw e`
abbrev pub throw_if : Bool → Code → Result (Unit {0})
throw_if true e = err e
throw_if false e = ok tt

-- `await` of a call that may throw: a code ends the caller, an answer goes on to the rest.
infixl 5 ◌>>=◌ ◌>>◌
abbrev pub ◌>>=◌ {ℓ κ} :
    {Answer : Type ℓ} {Next : Type κ} → Result Answer → (Answer → Result Next) → Result Next
err code >>= rest = err code
ok answer >>= rest = rest answer

-- `if (value === null) throw e`
abbrev pub or_throw {ℓ} : {A : Type ℓ} → Option A → Code → Result A
or_throw none e = err e
or_throw (some a) e = ok a

abbrev pub ◌>>◌ {ℓ κ} :
    {Answer : Type ℓ} {Next : Type κ} → Result Answer → Result Next → Result Next
call >> rest = call >>= λ _. rest

pub Result-cases {ℓ} :
    {A : Type ℓ} (r : Result A) → ((e : Code) × (r ≡ err e)) ⊎ ((a : A) × (r ≡ ok a))
Result-cases (err e) = inl (e, refl)
Result-cases (ok a) = inr (a, refl)

pub ok_injective {ℓ} : {A : Type ℓ} {a b : A} → ok a ≡ ok b → a ≡ b
ok_injective h = cc
