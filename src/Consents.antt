-- ===== src/Consents.antt =====
-- Consents (src/services/consent.service.js): an append-only table, whose newest row of a user and a type
-- counts. The hash of an address is an argument; the version of the texts is left out.
pub mod Current
mod Tests
use coparentes_backend.Common.{
  ℕ, Bool, true, false, not, ◌&&◌, Option, none, some, String, List, [], ◌∷◌, map, ◌==◌, leb,
  if◌then◌else◌, Result, ok, err, throw_if, ◌>>=◌, ◌>>◌, required_consents_missing,
  required_consent_locked,
}
use coparentes_backend.Common.Store.{Store}

-- `ConsentType`
pub data ConsentType : Type 0 where
  terms data_processing child_data email_notifications marketing analytics : ConsentType

abbrev pub same_type : ConsentType → ConsentType → Bool
same_type terms terms = true
same_type data_processing data_processing = true
same_type child_data child_data = true
same_type email_notifications email_notifications = true
same_type marketing marketing = true
same_type analytics analytics = true
same_type _ _ = false

-- `ALL_CONSENT_TYPES`
abbrev pub all_consent_types : List ConsentType
all_consent_types =
    terms ∷ data_processing ∷ child_data ∷ email_notifications ∷ marketing ∷ analytics ∷ []

-- `REQUIRED_CONSENT_TYPES.includes(type)`
abbrev pub is_required : ConsentType → Bool
is_required terms = true
is_required data_processing = true
is_required child_data = true
is_required _ = false

pub record Consent : Type 0 where
  pub user_id : ℕ
  pub consent_type : ConsentType
  pub granted : Bool
  pub granted_at : ℕ
  pub ip_address_hash : String
  pub revoked_at : Option ℕ

-- A payload gives `true` for the types that it grants; `normalizeConsentsPayload` reads every other value as `false`.
abbrev pub Payload : Type 0
Payload = ConsentType → Bool

-- `validateRequiredConsents`
unfoldable pub validate_required_consents : Payload → Result (Unit {0})
validate_required_consents consents = do
  throw_if (not (consents terms)) required_consents_missing
  throw_if (not (consents data_processing)) required_consents_missing
  throw_if (not (consents child_data)) required_consents_missing
  ok tt

abbrev pub consent_row : ℕ → ConsentType → Bool → ℕ → String → Option ℕ → Consent
consent_row user ty granted now ip_hash revoked_at = record {
  user_id = user;
  consent_type = ty;
  granted = granted;
  granted_at = now;
  ip_address_hash = ip_hash;
  revoked_at = revoked_at;
}

abbrev pub of_user : ℕ → Consent → Bool
of_user user c = c.user_id == user

-- The newer of two rows; of two rows of one instant the one that was written later.
abbrev pub newer : Option Consent → Consent → Consent
newer none c = c
newer (some d) c = if leb c.granted_at d.granted_at then d else c

-- `latestByType.get(type)`, of the rows oldest first: the row with the greatest `grantedAt`.
unfoldable pub latest : ConsentType → List Consent → Option Consent
latest ty [] = none
latest ty (c ∷ cs) =
    let rest = latest ty cs in if same_type c.consent_type ty then some (newer rest c) else rest

-- `row?.granted ?? false`
abbrev pub granted_of : Option Consent → Bool
granted_of none = false
granted_of (some c) = c.granted

module _ (s : Store) where
  -- `createMany` of `saveRegistrationConsents`.
  unfoldable pub save_consents :
      ℕ → Payload → ℕ → String → List ConsentType → s.Table Consent → s.Table Consent
  save_consents user consents now ip_hash [] t = t
  save_consents user consents now ip_hash (ty ∷ tys) t =
      save_consents user consents now ip_hash tys
        (s.create (consent_row user ty (consents ty) now ip_hash none) t)

  -- `saveRegistrationConsents`
  unfoldable pub save_registration_consents :
      ℕ → Payload → ℕ → String → s.Table Consent → s.Table Consent
  unfolding save_consents
  save_registration_consents user consents now ip_hash =
      save_consents user consents now ip_hash all_consent_types

  -- What `getCurrentUserConsents` shows of a type: whether it is granted.
  unfoldable pub current_consent : s.Table Consent → ℕ → ConsentType → Bool
  unfolding latest
  current_consent t user ty = granted_of (latest ty (s.find_many (of_user user) t))

  -- `getCurrentUserConsents`: every type with its state and whether it is required.
  unfoldable pub get_current_user_consents : s.Table Consent → ℕ → List (ConsentType × Bool × Bool)
  unfolding current_consent
  get_current_user_consents t user =
      map (λ ty. (ty, current_consent t user ty, is_required ty)) all_consent_types

  -- `updateUserConsent`, for a type of the enumeration.
  unfoldable pub update_user_consent :
      s.Table Consent → ℕ → ConsentType → Bool → ℕ → String → Result (Consent × s.Table Consent)
  update_user_consent t user ty granted now ip_hash = do
    throw_if (is_required ty && not granted) required_consent_locked
    let row = consent_row user ty granted now ip_hash (if granted then none else some now)
    ok (row, s.create row t)
