-- ===== src/Enums.antt =====
-- domain/enums.py: the enumerations of incidents and evidence, with the texts that they stand for.
pub mod Sources
use fireviewer_backend.Prelude.{
  ==_iff, Bool, String, ap, if◌then◌else◌, refl, sym, true, ℕ, ◌==◌, ◌∙◌, ◌≡◌,
}

pub data IncidentStatus : Type 0 where
  candidate under_review active_confirmed monitoring : IncidentStatus
  extinguished closed suspended rejected : IncidentStatus

pub data PublicVisibility : Type 0 where
  public limited suspended tombstoned : PublicVisibility

pub data VerificationState : Type 0 where
  unverified pending_review corroborated verified rejected : VerificationState

pub data EvidenceSpatialMode : Type 0 where
  withheld generalized exact : EvidenceSpatialMode

pub data ActorType : Type 0 where
  system operator public_source : ActorType

-- `StrEnum.value`.
abbrev pub status_value : IncidentStatus → String
status_value candidate = "CANDIDATE"
status_value under_review = "UNDER_REVIEW"
status_value active_confirmed = "ACTIVE_CONFIRMED"
status_value monitoring = "MONITORING"
status_value extinguished = "EXTINGUISHED"
status_value closed = "CLOSED"
status_value IncidentStatus.suspended = "SUSPENDED"
status_value IncidentStatus.rejected = "REJECTED"

abbrev pub visibility_value : PublicVisibility → String
visibility_value public = "PUBLIC"
visibility_value limited = "LIMITED"
visibility_value PublicVisibility.suspended = "SUSPENDED"
visibility_value tombstoned = "TOMBSTONED"

abbrev pub verification_value : VerificationState → String
verification_value unverified = "UNVERIFIED"
verification_value pending_review = "PENDING_REVIEW"
verification_value corroborated = "CORROBORATED"
verification_value verified = "VERIFIED"
verification_value VerificationState.rejected = "REJECTED"

abbrev pub mode_value : EvidenceSpatialMode → String
mode_value withheld = "WITHHELD"
mode_value generalized = "GENERALIZED"
mode_value exact = "EXACT"

-- `==` on the members of an enumeration, by their position.
abbrev status_rank : IncidentStatus → ℕ
status_rank candidate = 0
status_rank under_review = 1
status_rank active_confirmed = 2
status_rank monitoring = 3
status_rank extinguished = 4
status_rank closed = 5
status_rank IncidentStatus.suspended = 6
status_rank IncidentStatus.rejected = 7

abbrev verification_rank : VerificationState → ℕ
verification_rank unverified = 0
verification_rank pending_review = 1
verification_rank corroborated = 2
verification_rank verified = 3
verification_rank VerificationState.rejected = 4

abbrev visibility_rank : PublicVisibility → ℕ
visibility_rank public = 0
visibility_rank limited = 1
visibility_rank PublicVisibility.suspended = 2
visibility_rank tombstoned = 3

abbrev mode_rank : EvidenceSpatialMode → ℕ
mode_rank withheld = 0
mode_rank generalized = 1
mode_rank exact = 2

abbrev pub same_status : IncidentStatus → IncidentStatus → Bool
same_status a b = status_rank a == status_rank b

abbrev pub same_verification : VerificationState → VerificationState → Bool
same_verification a b = verification_rank a == verification_rank b

abbrev pub same_visibility : PublicVisibility → PublicVisibility → Bool
same_visibility a b = visibility_rank a == visibility_rank b

abbrev pub same_mode : EvidenceSpatialMode → EvidenceSpatialMode → Bool
same_mode a b = mode_rank a == mode_rank b

verification_at : ℕ → VerificationState
verification_at n =
    if n == 0
    then unverified
    else if n == 1
    then pending_review
    else if n == 2
    then corroborated
    else if n == 3
    then verified
    else VerificationState.rejected

verification_at-rank : (s : VerificationState) → verification_at (verification_rank s) ≡ s
unfolding verification_at
verification_at-rank unverified = refl
verification_at-rank pending_review = refl
verification_at-rank corroborated = refl
verification_at-rank verified = refl
verification_at-rank VerificationState.rejected = refl

pub same_verification-≡ : (a b : VerificationState) → same_verification a b ≡ true → a ≡ b
same_verification-≡ a b h =
    sym (verification_at-rank a) ∙ ap verification_at ((==_iff _ _).0 h) ∙ verification_at-rank b

visibility_at : ℕ → PublicVisibility
visibility_at n =
    if n == 0
    then public
    else if n == 1
    then limited
    else if n == 2
    then PublicVisibility.suspended
    else tombstoned

visibility_at-rank : (s : PublicVisibility) → visibility_at (visibility_rank s) ≡ s
unfolding visibility_at
visibility_at-rank public = refl
visibility_at-rank limited = refl
visibility_at-rank PublicVisibility.suspended = refl
visibility_at-rank tombstoned = refl

pub same_visibility-≡ : (a b : PublicVisibility) → same_visibility a b ≡ true → a ≡ b
same_visibility-≡ a b h =
    sym (visibility_at-rank a) ∙ ap visibility_at ((==_iff _ _).0 h) ∙ visibility_at-rank b
