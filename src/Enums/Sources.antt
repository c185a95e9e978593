-- ===== src/Enums/Sources.antt =====
-- domain/enums.py: the enumerations of sources, matching and reviews.
use fireviewer_backend.Prelude.{Bool, String, str_eq}

pub data SourceType : Type 0 where
  text image video sensor operator institutional : SourceType

pub data SourceTrust : Type 0 where
  unverified partner institutional operator : SourceTrust

pub data MatchDecision : Type 0 where
  create attach review : MatchDecision

pub data ReviewResolutionAction : Type 0 where
  attach create reject : ReviewResolutionAction

abbrev pub source_type_value : SourceType → String
source_type_value SourceType.text = "text"
source_type_value SourceType.image = "image"
source_type_value SourceType.video = "video"
source_type_value SourceType.sensor = "sensor"
source_type_value SourceType.operator = "operator"
source_type_value SourceType.institutional = "institutional"

abbrev pub trust_value : SourceTrust → String
trust_value SourceTrust.unverified = "unverified"
trust_value SourceTrust.partner = "partner"
trust_value SourceTrust.institutional = "institutional"
trust_value SourceTrust.operator = "operator"

abbrev pub decision_value : MatchDecision → String
decision_value MatchDecision.create = "create"
decision_value MatchDecision.attach = "attach"
decision_value MatchDecision.review = "review"

abbrev pub resolution_value : ReviewResolutionAction → String
resolution_value ReviewResolutionAction.attach = "attach"
resolution_value ReviewResolutionAction.create = "create"
resolution_value ReviewResolutionAction.reject = "reject"

abbrev pub same_source_type : SourceType → SourceType → Bool
same_source_type a b = str_eq (source_type_value a) (source_type_value b)

abbrev pub same_trust : SourceTrust → SourceTrust → Bool
same_trust a b = str_eq (trust_value a) (trust_value b)
