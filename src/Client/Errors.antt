-- ===== src/Client/Errors.antt =====
-- src/ntulearn_skill/client/contracts.py: the errors of a source and their public categories.
use ntulearn_skill.Prelude.{if◌then◌else◌, one_of, String, Bool, true, false, List, [], ◌∷◌}

-- `unlisted` is a subclass from outside, with a category of its own.
pub data SourceError : Type 0 where
  source_error authentication_required session_expired access_denied : SourceError
  policy_violation protocol_error source_unavailable pagination_limit : SourceError
  pagination_cycle unsupported_capability : SourceError
  unlisted : String → SourceError

-- `error.category`
unfoldable pub category_of : SourceError → String
category_of SourceError.source_error = "source_error"
category_of SourceError.authentication_required = "authentication_required"
category_of SourceError.session_expired = "session_expired"
category_of SourceError.access_denied = "source_access_denied"
category_of SourceError.policy_violation = "read_policy_violation"
category_of SourceError.protocol_error = "source_protocol_error"
category_of SourceError.source_unavailable = "source_unavailable"
category_of SourceError.pagination_limit = "pagination_limit_reached"
category_of SourceError.pagination_cycle = "pagination_cycle"
category_of SourceError.unsupported_capability = "unsupported_capability"
category_of (SourceError.unlisted category) = category

-- `_SOURCE_ERROR_CATEGORIES`
abbrev pub source_error_categories : List String
source_error_categories =
    "source_error" ∷ "authentication_required" ∷ "session_expired" ∷ "source_access_denied"
    ∷ "read_policy_violation" ∷ "source_protocol_error" ∷ "source_unavailable"
    ∷ "pagination_limit_reached" ∷ "pagination_cycle" ∷ "unsupported_capability" ∷ []

unfoldable pub safe_source_error_category : String → String
safe_source_error_category value =
    if one_of value source_error_categories then value else "source_unavailable"

-- What a call of a source or of a repository may raise: an error of the source, or another one.
pub data Raised : Type 0 where
  from_source : SourceError → Raised
  from_elsewhere : Raised

pub data Answer {ℓ} (A : Type ℓ) : Type ℓ where
  returned : A → Answer A
  raised : Raised → Answer A

abbrev pub is_expired : SourceError → Bool
is_expired SourceError.session_expired = true
is_expired _ = false
