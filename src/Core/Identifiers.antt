-- ===== src/Core/Identifiers.antt =====
-- src/ntulearn_skill/core/identifiers.py: provider-scoped identities of remote objects.
-- The subclasses are told apart by their Python class alone; here by the field that holds them.
use ntulearn_skill.Prelude.{
  ◌≡◌, ◌↔◌, Bool, true, String, Result, ok, value_error, raise_if, ◌>>◌, ◌&&◌, ◌==ₛ◌, is_blank,
  arith, eq_iff,
}

pub record RemoteId : Type 0 where
  pub provider : String
  pub value : String

abbrev pub CourseId : Type 0
CourseId = RemoteId

abbrev pub ContentId : Type 0
ContentId = RemoteId

abbrev pub AttachmentId : Type 0
AttachmentId = RemoteId

-- The constructor, with the checks of `__post_init__`.
unfoldable pub make_remote_id : String → String → Result RemoteId
make_remote_id provider value = do
  raise_if (is_blank provider) (value_error "provider must be non-empty")
  raise_if (is_blank value) (value_error "opaque identifier must be non-empty")
  ok (record { provider = provider; value = value })

-- `==` of the frozen dataclass.
abbrev pub same_id : RemoteId → RemoteId → Bool
same_id a b = (a.provider ==ₛ b.provider) && (a.value ==ₛ b.value)

pub same_id_iff : (a b : RemoteId) → (same_id a b ≡ true) ↔ (a ≡ b)
same_id_iff a b = ground (arith, eq_iff a.provider b.provider, eq_iff a.value b.value)
