-- ===== src/Evidence.antt =====
-- evidence/evidence.go and evidence/validate.go.
use trust.Prelude.{
  List, Option, none, some, if◌then◌else◌, not, length, ◌==◌, Outcome, ok, err, Bytes,
}
use trust.Authority.Model.{Time}

pub record Provenance : Type 0 where
  pub source : Bytes
  pub method : Bytes
  pub timestamp : Time

-- `ContentHash` may be nil, and the values of `Metadata` stand by their JSON text.
pub record Evidence : Type 0 where
  pub identifier : Bytes
  pub content_hash : Option Bytes
  pub media_type : Bytes
  pub locator : Bytes
  pub provenance : Provenance
  pub metadata : List (Bytes × Bytes)

pub data Error : Type 0 where
  nil_evidence empty_identifier nil_content_hash empty_content_hash content_hash_length
        empty_media_type empty_locator :
      Error

unfoldable pub validate_evidence : Option Evidence → Outcome Error (Unit {0})
validate_evidence none = err nil_evidence
validate_evidence (some ev) =
    if length ev.identifier == 0 then err empty_identifier else elim (ev.content_hash) [
      | none ↦ err nil_content_hash
      | some h ↦
          if length h == 0
          then err empty_content_hash
          else if not (length h == 32)
          then err content_hash_length
          else if length ev.media_type == 0
          then err empty_media_type
          else if length ev.locator == 0
          then err empty_locator
          else ok tt
    ]
