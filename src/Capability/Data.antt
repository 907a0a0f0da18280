-- ===== src/Capability/Data.antt =====
-- The types of capability/src/lib.rs.
use attenuate_agent.Prelude.{ℕ, Option, List, Text}
use attenuate_agent.External.{Uuid, DateTime}
use attenuate_agent.Manifest.{NetworkPolicy, ManifestError}

pub record PermissionSet : Type 0 where
  pub readable_roots : List Text
  pub writable_roots : List Text
  pub exec_binaries : List Text
  pub network : NetworkPolicy

pub record RequestBinding : Type 0 where
  pub tool_name : Text
  pub argument_hash : Text
  pub nonce : Uuid

pub record AttenuationRequest : Type 0 where
  pub readable_roots : List Text
  pub writable_roots : List Text
  pub exec_binaries : List Text
  pub network : NetworkPolicy
  pub ttl_seconds : ℕ
  pub request_binding : Option RequestBinding

pub record RootCapability : Type 0 where
  pub task_id : Uuid
  pub permissions : PermissionSet
  pub expires_at : DateTime
  pub token : Text
  pub root_public_key : Text

pub record Caveat : Type 0 where
  pub permissions : PermissionSet
  pub expires_at : DateTime
  pub request_binding : Option RequestBinding

pub record ChildCapability : Type 0 where
  pub task_id : Uuid
  pub permissions : PermissionSet
  pub expires_at : DateTime
  pub caveats : List Caveat
  pub token : Text
  pub root_public_key : Text

pub record VerifiedState : Type 0 where
  pub task_id : Uuid
  pub permissions : PermissionSet
  pub expires_at : DateTime
  pub request_binding : Option RequestBinding

pub data CapabilityError : Type 0 where
  invalid_manifest : ManifestError → CapabilityError
  unsafe_path : Text → CapabilityError
  read_scope_widened : CapabilityError
  write_scope_widened : CapabilityError
  exec_scope_widened : CapabilityError
  ttl_widened : CapabilityError
  ttl_overflow : CapabilityError
  biscuit : Text → CapabilityError
  token_state_mismatch : CapabilityError
