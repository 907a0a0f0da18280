-- ===== src/Capability/Lifetime.antt =====
-- `checked_expires_at` and `validate_attenuation` of capability/src/lib.rs.
use attenuate_agent.Prelude.{
  ℕ, ◌^◌, ◌-◌, true, false, not, none, some, Result, ok, err, panic, ◌>>=◌, ltb, if◌then◌else◌,
}
use attenuate_agent.External.{FileSystem, Chrono, DateTime}
use attenuate_agent.Capability.Data.{
  PermissionSet, AttenuationRequest, CapabilityError, read_scope_widened, write_scope_widened,
  exec_scope_widened, ttl_widened, ttl_overflow,
}
use attenuate_agent.Capability.Permissions.{contains_all_roots, contains_all_exec}

abbrev pub i64_max : ℕ
i64_max = 2 ^ 63 - 1

unfoldable pub checked_expires_at : Chrono → DateTime → ℕ → Result CapabilityError DateTime
checked_expires_at ch now ttl_seconds =
    if ltb i64_max ttl_seconds then err ttl_overflow else elim (ch.seconds ttl_seconds) [
      | none ↦ panic
      | some duration ↦ elim (ch.checked_add_signed now duration) [
        | none ↦ err ttl_overflow
        | some t ↦ ok t
      ]
    ]

unfoldable pub validate_attenuation :
    FileSystem
    → Chrono
    → PermissionSet
    → DateTime
    → AttenuationRequest
    → DateTime
    → Result CapabilityError (Unit {0})
validate_attenuation fs ch parent parent_expires_at request now =
    if not (contains_all_roots fs parent request.readable_roots false)
    then err read_scope_widened
    else if not (contains_all_roots fs parent request.writable_roots true)
    then err write_scope_widened
    else if not (contains_all_exec parent request.exec_binaries)
    then err exec_scope_widened
    else do
      expires_at ← checked_expires_at ch now request.ttl_seconds
      if ltb parent_expires_at expires_at then err ttl_widened else ok tt
