-- ===== src/Pdp.antt =====
-- pdp/src/lib.rs and pdp/src/linter.rs: the decision over a permission set and a request.
pub mod Linter
pub mod Decide
pub mod Lints
use attenuate_agent.Prelude.{Text, text, if◌then◌else◌, Bool, true, false}
use attenuate_agent.External.{FileSystem}
use attenuate_agent.Manifest.{deny_all}
use attenuate_agent.Capability.Data.{PermissionSet}
use attenuate_agent.Capability.Permissions.{allows_read, allows_write, allows_exec}

pub data ToolRequest : Type 0 where
  read : Text → ToolRequest
  write : Text → ToolRequest
  exec : Text → ToolRequest
  network : ToolRequest

pub data Decision : Type 0 where
  allow : Decision
  deny : Text → Decision

-- A guarded arm that fails falls through to the denial of its own constructor.
unfoldable pub decide : FileSystem → PermissionSet → ToolRequest → Decision
decide fs p (read path) =
    if allows_read fs p path then allow else deny (text "read path is outside capability scope")
decide fs p (write path) =
    if allows_write fs p path then allow else deny (text "write path is outside capability scope")
decide fs p (exec binary) =
    if allows_exec p binary
    then allow
    else deny (text "binary is outside capability exec allowlist")
decide fs p network = elim p.network [ deny_all ↦ deny (text "network policy denies all egress") ]
