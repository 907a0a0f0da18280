-- ===== src/Sandbox.antt =====
-- sandbox/src/lib.rs: the stub of OS-level containment, in the two builds that it has.
use attenuate_agent.Prelude.{Bool, true, false, Text, text, Result, err}

pub data SandboxError : Type 0 where
  disabled : SandboxError
  not_implemented : SandboxError

-- The texts of `SandboxError`'s `Display`.
unfoldable pub sandbox_message : SandboxError → Text
sandbox_message disabled = text "linux containment is not enabled in this build"
sandbox_message not_implemented =
    text "linux containment is enabled at build time but not yet implemented (stub)"

-- `install_linux_containment`, with the feature `linux-containment` or without it.
unfoldable pub install_linux_containment : Bool → Result SandboxError (Unit {0})
install_linux_containment true = err not_implemented
install_linux_containment false = err disabled
