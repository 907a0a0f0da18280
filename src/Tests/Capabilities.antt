-- ===== src/Tests/Capabilities.antt =====
-- The theorems on manifests, paths, permissions and capabilities at concrete inputs.
use attenuate_agent.Prelude.{
  ◌<◌, ◌≤◌, ◌*◌, ◌++◌, Option, none, some, List, [], ◌∷◌, Text, text, Result, ok, err, panic, ◌≡◌,
  refl, ◌↔◌, ◌⊎◌, true, false, any, In, inl, arith,
}
use attenuate_agent.FilePath.{components, is_absolute}
use attenuate_agent.Manifest.{TaskManifest, validate, validate_safe_absolute_path}
use attenuate_agent.Manifest.Validation.{
  IsValid, validate_iff, is_parent_dir, validate_safe_absolute_path-parent_dir,
}
use attenuate_agent.Capability.Data.{PermissionSet, ttl_overflow}
use attenuate_agent.Capability.Resolve.{checked_path}
use attenuate_agent.Capability.Permissions.{allows_read}
use attenuate_agent.Capability.Codec.{escape, encode_hex, decode_hex32}
use attenuate_agent.Capability.Codec.Texts.{
  unescape, unescape-escape, IsBytes, decode_hex32-encode_hex,
}
use attenuate_agent.Capability.Token.{mint}
use attenuate_agent.Capability.Derivation.{Derived, first, again, Derived-IsNarrowed, IsNarrowed}
use attenuate_agent.Capability.Lifetime.{i64_max, checked_expires_at}
use attenuate_agent.Capability.Overflow.{IsBounded, max_seconds, Computed, mint-panic}
use attenuate_agent.Pdp
use attenuate_agent.Pdp.{Decision, decide, allow}
use attenuate_agent.Pdp.Decide.{Within, decide-allow_iff}
use attenuate_agent.Pdp.Linter.{lint, always_allow_read}
use attenuate_agent.Pdp.Lints.{lint_iff, lint-always_allow}
use attenuate_agent.Pep.Acceptance.{Acceptable, verify_iff}
use attenuate_agent.Pep.Verify.{verify, VerifiedCapability}
use attenuate_agent.FilePath.{path_eq}
use attenuate_agent.Tests.Crates.{clock, nanos, plain_uuid, tokens}
use attenuate_agent.Tests.Machine.{
  disk, manifest, root, narrow, bound, child, grandchild, attenuated_ok, attenuated_again_ok,
  binding, no_permissions, id_of,
}

grandchild-Derived : Derived clock plain_uuid tokens root grandchild
grandchild-Derived =
    again disk bound (2 * nanos) (first disk narrow (2 * nanos) attenuated_ok) attenuated_again_ok

Derived-IsNarrowed_example : IsNarrowed root.permissions root.expires_at grandchild
Derived-IsNarrowed_example = Derived-IsNarrowed clock plain_uuid tokens root grandchild-Derived

abbrev verified : VerifiedCapability
verified = record {
  state = record {
    task_id = id_of 7;
    permissions = grandchild.permissions;
    expires_at = grandchild.expires_at;
    request_binding = some binding;
  };
}

verify_iff_example :
    (verify clock plain_uuid tokens grandchild (3 * nanos) (some binding) ≡ ok verified)
    ↔ Acceptable clock plain_uuid tokens grandchild (3 * nanos) (some binding) verified.state
verify_iff_example =
    verify_iff clock plain_uuid tokens grandchild (3 * nanos) (some binding) verified

decide-allow_iff_example :
    (decide disk child.permissions (Pdp.read (text "/work/src/a")) ≡ allow)
    ↔ Within disk child.permissions (Pdp.read (text "/work/src/a"))
decide-allow_iff_example = decide-allow_iff disk child.permissions (Pdp.read (text "/work/src/a"))

validate_iff_example : (validate manifest ≡ ok tt) ↔ IsValid manifest
validate_iff_example = validate_iff manifest

validate_safe_absolute_path-parent_dir_example :
    (validate_safe_absolute_path (text "/a/./b") ≡ ok tt) ↔ (
      (is_absolute (text "/a/./b") ≡ true)
      × (any is_parent_dir (components (text "/a/./b")) ≡ false))
validate_safe_absolute_path-parent_dir_example =
    validate_safe_absolute_path-parent_dir (text "/a/./b")

-- A permission set that reads everything.
abbrev open_permissions : PermissionSet
open_permissions = record no_permissions { readable_roots = text "/" ∷ [] }

lint_iff_example :
    In (always_allow_read (text "/")) (lint open_permissions)
    ↔ (In (text "/") open_permissions.readable_roots × (path_eq (text "/") (b'/' ∷ []) ≡ true))
lint_iff_example = lint_iff open_permissions (text "/")

linted : In (always_allow_read (text "/")) (lint open_permissions)
unfolding lint path_eq text
linted = inl refl

lint-always_allow_example : allows_read disk open_permissions (text "/etc/passwd") ≡ true
unfolding checked_path is_absolute text any components attenuate_agent.Manifest.is_dot
    attenuate_agent.Prelude.text_eq attenuate_agent.Capability.Resolve.resolve_existing_ancestor
    attenuate_agent.FilePath.collect
lint-always_allow_example =
    lint-always_allow disk open_permissions (text "/") (text "/etc/passwd") {q = text "/etc/passwd"}
      linted refl refl

unescape-escape_example : unescape (escape (text "a\"b\\c")) ≡ some (text "a\"b\\c")
unescape-escape_example = unescape-escape (text "a\"b\\c")

abbrev bytes32 : Text
bytes32 = id_of 255 ++ id_of 16

decode_hex32-encode_hex_example : decode_hex32 (encode_hex bytes32) ≡ some bytes32
decode_hex32-encode_hex_example = decode_hex32-encode_hex bytes32 small refl
  where
    small : IsBytes bytes32
    small = ground arith

abbrev long : TaskManifest
long = record manifest { ttl_seconds = 9223372036854776 }

clock-IsBounded : IsBounded clock
clock-IsBounded = record { too_long = λ n h. ground arith; fits = λ n h. (n * nanos, ground arith) }

mint-panic_example :
    ((i64_max < long.ttl_seconds)
      × (mint disk clock plain_uuid tokens 5 long nanos ≡ err ttl_overflow))
    ⊎ (((max_seconds < long.ttl_seconds)
          × (long.ttl_seconds ≤ i64_max)
          × (mint disk clock plain_uuid tokens 5 long nanos ≡ panic))
        ⊎ ((long.ttl_seconds ≤ max_seconds)
            × Computed clock clock-IsBounded (checked_expires_at clock nanos long.ttl_seconds)))
unfolding validate attenuate_agent.Manifest.validate_safe_absolute_path is_absolute text any
    components attenuate_agent.Manifest.is_dot attenuate_agent.Prelude.text_eq
    attenuate_agent.Manifest.validate_roots path_eq
mint-panic_example = mint-panic clock clock-IsBounded disk plain_uuid tokens 5 long nanos refl
