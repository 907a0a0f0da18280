-- ===== src/Tests/Machine.antt =====
-- A machine in memory, a manifest, and the capabilities minted and attenuated from it.
use attenuate_agent.Prelude.{
  ℕ, suc, ◌+◌, ◌*◌, ◌%◌, none, some, List, [], ◌∷◌, ◌++◌, Text, text, text_eq, Result, ok, err,
  panic, any, if◌then◌else◌, ◌≡◌, refl,
}
use attenuate_agent.External.{Uuid, FileSystem, System}
use attenuate_agent.Manifest.{TaskManifest, deny_all}
use attenuate_agent.Capability.Data.{
  PermissionSet, RequestBinding, AttenuationRequest, RootCapability, ChildCapability,
  CapabilityError,
}
use attenuate_agent.Capability.Token.{mint, attenuate_root, attenuate_child}
use attenuate_agent.Pdp.{ToolRequest}
use attenuate_agent.Pdp
use attenuate_agent.Tools.{Crates}
use attenuate_agent.Tests.Crates.{clock, nanos, plain_uuid, tokens}

pub record World : Type 0 where
  pub time : ℕ
  pub drawn : ℕ
  pub contents : List (Text × Text)

abbrev pub disk : FileSystem
disk = record {
  exists = λ path. any (text_eq path) (text "/" ∷ text "/work" ∷ []);
  canonicalize = some;
}

abbrev pub id_of : ℕ → Uuid
id_of n = 0 ∷ 0 ∷ 0 ∷ 0 ∷ 0 ∷ 0 ∷ 0 ∷ 0 ∷ 0 ∷ 0 ∷ 0 ∷ 0 ∷ 0 ∷ 0 ∷ 0 ∷ n ∷ []

abbrev pub content_of : Text → List (Text × Text) → Result Text Text
content_of path [] = err (text "not found")
content_of path ((p, c) ∷ rest) = if text_eq p path then ok c else content_of path rest

abbrev pub machine : System
machine = record {
  World = World;
  Stream = Unit;
  files = λ w. disk;
  now = λ w. (w.time, record w { time = suc w.time });
  new_v4 = λ w. (id_of w.drawn, record w { drawn = suc w.drawn });
  read_to_string = λ path w. (content_of path w.contents, w);
  write = λ path c w. (ok tt, record w { contents = (path, c) ∷ w.contents });
  output = λ binary args w. (err (text "no such program"), w);
  from_utf8_lossy = λ s. s;
  connect = λ host port w. (err (text "no network"), w);
  write_all = λ stream payload w. (err (text "no network"), w);
}

abbrev pub json : ToolRequest → Text
json (Pdp.read path) = 0 ∷ path
json (Pdp.write path) = 1 ∷ path
json (Pdp.exec binary) = 2 ∷ binary
json Pdp.network = 3 ∷ []

abbrev sum_of : Text → ℕ
sum_of [] = 1
sum_of (c ∷ s) = (sum_of s * 31 + c) % 256

-- A sum of 32 bytes, in place of the hash.
abbrev pub digest : Text → Text
digest s = id_of 0 ++ id_of (sum_of s)

abbrev pub crates : Crates
crates = record {
  chrono = clock;
  uuid = plain_uuid;
  biscuit = tokens;
  hash = digest;
  to_json = λ request. ok (json request);
}

abbrev pub world : World
world = record {
  time = nanos;
  drawn = 1;
  contents = (text "/work/a", text "hello") ∷ (text "/etc/passwd", text "root") ∷ [];
}

abbrev pub manifest : TaskManifest
manifest = record {
  task_id = id_of 7;
  repo_root = text "/work";
  ttl_seconds = 60;
  filesystem = record {
    readable_roots = text "/work" ∷ [];
    writable_roots = text "/work/out" ∷ [];
  };
  exec = record { allowed_binaries = text "git" ∷ [] };
  network = deny_all;
}

abbrev pub value_of : {A : Type 0} {E : Type 0} → A → Result E A → A
value_of default (ok a) = a
value_of default (err e) = default
value_of default panic = default

abbrev pub no_permissions : PermissionSet
no_permissions = record {
  readable_roots = [];
  writable_roots = [];
  exec_binaries = [];
  network = deny_all;
}

abbrev no_root : RootCapability
no_root = record {
  task_id = [];
  permissions = no_permissions;
  expires_at = 0;
  token = [];
  root_public_key = [];
}

abbrev no_child : ChildCapability
no_child = record {
  task_id = [];
  permissions = no_permissions;
  expires_at = 0;
  caveats = [];
  token = [];
  root_public_key = [];
}

-- `mint` at the machine's start, computed.
unfoldable pub minted : Result CapabilityError RootCapability
unfolding mint attenuate_agent.Manifest.validate
    attenuate_agent.Manifest.validate_safe_absolute_path attenuate_agent.FilePath.is_absolute text
    any attenuate_agent.FilePath.components attenuate_agent.Manifest.is_dot text_eq
    attenuate_agent.Manifest.validate_roots attenuate_agent.FilePath.path_eq
    attenuate_agent.Capability.Lifetime.checked_expires_at
    attenuate_agent.Capability.Permissions.from_manifest
    attenuate_agent.Capability.Resolve.checked_paths attenuate_agent.Capability.Resolve.checked_path
    attenuate_agent.Capability.Codec.build_root_token attenuate_agent.Capability.Codec.add_facts
    attenuate_agent.Capability.Codec.Texts.unescape
    attenuate_agent.Capability.Codec.Texts.unescape_from
    attenuate_agent.Capability.Codec.binding_facts attenuate_agent.Capability.Codec.encode_hex
    attenuate_agent.Capability.Codec.escape attenuate_agent.Capability.Codec.fact_source
    attenuate_agent.Capability.Codec.hex_digit attenuate_agent.Capability.Codec.network_to_str
    attenuate_agent.Capability.Codec.replace attenuate_agent.Capability.Codec.state_facts
    attenuate_agent.Capability.Codec.task_id_source
    attenuate_agent.Capability.Resolve.canonical_cursor
    attenuate_agent.Capability.Resolve.push_suffix
    attenuate_agent.Capability.Resolve.resolve_existing_ancestor
    attenuate_agent.Capability.Resolve.resolve_loop attenuate_agent.Capability.Sets.collect_set
    attenuate_agent.Capability.Sets.contains attenuate_agent.Capability.Sets.insert
    attenuate_agent.Capability.Token.codec_message attenuate_agent.FilePath.all_components
    attenuate_agent.FilePath.begins attenuate_agent.FilePath.collect
    attenuate_agent.FilePath.component_eq attenuate_agent.FilePath.ends_with_slash
    attenuate_agent.FilePath.push attenuate_agent.FilePath.push_all
    attenuate_agent.FilePath.relative_components attenuate_agent.FilePath.segment_components
    attenuate_agent.FilePath.segments
minted = mint disk clock plain_uuid tokens 5 manifest nanos

abbrev pub root : RootCapability
root = value_of no_root minted

pub minted_ok : mint disk clock plain_uuid tokens 5 manifest nanos ≡ ok root
unfolding mint minted
minted_ok = refl

-- The first child: reads under `/work/src`, nothing else, for five seconds.
abbrev pub narrow : AttenuationRequest
narrow = record {
  readable_roots = text "/work/src" ∷ [];
  writable_roots = [];
  exec_binaries = [];
  network = deny_all;
  ttl_seconds = 5;
  request_binding = none;
}

unfoldable pub attenuated : Result CapabilityError ChildCapability
unfolding attenuate_root minted attenuate_agent.Capability.Lifetime.validate_attenuation
    attenuate_agent.Capability.Permissions.contains_all_roots
    attenuate_agent.Capability.Resolve.is_under_any_root attenuate_agent.FilePath.starts_with
    attenuate_agent.Capability.Permissions.contains_all_exec
    attenuate_agent.Capability.Token.requested_permissions
    attenuate_agent.Capability.Token.parse_public_key attenuate_agent.Capability.Codec.append_block
attenuated = attenuate_root disk clock plain_uuid tokens root narrow (2 * nanos)

abbrev pub child : ChildCapability
child = value_of no_child attenuated

pub attenuated_ok : attenuate_root disk clock plain_uuid tokens root narrow (2 * nanos) ≡ ok child
unfolding attenuate_root attenuated
attenuated_ok = refl

abbrev pub read_request : ToolRequest
read_request = Pdp.read (text "/work/src/a")

-- Its binding with the nonce 9, as `request_binding_for` makes it of it.
abbrev pub binding : RequestBinding
binding = record {
  tool_name = text "fs_read";
  argument_hash = digest (text "fs_read" ++ (0 ∷ (json read_request ++ (0 ∷ id_of 9))));
  nonce = id_of 9;
}

-- The second: bound to that read.
abbrev pub bound : AttenuationRequest
bound = record narrow { ttl_seconds = 3; request_binding = some binding }

unfoldable pub attenuated_again : Result CapabilityError ChildCapability
unfolding attenuate_child attenuated
attenuated_again = attenuate_child disk clock plain_uuid tokens child bound (2 * nanos)

abbrev pub grandchild : ChildCapability
grandchild = value_of no_child attenuated_again

pub attenuated_again_ok :
    attenuate_child disk clock plain_uuid tokens child bound (2 * nanos) ≡ ok grandchild
unfolding attenuate_child attenuated_again
attenuated_again_ok = refl

-- A third child, of the second, with no binding.
abbrev pub free : AttenuationRequest
free = record narrow { ttl_seconds = 2; request_binding = none }

unfoldable pub attenuated_free : Result CapabilityError ChildCapability
unfolding attenuate_child attenuated_again
attenuated_free = attenuate_child disk clock plain_uuid tokens grandchild free (2 * nanos)

abbrev pub unbound : ChildCapability
unbound = value_of no_child attenuated_free

pub attenuated_free_ok :
    attenuate_child disk clock plain_uuid tokens grandchild free (2 * nanos) ≡ ok unbound
unfolding attenuate_child attenuated_free
attenuated_free_ok = refl
