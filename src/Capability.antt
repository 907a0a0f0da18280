-- ===== src/Capability.antt =====
-- capability/src: permissions, attenuation and the signed token.
pub mod Data
pub mod Sets
pub mod Resolve
pub mod Permissions
pub mod Lifetime
pub mod Codec
pub mod Token
pub mod Narrowing
pub mod Derivation
pub mod Mirror
pub mod Bindings
pub mod Attestation
pub mod Overflow
pub mod Issuance
pub mod Minting
pub mod Completeness
