-- ===== src/Audit/Bytes.antt =====
-- What is fed to the hasher determines the entry: the encoding of audit/src/lib.rs is unambiguous.
use attenuate_agent.Prelude.{
  ℕ, zero, suc, ◌/◌, ◌%◌, ◌^◌, ◌<◌, [], ◌∷◌, ◌++◌, Text, text, length, length-append, ◌≡◌, refl, ap,
  sym, ◌∙◌, arith,
}
use mathlib.Core.List.{append_assoc}
use native.Mathlib.Nat.{pow-suc}
use attenuate_agent.Prelude.Splits.{append-injective}
use attenuate_agent.External.{Uuid, DateTime, Chrono}
use attenuate_agent.Audit.{
  AuditEvent, root_minted, capability_attenuated, tool_allowed, tool_denied, be_bytes, str_bytes,
  event_bytes, entry_bytes,
}

pub length-be_bytes : (k n : ℕ) → length (be_bytes k n) ≡ k
unfolding be_bytes
length-be_bytes zero n = refl
length-be_bytes (suc k) n =
    omega (arith, length-append (be_bytes k (n / 256)) (n % 256 ∷ []), length-be_bytes k (n / 256))

be_bytes-injective : (k m n : ℕ) → m < 256 ^ k → n < 256 ^ k → be_bytes k m ≡ be_bytes k n → m ≡ n
unfolding be_bytes
be_bytes-injective zero m n hm hn e = omega arith
be_bytes-injective (suc k) m n hm hn e =
    let (p, q) =
      append-injective (be_bytes k (m / 256)) (be_bytes k (n / 256))
        (length-be_bytes k (m / 256) ∙ sym (length-be_bytes k (n / 256))) e in
    let r : m % 256 ≡ n % 256 = cc in
    let d =
      be_bytes-injective k (m / 256) (n / 256) (omega (arith, pow-suc 256 k))
        (omega (arith, pow-suc 256 k)) p in
    omega arith

-- A text of the program is shorter than 2^64 bytes.
abbrev pub IsShort : Text → Type 0
IsShort s = length s < 256 ^ 8

str_bytes-injective :
    (s t : Text) {rs ss : Text}
    → IsShort s
    → IsShort t
    → str_bytes s ++ rs ≡ str_bytes t ++ ss
    → (s ≡ t) × (rs ≡ ss)
unfolding str_bytes
str_bytes-injective s t {rs} {ss} hs ht e =
    let e' =
      sym (append_assoc (be_bytes 8 (length s)) s rs)
      ∙ e
      ∙ append_assoc (be_bytes 8 (length t)) t ss in
    let (p, q) =
      append-injective (be_bytes 8 (length s)) (be_bytes 8 (length t))
        (length-be_bytes 8 (length s) ∙ sym (length-be_bytes 8 (length t))) e' in
    append-injective s t (be_bytes-injective 8 (length s) (length t) hs ht p) q

-- The sizes that the Rust types guarantee.
abbrev pub IsSized : AuditEvent → Type 0
IsSized (root_minted task_id) = length task_id ≡ 16
IsSized (capability_attenuated task_id) = length task_id ≡ 16
IsSized (tool_allowed name) = IsShort name
IsSized (tool_denied name reason) = IsShort name × IsShort reason

pub event_bytes-injective :
    (e f : AuditEvent) {rs ss : Text}
    → IsSized e
    → IsSized f
    → event_bytes e ++ rs ≡ event_bytes f ++ ss
    → (e ≡ f) × (rs ≡ ss)
unfolding event_bytes text
event_bytes-injective (root_minted a) (root_minted b) he hf h =
    let (p, q) = append-injective a b (he ∙ sym hf) (ground arith) in (ap root_minted p, q)
event_bytes-injective (capability_attenuated a) (capability_attenuated b) he hf h =
    let (p, q) = append-injective a b (he ∙ sym hf) (ground arith) in
    (ap capability_attenuated p, q)
event_bytes-injective (tool_allowed a) (tool_allowed b) he hf h =
    let (p, q) = str_bytes-injective a b he hf (ground arith) in (ap tool_allowed p, q)
event_bytes-injective (tool_denied a r) (tool_denied b s) {rs} {ss} he hf h =
    let e : (str_bytes a ++ str_bytes r) ++ rs ≡ (str_bytes b ++ str_bytes s) ++ ss =
      ground arith in
    let e' =
      sym (append_assoc (str_bytes a) (str_bytes r) rs)
      ∙ e
      ∙ append_assoc (str_bytes b) (str_bytes s) ss in
    let (p, q) = str_bytes-injective a b he.0 hf.0 e' in
    let (p', q') = str_bytes-injective r s he.1 hf.1 q in (cc, q')
event_bytes-injective _ _ he hf h = absurd (ground arith)

-- What chrono's two numbers say of an instant: eight and four bytes, which together determine it.
pub record IsLawful (ch : Chrono) : Type 0 where
  pub length-timestamp : (t : DateTime) → length (ch.timestamp t) ≡ 8
  pub length-subsec_nanos : (t : DateTime) → length (ch.subsec_nanos t) ≡ 4
  pub parts-injective :
      (s t : DateTime)
      → ch.timestamp s ≡ ch.timestamp t
      → ch.subsec_nanos s ≡ ch.subsec_nanos t
      → s ≡ t

-- Different entries are hashed from different bytes: if two ids of sixteen bytes, two instants, two
-- events of the sizes that their types have, and two previous hashes are fed to the hasher as the
-- same bytes, then they are the same.
pub entry_bytes-injective :
    (ch : Chrono)
    → IsLawful ch
    → (id id' : Uuid) (t t' : DateTime) (e e' : AuditEvent) (h h' : Text) → length id ≡ 16
    → length id' ≡ 16
    → IsSized e
    → IsSized e'
    → entry_bytes ch id t e h ≡ entry_bytes ch id' t' e' h'
    → (id ≡ id') × (t ≡ t') × (e ≡ e') × (h ≡ h')
unfolding entry_bytes
entry_bytes-injective ch L id id' t t' e e' h h' l l' s s' eq =
    let (p, q) = append-injective id id' (l ∙ sym l') eq in
    let (p₁, q₁) =
      append-injective (ch.timestamp t) (ch.timestamp t')
        (L.length-timestamp t ∙ sym (L.length-timestamp t')) q in
    let (p₂, q₂) =
      append-injective (ch.subsec_nanos t) (ch.subsec_nanos t')
        (L.length-subsec_nanos t ∙ sym (L.length-subsec_nanos t')) q₁ in
    let (p₃, q₃) = event_bytes-injective e e' s s' q₂ in (p, L.parts-injective t t' p₁ p₂, p₃, q₃)
