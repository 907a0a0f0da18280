-- ===== src/Capability/Overflow.antt =====
-- What `mint` does with a long TTL (`checked_expires_at` of capability/src/lib.rs).
use attenuate_agent.Prelude.{
  ℕ, ◌<◌, ◌≤◌, Option, none, some, Result, ok, err, panic, ◌≡◌, refl, ◌⊎◌, inl, inr, arith, true,
  false, ltb, Bool-cases,
}
use attenuate_agent.External.{DateTime, FileSystem, Chrono, UuidText, BiscuitAuth}
use attenuate_agent.Manifest.{TaskManifest, validate}
use attenuate_agent.Capability.Data.{CapabilityError, ttl_overflow}
use attenuate_agent.Capability.Lifetime.{i64_max, checked_expires_at}
use attenuate_agent.Capability.Token.{mint}

-- `i64::MAX / 1000`, the seconds of chrono's longest `Duration`.
abbrev pub max_seconds : ℕ
max_seconds = 9223372036854775

-- chrono's documentation of `Duration::seconds`: it panics exactly on more than that.
pub record IsBounded (ch : Chrono) : Type 0 where
  pub too_long : (n : ℕ) → max_seconds < n → ch.seconds n ≡ none
  pub fits : (n : ℕ) → n ≤ max_seconds → (d : ℕ) × (ch.seconds n ≡ some d)

module _ (ch : Chrono) (l : IsBounded ch) where
  checked_expires_at-overflow :
      (now : DateTime) (ttl : ℕ) → i64_max < ttl → checked_expires_at ch now ttl ≡ err ttl_overflow
  unfolding checked_expires_at
  checked_expires_at-overflow now ttl h = let e : ltb i64_max ttl ≡ true = ground arith in rw e refl

  checked_expires_at-panic :
      (now : DateTime) (ttl : ℕ)
      → max_seconds < ttl
      → ttl ≤ i64_max
      → checked_expires_at ch now ttl ≡ panic
  unfolding checked_expires_at
  checked_expires_at-panic now ttl b h =
      let e : ltb i64_max ttl ≡ false = ground arith in rw (e, l.too_long ttl b) refl

  -- An instant, or the error of an overflow.
  abbrev pub Computed : Result CapabilityError DateTime → Type 0
  Computed r = ((t : DateTime) × (r ≡ ok t)) ⊎ (r ≡ err ttl_overflow)

  checked_expires_at-Computed :
      (now : DateTime) (ttl : ℕ) → ttl ≤ max_seconds → Computed (checked_expires_at ch now ttl)
  unfolding checked_expires_at
  checked_expires_at-Computed now ttl h =
      let e : ltb i64_max ttl ≡ false = ground arith in
      let (d, q) = l.fits ttl h in rw (e, q) (added (ch.checked_add_signed now d))
    where
      added : (o : Option DateTime) → Computed (elim o [ none ↦ err ttl_overflow | some t ↦ ok t ])
      added none = inr refl
      added (some t) = inl (t, refl)

  -- For a manifest that passes validation, with a `Duration` bounded as chrono documents: a TTL that
  -- does not fit an `i64` is the error `TtlOverflow`; one that fits an `i64` but is more than
  -- `i64::MAX / 1000` seconds makes `mint` panic, where that error is meant; for any other the expiry
  -- is computed, or is that error, with no panic.
  pub mint-panic :
      (fs : FileSystem) (ids : UuidText) (bis : BiscuitAuth) (keypair : bis.KeyPair)
      (m : TaskManifest) (now : DateTime)
      → validate m ≡ ok tt
      → ((i64_max < m.ttl_seconds) × (mint fs ch ids bis keypair m now ≡ err ttl_overflow))
        ⊎ (((max_seconds < m.ttl_seconds)
              × (m.ttl_seconds ≤ i64_max)
              × (mint fs ch ids bis keypair m now ≡ panic))
            ⊎ ((m.ttl_seconds ≤ max_seconds) × Computed (checked_expires_at ch now m.ttl_seconds)))
  unfolding mint
  mint-panic fs ids bis keypair m now v = elim (Bool-cases (ltb i64_max m.ttl_seconds)) [
    | inl long ↦
        let h : i64_max < m.ttl_seconds = ground arith in
        inl (h, rw (v, checked_expires_at-overflow now m.ttl_seconds h) refl)
    | inr fits ↦ elim (Bool-cases (ltb max_seconds m.ttl_seconds)) [
      | inl wide ↦
          let h : max_seconds < m.ttl_seconds = ground arith in
          let b : m.ttl_seconds ≤ i64_max = ground arith in
          inr (inl (h, b, rw (v, checked_expires_at-panic now m.ttl_seconds h b) refl))
      | inr short ↦
          let h : m.ttl_seconds ≤ max_seconds = ground arith in
          inr (inr (h, checked_expires_at-Computed now m.ttl_seconds h))
    ]
  ]
