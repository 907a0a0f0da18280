-- ===== src/Capability/Codec/Columns.antt =====
-- The values that the block written by `state_facts` of capability/src/biscuit_codec.rs gives to each
-- predicate that `decode_state` queries.
use attenuate_agent.Prelude.{
  Bool-cases, inl, inr, Option, none, some, List, [], ◌∷◌, ◌++◌, map, In, Text, text, text_eq, ◌≡◌,
  refl, ◌∙◌, ap, arith, if◌then◌else◌,
}
use mathlib.Core.Path.{ap₂}
use mathlib.Core.List.{append-nil}
use attenuate_agent.Prelude.Int.{ℤ}
use attenuate_agent.External.{DateTime, Chrono, UuidText, Fact, unary, binary}
use attenuate_agent.Capability.Data.{PermissionSet, RequestBinding}
use attenuate_agent.Capability.Codec.{encode_hex, network_to_str}
use attenuate_agent.Capability.Codec.Values.{values, values-append, eq_ℤ_refl}
use attenuate_agent.Capability.Codec.Facts.{binding_block, block}

-- The values that facts of the predicate `p` give to the predicate `q`.
abbrev cell : Text → Text → List Text → List Text
cell q p vs = if text_eq p q then vs else []

module _ (q p : Text) (id : ℤ) where
  values-cell : (xs : List Text) → values q id (map (λ x. binary p id x) xs) ≡ cell q p xs
  unfolding values
  values-cell [] = elim (Bool-cases (text_eq p q)) [ inl e ↦ rw e refl | inr e ↦ rw e refl ]
  values-cell (x ∷ xs) =
      let i = eq_ℤ_refl id in
      let rest = values-cell xs in
      elim (Bool-cases (text_eq p q)) [
        | inl e ↦ rw (i, e) (ap (λ vs. x ∷ vs) (rest ∙ rw e refl))
        | inr e ↦ rw e (rest ∙ rw e refl)
      ]

  values-one :
      (v : Text) (fs : List Fact)
      → values q id (binary p id v ∷ fs) ≡ cell q p (v ∷ []) ++ values q id fs
  unfolding values
  values-one v fs =
      let i = eq_ℤ_refl id in
      elim (Bool-cases (text_eq p q)) [ inl e ↦ rw (i, e) refl | inr e ↦ rw e refl ]

module _ (ch : Chrono) (ids : UuidText) (q : Text) (id : ℤ) (p : PermissionSet) (t : DateTime) where
  abbrev binding_cells : Option RequestBinding → List Text
  binding_cells none = []
  binding_cells (some b) =
      cell q (text "binding_tool") (b.tool_name ∷ [])
      ++ (cell q (text "binding_arg_hash") (encode_hex b.argument_hash ∷ [])
          ++ (cell q (text "binding_nonce") (ids.to_string b.nonce ∷ []) ++ []))

  values-binding :
      (b : Option RequestBinding) → values q id (binding_block ch ids id b) ≡ binding_cells b
  unfolding values
  values-binding none = refl
  values-binding (some b) =
      values-one q (text "binding_tool") id b.tool_name (
        binary (text "binding_arg_hash") id (encode_hex b.argument_hash)
        ∷ binary (text "binding_nonce") id (ids.to_string b.nonce)
        ∷ [])
      ∙ ap (λ vs. cell q (text "binding_tool") (b.tool_name ∷ []) ++ vs)
          (values-one q (text "binding_arg_hash") id (encode_hex b.argument_hash)
              (binary (text "binding_nonce") id (ids.to_string b.nonce) ∷ [])
            ∙ ap (λ vs. cell q (text "binding_arg_hash") (encode_hex b.argument_hash ∷ []) ++ vs)
                (values-one q (text "binding_nonce") id (ids.to_string b.nonce) []))

  -- The values of a predicate at the block, column by column.
  abbrev pub columns : Option RequestBinding → List Text
  columns b =
      cell q (text "expires_at") (ch.to_rfc3339 t ∷ [])
      ++ (cell q (text "read_root") p.readable_roots
          ++ (cell q (text "write_root") p.writable_roots
              ++ (cell q (text "exec_binary") p.exec_binaries
                  ++ (cell q (text "network") (network_to_str p.network ∷ []) ++ binding_cells b))))

  pub values-block : (b : Option RequestBinding) → values q id (block ch ids id p t b) ≡ columns b
  values-block b =
      let reads = map (λ path. binary (text "read_root") id path) p.readable_roots in
      let writes = map (λ path. binary (text "write_root") id path) p.writable_roots in
      let execs = map (λ name. binary (text "exec_binary") id name) p.exec_binaries in
      let bound = binding_block ch ids id b in
      let net = binary (text "network") id (network_to_str p.network) ∷ bound in
      let n =
        values-one q (text "network") id (network_to_str p.network) bound
        ∙ ap (λ vs. cell q (text "network") (network_to_str p.network ∷ []) ++ vs)
            (values-binding b) in
      let x =
        values-append q id execs net
        ∙ ap₂ (λ us vs. us ++ vs) (values-cell q (text "exec_binary") id p.exec_binaries) n in
      let w =
        values-append q id writes (execs ++ net)
        ∙ ap₂ (λ us vs. us ++ vs) (values-cell q (text "write_root") id p.writable_roots) x in
      let r =
        values-append q id reads (writes ++ (execs ++ net))
        ∙ ap₂ (λ us vs. us ++ vs) (values-cell q (text "read_root") id p.readable_roots) w in
      values-one q (text "expires_at") id (ch.to_rfc3339 t) (reads ++ (writes ++ (execs ++ net)))
      ∙ ap (λ vs. cell q (text "expires_at") (ch.to_rfc3339 t ∷ []) ++ vs) r

-- All facts are at one block id.
abbrev AtId : ℤ → List Fact → Type 0
AtId id [] = Unit
AtId id (unary p v ∷ fs) = ⊥
AtId id (binary p i v ∷ fs) = (i ≡ id) × AtId id fs

AtId-append : (id : ℤ) (fs gs : List Fact) → AtId id fs → AtId id gs → AtId id (fs ++ gs)
AtId-append id [] gs h k = k
AtId-append id (unary p v ∷ fs) gs h k = absurd h
AtId-append id (binary p i v ∷ fs) gs (e, h) k = (e, AtId-append id fs gs h k)

AtId-map : (id : ℤ) (p : Text) (xs : List Text) → AtId id (map (λ x. binary p id x) xs)
AtId-map id p [] = tt
AtId-map id p (x ∷ xs) = (refl, AtId-map id p xs)

AtId-binary : (id i : ℤ) (q v : Text) (fs : List Fact) → AtId id fs → In (binary q i v) fs → i ≡ id
AtId-binary id i q v [] h k = elim k [ ]
AtId-binary id i q v (unary p u ∷ fs) h k = absurd h
AtId-binary id i q v (binary p j u ∷ fs) (e, h) (inl k) = cc
AtId-binary id i q v (binary p j u ∷ fs) (e, h) (inr k) = AtId-binary id i q v fs h k

AtId-unary : (id : ℤ) (q v : Text) (fs : List Fact) → AtId id fs → In (unary q v) fs → ⊥
AtId-unary id q v [] h k = elim k [ ]
AtId-unary id q v (unary p u ∷ fs) h k = h
AtId-unary id q v (binary p j u ∷ fs) (e, h) (inl k) = absurd (ground arith)
AtId-unary id q v (binary p j u ∷ fs) (e, h) (inr k) = AtId-unary id q v fs h k

module _ (ch : Chrono) (ids : UuidText) (id : ℤ) (p : PermissionSet) (t : DateTime) where
  AtId-block : (b : Option RequestBinding) → AtId id (block ch ids id p t b)
  AtId-block b = (
    refl,
    AtId-append id _ _ (AtId-map id (text "read_root") p.readable_roots) (
        AtId-append id _ _ (AtId-map id (text "write_root") p.writable_roots)
          (AtId-append id _ _ (AtId-map id (text "exec_binary") p.exec_binaries) (refl, bound b))),
  )
    where
      bound : (b : Option RequestBinding) → AtId id (binding_block ch ids id b)
      bound none = tt
      bound (some b) = (refl, (refl, (refl, tt)))

  -- The facts of a block are at its id, and none of them is about the task.
  pub block-id :
      (b : Option RequestBinding) (i : ℤ) (q v : Text)
      → In (binary q i v) (block ch ids id p t b)
      → i ≡ id
  block-id b i q v k = AtId-binary id i q v (block ch ids id p t b) (AtId-block b) k

  pub block-unary :
      (b : Option RequestBinding) (q v : Text) → In (unary q v) (block ch ids id p t b) → ⊥
  block-unary b q v k = AtId-unary id q v (block ch ids id p t b) (AtId-block b) k

  pub columns-expires_at :
      (b : Option RequestBinding)
      → columns ch ids (text "expires_at") id p t b ≡ ch.to_rfc3339 t ∷ []
  unfolding text text_eq
  columns-expires_at none = refl
  columns-expires_at (some b) = refl

  pub columns-read_root :
      (b : Option RequestBinding) → columns ch ids (text "read_root") id p t b ≡ p.readable_roots
  unfolding text text_eq
  columns-read_root none = append-nil p.readable_roots
  columns-read_root (some b) = append-nil p.readable_roots

  pub columns-write_root :
      (b : Option RequestBinding) → columns ch ids (text "write_root") id p t b ≡ p.writable_roots
  unfolding text text_eq
  columns-write_root none = append-nil p.writable_roots
  columns-write_root (some b) = append-nil p.writable_roots

  pub columns-exec_binary :
      (b : Option RequestBinding) → columns ch ids (text "exec_binary") id p t b ≡ p.exec_binaries
  unfolding text text_eq
  columns-exec_binary none = append-nil p.exec_binaries
  columns-exec_binary (some b) = append-nil p.exec_binaries

  pub columns-network :
      (b : Option RequestBinding)
      → columns ch ids (text "network") id p t b ≡ network_to_str p.network ∷ []
  unfolding text text_eq
  columns-network none = refl
  columns-network (some b) = refl

  pub columns-unbound : columns ch ids (text "binding_tool") id p t none ≡ []
  unfolding text text_eq
  columns-unbound = refl

  pub columns-binding_tool :
      (b : RequestBinding) → columns ch ids (text "binding_tool") id p t (some b) ≡ b.tool_name ∷ []
  unfolding text text_eq
  columns-binding_tool b = refl

  pub columns-binding_arg_hash :
      (b : RequestBinding)
      → columns ch ids (text "binding_arg_hash") id p t (some b) ≡ encode_hex b.argument_hash ∷ []
  unfolding text text_eq
  columns-binding_arg_hash b = refl

  pub columns-binding_nonce :
      (b : RequestBinding)
      → columns ch ids (text "binding_nonce") id p t (some b) ≡ ids.to_string b.nonce ∷ []
  unfolding text text_eq
  columns-binding_nonce b = refl
