-- ===== src/Capability/Codec/Facts.antt =====
-- The facts that `build_root_token` and `append_block` of capability/src/biscuit_codec.rs add to a token,
-- and what is relied on of biscuit-auth.
use attenuate_agent.Prelude.{
  length, ℕ, >>=-eq-ok, ok-injective, false, Option, none, some, List, [], ◌∷◌, ◌++◌, map, In, Text,
  text, ok, map_err, ◌≡◌, refl, ap, subst, ◌↔◌, arith, String,
}
use attenuate_agent.Prelude.Int.{ℤ}
use attenuate_agent.External.{
  Uuid, DateTime, Chrono, UuidText, Fact, unary, binary, FactSource, BiscuitAuth,
}
use attenuate_agent.Manifest.{NetworkPolicy, deny_all}
use attenuate_agent.Capability.Data.{PermissionSet, RequestBinding}
use attenuate_agent.Capability.Codec.{
  biscuit, add_facts, fact_source, binding_facts, state_facts, escape, encode_hex, network_to_str,
  hex_digit,
}
use attenuate_agent.Capability.Codec.Texts.{unescape, unescape_from, unescape-escape, IsBytes}

-- What is relied on of biscuit-auth: a binary fact is parsed to what its source says; a token that is
-- appended to a verified one and serialized verifies under the same key, and has the facts of the old
-- one and the new ones; an authorizer of it answers, within its limits, each query with exactly the
-- facts of all blocks.
pub record IsLawful (bis : BiscuitAuth) : Type 0 where
  pub facts : bis.Biscuit → List Fact
  pub parse_binary :
      (p : Text) (id : ℤ) (literal v : Text)
      → unescape literal ≡ some v
      → bis.parse_fact (record { predicate = p; block_id = some id; literal = literal })
        ≡ ok (binary p id v)
  pub facts-append :
      (b c : bis.Biscuit) (fs : List Fact) → bis.append b fs ≡ ok c → facts c ≡ facts b ++ fs
  pub from-to_vec :
      (token new : Text) (key : bis.PublicKey) (b c : bis.Biscuit) (fs : List Fact)
      → bis.from token key ≡ ok b
      → bis.append b fs ≡ ok c
      → bis.to_vec c ≡ ok new
      → (d : bis.Biscuit) × (bis.from new key ≡ ok d) × (facts d ≡ facts c)
  pub authorizes : (b : bis.Biscuit) → (a : bis.Authorizer) × (bis.authorizer b ≡ ok a)
  pub answers_unary :
      (b : bis.Biscuit) (a : bis.Authorizer) (n : ℕ) (p : Text)
      → bis.authorizer b ≡ ok a
      → (rows : List Text) × (bis.query_unary (bis.set_limits n a) p ≡ ok rows)
        × ((v : Text) → In v rows ↔ In (unary p v) (facts b))
  pub answers_binary :
      (b : bis.Biscuit) (a : bis.Authorizer) (n : ℕ) (p : Text)
      → bis.authorizer b ≡ ok a
      → (rows : List (ℤ × Text)) × (bis.query_binary (bis.set_limits n a) p ≡ ok rows)
        × ((id : ℤ) (v : Text) → In (id, v) rows ↔ In (binary p id v) (facts b))

module _ (ch : Chrono) (ids : UuidText) where
  abbrev pub binding_block : ℤ → Option RequestBinding → List Fact
  binding_block id none = []
  binding_block id (some b) =
      binary (text "binding_tool") id b.tool_name
      ∷ binary (text "binding_arg_hash") id (encode_hex b.argument_hash)
      ∷ binary (text "binding_nonce") id (ids.to_string b.nonce)
      ∷ []

  -- The facts of one block.
  abbrev pub block : ℤ → PermissionSet → DateTime → Option RequestBinding → List Fact
  block id p t binding =
      binary (text "expires_at") id (ch.to_rfc3339 t)
      ∷ (map (λ path. binary (text "read_root") id path) p.readable_roots
          ++ (map (λ path. binary (text "write_root") id path) p.writable_roots
              ++ (map (λ name. binary (text "exec_binary") id name) p.exec_binaries
                  ++ (binary (text "network") id (network_to_str p.network)
                      ∷ binding_block id binding))))

-- A text with no backslash and no quote stands for itself.
unescape_from-hex :
    (bs : Text) → IsBytes bs → unescape_from false (encode_hex bs) ≡ some (encode_hex bs)
unfolding unescape_from encode_hex hex_digit
unescape_from-hex [] h = refl
unescape_from-hex (b ∷ bs) (h, hs) = ground (arith, unescape_from-hex bs hs)

unescape-hex : (bs : Text) → IsBytes bs → unescape (encode_hex bs) ≡ some (encode_hex bs)
unfolding unescape
unescape-hex bs h = unescape_from-hex bs h

unescape-network : (n : NetworkPolicy) → unescape (network_to_str n) ≡ some (network_to_str n)
unfolding unescape network_to_str text
unescape-network deny_all = refl

-- The hash of a binding, if there is one, is 32 bytes.
abbrev pub HasHash : Option RequestBinding → Type 0
HasHash none = Unit
HasHash (some b) = IsBytes b.argument_hash × (length b.argument_hash ≡ 32)

module _ (bis : BiscuitAuth) (L : IsLawful bis) where
  add_facts-append :
      (xs ys : List FactSource) (fs gs : List Fact)
      → add_facts bis xs ≡ ok fs
      → add_facts bis ys ≡ ok gs
      → add_facts bis (xs ++ ys) ≡ ok (fs ++ gs)
  unfolding add_facts
  add_facts-append [] ys fs gs h k =
      subst (λ us. add_facts bis ys ≡ ok (us ++ gs)) (ok-injective h) k
  add_facts-append (x ∷ xs) ys fs gs h k =
      let (f, e, h₁) = >>=-eq-ok (map_err biscuit (bis.parse_fact x)) _ h in
      let (us, e₂, h₂) = >>=-eq-ok (add_facts bis xs) _ h₁ in
      rw (e, add_facts-append xs ys us gs e₂ k) (ap (λ vs. ok (vs ++ gs)) (ok-injective h₂))

  add_facts-nil : add_facts bis [] ≡ ok []
  unfolding add_facts
  add_facts-nil = refl

  add_facts-one :
      (name : String) (id : ℤ) (literal v : Text) (xs : List FactSource) (fs : List Fact)
      → unescape literal ≡ some v
      → add_facts bis xs ≡ ok fs
      → add_facts bis (fact_source name id literal ∷ xs) ≡ ok (binary (text name) id v ∷ fs)
  unfolding add_facts fact_source
  add_facts-one name id literal v xs fs u k = rw (L.parse_binary (text name) id literal v u, k) refl

  add_facts-map :
      (name : String) (id : ℤ) (xs : List Text)
      → add_facts bis (map (λ x. fact_source name id (escape x)) xs)
        ≡ ok (map (λ x. binary (text name) id x) xs)
  unfolding add_facts fact_source
  add_facts-map name id [] = refl
  add_facts-map name id (x ∷ xs) =
      rw (L.parse_binary (text name) id (escape x) x (unescape-escape x), add_facts-map name id xs)
        refl

  module _ (ch : Chrono) (ids : UuidText)
      (plain : (u : Uuid) → unescape (ids.to_string u) ≡ some (ids.to_string u)) where
    add_facts-binding :
        (id : ℤ) (b : Option RequestBinding)
        → HasHash b
        → add_facts bis (binding_facts ch ids id b) ≡ ok (binding_block ch ids id b)
    unfolding binding_facts
    add_facts-binding id none h = add_facts-nil
    add_facts-binding id (some b) h =
        add_facts-one "binding_tool" id (escape b.tool_name) b.tool_name _ _
          (unescape-escape b.tool_name)
          (add_facts-one "binding_arg_hash" id (encode_hex b.argument_hash)
            (encode_hex b.argument_hash) _ _ (unescape-hex b.argument_hash h.0)
            (add_facts-one "binding_nonce" id (ids.to_string b.nonce) (ids.to_string b.nonce) [] []
              (plain b.nonce) add_facts-nil))

    -- What is added for a block is its facts.
    pub add_facts-block :
        (id : ℤ) (p : PermissionSet) (t : DateTime) (b : Option RequestBinding)
        → HasHash b
        → add_facts bis (state_facts ch ids id p t b) ≡ ok (block ch ids id p t b)
    unfolding state_facts
    add_facts-block id p t b h =
        add_facts-one "expires_at" id (escape (ch.to_rfc3339 t)) (ch.to_rfc3339 t) _ _
          (unescape-escape (ch.to_rfc3339 t))
          (add_facts-append _ _ _ _ (add_facts-map "read_root" id p.readable_roots) (
            add_facts-append _ _ _ _ (add_facts-map "write_root" id p.writable_roots) (
              add_facts-append _ _ _ _ (add_facts-map "exec_binary" id p.exec_binaries) (
                add_facts-one "network" id (network_to_str p.network) (network_to_str p.network) _ _
                  (unescape-network p.network) (add_facts-binding id b h)))))
