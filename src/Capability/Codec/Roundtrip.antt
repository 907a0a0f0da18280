-- ===== src/Capability/Codec/Roundtrip.antt =====
-- The state that is decoded from a token is that of the block that was appended last
-- (capability/src/biscuit_codec.rs).
use attenuate_agent.Prelude.{
  true, false, Option, none, some, List, [], ◌∷◌, ◌++◌, In, In-append_cases, In-append_left,
  In-append_right, Text, text, text_eq, text_eq_refl, ok, >>=-eq-ok, ok-injective, map_err,
  map_err-eq-ok, ◌≡◌, refl, sym, ◌∙◌, ap, subst, ◌↔◌, inl, inr, arith, String,
}
use attenuate_agent.Prelude.Int.{ℤ, leb_ℤ}
use attenuate_agent.FilePath.{path_eq}
use attenuate_agent.FilePath.Components.{path_eq_refl}
use attenuate_agent.External.{Uuid, DateTime, Chrono, UuidText, Fact, unary, binary, BiscuitAuth}
use attenuate_agent.Capability.Data.{PermissionSet, RequestBinding}
use attenuate_agent.Capability.Sets.{collect_set}
use attenuate_agent.Capability.Token.{permissions_eq, network_eq}
use attenuate_agent.Manifest.{NetworkPolicy, deny_all}
use attenuate_agent.Capability.Codec.{
  biscuit, add_facts, state_facts, append_block, network_to_str, parse_network, encode_hex,
}
use attenuate_agent.Capability.Codec.Texts.{unescape, decode_hex32-encode_hex}
use attenuate_agent.Capability.Codec.Values.{
  values, values-append, values-none, In→values, values→In, leb_ℤ_refl,
}
use attenuate_agent.Capability.Codec.Rows.{
  values_of_iff, IsLatest, max_by_key-latest, next-some, next-none, set_eq-collect_set,
}
use attenuate_agent.Capability.Codec.Facts.{IsLawful, HasHash, block, add_facts-block}
use attenuate_agent.Capability.Codec.Columns.{
  columns, values-block, block-id, block-unary, columns-expires_at, columns-read_root,
  columns-write_root, columns-exec_binary, columns-network, columns-unbound, columns-binding_tool,
  columns-binding_arg_hash, columns-binding_nonce,
}
use attenuate_agent.Capability.Codec.Decode.{
  DecodedState, values_of, next, ok_or, block_values, decode_permissions, decode_binding,
  decode_with, decode_state,
}

-- Every fact of the older blocks has a smaller block id, and the task of the token is `task`.
pub record IsOlder (id : ℤ) (task : Text) (fs : List Fact) : Type 0 where
  pub below : (q : Text) (i : ℤ) (v : Text) → In (binary q i v) fs → leb_ℤ id i ≡ false
  pub named : In (unary (text "task_id") task) fs
  pub only : (v : Text) → In (unary (text "task_id") v) fs → v ≡ task

-- What a decoded state has of a block.
pub record IsBlock (task_id : Uuid) (id : ℤ) (p : PermissionSet) (t : DateTime)
    (b : Option RequestBinding) (d : DecodedState) : Type 0 where
  pub task : d.task_id ≡ task_id
  pub permissions : permissions_eq d.permissions p ≡ true
  pub expiry : d.expires_at ≡ t
  pub binding : d.request_binding ≡ b
  pub latest_id : d.block_id ≡ id

-- The texts of instants and of ids are parsed to what they were printed of, and the text of an id has
-- nothing to escape.
pub record IsPrinted (ch : Chrono) (ids : UuidText) : Type 0 where
  pub parse-to_rfc3339 : (t : DateTime) → ch.parse_from_rfc3339 (ch.to_rfc3339 t) ≡ some t
  pub parse-to_string : (u : Uuid) → ids.parse_str (ids.to_string u) ≡ some u
  pub plain : (u : Uuid) → unescape (ids.to_string u) ≡ some (ids.to_string u)

parse-network : (n : NetworkPolicy) → parse_network (network_to_str n) ≡ ok n
unfolding parse_network network_to_str text text_eq
parse-network deny_all = refl

network_eq_refl : (n : NetworkPolicy) → network_eq n n ≡ true
unfolding network_eq
network_eq_refl deny_all = refl

module _ (ch : Chrono) (ids : UuidText) (bis : BiscuitAuth) (L : IsLawful bis)
    (printed : IsPrinted ch ids) (id : ℤ) (task : Text) (old : List Fact) (O : IsOlder id task old)
    (p : PermissionSet) (t : DateTime) (b : Option RequestBinding) (token : bis.Biscuit)
    (known : L.facts token ≡ old ++ block ch ids id p t b) (a : bis.Authorizer)
    (authorized : bis.authorizer token ≡ ok a) where
  -- A predicate has at the block the values of its column.
  block_values-columns :
      (name : String)
      → (vs : List Text) × (block_values bis ch ids (bis.set_limits 5 a) id name ≡ ok vs)
        × ((v : Text) → In v vs ↔ In v (columns ch ids (text name) id p t b))
  unfolding block_values
  block_values-columns name =
      let (rows, e, h) = L.answers_binary token a 5 (text name) authorized in
      let fs = block ch ids id p t b in
      let gone = values-none (text name) id old (λ v i. absurd (older v i)) in
      let cols =
        values-append (text name) id old fs
        ∙ (ap (λ vs. vs ++ values (text name) id fs) gone
            ∙ values-block ch ids (text name) id p t b) in
      (
        values_of id rows,
        rw e refl,
        λ v. (
          λ i.
              subst (λ vs. In v vs) cols
                (In→values (text name) id v (old ++ fs) (
                  subst (λ us. In (binary (text name) id v) us) known
                    ((h id v).0 ((values_of_iff id v rows).0 i)))),
          λ i. (values_of_iff id v rows).1 (
              (h id v).1 (
                subst (λ us. In (binary (text name) id v) us) (sym known)
                  (values→In (text name) id v (old ++ fs) (subst (λ vs. In v vs) (sym cols) i)))),
        ),
      )
    where
      older : (v : Text) → In (binary (text name) id v) old → ⊥
      older v i = let x = O.below (text name) id v i in let y = leb_ℤ_refl id in ground arith

  -- The only value of a column with one.
  next-column :
      (name : String) (v : Text)
      → columns ch ids (text name) id p t b ≡ v ∷ []
      → (vs : List Text) × (block_values bis ch ids (bis.set_limits 5 a) id name ≡ ok vs)
        × (next vs ≡ some v)
  next-column name v e =
      let (vs, f, h) = block_values-columns name in
      (vs, f, next-some v vs (λ u. subst (λ cs. In u vs ↔ In u cs) e (h u)))

  decode_permissions-block :
      (d : PermissionSet) × (decode_permissions bis ch ids (bis.set_limits 5 a) id ≡ ok d)
      × (permissions_eq d p ≡ true)
  unfolding decode_permissions ok_or permissions_eq
  decode_permissions-block =
      let (rs, r, hr) = block_values-columns "read_root" in
      let (ws, w, hw) = block_values-columns "write_root" in
      let (xs, x, hx) = block_values-columns "exec_binary" in
      let (ns, n, hn) =
        next-column "network" (network_to_str p.network) (columns-network ch ids id p t b) in
      let er =
        set_eq-collect_set path_eq path_eq_refl rs p.readable_roots
          (λ u. subst (λ cs. In u rs ↔ In u cs) (columns-read_root ch ids id p t b) (hr u)) in
      let ew =
        set_eq-collect_set path_eq path_eq_refl ws p.writable_roots
          (λ u. subst (λ cs. In u ws ↔ In u cs) (columns-write_root ch ids id p t b) (hw u)) in
      let ex =
        set_eq-collect_set text_eq text_eq_refl xs p.exec_binaries
          (λ u. subst (λ cs. In u xs ↔ In u cs) (columns-exec_binary ch ids id p t b) (hx u)) in
      (
        record {
          readable_roots = collect_set path_eq rs;
          writable_roots = collect_set path_eq ws;
          exec_binaries = collect_set text_eq xs;
          network = p.network;
        },
        rw (r, w, x, n, hn, parse-network p.network) refl,
        rw (er, ew, ex, network_eq_refl p.network) refl,
      )

  -- The rows of the expiries: the block's is the latest.
  latest :
      (rows : List (ℤ × Text))
      → ((i : ℤ) (v : Text) → In (i, v) rows ↔ In (binary (text "expires_at") i v) (L.facts token))
      → ((row : ℤ × Text) → In row rows → IsLatest id (ch.to_rfc3339 t) row)
        × In (id, ch.to_rfc3339 t) rows
  latest rows h = (
    λ row k.
        elim (In-append_cases _ old (block ch ids id p t b) (
          subst (λ us. In (binary (text "expires_at") row.0 row.1) us) known
            ((h row.0 row.1).0 k))) [
              | inl o ↦ inr (O.below (text "expires_at") row.0 row.1 o)
              | inr n ↦ inl (same row n)
            ],
    (h id (ch.to_rfc3339 t)).1 (
        subst (λ us. In (binary (text "expires_at") id (ch.to_rfc3339 t)) us) (sym known)
          (In-append_right _ old (block ch ids id p t b) (inl refl))),
  )
    where
      same :
          (row : ℤ × Text)
          → In (binary (text "expires_at") row.0 row.1) (block ch ids id p t b)
          → row ≡ (id, ch.to_rfc3339 t)
      same (i, v) n =
          let e = block-id ch ids id p t b i (text "expires_at") v n in
          let m = subst (λ j. In (binary (text "expires_at") j v) (block ch ids id p t b)) e n in
          let c =
            values-block ch ids (text "expires_at") id p t b ∙ columns-expires_at ch ids id p t b in
          let k : In v (ch.to_rfc3339 t ∷ []) =
            subst (λ vs. In v vs) c
              (In→values (text "expires_at") id v (block ch ids id p t b) m) in
          elim k [ inl q ↦ cc | inr q ↦ elim q [ ] ]

  decode_binding-block :
      (c : Option RequestBinding)
      → b ≡ c
      → HasHash c
      → (vs : List Text) × (block_values bis ch ids (bis.set_limits 5 a) id "binding_tool" ≡ ok vs)
        × (decode_binding bis ch ids (bis.set_limits 5 a) id (next vs) ≡ ok c)
  unfolding decode_binding ok_or
  decode_binding-block none e h =
      let (vs, f, k) = block_values-columns "binding_tool" in
      let empty =
        ap (λ o. columns ch ids (text "binding_tool") id p t o) e ∙ columns-unbound ch ids id p t in
      let n = next-none vs (λ u. subst (λ cs. In u vs ↔ In u cs) empty (k u)) in (vs, f, rw n refl)
  decode_binding-block (some c) e (bytes, size) =
      let tool = ap (λ o. columns ch ids (text "binding_tool") id p t o) e in
      let hash = ap (λ o. columns ch ids (text "binding_arg_hash") id p t o) e in
      let nonce = ap (λ o. columns ch ids (text "binding_nonce") id p t o) e in
      let (vs, f, n) =
        next-column "binding_tool" c.tool_name (tool ∙ columns-binding_tool ch ids id p t c) in
      let (hs, g, m) =
        next-column "binding_arg_hash" (encode_hex c.argument_hash)
          (hash ∙ columns-binding_arg_hash ch ids id p t c) in
      let (us, k, l) =
        next-column "binding_nonce" (ids.to_string c.nonce)
          (nonce ∙ columns-binding_nonce ch ids id p t c) in
      (
        vs,
        f,
        rw
            (
              n,
              g,
              m,
              decode_hex32-encode_hex c.argument_hash bytes size,
              k,
              l,
              printed.parse-to_string c.nonce,
            )
            refl,
      )

  decode_with-IsBlock :
      (task_id : Uuid)
      → ids.parse_str task ≡ some task_id
      → HasHash b
      → (d : DecodedState) × (decode_with bis ch ids (bis.set_limits 5 a) ≡ ok d)
        × IsBlock task_id id p t b d
  unfolding decode_with ok_or
  decode_with-IsBlock task_id parsed hashed =
      let (ts, e, ht) = L.answers_unary token a 5 (text "task_id") authorized in
      let n = next-some task ts (λ v. named v ts (ht v)) in
      let (rows, f, hr) = L.answers_binary token a 5 (text "expires_at") authorized in
      let (all_latest, found) = latest rows hr in
      let m = max_by_key-latest id (ch.to_rfc3339 t) rows all_latest found in
      let (d, g, same) = decode_permissions-block in
      let (vs, k, bound) = decode_binding-block b refl hashed in
      (
        record {
          task_id = task_id;
          permissions = d;
          expires_at = t;
          request_binding = b;
          block_id = id;
        },
        rw (e, n, parsed, f, m, printed.parse-to_rfc3339 t, g, k, bound) refl,
        record { task = refl; permissions = same; expiry = refl; binding = refl; latest_id = refl },
      )
    where
      named :
          (v : Text) (ts : List Text)
          → In v ts ↔ In (unary (text "task_id") v) (L.facts token)
          → In v ts ↔ In v (task ∷ [])
      named v ts h = (
        λ k.
            elim (In-append_cases _ old (block ch ids id p t b)
              (subst (λ us. In (unary (text "task_id") v) us) known (h.0 k))) [
                | inl o ↦ inl (O.only v o)
                | inr n ↦ absurd (block-unary ch ids id p t b (text "task_id") v n)
              ],
        λ k. h.1 (elim k [
          | inl e ↦
              subst (λ us. In (unary (text "task_id") v) us) (sym known)
                (In-append_left _ old (block ch ids id p t b)
                  (subst (λ s. In (unary (text "task_id") s) old) (sym e) O.named))
          | inr q ↦ elim q [ ]
        ]),
      )

-- What `append_block` writes, `decode_state` reads: if a token verifies and all its blocks have smaller
-- ids, then the token with a block appended to it decodes, under the same key, to the permissions, the
-- expiry and the binding of that block and the task of the token. Relied on are the parsing and the
-- queries of biscuit-auth, within its limits, and that instants and ids are parsed to what they were
-- printed of; a binding's hash is 32 bytes.
pub decode_state-append_block :
    (ch : Chrono) (ids : UuidText) (bis : BiscuitAuth) (L : IsLawful bis)
    (printed : IsPrinted ch ids) (token new : Text) (key : bis.PublicKey) (id : ℤ) (task_id : Uuid)
    (p : PermissionSet) (t : DateTime) (b : Option RequestBinding) (old : bis.Biscuit)
    → bis.from token key ≡ ok old
    → IsOlder id (ids.to_string task_id) (L.facts old)
    → HasHash b
    → append_block bis ch ids token key id p t b ≡ ok new
    → (d : DecodedState) × (decode_state bis ch ids new key ≡ ok d) × IsBlock task_id id p t b d
unfolding append_block decode_state
decode_state-append_block ch ids bis L printed token new key id task_id p t b old verified older
      hashed h =
    let (b₁, e₁, h₁) = >>=-eq-ok (map_err biscuit (bis.from token key)) _ h in
    let (fs, e₂, h₂) = >>=-eq-ok (add_facts bis (state_facts ch ids id p t b)) _ h₁ in
    let (c, e₃, h₃) = >>=-eq-ok (map_err biscuit (bis.append b₁ fs)) _ h₂ in
    let from_token = map_err-eq-ok biscuit (bis.from token key) e₁ in
    let appended = map_err-eq-ok biscuit (bis.append b₁ fs) e₃ in
    let written = map_err-eq-ok biscuit (bis.to_vec c) h₃ in
    let (d, e₄, same) = L.from-to_vec token new key b₁ c fs from_token appended written in
    let is_old = ok-injective (sym verified ∙ from_token) in
    let added =
      ok-injective (sym e₂ ∙ add_facts-block bis L ch ids printed.plain id p t b hashed) in
    let known : L.facts d ≡ L.facts old ++ block ch ids id p t b =
      same
      ∙ (L.facts-append b₁ c fs appended
          ∙ (ap (λ x. L.facts x ++ fs) (sym is_old) ∙ ap (λ gs. L.facts old ++ gs) added)) in
    let (a, authorized) = L.authorizes d in
    let (state, e₅, block) =
      decode_with-IsBlock ch ids bis L printed id (ids.to_string task_id) (L.facts old) older p t b
        d known a authorized task_id (printed.parse-to_string task_id) hashed in
    (state, rw (e₄, authorized) e₅, block)
