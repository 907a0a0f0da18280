-- ===== src/Tests/Tokens.antt =====
-- The theorems on decoded tokens at concrete inputs.
use attenuate_agent.Prelude.{
  ℕ, ◌*◌, Bool, true, false, not, ◌&&◌, &&_true, none, some, List, [], ◌∷◌, In, Text, text, text_eq,
  text_eq→eq, ok, err, ◌≡◌, refl, ◌∙◌, subst, inl, inr, arith,
}
use attenuate_agent.Prelude.Int.{ℤ, pos, leb_ℤ}
use attenuate_agent.External.{Fact, unary, binary}
use attenuate_agent.Capability.Codec.{append_block}
use attenuate_agent.Capability.Codec.Decode.{DecodedState, decode_state}
use attenuate_agent.Capability.Codec.Facts.{HasHash}
use attenuate_agent.Capability.Codec.Roundtrip.{IsOlder, IsBlock, decode_state-append_block}
use attenuate_agent.Capability.Completeness.{Fresh}
use attenuate_agent.Capability.Token.{request_binding}
use attenuate_agent.Pep.Completeness.{verify-attenuate_child, verify-unbound_child}
use attenuate_agent.Pep.Messages.{state_tampered}
use attenuate_agent.Pep.Verify.{VerifiedCapability, verify}
use attenuate_agent.Tests.Crates.{clock, nanos, plain_uuid, tokens}
use attenuate_agent.Tests.Laws.{tokens_laws, plain_uuid-IsPrinted}
use attenuate_agent.Tests.Machine.{
  disk, child, grandchild, unbound, bound, free, binding, id_of, value_of, attenuated,
  attenuated_again, attenuated_again_ok, attenuated_free_ok, root, minted,
}

-- A decision of `IsOlder`, but for the fact of the task.
unfoldable is_older : ℤ → Text → List Fact → Bool
is_older id task [] = true
is_older id task (unary p v ∷ fs) = text_eq v task && is_older id task fs
is_older id task (binary p i v ∷ fs) = not (leb_ℤ id i) && is_older id task fs

is_older→below :
    (id : ℤ) (task : Text) (fs : List Fact) (q : Text) (i : ℤ) (v : Text)
    → is_older id task fs ≡ true
    → In (binary q i v) fs
    → leb_ℤ id i ≡ false
unfolding is_older
is_older→below id task [] q i v h k = elim k [ ]
is_older→below id task (unary p u ∷ fs) q i v h (inl e) = absurd (ground arith)
is_older→below id task (unary p u ∷ fs) q i v h (inr k) =
    is_older→below id task fs q i v (&&_true _ _ h).1 k
is_older→below id task (binary p j u ∷ fs) q i v h (inl e) =
    let same : j ≡ i = cc in subst (λ n. leb_ℤ id n ≡ false) same (ground arith)
is_older→below id task (binary p j u ∷ fs) q i v h (inr k) =
    is_older→below id task fs q i v (&&_true _ _ h).1 k

is_older→only :
    (id : ℤ) (task : Text) (fs : List Fact) (v : Text)
    → is_older id task fs ≡ true
    → In (unary (text "task_id") v) fs
    → v ≡ task
unfolding is_older
is_older→only id task [] v h k = elim k [ ]
is_older→only id task (unary p u ∷ fs) v h (inl e) =
    let same : v ≡ u = cc in same ∙ text_eq→eq u task (&&_true _ _ h).0
is_older→only id task (unary p u ∷ fs) v h (inr k) = is_older→only id task fs v (&&_true _ _ h).1 k
is_older→only id task (binary p j u ∷ fs) v h (inl e) = absurd (ground arith)
is_older→only id task (binary p j u ∷ fs) v h (inr k) =
    is_older→only id task fs v (&&_true _ _ h).1 k

abbrev no_biscuit : ℕ × List Fact
no_biscuit = (0, [])

-- The verified tokens of the root and of the first two children.
unfoldable root_biscuit : ℕ × List Fact
unfolding minted
root_biscuit = value_of no_biscuit (tokens.from root.token 5)

unfoldable child_biscuit : ℕ × List Fact
unfolding attenuated
child_biscuit = value_of no_biscuit (tokens.from child.token 5)

unfoldable grandchild_biscuit : ℕ × List Fact
unfolding attenuated_again
grandchild_biscuit = value_of no_biscuit (tokens.from grandchild.token 5)

child-IsOlder : IsOlder (pos 2) (plain_uuid.to_string (id_of 7)) child_biscuit.1
unfolding child_biscuit is_older leb_ℤ
child-IsOlder = record {
  below = λ q i v k.
      is_older→below (pos 2) (plain_uuid.to_string (id_of 7)) child_biscuit.1 q i v refl k;
  named = inl refl;
  only = λ v k. is_older→only (pos 2) (plain_uuid.to_string (id_of 7)) child_biscuit.1 v refl k;
}

grandchild-IsOlder : IsOlder (pos 3) (plain_uuid.to_string (id_of 7)) grandchild_biscuit.1
unfolding grandchild_biscuit is_older leb_ℤ
grandchild-IsOlder = record {
  below = λ q i v k.
      is_older→below (pos 3) (plain_uuid.to_string (id_of 7)) grandchild_biscuit.1 q i v refl k;
  named = inl refl;
  only =
      λ v k. is_older→only (pos 3) (plain_uuid.to_string (id_of 7)) grandchild_biscuit.1 v refl k;
}

hashed : HasHash (some binding)
unfolding text
hashed = (ground arith, refl)

verify-attenuate_child_example :
    (v : VerifiedCapability) × (verify clock plain_uuid tokens grandchild (3 * nanos) (some binding)
      ≡ ok v)
    × Fresh (id_of 7) (some binding) grandchild v.state
unfolding child_biscuit attenuated_again request_binding
verify-attenuate_child_example =
    verify-attenuate_child disk clock plain_uuid tokens tokens_laws plain_uuid-IsPrinted child bound
      (2 * nanos) (id_of 7) 5 child_biscuit (3 * nanos) (some binding) refl refl child-IsOlder
      hashed (λ e. refl) attenuated_again_ok (omega arith) refl

verify-unbound_child_example :
    verify clock plain_uuid tokens unbound (3 * nanos) none ≡ err state_tampered
unfolding grandchild_biscuit attenuated_again request_binding
verify-unbound_child_example =
    verify-unbound_child disk clock plain_uuid tokens tokens_laws plain_uuid-IsPrinted grandchild
      free (2 * nanos) (id_of 7) 5 grandchild_biscuit (3 * nanos) none {b = binding} refl refl
      grandchild-IsOlder refl refl attenuated_free_ok

-- The token of the root with the first child's block appended.
root-IsOlder : IsOlder (pos 1) (plain_uuid.to_string (id_of 7)) root_biscuit.1
unfolding root_biscuit is_older leb_ℤ
root-IsOlder = record {
  below = λ q i v k.
      is_older→below (pos 1) (plain_uuid.to_string (id_of 7)) root_biscuit.1 q i v refl k;
  named = inl refl;
  only = λ v k. is_older→only (pos 1) (plain_uuid.to_string (id_of 7)) root_biscuit.1 v refl k;
}

decode_state-append_block_example :
    (d : DecodedState) × (decode_state tokens clock plain_uuid child.token 5 ≡ ok d)
    × IsBlock (id_of 7) (pos 1) child.permissions child.expires_at none d
unfolding root_biscuit attenuated append_block
decode_state-append_block_example =
    decode_state-append_block clock plain_uuid tokens tokens_laws plain_uuid-IsPrinted root.token
      child.token 5 (pos 1) (id_of 7) child.permissions child.expires_at none root_biscuit refl
      root-IsOlder tt refl
