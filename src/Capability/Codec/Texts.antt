-- ===== src/Capability/Codec/Texts.antt =====
-- The encodings of capability/src/biscuit_codec.rs lose nothing: escaping and hexadecimal digits.
use attenuate_agent.Prelude.{
  ℕ, ◌+◌, ◌/◌, ◌%◌, ◌<◌, Option, none, some, [], ◌∷◌, Text, length, ◌≡◌, refl, arith, ◌==◌,
  if◌then◌else◌, ==_iff, Bool, true, false, ◌||◌,
}
use attenuate_agent.Capability.Codec.{
  escape, hex_digit, encode_hex, to_digit, decode_pairs, decode_hex32,
}

abbrev prefix : ℕ → Option Text → Option Text
prefix c none = none
prefix c (some s) = some (c ∷ s)

-- The text that a string literal of a fact stands for; the flag is set behind a backslash. A
-- backslash escapes a backslash or a quote, and a bare quote would end the literal.
unfoldable pub unescape_from : Bool → Text → Option Text
unescape_from false [] = some []
unescape_from true [] = none
unescape_from true (c ∷ s) =
    let rest = unescape_from false s in if c == 92 || c == 34 then prefix c rest else none
unescape_from false (c ∷ s) =
    let rest = unescape_from (c == 92) s in
    if c == 92 then rest else if c == 34 then none else prefix c rest

unfoldable pub unescape : Text → Option Text
unfolding unescape_from
unescape s = unescape_from false s

unescape_from-escape : (s : Text) → unescape_from false (escape s) ≡ some s
unfolding unescape_from escape
unescape_from-escape [] = refl
unescape_from-escape (c ∷ s) = ground (arith, unescape_from-escape s)

-- The text of a literal is recovered from the escapes that are written of it, whatever it contains.
pub unescape-escape : (s : Text) → unescape (escape s) ≡ some s
unfolding unescape
unescape-escape s = unescape_from-escape s

to_digit-hex_digit : (n : ℕ) → n < 16 → to_digit (hex_digit n) ≡ some n
unfolding to_digit hex_digit
to_digit-hex_digit n h = ground arith

-- Every byte is below 256.
abbrev pub IsBytes : Text → Type 0
IsBytes [] = Unit
IsBytes (b ∷ bs) = (b < 256) × IsBytes bs

decode_pairs-encode_hex : (bs : Text) → IsBytes bs → decode_pairs (encode_hex bs) ≡ some bs
unfolding decode_pairs encode_hex
decode_pairs-encode_hex [] h = refl
decode_pairs-encode_hex (b ∷ bs) (h, hs) =
    ground (
      arith,
      to_digit-hex_digit (b / 16),
      to_digit-hex_digit (b % 16),
      decode_pairs-encode_hex bs hs,
    )

length-encode_hex : (bs : Text) → length (encode_hex bs) ≡ length bs + length bs
unfolding encode_hex
length-encode_hex [] = refl
length-encode_hex (b ∷ bs) = omega (arith, length-encode_hex bs)

-- Thirty-two bytes are recovered from the digits that are written of them.
pub decode_hex32-encode_hex :
    (bs : Text) → IsBytes bs → length bs ≡ 32 → decode_hex32 (encode_hex bs) ≡ some bs
unfolding decode_hex32
decode_hex32-encode_hex bs h l =
    let e : (length (encode_hex bs) == 64) ≡ true =
      (==_iff _ _).1 (omega (arith, length-encode_hex bs)) in
    rw e (decode_pairs-encode_hex bs h)
