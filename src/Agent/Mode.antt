-- ===== src/Agent/Mode.antt =====
-- `AuthzMode` of agent/src/lib.rs.
use attenuate_agent.Prelude.{
  ℕ, zero, suc, ◌+◌, Option, none, some, List, [], ◌∷◌, map, reverse, ◌&&◌, Text, text, text_eq,
  leb, any, ◌==◌, length, if◌then◌else◌,
}

pub data AuthzMode : Type 0 where
  enforced : AuthzMode
  bypassed : AuthzMode

-- The UTF-8 bytes of the characters of Unicode's property White_Space.
abbrev whitespace : List Text
whitespace =
    (9 ∷ [])
    ∷ (10 ∷ [])
    ∷ (11 ∷ [])
    ∷ (12 ∷ [])
    ∷ (13 ∷ [])
    ∷ (32 ∷ [])
    ∷ (0xc2 ∷ 0x85 ∷ [])
    ∷ (0xc2 ∷ 0xa0 ∷ [])
    ∷ (0xe1 ∷ 0x9a ∷ 0x80 ∷ [])
    ∷ (0xe2 ∷ 0x80 ∷ 0x80 ∷ [])
    ∷ (0xe2 ∷ 0x80 ∷ 0x81 ∷ [])
    ∷ (0xe2 ∷ 0x80 ∷ 0x82 ∷ [])
    ∷ (0xe2 ∷ 0x80 ∷ 0x83 ∷ [])
    ∷ (0xe2 ∷ 0x80 ∷ 0x84 ∷ [])
    ∷ (0xe2 ∷ 0x80 ∷ 0x85 ∷ [])
    ∷ (0xe2 ∷ 0x80 ∷ 0x86 ∷ [])
    ∷ (0xe2 ∷ 0x80 ∷ 0x87 ∷ [])
    ∷ (0xe2 ∷ 0x80 ∷ 0x88 ∷ [])
    ∷ (0xe2 ∷ 0x80 ∷ 0x89 ∷ [])
    ∷ (0xe2 ∷ 0x80 ∷ 0x8a ∷ [])
    ∷ (0xe2 ∷ 0x80 ∷ 0xa8 ∷ [])
    ∷ (0xe2 ∷ 0x80 ∷ 0xa9 ∷ [])
    ∷ (0xe2 ∷ 0x80 ∷ 0xaf ∷ [])
    ∷ (0xe2 ∷ 0x81 ∷ 0x9f ∷ [])
    ∷ (0xe3 ∷ 0x80 ∷ 0x80 ∷ [])
    ∷ []

unfoldable pub strip_prefix : Text → Text → Option Text
strip_prefix [] s = some s
strip_prefix (c ∷ p) [] = none
strip_prefix (c ∷ p) (d ∷ s) = if c == d then strip_prefix p s else none

unfoldable pub strip_any : List Text → Text → Option Text
unfolding strip_prefix
strip_any [] s = none
strip_any (p ∷ ps) s = elim (strip_prefix p s) [ some rest ↦ some rest | none ↦ strip_any ps s ]

-- Every round takes a character off, so as many rounds as there are bytes are enough.
unfoldable pub strip_all : ℕ → List Text → Text → Text
unfolding strip_any
strip_all zero ps s = s
strip_all (suc rounds) ps s = elim (strip_any ps s) [
  | none ↦ s
  | some rest ↦ strip_all rounds ps rest
]

-- `str::trim`
unfoldable pub trim : Text → Text
unfolding strip_all
trim s =
    let front = strip_all (length s) whitespace s in
    reverse (strip_all (length front) (map reverse whitespace) (reverse front))

-- `to_ascii_lowercase`
unfoldable pub lower : Text → Text
lower [] = []
lower (c ∷ s) = (if leb b'A' c && leb c b'Z' then c + 32 else c) ∷ lower s

abbrev pub off_words : List Text
off_words = text "off" ∷ text "0" ∷ text "false" ∷ text "no" ∷ text "bypass" ∷ []

unfoldable pub from_env_value : Text → AuthzMode
unfolding trim lower
from_env_value value = if any (text_eq (lower (trim value))) off_words then bypassed else enforced
