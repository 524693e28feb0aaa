-- ===== src/Channel/Keys.antt =====
-- packages/channel/src/keys.ts: the comparison of secrets, and keys as text.
use pherry.Base.{
  ℕ, ◌≡◌, refl, Bool, true, false, List, [], ◌∷◌, Option, none, some, ◌==◌, ◌&&◌, arith, length,
  if◌then◌else◌, Bool-cases, inl, inr,
}

-- `constantTimeEqual`: lengths first, and then every byte.
unfoldable pub constant_time_equal : List ℕ → List ℕ → Bool
constant_time_equal [] [] = true
constant_time_equal [] (y ∷ ys) = false
constant_time_equal (x ∷ xs) [] = false
constant_time_equal (x ∷ xs) (y ∷ ys) = x == y && constant_time_equal xs ys

pub constant_time_equal→eq : (xs ys : List ℕ) → constant_time_equal xs ys ≡ true → xs ≡ ys
unfolding constant_time_equal
constant_time_equal→eq [] [] h = refl
constant_time_equal→eq [] (y ∷ ys) h = cc
constant_time_equal→eq (x ∷ xs) [] h = cc
constant_time_equal→eq (x ∷ xs) (y ∷ ys) h = ground (arith, constant_time_equal→eq xs ys)

pub constant_time_equal_self : (xs : List ℕ) → constant_time_equal xs xs ≡ true
unfolding constant_time_equal
constant_time_equal_self [] = refl
constant_time_equal_self (x ∷ xs) = ground (arith, constant_time_equal_self xs)

-- `KEY_BYTES`
abbrev pub key_bytes : ℕ
key_bytes = 32

-- `Buffer` between bytes and their base64 text, which it decodes leniently.
pub record Base64 : Type 0 where
  pub to_text : List ℕ → List ℕ
  pub from_text : List ℕ → List ℕ

-- `decodeKey`: `none` where it throws.
unfoldable pub decode_key : Base64 → List ℕ → Option (List ℕ)
decode_key b text =
    let bytes = b.from_text text in
    if (length bytes == key_bytes) && constant_time_equal (b.to_text bytes) text
    then some bytes
    else none

-- A text that decodes is the canonical one, of a key of the right length.
pub decode_key_canonical :
    (b : Base64) (text bytes : List ℕ)
    → decode_key b text ≡ some bytes
    → (b.to_text bytes ≡ text) × (length bytes ≡ key_bytes)
unfolding decode_key
decode_key_canonical b text bytes e =
    elim (Bool-cases (
      (length (b.from_text text) == key_bytes)
      && constant_time_equal (b.to_text (b.from_text text)) text)) [
        | inl h ↦
            let same : b.from_text text ≡ bytes = ground arith in
            rw (← same) (
              constant_time_equal→eq (b.to_text (b.from_text text)) text (ground arith),
              ground arith,
            )
        | inr h ↦ absurd (ground arith)
      ]
