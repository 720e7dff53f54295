-- ===== src/Cryptobox/Bytes.antt =====
-- Byte slices, and the big-endian encodings of `encoding/binary`.
use opswarden.Prelude.{
  ℕ, ◌+◌, ◌*◌, ◌/◌, ◌%◌, ◌^◌, ◌≤◌, ◌<◌, ◌≡◌, refl, sym, ap, ◌∙◌, arith, List, [], ◌∷◌, ◌++◌, length,
  take, drop, All,
}

abbrev pub Bytes : Type 0
Bytes = List ℕ

abbrev pub IsByte : ℕ → Type 0
IsByte b = b < 256

-- encoded[offset], which the caller keeps within bounds.
abbrev pub byte_at : Bytes → ℕ → ℕ
byte_at bytes offset = elim (drop offset bytes) [ [] ↦ 0 | b ∷ rest ↦ b ]

-- binary.BigEndian.AppendUint32 and AppendUint64, without the slice that they append to.
unfoldable pub u32_bytes : ℕ → Bytes
u32_bytes n = (n / 2 ^ 24) % 256 ∷ (n / 2 ^ 16) % 256 ∷ (n / 2 ^ 8) % 256 ∷ n % 256 ∷ []

pub u64_bytes : ℕ → Bytes
unfolding u32_bytes
u64_bytes n = u32_bytes (n / 2 ^ 32) ++ u32_bytes (n % 2 ^ 32)

-- binary.BigEndian.Uint32, which reads the first four bytes of a slice that has them.
unfoldable pub u32_value : Bytes → ℕ
u32_value (a ∷ b ∷ c ∷ d ∷ rest) = a * 2 ^ 24 + b * 2 ^ 16 + c * 2 ^ 8 + d
u32_value bytes = 0

pub u32_value-u32_bytes : (n : ℕ) (rest : Bytes) → n < 2 ^ 32 → u32_value (u32_bytes n ++ rest) ≡ n
unfolding u32_value u32_bytes
u32_value-u32_bytes n rest h = omega arith

pub u32_bytes-u32_value :
    (a b c d : ℕ) (rest : Bytes)
    → IsByte a
    → IsByte b
    → IsByte c
    → IsByte d
    → u32_bytes (u32_value (a ∷ b ∷ c ∷ d ∷ rest)) ≡ a ∷ b ∷ c ∷ d ∷ []
unfolding u32_value u32_bytes
u32_bytes-u32_value a b c d rest ha hb hc hd = ground arith

module _ (n : ℕ) (rest : Bytes) where
  pub take-u32_bytes : take 4 (u32_bytes n ++ rest) ≡ u32_bytes n
  unfolding u32_bytes
  take-u32_bytes = refl

  pub drop-u32_bytes : drop 4 (u32_bytes n ++ rest) ≡ rest
  unfolding u32_bytes
  drop-u32_bytes = refl

pub length-u32_bytes : (n : ℕ) → length (u32_bytes n) ≡ 4
unfolding u32_bytes
length-u32_bytes n = refl

-- The first four bytes are the encoding of the value that is read from them.
pub u32_bytes-take :
    (d : Bytes)
    → 4 ≤ length d
    → All IsByte d
    → (u32_bytes (u32_value (take 4 d)) ≡ take 4 d) × (u32_value (take 4 d) < 2 ^ 32)
unfolding u32_value
u32_bytes-take [] h b = absurd (omega arith)
u32_bytes-take (w ∷ []) h b = absurd (omega arith)
u32_bytes-take (w ∷ x ∷ []) h b = absurd (omega arith)
u32_bytes-take (w ∷ x ∷ y ∷ []) h b = absurd (omega arith)
u32_bytes-take (w ∷ x ∷ y ∷ z ∷ d) h (bw, (bx, (by, (bz, bd)))) =
    (u32_bytes-u32_value w x y z [] bw bx by bz, omega arith)

pub u64_value : Bytes → ℕ
unfolding u32_value
u64_value bytes = u32_value bytes * 2 ^ 32 + u32_value (drop 4 bytes)

u64_value-u64_bytes : (n : ℕ) (rest : Bytes) → n < 2 ^ 64 → u64_value (u64_bytes n ++ rest) ≡ n
unfolding u64_value u64_bytes
u64_value-u64_bytes n rest h = omega arith

drop-u64_bytes : (n : ℕ) (rest : Bytes) → drop 8 (u64_bytes n ++ rest) ≡ rest
unfolding u64_bytes
drop-u64_bytes n rest = refl

-- An encoded length can be told from what follows it.
pub u64_bytes-injective :
    (n m : ℕ) (xs ys : Bytes)
    → n < 2 ^ 64
    → m < 2 ^ 64
    → u64_bytes n ++ xs ≡ u64_bytes m ++ ys
    → (n ≡ m) × (xs ≡ ys)
u64_bytes-injective n m xs ys hn hm h = (
  sym (u64_value-u64_bytes n xs hn) ∙ (ap u64_value h ∙ u64_value-u64_bytes m ys hm),
  sym (drop-u64_bytes n xs) ∙ (ap (drop 8) h ∙ drop-u64_bytes m ys),
)

pub append-injective :
    {A : Type 0} (a b xs ys : List A)
    → length a ≡ length b
    → a ++ xs ≡ b ++ ys
    → (a ≡ b) × (xs ≡ ys)
append-injective [] [] xs ys e h = (refl, h)
append-injective [] (y ∷ b) xs ys e h = absurd (omega arith)
append-injective (x ∷ a) [] xs ys e h = absurd (omega arith)
append-injective (x ∷ a) (y ∷ b) xs ys e h =
    let (t, r) = append-injective a b xs ys (omega arith) (cc) in let head : x ≡ y = cc in (cc, r)
