-- ===== src/Cryptobox/Codec/Fields.antt =====
-- One field of an encoded envelope, read and written.
use mathlib.Core.List.{append-nil, append_assoc}
use mathlib.Core.Path.{subst₂}
use opswarden.Prelude.{
  ℕ, ◌+◌, ◌-◌, ◌%◌, ◌≤◌, ◌<◌, ◌≡◌, refl, sym, ap, ◌∙◌, Bool-cases, inl, inr, false, arith, [], ◌++◌,
  some, length, length-append, take, drop, take-length, drop-length, take-drop, drop-add,
  length-drop, length-take, All, All-drop, ltb,
}
use opswarden.Cryptobox.Bytes.{
  Bytes, IsByte, u32_bytes, u32_value, u32_value-u32_bytes, take-u32_bytes, drop-u32_bytes,
  length-u32_bytes, u32_bytes-take,
}
use opswarden.Cryptobox.Codec.{read_field, append_field}

-- A field with its length, as it stands in the encoding.
pub field_bytes : Bytes → Bytes
field_bytes f = u32_bytes (length f % 4294967296) ++ f

pub length-field_bytes : (f : Bytes) → length (field_bytes f) ≡ 4 + length f
unfolding field_bytes
length-field_bytes f = omega (
  arith,
  length-append (u32_bytes (length f % 4294967296)) f,
  length-u32_bytes (length f % 4294967296),
)

pub append_field_lem : (dst f : Bytes) → append_field dst f ≡ dst ++ field_bytes f
unfolding append_field field_bytes
append_field_lem dst f = append_assoc dst (u32_bytes (length f % 4294967296)) f

module _ (encoded f rest : Bytes) (offset : ℕ) (here : drop offset encoded ≡ field_bytes f ++ rest)
    (small : length f < 4294967296) where
  room : length encoded ≡ offset + 4 + length f + length rest
  room = omega (
    arith,
    length-drop offset encoded,
    ap length here,
    length-append (field_bytes f) rest,
    length-field_bytes f,
  )

  -- The field's two parts.
  parts : drop offset encoded ≡ u32_bytes (length f) ++ (f ++ rest)
  unfolding field_bytes
  parts =
      let fits : length f % 4294967296 ≡ length f = omega arith in
      here
      ∙ append_assoc (u32_bytes (length f % 4294967296)) f rest
      ∙ ap (λ n. u32_bytes n ++ (f ++ rest)) fits

  size_read : u32_value (take 4 (drop offset encoded)) ≡ length f
  size_read =
      rw (parts, take-u32_bytes (length f) (f ++ rest), ← append-nil (u32_bytes (length f)))
        (u32_value-u32_bytes (length f) [] (omega arith))

  behind : drop (offset + 4) encoded ≡ f ++ rest
  behind = drop-add offset 4 encoded ∙ rw parts (drop-u32_bytes (length f) (f ++ rest))

  pub drop-behind : drop (offset + 4 + length f) encoded ≡ rest
  drop-behind = drop-add (offset + 4) (length f) encoded ∙ rw behind (drop-length f rest)

  pub read_field-written : read_field encoded offset ≡ some (f, offset + 4 + length f)
  unfolding read_field
  read_field-written =
      let enough : ltb (length encoded) (offset + 4) ≡ false = ground (arith, room) in
      let whole : ltb (length encoded - (offset + 4)) (length f) ≡ false = ground (arith, room) in
      rw (enough, size_read, whole, behind, take-length f rest)

-- What was read is written at that place, up to the offset behind it.
pub record Written (encoded : Bytes) (offset : ℕ) (f : Bytes) (next : ℕ) : Type 0 where
  pub behind_it : next ≡ offset + 4 + length f
  pub small : length f < 4294967296
  pub bytes : drop offset encoded ≡ field_bytes f ++ drop next encoded

module _ (encoded : Bytes) (offset : ℕ) (are_bytes : All IsByte encoded) where
  read_at :
      (size : ℕ)
      → offset + 4 ≤ length encoded
      → u32_value (take 4 (drop offset encoded)) ≡ size
      → size ≤ length encoded - (offset + 4)
      → Written encoded offset (take size (drop (offset + 4) encoded)) (offset + 4 + size)
  unfolding field_bytes
  read_at size h e fits =
      let d = drop offset encoded in
      let start = drop (offset + 4) encoded in
      let long : length (take size start) ≡ size =
        length-take size start (omega (arith, length-drop (offset + 4) encoded)) in
      let (exact, small) =
        u32_bytes-take d (omega (arith, length-drop offset encoded))
          (All-drop IsByte offset encoded are_bytes) in
      let size_small : size < 4294967296 = omega (arith, e, small) in
      let head : u32_bytes (length (take size start) % 4294967296) ≡ take 4 d =
        ap u32_bytes (omega (arith, long, e)) ∙ exact in
      let rest = drop (offset + 4 + size) encoded in
      let step1 : (u32_bytes (length (take size start) % 4294967296) ++ take size start) ++ rest
          ≡ take 4 d ++ (take size start ++ rest) =
        append_assoc (u32_bytes (length (take size start) % 4294967296)) (take size start) rest
        ∙ ap (λ h. h ++ (take size start ++ rest)) head in
      let step2 : take 4 d ++ (take size start ++ rest) ≡ take 4 d ++ start =
        ap (λ r. take 4 d ++ (take size start ++ r)) (drop-add (offset + 4) size encoded)
        ∙ ap (λ r. take 4 d ++ r) (take-drop size start) in
      let step3 : take 4 d ++ start ≡ d =
        ap (λ r. take 4 d ++ r) (drop-add offset 4 encoded) ∙ take-drop 4 d in
      record {
        behind_it = omega (arith, long);
        small = omega (arith, long);
        bytes = sym (step1 ∙ (step2 ∙ step3));
      }

  pub read_field-Written :
      {f : Bytes} {next : ℕ}
      → read_field encoded offset ≡ some (f, next)
      → Written encoded offset f next
  unfolding read_field
  read_field-Written {f} {next} h = elim (Bool-cases (ltb (length encoded) (offset + 4))) [
    | inl short ↦ absurd (ground arith)
    | inr enough ↦
        let size = u32_value (take 4 (drop offset encoded)) in
        elim (Bool-cases (ltb (length encoded - (offset + 4)) size)) [
          | inl over ↦ absurd (ground arith)
          | inr fits ↦
              let w = read_at size (ground arith) refl (ground arith) in
              let read : take size (drop (offset + 4) encoded) ≡ f = ground arith in
              let end : offset + 4 + size ≡ next = ground arith in
              subst₂ (Written encoded offset) read end w
        ]
  ]
