-- ===== src/Cryptobox/Codec/RoundTrip.antt =====
-- The encoding of envelopes is exact both ways.
use mathlib.Core.List.{append-nil, append_assoc}
use opswarden.Prelude.{
  ℕ, ◌+◌, ◌≤◌, ◌≡◌, refl, sym, ap, ◌∙◌, Bool-cases, inl, inr, false, arith, [], ◌∷◌, ◌++◌, Option,
  none, some, length, length-append, drop, drop-all, subst, All,
}
use opswarden.Cryptobox.Bytes.{Bytes, IsByte}
use opswarden.Cryptobox.Codec.{
  Envelope, Sizes, magic, version, max_size, encoded_size, marshal_envelope, bad_header, finish,
  read_field, read_envelope, unmarshal_envelope, append_field, ◌>>=◌,
}
use opswarden.Cryptobox.Codec.Fields.{
  field_bytes, length-field_bytes, append_field_lem, read_field-written, drop-behind,
  read_field-Written,
}

-- The fields of an envelope in their order.
body : Envelope → Bytes
body env =
    field_bytes env.ciphertext
    ++ (field_bytes env.nonce
        ++ (field_bytes env.wrapped_data_key ++ (field_bytes env.wrap_nonce ++ [])))

body_lem :
    (env : Envelope)
    → append_field
        (append_field
          (append_field (append_field (magic ++ version ∷ []) env.ciphertext) env.nonce)
          env.wrapped_data_key)
        env.wrap_nonce
      ≡ (magic ++ version ∷ []) ++ body env
unfolding body
body_lem env = simp (append_field_lem, append_assoc, append-nil)

abbrev encoding : Envelope → Bytes
encoding env = (magic ++ version ∷ []) ++ body env

length-body : (env : Envelope) → length (body env) + 5 ≡ encoded_size env
unfolding body
length-body env = simp (length-append, length-field_bytes) (omega arith)

-- Reading the encoding yields the fields one by one.
module _ (env : Envelope) (small : encoded_size env ≤ max_size) where
  field_read :
      (f rest : Bytes) (offset : ℕ)
      → drop offset (encoding env) ≡ field_bytes f ++ rest
      → length f ≤ max_size
      → (read_field (encoding env) offset ≡ some (f, offset + 4 + length f))
        × (drop (offset + 4 + length f) (encoding env) ≡ rest)
  field_read f rest offset here fits = (
    read_field-written (encoding env) f rest offset here (omega arith),
    drop-behind (encoding env) f rest offset here (omega arith),
  )

  read_encoding :
      (sizes : Sizes)
      → read_envelope sizes (encoding env) ≡ finish sizes (encoding env) (encoded_size env) env
  unfolding read_envelope body
  read_encoding sizes =
      let c = field_read env.ciphertext _ 5 refl (omega arith) in
      let n = field_read env.nonce _ _ c.1 (omega arith) in
      let w = field_read env.wrapped_data_key _ _ n.1 (omega arith) in
      let v = field_read env.wrap_nonce _ _ w.1 (omega arith) in
      rw (c.0, n.0, w.0, v.0) (ap (λ next. finish sizes (encoding env) next env) (omega arith))

  header_read : bad_header (encoding env) ≡ false
  header_read = ground (arith, length-body env)

-- An accepted header is the one that is written.
header_form :
    (encoded : Bytes)
    → bad_header encoded ≡ false
    → (encoded ≡ (magic ++ version ∷ []) ++ drop 5 encoded) × (length encoded ≤ max_size)
header_form [] h = cc
header_form (a ∷ []) h = ground arith
header_form (a ∷ b ∷ []) h = ground arith
header_form (a ∷ b ∷ c ∷ []) h = ground arith
header_form (a ∷ b ∷ c ∷ d ∷ []) h = ground arith
header_form (a ∷ b ∷ c ∷ d ∷ e ∷ rest) h = ground arith

>>=-eq-some {ℓ κ} :
    {A : Type ℓ} {B : Type κ} (m : Option A) (f : A → Option B) {b : B}
    → (m >>= f) ≡ some b
    → (a : A) × (m ≡ some a) × (f a ≡ some b)
>>=-eq-some none f h = cc
>>=-eq-some (some a) f h = (a, refl, h)

module _ (sizes : Sizes) where
  open sizes use {overhead, key_size, nonce_size}

  -- What the source's types and checks say of the sizes of an envelope's parts.
  pub record IsSized (env : Envelope) : Type 0 where
    pub ciphertext_long : overhead ≤ length env.ciphertext
    pub nonce_exact : length env.nonce ≡ nonce_size
    pub wrapped_exact : length env.wrapped_data_key ≡ key_size + overhead
    pub wrap_nonce_exact : length env.wrap_nonce ≡ nonce_size

  marshal_cases :
      (env : Envelope) {encoded : Bytes}
      → marshal_envelope sizes env ≡ some encoded
      → (encoded ≡ encoding env)
        × (overhead ≤ length env.ciphertext)
        × (length env.wrapped_data_key ≡ key_size + overhead)
        × (encoded_size env ≤ max_size)
  unfolding marshal_envelope body
  marshal_cases env {encoded} h =
      (ground (arith, body_lem env), ground arith, ground arith, ground arith)

  finish_sized :
      (env : Envelope) → IsSized env → finish sizes (encoding env) (encoded_size env) env ≡ some env
  unfolding finish
  finish_sized env s = ground (arith, length-body env)

  finish_cases :
      (encoded : Bytes) (next : ℕ) (read env : Envelope)
      → finish sizes encoded next read ≡ some env
      → (read ≡ env) × (next ≡ length encoded) × IsSized read
  unfolding finish
  finish_cases encoded next read env h = ground arith

  -- An envelope that was encoded, and whose nonces have their size, is read back as it was.
  pub unmarshal-marshal :
      (env : Envelope) (encoded : Bytes)
      → length env.nonce ≡ nonce_size
      → length env.wrap_nonce ≡ nonce_size
      → marshal_envelope sizes env ≡ some encoded
      → unmarshal_envelope sizes encoded ≡ some env
  unfolding unmarshal_envelope
  unmarshal-marshal env encoded hn hv h =
      let (e, oc, wx, small) = marshal_cases env h in
      rw (e, header_read env small, read_encoding env small sizes)
        (finish_sized env (record {
          ciphertext_long = oc;
          nonce_exact = hn;
          wrapped_exact = wx;
          wrap_nonce_exact = hv;
        }))

  fields_form :
      (env : Envelope) (encoded : Bytes) (c n w v : Bytes × ℕ)
      → All IsByte encoded
      → read_field encoded 5 ≡ some c
      → read_field encoded c.1 ≡ some n
      → read_field encoded n.1 ≡ some w
      → read_field encoded w.1 ≡ some v
      → finish sizes encoded v.1
          (record { ciphertext = c.0; nonce = n.0; wrapped_data_key = w.0; wrap_nonce = v.0 })
        ≡ some env
      → IsSized env × (drop 5 encoded ≡ body env)
  unfolding body
  fields_form env encoded c n w v are_bytes rc rn rw' rv h =
      let (same, end, sized) = finish_cases encoded v.1 _ env h in
      let over : drop v.1 encoded ≡ [] = drop-all v.1 encoded (omega arith) in
      let wv = (read_field-Written encoded w.1 are_bytes rv).bytes in
      let ww = (read_field-Written encoded n.1 are_bytes rw').bytes in
      let wn = (read_field-Written encoded c.1 are_bytes rn).bytes in
      let wc = (read_field-Written encoded 5 are_bytes rc).bytes in
      let whole =
        wc
        ∙ ap (λ r. field_bytes c.0 ++ r)
            (wn
              ∙ ap (λ r. field_bytes n.0 ++ r)
                  (ww
                    ∙ ap (λ r. field_bytes w.0 ++ r) (wv ∙ ap (λ r. field_bytes v.0 ++ r) over))) in
      (subst IsSized same sized, whole ∙ ap body same)

  read_form :
      (env : Envelope) (encoded : Bytes)
      → All IsByte encoded
      → read_envelope sizes encoded ≡ some env
      → IsSized env × (drop 5 encoded ≡ body env)
  unfolding read_envelope
  read_form env encoded are_bytes h =
      let (c, rc, hc) = >>=-eq-some (read_field encoded 5) _ h in
      let (n, rn, hn) = >>=-eq-some (read_field encoded c.1) _ hc in
      let (w, rw', hw) = >>=-eq-some (read_field encoded n.1) _ hn in
      let (v, rv, hv) = >>=-eq-some (read_field encoded w.1) _ hw in
      fields_form env encoded c n w v are_bytes rc rn rw' rv hv

  marshal_form :
      (env : Envelope)
      → IsSized env
      → encoded_size env ≤ max_size
      → marshal_envelope sizes env ≡ some (encoding env)
  unfolding marshal_envelope
  marshal_form env s small = ground (arith, body_lem env)

  -- Bytes that are read as an envelope are its encoding, and its parts have the sizes that the
  -- program asks for, so an envelope has one encoding.
  pub marshal-unmarshal :
      (env : Envelope) (encoded : Bytes)
      → All IsByte encoded
      → unmarshal_envelope sizes encoded ≡ some env
      → IsSized env × (marshal_envelope sizes env ≡ some encoded)
  unfolding unmarshal_envelope
  marshal-unmarshal env encoded are_bytes h = elim (Bool-cases (bad_header encoded)) [
    | inl bad ↦ absurd (ground arith)
    | inr good ↦
        let read : read_envelope sizes encoded ≡ some env = ground arith in
        let (start, short) = header_form encoded good in
        let (sized, tail) = read_form env encoded are_bytes read in
        let whole : encoded ≡ encoding env = start ∙ ap (λ t. (magic ++ version ∷ []) ++ t) tail in
        (
          sized,
          marshal_form env sized (omega (arith, length-body env, ap length whole))
              ∙ ap some (sym whole),
        )
  ]
