-- ===== src/Maintenance/Texts.antt =====
-- The order of times as texts.
use opswarden.Prelude.{
  ℕ, ◌/◌, ◌%◌, ◌<◌, ◌≡◌, refl, sym, ap, ◌∙◌, subst, inl, inr, Bool, Bool-cases, true, false, ◌&&◌,
  ◌||◌, ◌==◌, arith, [], ◌∷◌, ◌++◌, length, ltb, ltb→lt, ltb→ge, Time, second, if◌then◌else◌,
}
use opswarden.Cryptobox.Bytes.{Bytes}
use opswarden.Maintenance.{text_leb, fraction_text, format_time}

-- The text of the seconds, "2006-01-02T15:04:05": all have one length, and they are in the order of
-- the times.
pub record DateLawful (date : ℕ → Bytes) : Type 0 where
  pub size : ℕ
  pub length-date : (seconds : ℕ) → length (date seconds) ≡ size
  pub in_order :
      (a b : ℕ) → a < b → (text_leb (date a) (date b) ≡ true) × (text_leb (date b) (date a) ≡ false)

-- Texts that differ are told apart in front of what follows them.
text_leb-append :
    (as' bs xs ys : Bytes)
    → length as' ≡ length bs
    → text_leb (as' ++ xs) (bs ++ ys)
      ≡ (if text_leb bs as' then text_leb as' bs && text_leb xs ys else text_leb as' bs)
text_leb-append [] [] xs ys h = refl
text_leb-append [] (b ∷ bs) xs ys h = absurd (omega arith)
text_leb-append (a ∷ as') [] xs ys h = absurd (omega arith)
text_leb-append (a ∷ as') (b ∷ bs) xs ys h =
    let rest = text_leb-append as' bs xs ys (omega arith) in ground (arith, rest)

text_leb_refl : (as' : Bytes) → text_leb as' as' ≡ true
text_leb_refl [] = refl
text_leb_refl (a ∷ as') = ground (arith, text_leb_refl as')

-- The order of two fractions of a second as it is written: a whole second comes after its fractions.
unfoldable pub fraction_leb : ℕ → ℕ → Bool
unfolding fraction_text
fraction_leb a b =
    if b == 0 then true else if a == 0 then false else text_leb (fraction_text a) (fraction_text b)

fraction_leb_lem : (a b : ℕ) → text_leb (fraction_text a) (fraction_text b) ≡ fraction_leb a b
unfolding fraction_text fraction_leb
fraction_leb_lem a b = elim (Bool-cases (b == 0)) [
  | inl e ↦ elim (Bool-cases (a == 0)) [ inl f ↦ rw (e, f) refl | inr f ↦ rw (e, f) refl ]
  | inr e ↦ elim (Bool-cases (a == 0)) [ inl f ↦ rw (e, f) refl | inr f ↦ rw (e, f) refl ]
]

-- Whether a time has passed, as the clean-up tells.
unfoldable pub has_passed : Time → Time → Bool
unfolding fraction_leb
has_passed t now =
    ltb (t / second) (now / second)
    || (t / second == now / second && fraction_leb (t % second) (now % second))

module _ (date : ℕ → Bytes) (lawful : DateLawful date) where
  one_second : (a : ℕ) (xs ys : Bytes) → text_leb (date a ++ xs) (date a ++ ys) ≡ text_leb xs ys
  one_second a xs ys =
      rw (text_leb-append (date a) (date a) xs ys refl, text_leb_refl (date a)) refl

  -- The seconds decide, and what follows them if they are the same.
  seconds_first :
      (a b : ℕ) (xs ys : Bytes)
      → text_leb (date a ++ xs) (date b ++ ys) ≡ (ltb a b || (a == b && text_leb xs ys))
  seconds_first a b xs ys =
      let whole =
        text_leb-append (date a) (date b) xs ys
          (lawful.length-date a ∙ sym (lawful.length-date b)) in
      elim (Bool-cases (ltb a b)) [
        | inl earlier ↦
            let order = lawful.in_order a b (ltb→lt a b earlier) in
            ground (arith, whole, order.0, order.1)
        | inr not_earlier ↦ elim (Bool-cases (ltb b a)) [
          | inl later ↦
              let order = lawful.in_order b a (ltb→lt b a later) in
              ground (arith, whole, order.0, order.1)
          | inr not_later ↦
              let same : a ≡ b = omega (arith, ltb→ge a b not_earlier, ltb→ge b a not_later) in
              let here =
                subst (λ c. text_leb (date a ++ xs) (date c ++ ys) ≡ text_leb xs ys) same
                  (one_second a xs ys) in
              ground (arith, here)
        ]
      ]

  pub has_passed_lem :
      (t now : Time) → text_leb (format_time date t) (format_time date now) ≡ has_passed t now
  unfolding format_time has_passed
  has_passed_lem t now =
      seconds_first (t / second) (now / second) (fraction_text (t % second))
        (fraction_text (now % second))
      ∙ ap (λ x. ltb (t / second) (now / second) || (t / second == now / second && x))
          (fraction_leb_lem (t % second) (now % second))
