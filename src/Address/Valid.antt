-- ===== src/Address/Valid.antt =====
-- `getAddress` of src.ts/address/index.ts: which texts it takes, and what it makes of them.
use corebc_js.Utils.Data.{is_hex_digit, is_pairs, starts_0x}
use corebc_js.Utils.Maths.{is_digit}
use corebc_js.Utils.Data.Hex.{pairs_parts}
use corebc_js.Utils.Data.Texts.{digit_pairs}
use corebc_js.Address.Digits.{Closes, iso_value, text_eq_sound, text_eq_refl}
use corebc_js.Address.Checksum.{calculate_check_sum-Closes, pairs-digits, not_x}
use corebc_js.Address.{
  text_eq, precompiled_address, is_precompiled, remove_hex_prefix, is_address_text, check_raw,
  get_address, calculate_check_sum,
}
use corebc_js.Common.{
  ℕ, zero, suc, arith, ◌≡◌, refl, ◌∙◌, ap, inl, inr, true, false, [], ◌∷◌, ◌++◌, Text, Bool-cases,
  &&-left, &&-right, length, all, ok, sym, Bool, ◌&&◌, ◌||◌, ==_iff, drop, ok-injective,
}

text_eq-length : (s t : Text) → text_eq s t ≡ true → length s ≡ length t
text_eq-length s t h = ap length (text_eq_sound s t h)

precompiled_address-length : (d : ℕ) → length (precompiled_address d) ≡ 64
unfolding precompiled_address
precompiled_address-length d = refl

not_precompiled : (n : ℕ) (raw : Text) → length raw ≡ 44 → is_precompiled n raw ≡ false
unfolding is_precompiled
not_precompiled zero raw h = refl
not_precompiled (suc n) raw h = elim (Bool-cases (text_eq (precompiled_address n) raw)) [
  | inl e ↦
      let k = text_eq-length (precompiled_address n) raw e in
      absurd (omega (arith, k, h, precompiled_address-length n))
  | inr e ↦ rw e (not_precompiled n raw h)
]

digit_starts : (s : Text) → all is_hex_digit s ≡ true → starts_0x s ≡ false
unfolding starts_0x
digit_starts [] h = refl
digit_starts (z ∷ []) h = refl
digit_starts (z ∷ x ∷ s) h =
    let t = &&-right (is_hex_digit z) (all is_hex_digit (x ∷ s)) h in
    let e = not_x x (&&-left (is_hex_digit x) (all is_hex_digit s) t) in ground (arith, e)

second_case :
    (p q r t u : Bool)
    → ((p && q) || (r && t && u)) ≡ true
    → p ≡ false
    → (r ≡ true) × (t ≡ true) × (u ≡ true)
second_case true q r t u h e = cc
second_case false q r t u h e =
    (&&-left r t (&&-left (r && t) u h), &&-right r t (&&-left (r && t) u h), &&-right (r && t) u h)

-- The 44 digits behind the prefix, if there is one.
raw_text :
    (s : Text)
    → is_address_text s ≡ true
    → (all is_hex_digit (remove_hex_prefix s) ≡ true) × (length (remove_hex_prefix s) ≡ 44)
unfolding is_address_text remove_hex_prefix
raw_text s h = elim (Bool-cases (all is_hex_digit s)) [
  | inl e ↦ let z = digit_starts s e in rw z (e, ground arith)
  | inr e ↦
      let (r, t, u) = second_case _ _ (starts_0x s) _ _ h e in
      rw r (t, (==_iff (length (drop 2 s)) 44).0 u)
]

-- What `getAddress` does with 44 digits.
get_address-check_raw :
    (s : Text) → is_address_text s ≡ true → get_address s ≡ check_raw (remove_hex_prefix s)
unfolding get_address
get_address-check_raw s h =
    let (d, n) = raw_text s h in rw h (rw (not_precompiled 10 (remove_hex_prefix s) n) refl)

prefixed :
    (raw : Text)
    → all is_hex_digit raw ≡ true
    → length raw ≡ 44
    → is_address_text (b'0' ∷ b'x' ∷ raw) ≡ true
unfolding is_address_text
prefixed raw h n = rw h (rw n refl)

prefixed_raw : (raw : Text) → remove_hex_prefix (b'0' ∷ b'x' ∷ raw) ≡ raw
unfolding remove_hex_prefix
prefixed_raw raw = refl

get_address-prefixed :
    (raw : Text)
    → all is_hex_digit raw ≡ true
    → length raw ≡ 44
    → get_address (b'0' ∷ b'x' ∷ raw) ≡ check_raw raw
get_address-prefixed raw h n =
    get_address-check_raw (b'0' ∷ b'x' ∷ raw) (prefixed raw h n) ∙ ap check_raw (prefixed_raw raw)

digit_hex : (c : ℕ) → is_digit c ≡ true → is_hex_digit c ≡ true
digit_hex c h = ground arith

raw_digits :
    (c d : ℕ) (a : Text)
    → is_hex_digit c ≡ true
    → is_hex_digit d ≡ true
    → is_pairs a ≡ true
    → {n : ℕ} {sum : Text} (cl : Closes n sum)
    → all is_hex_digit (c ∷ d ∷ cl.tens ∷ cl.ones ∷ a) ≡ true
raw_digits c d a hc hd ha cl = rw hc (
    rw hd (
      rw (digit_hex cl.tens cl.tens_digit)
        (rw (digit_hex cl.ones cl.ones_digit) (pairs-digits a ha))))

check_raw_built :
    (c d t o : ℕ) (a : Text)
    → calculate_check_sum a (c ∷ d ∷ []) ≡ ok (t ∷ o ∷ [])
    → check_raw (c ∷ d ∷ t ∷ o ∷ a) ≡ ok (b'0' ∷ b'x' ∷ c ∷ d ∷ t ∷ o ∷ a)
unfolding check_raw
check_raw_built c d t o a e = rw e (rw (text_eq_refl (t ∷ o ∷ [])) refl)

-- The address built of a prefix of one byte, the digits of `calculateCheckSum` and 20 bytes is taken by
-- `getAddress` and given back as it is.
pub get_address-calculate_check_sum :
    (c d : ℕ) (a : Text)
    → is_pairs (c ∷ d ∷ []) ≡ true
    → is_pairs a ≡ true
    → length a ≡ 40
    → (sum : Text) × (calculate_check_sum a (c ∷ d ∷ []) ≡ ok sum)
      × Closes (iso_value 0 (a ++ c ∷ d ∷ [])) sum
      × (get_address (b'0' ∷ b'x' ∷ c ∷ d ∷ (sum ++ a)) ≡ ok (b'0' ∷ b'x' ∷ c ∷ d ∷ (sum ++ a)))
get_address-calculate_check_sum c d a hp ha n =
    let (hc, hd, _) = pairs_parts c d [] hp in
    let (sum, e, cl) = calculate_check_sum-Closes a (c ∷ d ∷ []) ha hp in
    let raw : Text = c ∷ d ∷ cl.tens ∷ cl.ones ∷ a in
    (
      sum,
      e,
      cl,
      ap (λ x. get_address (b'0' ∷ b'x' ∷ c ∷ d ∷ (x ++ a))) cl.spelled
          ∙ get_address-prefixed raw (raw_digits c d a hc hd ha cl) (omega arith)
          ∙ check_raw_built c d cl.tens cl.ones a (e ∙ ap ok cl.spelled)
          ∙ ap (λ x. ok (b'0' ∷ b'x' ∷ c ∷ d ∷ (x ++ a))) (sym cl.spelled),
    )

taken_text : (s : Text) {r : Text} → get_address s ≡ ok r → is_address_text s ≡ true
unfolding get_address
taken_text s h = elim (Bool-cases (is_address_text s)) [ inl e ↦ e | inr e ↦ cc (h, e) ]

-- What passed the test of the checksum.
check_raw_parts :
    (c d t o : ℕ) (a sum : Text) {r : Text}
    → calculate_check_sum a (c ∷ d ∷ []) ≡ ok sum
    → check_raw (c ∷ d ∷ t ∷ o ∷ a) ≡ ok r
    → r ≡ b'0' ∷ b'x' ∷ c ∷ d ∷ (sum ++ a)
unfolding check_raw
check_raw_parts c d t o a sum e h = elim (Bool-cases (text_eq sum (t ∷ o ∷ []))) [
  | inl f ↦ sym (ok-injective (rw f at (rw e at h)))
  | inr f ↦ cc (rw e at h, f)
]

-- An address in the form of `getAddress`: its check digits close it, and it is given back as it is.
pub record IsChecked (r : Text) : Type 0 where
  pub c : ℕ
  pub d : ℕ
  pub body : Text
  pub sum : Text
  pub spelled : r ≡ b'0' ∷ b'x' ∷ c ∷ d ∷ (sum ++ body)
  pub size : length body ≡ 40
  pub closed : Closes (iso_value 0 (body ++ c ∷ d ∷ [])) sum
  pub kept : get_address r ≡ ok r

one_pair : (c d : ℕ) → is_hex_digit c ≡ true → is_hex_digit d ≡ true → is_pairs (c ∷ d ∷ []) ≡ true
unfolding is_pairs
one_pair c d hc hd = rw hc (rw hd refl)

check_raw-IsChecked :
    (raw : Text) {r : Text}
    → all is_hex_digit raw ≡ true
    → length raw ≡ 44
    → check_raw raw ≡ ok r
    → IsChecked r
check_raw-IsChecked [] h n e = absurd (omega arith)
check_raw-IsChecked (c ∷ []) h n e = absurd (omega arith)
check_raw-IsChecked (c ∷ d ∷ []) h n e = absurd (omega arith)
check_raw-IsChecked (c ∷ d ∷ t ∷ []) h n e = absurd (omega arith)
check_raw-IsChecked (c ∷ d ∷ t ∷ o ∷ a) h n e =
    let size : length a ≡ 40 = omega arith in
    let rest = &&-right (is_hex_digit c) _ h in
    let after = &&-right (is_hex_digit t) _ (&&-right (is_hex_digit d) _ rest) in
    let ha = (digit_pairs a (&&-right (is_hex_digit o) _ after) (omega arith)).0 in
    let hp = one_pair c d (&&-left (is_hex_digit c) _ h) (&&-left (is_hex_digit d) _ rest) in
    let (sum, es, cl, kept) = get_address-calculate_check_sum c d a hp ha size in
    let p = check_raw_parts c d t o a sum es e in
    record {
      c = c;
      d = d;
      body = a;
      sum = sum;
      spelled = p;
      size = size;
      closed = cl;
      kept = rw p kept;
    }

-- Whatever text `getAddress` takes, the address that it gives has the checksum, and is given back
-- by `getAddress` as it is.
pub get_address-IsChecked : (s : Text) {r : Text} → get_address s ≡ ok r → IsChecked r
get_address-IsChecked s h =
    let t = taken_text s h in
    let (d, n) = raw_text s t in
    check_raw-IsChecked (remove_hex_prefix s) d n (sym (get_address-check_raw s t) ∙ h)
