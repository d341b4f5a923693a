-- ===== src/Crypto/Signature/Compact.antt =====
-- The compact form of src.ts/crypto/signature.ts: `yParityAndS`.
use corebc_js.Crypto.Signature.{Signature, V, v27, v28, y_parity, y_parity_and_s, set_top_bit}
use corebc_js.Utils.Data.{hexlify_bytes, text, get_bytes}
use corebc_js.Common.Bits.{all_below, eq_below}
use corebc_js.Utils.Data.Hex.{IsBytes, get_bytes-hexlify_bytes}
use corebc_js.Common.{
  ℕ, ◌+◌, ◌*◌, ◌<◌, bit_or, ◌≡◌, refl, List, ◌∷◌, ok, arith, ◌∙◌, ap, Text, ◌==◌, if◌then◌else◌,
  Result, ◌>>=◌,
}

top_bit : (b : ℕ) → b < 128 → bit_or b 0x80 ≡ b + 128
unfolding all_below
top_bit b h = eq_below 128 (λ y. bit_or y 0x80) (λ y. y + 128) b refl h

marked : V → List ℕ → Result Text
marked v w = ok (hexlify_bytes (if y_parity v == 0 then w else set_top_bit w))

marked_bytes :
    (b : ℕ) (w : List ℕ)
    → b < 128
    → (v : V)
    → (if y_parity v == 0 then b ∷ w else set_top_bit (b ∷ w)) ≡ (b + 128 * y_parity v) ∷ w
marked_bytes b w h v27 = ap (λ t. t ∷ w) (omega arith)
marked_bytes b w h v28 = ap (λ t. t ∷ w) (top_bit b h)

-- Where `s` is the text of bytes whose first is below 128, `yParityAndS` is the text of the same
-- bytes with 128 times the parity added to the first.
pub y_parity_and_s_lem :
    (sig : Signature) (b : ℕ) (w : List ℕ)
    → b < 128
    → IsBytes w
    → sig.s ≡ hexlify_bytes (b ∷ w)
    → y_parity_and_s sig ≡ ok (hexlify_bytes ((b + 128 * y_parity sig.v) ∷ w))
unfolding y_parity_and_s marked
y_parity_and_s_lem sig b w h hw e =
    ap (λ t. get_bytes (text t) >>= marked sig.v) e
    ∙ ap (λ m. m >>= marked sig.v) (get_bytes-hexlify_bytes (b ∷ w) (omega arith, hw))
    ∙ ap (λ u. ok (hexlify_bytes u)) (marked_bytes b w h sig.v)
