-- ===== src/GoLib/Base64.antt =====
-- `encoding/base64` with the URL alphabet and padding: the encoding.
pub mod Decode
use ct_mapreduce.Prelude.{
  ℕ, ◌+◌, ◌-◌, ◌*◌, ◌/◌, ◌%◌, false, ltb, ◌==◌, Bytes, [], ◌∷◌, ◌≡◌, refl, arith, if◌then◌else◌,
}
use ct_mapreduce.GoLib.Text.{Lacks}

-- "A…Za…z0…9-_"
unfoldable pub alphabet : ℕ → ℕ
alphabet n =
    if ltb n 26
    then 65 + n
    else if ltb n 52
    then 71 + n
    else if ltb n 62
    then n - 4
    else if n == 62
    then 45
    else 95

-- base64.URLEncoding.EncodeToString
unfoldable pub base64_encode : Bytes → Bytes
base64_encode [] = []
base64_encode (a ∷ []) = alphabet (a / 4) ∷ alphabet (a % 4 * 16) ∷ 61 ∷ 61 ∷ []
base64_encode (a ∷ b ∷ []) =
    alphabet (a / 4) ∷ alphabet (a % 4 * 16 + b / 16) ∷ alphabet (b % 16 * 4) ∷ 61 ∷ []
base64_encode (a ∷ b ∷ c ∷ s) =
    alphabet (a / 4)
    ∷ alphabet (a % 4 * 16 + b / 16)
    ∷ alphabet (b % 16 * 4 + c / 64)
    ∷ alphabet (c % 64)
    ∷ base64_encode s

-- A byte that is neither in the alphabet nor the padding.
module _ (b : ℕ) (other : (n : ℕ) → (alphabet n == b) ≡ false) (unpadded : (61 == b) ≡ false) where
  base64_encode-Lacks_other : (s : Bytes) → Lacks b (base64_encode s)
  unfolding base64_encode
  base64_encode-Lacks_other [] = tt
  base64_encode-Lacks_other (x ∷ []) = (other _, (other _, (unpadded, (unpadded, tt))))
  base64_encode-Lacks_other (x ∷ y ∷ []) = (other _, (other _, (other _, (unpadded, tt))))
  base64_encode-Lacks_other (x ∷ y ∷ z ∷ s) =
      (other _, (other _, (other _, (other _, base64_encode-Lacks_other s))))

alphabet-ne_colon : (n : ℕ) → (alphabet n == 58) ≡ false
unfolding alphabet
alphabet-ne_colon n = ground arith

-- No colon occurs in an encoded text.
pub base64_encode-Lacks : (s : Bytes) → Lacks 58 (base64_encode s)
base64_encode-Lacks s = base64_encode-Lacks_other 58 alphabet-ne_colon refl s

alphabet-ne_dot : (n : ℕ) → (alphabet n == 46) ≡ false
unfolding alphabet
alphabet-ne_dot n = ground arith

-- No dot occurs in an encoded text.
pub base64_encode-Lacks_dot : (s : Bytes) → Lacks 46 (base64_encode s)
base64_encode-Lacks_dot s = base64_encode-Lacks_other 46 alphabet-ne_dot refl s
