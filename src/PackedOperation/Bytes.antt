-- ===== src/PackedOperation/Bytes.antt =====
-- Numbers as bytes, the first the highest: `hexZeroPad` of a number and `BigNumber.from` of bytes.
use bundler.Common.{
  ℕ, zero, suc, ◌+◌, ◌*◌, ◌/◌, ◌%◌, ◌<◌, ◌≡◌, refl, ap, ◌∙◌, List, [], ◌∷◌, ◌++◌, length,
  length-append, arith,
}

unfoldable pub to_bytes : ℕ → ℕ → List ℕ
to_bytes zero n = []
to_bytes (suc k) n = to_bytes k (n / 256) ++ n % 256 ∷ []

-- With what is read before.
unfoldable pub of_bytes : ℕ → List ℕ → ℕ
of_bytes n [] = n
of_bytes n (b ∷ bs) = of_bytes (n * 256 + b) bs

-- 256 to a power.
abbrev pub power : ℕ → ℕ
power zero = 1
power (suc k) = 256 * power k

of_bytes-append :
    (n : ℕ) (bs : List ℕ) (b : ℕ) → of_bytes n (bs ++ b ∷ []) ≡ of_bytes n bs * 256 + b
unfolding of_bytes
of_bytes-append n [] b = refl
of_bytes-append n (c ∷ bs) b = of_bytes-append (n * 256 + c) bs b

-- A number that fits is read back from its bytes.
pub of_bytes-to_bytes : (k n : ℕ) → n < power k → of_bytes 0 (to_bytes k n) ≡ n
unfolding to_bytes of_bytes
of_bytes-to_bytes zero n h = omega (arith, h)
of_bytes-to_bytes (suc k) n h =
    of_bytes-append 0 (to_bytes k (n / 256)) (n % 256)
    ∙ ap (λ m. m * 256 + n % 256) (of_bytes-to_bytes k (n / 256) (omega (arith, h)))
    ∙ omega arith

pub length-to_bytes : (k n : ℕ) → length (to_bytes k n) ≡ k
unfolding to_bytes
length-to_bytes zero n = refl
length-to_bytes (suc k) n =
    length-append (to_bytes k (n / 256)) (n % 256 ∷ [])
    ∙ ap (λ m. m + 1) (length-to_bytes k (n / 256))
    ∙ omega arith
