-- ===== src/Server/Seed.antt =====
-- derive_seed of sim_bridge_server.py: the seed of a servicer's random numbers. A stack id is its bytes
-- in UTF-8; ids of runs are not negative.
use Prim.Native.Nat.{bit_xor, bit_xor-bitwise, digits, differ}
use matrix_factory.Prelude.{
  ℕ, zero, suc, ◌+◌, ◌*◌, ◌/◌, ◌%◌, ◌<◌, ◌≡◌, ◌≢◌, refl, sym, ◌∙◌, List, [], ◌∷◌, arith,
}

-- `int.from_bytes(bytes, "little")`
unfoldable pub from_bytes : List ℕ → ℕ
from_bytes [] = 0
from_bytes (byte ∷ bytes) = byte + 256 * from_bytes bytes

-- `bytes[:n]`
abbrev pub first_bytes : ℕ → List ℕ → List ℕ
first_bytes zero bytes = []
first_bytes (suc n) [] = []
first_bytes (suc n) (byte ∷ bytes) = byte ∷ first_bytes n bytes

unfoldable pub derive_seed : List ℕ → ℕ → ℕ
unfolding from_bytes
derive_seed stack_id run_id = bit_xor (from_bytes (first_bytes 8 stack_id)) run_id

same_digit : (x y : ℕ) → suc x < 2 → suc y < 2 → differ (suc x) (suc y) ≡ 0
same_digit x y hx hy =
    let zx : x ≡ 0 = omega arith in let zy : y ≡ 0 = omega arith in rw (zx, zy) refl

digit : (x y z : ℕ) → x < 2 → y < 2 → z < 2 → differ x y ≡ differ x z → y ≡ z
digit zero y z hx hy hz e = e
digit (suc x) zero zero hx hy hz e = refl
digit (suc x) zero (suc z) hx hy hz e = absurd (omega (arith, e ∙ same_digit x z hx hz))
digit (suc x) (suc y) zero hx hy hz e = absurd (omega (arith, sym e ∙ same_digit x y hx hy))
digit (suc x) (suc y) (suc z) hx hy hz e = omega arith

lows_apart : (q r d e : ℕ) → d < 2 → e < 2 → q * 2 + d ≡ r * 2 + e → (q ≡ r) × (d ≡ e)
lows_apart q r d e hd he h = (omega arith, omega arith)

rest : (n b c : ℕ) → b / 2 ≡ c / 2 → b % 2 ≡ c % 2 → b ≡ c
rest n b c q r = omega arith

differ-digit : (x y : ℕ) → x < 2 → y < 2 → differ x y < 2
differ-digit zero y hx hy = hy
differ-digit (suc x) zero hx hy = hx
differ-digit (suc x) (suc y) hx hy = omega (arith, same_digit x y hx hy)

low : (n : ℕ) → n % 2 < 2
low n = omega arith

digits_cancel : (n a b c : ℕ) → digits (λ y. y) differ n a b ≡ digits (λ y. y) differ n a c → b ≡ c
digits_cancel zero a b c h = h
digits_cancel (suc n) zero b c h = h
digits_cancel (suc n) (suc a) b c h =
    let (q, d) =
      lows_apart (digits (λ y. y) differ n (suc a / 2) (b / 2))
        (digits (λ y. y) differ n (suc a / 2) (c / 2)) (differ (suc a % 2) (b % 2))
        (differ (suc a % 2) (c % 2)) (differ-digit (suc a % 2) (b % 2) (low (suc a)) (low b))
        (differ-digit (suc a % 2) (c % 2) (low (suc a)) (low c)) h in
    rest n b c (digits_cancel n (suc a / 2) (b / 2) (c / 2) q)
      (digit (suc a % 2) (b % 2) (c % 2) (low (suc a)) (low b) (low c) d)

-- Servicers of one stack with different runs have different seeds.
pub derive_seed-injective :
    (stack_id : List ℕ) (i j : ℕ) → i ≢ j → derive_seed stack_id i ≢ derive_seed stack_id j
unfolding derive_seed
derive_seed-injective stack_id i j apart h =
    let n = from_bytes (first_bytes 8 stack_id) in
    apart (digits_cancel n n i j (sym (bit_xor-bitwise n i) ∙ h ∙ bit_xor-bitwise n j))
