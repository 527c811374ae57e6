-- ===== src/KeyGenerator/Layout.antt =====
-- The bytes of a generated key.
use Prim.Native.Nat.{compare, Ordering}
use native.Mathlib.Nat.{
  pow-suc, pow-zero, mod-lt, mod-one, mod-eq_of_lt, div-add-mod', mul-add-mod_self_right,
  one-le-pow,
}
use compaction_test.Base.{
  ℕ, zero, suc, ◌+◌, ◌*◌, ◌/◌, ◌%◌, ◌^◌, ◌<◌, ◌≤◌, ◌∷◌, ◌++◌, Bytes, length, bit_and, ◌>>>◌, ◌≡◌,
  refl, sym, ap, ◌∙◌, arith,
}
use compaction_test.Base.Masks.{low_byte}
use compaction_test.Slice.{Sign}
use compaction_test.Slice.Order.{lex, lex-same}
use compaction_test.KeyGenerator.{fill_loop}

power_of_bytes : (n : ℕ) → 2 ^ (suc n * 8) ≡ 256 * 2 ^ (n * 8)
power_of_bytes n =
    let e : suc n * 8 ≡ suc (suc (suc (suc (suc (suc (suc (suc (n * 8)))))))) = omega arith in
    let k = n * 8 in
    rw e (
      omega (
        arith,
        pow-suc 2 k,
        pow-suc 2 (suc k),
        pow-suc 2 (suc (suc k)),
        pow-suc 2 (suc (suc (suc k))),
        pow-suc 2 (suc (suc (suc (suc k)))),
        pow-suc 2 (suc (suc (suc (suc (suc k))))),
        pow-suc 2 (suc (suc (suc (suc (suc (suc k)))))),
        pow-suc 2 (suc (suc (suc (suc (suc (suc (suc k))))))),
      ))

below : (a b x y K : ℕ) → x < K → y < K → a < b → a * K + x < b * K + y
below a b x y K hx hy h = let step : suc a * K ≤ b * K = grind arith in omega arith

-- The low part of a number, and the byte above it.
low_part : (v K : ℕ) → 0 < K → v % (256 * K) ≡ v / K % 256 * K + v % K
low_part v K h =
    let q = v / K in
    let r = v % K in
    let under : q % 256 * K + r < 256 * K =
      omega (arith, below (q % 256) 256 r 0 K (omega arith) h (omega arith)) in
    let parts : (q / 256) * (256 * K) + (q % 256 * K + r) ≡ v =
      grind (arith, div-add-mod' v K, ap (λ t. t * K) (div-add-mod' q 256)) in
    ap (λ n. n % (256 * K)) (sym parts)
    ∙ mul-add-mod_self_right (q / 256) (256 * K) (q % 256 * K + r)
    ∙ mod-eq_of_lt under

-- The first of two comparisons that tells.
abbrev pick : ℕ → ℕ → Sign → Sign
pick a b rest = elim (compare a b) [
  | Ordering.lt ↦ Ordering.lt
  | Ordering.eq ↦ rest
  | Ordering.gt ↦ Ordering.gt
]

compare_parts :
    (a b x y K : ℕ) → x < K → y < K → compare (a * K + x) (b * K + y) ≡ pick a b (compare x y)
compare_parts a b x y K hx hy =
    ground (arith, λ (h : a < b). below a b x y K hx hy h, λ (h : b < a). below b a y x K hy hx h)

lex-cons : (a b : ℕ) (x y : Bytes) → lex (a ∷ x) (b ∷ y) ≡ pick a b (lex x y)
unfolding lex
lex-cons a b x y = refl

-- The bytes are in the order of the numbers, below the power that they count to.
pub lex-fill_loop :
    (n v w : ℕ) (pad : Bytes)
    → lex (fill_loop v n ++ pad) (fill_loop w n ++ pad)
      ≡ compare (v % 2 ^ (n * 8)) (w % 2 ^ (n * 8))
unfolding fill_loop
lex-fill_loop zero v w pad = lex-same pad ∙ ground (arith, mod-one v, mod-one w, pow-zero 2)
lex-fill_loop (suc n) v w pad =
    let K = 2 ^ (n * 8) in
    let pos : 0 < K = omega (arith, one-le-pow (n * 8) 2) in
    let whole : (x : ℕ) → x / K % 256 * K + x % K ≡ x % 2 ^ (suc n * 8) =
      λ x. sym (low_part x K pos) ∙ ap (λ m. x % m) (sym (power_of_bytes n)) in
    lex-cons (bit_and (v >>> (n * 8)) 0xff) (bit_and (w >>> (n * 8)) 0xff) (fill_loop v n ++ pad)
      (fill_loop w n ++ pad)
    ∙ (λ i. pick (low_byte (v / K) i) (low_byte (w / K) i) (lex-fill_loop n v w pad i))
    ∙ sym
        (compare_parts (v / K % 256) (w / K % 256) (v % K) (w % K) K (mod-lt v pos) (mod-lt w pos))
    ∙ (λ i. compare (whole v i) (whole w i))

pub length-fill_loop : (v n : ℕ) → length (fill_loop v n) ≡ n
unfolding fill_loop
length-fill_loop v zero = refl
length-fill_loop v (suc n) = ap suc (length-fill_loop v n)
