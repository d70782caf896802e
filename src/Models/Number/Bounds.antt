-- ===== src/Models/Number/Bounds.antt =====
-- From the order of `float64` values to the `int` that a value converts to.
use operion.Base.{
  ℕ, zero, suc, ◌/◌, ◌%◌, ◌≤◌, Bool, true, false, ltb, ◌≡◌, refl, ap, ◌⊎◌, inl, inr, arith,
  Bool-cases, if◌then◌else◌,
}
use operion.Models.Number.{ℤ, pos, negsuc, is_nan, place, magnitude, negated, to_int, float_ltb}

exponents : (e : ℕ) → 1023 ≤ e → e ≤ 1026 → ((e ≡ 1023) ⊎ (e ≡ 1024)) ⊎ ((e ≡ 1025) ⊎ (e ≡ 1026))
exponents e l h = ground (arith, l, h)

-- Up to the value 10.
magnitude-10 : (x : ℕ) → x ≤ 0x4024000000000000 → magnitude x ≤ 10
unfolding magnitude
magnitude-10 x l = elim (Bool-cases (ltb e 1023)) [
  | inl q ↦ rw q (omega arith)
  | inr q ↦ rw q (elim (exponents e (ground (arith, q)) (omega (arith, l))) [
    | inl (inl p) ↦ rw p (omega arith)
    | inl (inr p) ↦ rw p (omega arith)
    | inr (inl p) ↦ rw p (omega arith)
    | inr (inr p) ↦ rw p (omega (arith, l, p))
  ])
]
  where
    e : ℕ
    e = (x / 0x10000000000000) % 0x800

not_more :
    (x : ℕ)
    → float_ltb 0x4024000000000000 x ≡ false
    → ltb 1085 ((x / 0x10000000000000) % 0x800) ≡ false
    → ltb x 0x8000000000000000 ≡ true
    → x ≤ 0x4024000000000000
unfolding float_ltb is_nan place
not_more x h e l = elim (Bool-cases (ltb 0x7ff0000000000000 (x % 0x8000000000000000))) [
  | inl q ↦ absurd (ground (arith, q, e, l))
  | inr q ↦ ground (arith, rw (q, l) at h)
]

positive : ℤ → ℕ
positive (pos n) = n
positive (negsuc n) = 0

-- Of a value that is not more than 10, or that is a NaN.
pub to_int-10 : (x n : ℕ) → float_ltb 0x4024000000000000 x ≡ false → to_int x ≡ pos n → n ≤ 10
unfolding to_int negated positive
to_int-10 x n h p =
    sized (ltb 1085 ((x / 0x10000000000000) % 0x800)) (ltb x 0x8000000000000000) refl refl p
  where
    small : (m : ℕ) → negated m ≡ pos n → n ≤ 10
    small zero q = omega (arith, ap positive q)
    small (suc m) q = absurd (cc q)

    sized :
        (b c : Bool)
        → ltb 1085 ((x / 0x10000000000000) % 0x800) ≡ b
        → ltb x 0x8000000000000000 ≡ c
        → (if b
            then negsuc 0x7fffffffffffffff
            else if c
            then pos (magnitude x)
            else negated (magnitude x))
          ≡ pos n
        → n ≤ 10
    sized true c e l q = absurd (cc q)
    sized false false e l q = small (magnitude x) q
    sized false true e l q = omega (arith, ap positive q, magnitude-10 x (not_more x h e l))
