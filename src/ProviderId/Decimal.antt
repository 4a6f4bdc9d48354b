-- ===== src/ProviderId/Decimal.antt =====
-- `strconv.ParseInt` reads what `%d` printed.
use hcloud_cloud_controller.Common.{
  ℕ, zero, suc, ◌+◌, ◌/◌, ◌%◌, ◌^◌, ◌<◌, ◌≤◌, ◌≡◌, ◌≢◌, refl, true, false, some, [], ◌∷◌, ◌++◌,
  arith, ltb, append_assoc, append-nil, Bool-cases, inl, inr, All, All-append, pos, negsuc, ℤ,
}
use hcloud_cloud_controller.ProviderId.{
  Bytes, scan, parse_uint, with_sign, parse_int, digits, decimal, format_int, IsInt64,
}

abbrev pub IsDigit : ℕ → Type 0
IsDigit c = (b'0' ≤ c) × (c ≤ b'9')

scan_digit : (n : ℕ) (rest : Bytes) → scan ((b'0' + n % 10) ∷ rest) (n / 10) ≡ scan rest n
unfolding scan
scan_digit n rest = ground arith

scan_small : (n : ℕ) (rest : Bytes) → n < 10 → scan ((b'0' + n) ∷ rest) 0 ≡ scan rest n
unfolding scan
scan_small n rest h = ground arith

scan-digits : (f n : ℕ) (rest : Bytes) → n < f → scan (digits f n ++ rest) 0 ≡ scan rest n
unfolding digits
scan-digits zero n rest h = elim h [ ]
scan-digits (suc f) n rest h = ground (
  arith,
  scan_small n rest,
  append_assoc (digits f (n / 10)) ((b'0' + n % 10) ∷ []) rest,
  scan-digits f (n / 10) ((b'0' + n % 10) ∷ rest),
  scan_digit n rest,
)

All-weaken : (P Q : ℕ → Type 0) (xs : Bytes) → ((x : ℕ) → P x → Q x) → All P xs → All Q xs
All-weaken P Q [] h a = tt
All-weaken P Q (x ∷ xs) h (p, a) = (h x p, All-weaken P Q xs h a)

digits-IsDigit : (f n : ℕ) → All IsDigit (digits f n)
unfolding digits
digits-IsDigit zero n = tt
digits-IsDigit (suc f) n = elim (Bool-cases (ltb n 10)) [
  | inl small ↦ rw small (ground arith)
  | inr large ↦ rw large (
      All-append IsDigit (digits f (n / 10)) ((b'0' + n % 10) ∷ []) (digits-IsDigit f (n / 10))
        (omega arith))
]

decimal-IsDigit : (n : ℕ) → All IsDigit (decimal n)
unfolding decimal
decimal-IsDigit n = digits-IsDigit (suc n) n

decimal-Lacks : (d n : ℕ) → b'9' < d → All (λ c. c ≢ d) (decimal n)
decimal-Lacks d n h =
    All-weaken IsDigit (λ c. c ≢ d) (decimal n) (λ c p e. omega arith) (decimal-IsDigit n)

scan-decimal : (n : ℕ) → scan (decimal n) 0 ≡ some n
unfolding decimal scan
scan-decimal n = rw (append-nil (digits (suc n) n)) at (scan-digits (suc n) n [] (omega arith))

snoc-ne-nil : (xs : Bytes) (d : ℕ) → xs ++ d ∷ [] ≢ []
snoc-ne-nil [] d h = cc
snoc-ne-nil (x ∷ xs) d h = cc

decimal-ne-nil : (n : ℕ) → decimal n ≢ []
unfolding decimal digits
decimal-ne-nil n = elim (Bool-cases (ltb n 10)) [
  | inl small ↦ rw small (λ e. cc)
  | inr large ↦ rw large (snoc-ne-nil (digits n (n / 10)) (b'0' + n % 10))
]

parse_uint_of_scan :
    (s : Bytes) (n : ℕ) → s ≢ [] → scan s 0 ≡ some n → n < 2 ^ 64 → parse_uint s ≡ some n
unfolding parse_uint
parse_uint_of_scan [] n h e fits = absurd (h refl)
parse_uint_of_scan (c ∷ s) n h e fits = rw (e, parse_uint) (ground arith)

parse_uint-decimal : (n : ℕ) → n < 2 ^ 64 → parse_uint (decimal n) ≡ some n
parse_uint-decimal n = parse_uint_of_scan (decimal n) n (decimal-ne-nil n) (scan-decimal n)

-- A text of digits has no sign.
parse_int_of_digits :
    (s : Bytes) → s ≢ [] → All IsDigit s → parse_int s ≡ with_sign false (parse_uint s)
unfolding parse_int
parse_int_of_digits [] h d = absurd (h refl)
parse_int_of_digits (c ∷ s) h d = ground arith

parse_int_negative : (s : Bytes) → parse_int (b'-' ∷ s) ≡ with_sign true (parse_uint s)
unfolding parse_int
parse_int_negative s = refl

-- `strconv.ParseInt` gives back every int64 that was printed with `%d`.
pub parse_int-format_int : (z : ℤ) → IsInt64 z → parse_int (format_int z) ≡ some z
unfolding format_int
parse_int-format_int (pos n) h =
    rw
      (
        parse_int_of_digits (decimal n) (decimal-ne-nil n) (decimal-IsDigit n),
        parse_uint-decimal n (ground arith),
      )
      (unfold with_sign in ground arith)
parse_int-format_int (negsuc n) h =
    rw (parse_int_negative, parse_uint-decimal (suc n) (ground arith))
      (unfold with_sign in ground arith)

-- No byte of a printed number lies above the digits.
pub format_int-Lacks : (d : ℕ) (z : ℤ) → b'9' < d → All (λ c. c ≢ d) (format_int z)
unfolding format_int
format_int-Lacks d (pos n) h = decimal-Lacks d n h
format_int-Lacks d (negsuc n) h = ((λ e. omega arith), decimal-Lacks d (suc n) h)
