-- ===== src/Operation/Page/Cursor.antt =====
-- A cursor that the service hands out is read back as the offset that it stands for.
use Prim.Native.Nat.{◌/◌, ◌%◌, ◌^◌}
use native.Mathlib.Nat.{pow-suc}
use mcpx.Base.{
  ℕ, zero, suc, ◌+◌, ◌*◌, ◌≤◌, ◌<◌, ◌≡◌, refl, ◌∙◌, ap, true, false, some, [], ◌∷◌, arith,
  Bool-cases, inl, inr, ltb, All, All-imp, Bytes, is_blank, IsGraphic, is_blank-graphic,
}
use mcpx.Operation.Page.{max_int, digits, itoa, scan, parse_cursor}

scan_digit :
    (n : ℕ) (out : Bytes) (v : ℕ) → scan ((b'0' + n % 10) ∷ out) v ≡ scan out (v * 10 + n % 10)
unfolding scan
scan_digit n out v = ground arith

scan-digits : (f n : ℕ) (out : Bytes) → n < 10 ^ f → scan (digits f n out) 0 ≡ scan out n
unfolding digits
scan-digits zero n out h = let e : n ≡ 0 = omega arith in rw e refl
scan-digits (suc f) n out h = elim (Bool-cases (ltb n 10)) [
  | inl e ↦ rw e (scan_digit n out 0 ∙ ap (scan out) (small e))
  | inr e ↦
      let room : n / 10 < 10 ^ f = omega (arith, pow-suc 10 f) in
      let back : n / 10 * 10 + n % 10 ≡ n = omega arith in
      rw e (
        scan-digits f (n / 10) ((b'0' + n % 10) ∷ out) room
        ∙ scan_digit n out (n / 10)
        ∙ ap (scan out) back)
]
  where
    small : ltb n 10 ≡ true → 0 * 10 + n % 10 ≡ n
    small e = ground arith

abbrev pub IsDigit : ℕ → Type 0
IsDigit c = (b'0' ≤ c) × (c ≤ b'9')

-- A text that begins with a digit and goes on with digits.
abbrev pub IsNumber : Bytes → Type 0
IsNumber [] = ⊥
IsNumber (c ∷ s) = IsDigit c × All IsDigit s

IsDigit-of : (n : ℕ) → IsDigit (b'0' + n % 10)
IsDigit-of n = omega arith

IsNumber-cons : (c : ℕ) (s : Bytes) → IsDigit c → IsNumber s → IsNumber (c ∷ s)
IsNumber-cons c [] h k = absurd k
IsNumber-cons c (d ∷ s) h (k, ks) = (h, (k, ks))

digits-IsNumber : (f n : ℕ) (out : Bytes) → IsNumber out → IsNumber (digits f n out)
unfolding digits
digits-IsNumber zero n out h = h
digits-IsNumber (suc f) n out h = elim (Bool-cases (ltb n 10)) [
  | inl e ↦ rw e (IsNumber-cons (b'0' + n % 10) out (IsDigit-of n) h)
  | inr e ↦ rw e (
      digits-IsNumber f (n / 10) ((b'0' + n % 10) ∷ out)
        (IsNumber-cons (b'0' + n % 10) out (IsDigit-of n) h))
]

pub itoa-IsNumber : (n : ℕ) → IsNumber (itoa n)
itoa-IsNumber n = elim (Bool-cases (ltb n 10)) [
  | inl e ↦ unfold itoa in rw (e, digits) (IsDigit-of n, tt)
  | inr e ↦
      unfold itoa in
      rw (e, digits) (digits-IsNumber 18 (n / 10) ((b'0' + n % 10) ∷ []) (IsDigit-of n, tt))
]

parse_number :
    (s : Bytes) (v : ℕ) → IsNumber s → scan s 0 ≡ some v → v ≤ max_int → parse_cursor s ≡ some v
unfolding parse_cursor
parse_number [] v h e b = absurd h
parse_number (c ∷ s) v (h, hs) e b =
    let printable = All-imp IsDigit IsGraphic s (λ d k. omega arith) hs in
    let dense : is_blank (c ∷ s) ≡ false = is_blank-graphic c s (omega arith, printable) in
    ground (arith, dense)

-- Every offset that fits an int is read back from the text that the service prints for it.
pub parse_cursor-itoa : (n : ℕ) → n ≤ max_int → parse_cursor (itoa n) ≡ some n
parse_cursor-itoa n h =
    parse_number (itoa n) n (itoa-IsNumber n)
      (unfold itoa in scan-digits 19 n [] (omega arith) ∙ unfold scan in refl) h
