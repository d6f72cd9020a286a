-- ===== src/Store/Db/Numbers.antt =====
-- A number that is stored in decimal digits is read back.
use Prim.Native.Char.{code}
use Prim.Native.String.{char_at}
use session_restore.Common.{
  ℕ, zero, suc, ◌+◌, ◌*◌, ◌-◌, ◌/◌, ◌%◌, ◌^◌, ◌≤◌, ◌<◌, ◌≡◌, refl, ap, ◌∙◌, String, Option, some,
  List, [], ◌∷◌, leb, if_both, Bool-cases, inl, inr, ℕ_eq, arith,
}
use session_restore.Common.Int.{pos}
use session_restore.Common.Texts.{digits_of, to_decimal}
use session_restore.Store.Db.{codes, parse_digits, parse_unsigned, parse_i64, checked, within}

abbrev digit : ℕ → ℕ
digit d = code (char_at "0123456789" d)

code-char_at : (d : ℕ) → d ≤ 9 → digit d ≡ 48 + d
code-char_at zero h = refl
code-char_at (suc zero) h = refl
code-char_at (suc (suc zero)) h = refl
code-char_at (suc (suc (suc zero))) h = refl
code-char_at (suc (suc (suc (suc zero)))) h = refl
code-char_at (suc (suc (suc (suc (suc zero))))) h = refl
code-char_at (suc (suc (suc (suc (suc (suc zero)))))) h = refl
code-char_at (suc (suc (suc (suc (suc (suc (suc zero))))))) h = refl
code-char_at (suc (suc (suc (suc (suc (suc (suc (suc zero)))))))) h = refl
code-char_at (suc (suc (suc (suc (suc (suc (suc (suc (suc zero))))))))) h = refl
code-char_at (suc (suc (suc (suc (suc (suc (suc (suc (suc (suc n)))))))))) h = omega arith

parse_digit :
    (n d : ℕ) (cs : List ℕ) → d ≤ 9 → parse_digits n (digit d ∷ cs) ≡ parse_digits (n * 10 + d) cs
unfolding parse_digits
parse_digit n d cs h = rw (code-char_at d h) (ground arith)

-- Reading the digits of a number gives the number, whatever stands behind them.
parse_digits-digits_of :
    (rounds n : ℕ) (back : String)
    → n < 10 ^ rounds
    → parse_digits 0 (codes (digits_of rounds n back)) ≡ parse_digits n (codes back)
unfolding digits_of
parse_digits-digits_of zero n back h = ap (λ m. parse_digits m (codes back)) (omega arith)
parse_digits-digits_of (suc rounds) n back h = elim (Bool-cases (leb n 9)) [
  | inl e ↦ rw e (
      parse_digit 0 (n % 10) (codes back) (omega arith)
      ∙ ap (λ m. parse_digits m (codes back)) (ground (arith, e)))
  | inr e ↦ rw e (
      parse_digits-digits_of rounds (n / 10) (String.◌∷◌ (char_at "0123456789" (n % 10)) back)
        (omega (arith, h))
      ∙ parse_digit (n / 10) (n % 10) (codes back) (omega arith)
      ∙ ap (λ m. parse_digits m (codes back)) (omega arith))
]

-- What starts with a digit, and goes on.
abbrev StartsWithDigit : List ℕ → Type 0
StartsWithDigit cs = (d : ℕ) × (d ≤ 9) × ((rest : List ℕ) × (cs ≡ digit d ∷ rest))

digits_of-StartsWithDigit :
    (rounds n d : ℕ) (back : String)
    → d ≤ 9
    → StartsWithDigit (codes (digits_of rounds n (String.◌∷◌ (char_at "0123456789" d) back)))
unfolding digits_of
digits_of-StartsWithDigit zero n d back h = (d, h, (codes back, refl))
digits_of-StartsWithDigit (suc rounds) n d back h =
    if_both (λ s. StartsWithDigit (codes s)) (leb n 9) _ _ (n % 10, omega arith, (_, refl))
      (digits_of-StartsWithDigit rounds (n / 10) (n % 10) (String.◌∷◌ (char_at "0123456789" d) back)
        (omega arith))

to_decimal-StartsWithDigit : (n : ℕ) → StartsWithDigit (codes (to_decimal n))
unfolding to_decimal digits_of
to_decimal-StartsWithDigit n =
    if_both (λ s. StartsWithDigit (codes s)) (leb n 9) _ _ (n % 10, omega arith, (_, refl))
      (digits_of-StartsWithDigit 19 (n / 10) (n % 10) "" (omega arith))

parse_unsigned_digit : (cs : List ℕ) → StartsWithDigit cs → parse_unsigned cs ≡ parse_digits 0 cs
unfolding parse_unsigned
parse_unsigned_digit [] (d, h, (rest, e)) = ground (arith, e)
parse_unsigned_digit (c ∷ cs) s = refl

parse_unsigned-to_decimal : (n : ℕ) → n < 10 ^ 20 → parse_unsigned (codes (to_decimal n)) ≡ some n
unfolding to_decimal parse_digits
parse_unsigned-to_decimal n h =
    parse_unsigned_digit (codes (to_decimal n)) (to_decimal-StartsWithDigit n)
    ∙ parse_digits-digits_of 20 n "" h

checked-some :
    (limit n : ℕ) (o : Option ℕ)
    → n ≤ limit
    → o ≡ some n
    → checked (within limit o) pos o ≡ some (pos n)
checked-some limit n o h e = rw e (ground arith)

parse_i64_digit :
    (c n : ℕ) (cs : List ℕ)
    → 48 ≤ c
    → n < 2 ^ 63
    → parse_unsigned (c ∷ cs) ≡ some n
    → parse_i64 (c ∷ cs) ≡ some (pos n)
unfolding parse_i64 parse_unsigned
parse_i64_digit c n cs h small read =
    ground (arith, checked-some (2 ^ 63 - 1) n _ (omega arith) read)

abbrev first : List ℕ → ℕ
first [] = 0
first (c ∷ cs) = c

parse_i64_starts :
    (cs : List ℕ) (n : ℕ)
    → StartsWithDigit cs
    → n < 2 ^ 63
    → parse_unsigned cs ≡ some n
    → parse_i64 cs ≡ some (pos n)
parse_i64_starts [] n (d, h, (rest, e)) small read = ground (arith, e)
parse_i64_starts (c ∷ cs) n (d, h, (rest, e)) small read =
    parse_i64_digit c n cs (omega (arith, ap first e, code-char_at d h)) small read

-- A number below 2 ^ 63 that is stored in decimal digits is read back.
pub parse_i64-to_decimal : (n : ℕ) → n < 2 ^ 63 → parse_i64 (codes (to_decimal n)) ≡ some (pos n)
parse_i64-to_decimal n h =
    parse_i64_starts (codes (to_decimal n)) n (to_decimal-StartsWithDigit n) h
      (parse_unsigned-to_decimal n (omega arith))
