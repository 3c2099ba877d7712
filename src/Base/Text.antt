-- ===== src/Base/Text.antt =====
-- Go strings: their equality, their code points, their UTF-8 bytes, their order and `strconv.Itoa`.
use Prim.Native.Nat.{ℕ, zero, suc, ◌+◌, ◌/◌, ◌%◌}
use Prim.Native.Char.{code}
use Prim.Native.String.{String, ◌++◌ as ◌<>◌}
use text.Mathlib.Text.{◌==◌ as str_eq}
use text.Mathlib.TextEquality.{eq_iff, Char-path}
use text.Mathlib.TextPositions.{eq_refl}
use text.Mathlib.TextLemmas.{cons-append}
use mathlib.Core.Path.{◌≡◌, refl, ap, ap₂}
use mathlib.Core.Logic.{◌↔◌, ◌≢◌}
use mathlib.Core.Bool.{Bool, true, false}
use mathlib.Core.List.{List, [], ◌∷◌, ◌++◌}
use native.Mathlib.Omega.{arith}
use llm_inference_operator.Base.Tests.{ltb, ◌==◌, if◌then◌else◌}

abbrev pub text_eq : String → String → Bool
text_eq s t = str_eq s t

pub text_eq_iff : (s t : String) → (text_eq s t ≡ true) ↔ (s ≡ t)
text_eq_iff s t = eq_iff s t

pub text_eq_refl : (s : String) → text_eq s s ≡ true
text_eq_refl s = eq_refl s

pub text_eq_of_ne : (s t : String) → s ≢ t → text_eq s t ≡ false
text_eq_of_ne s t h = ground (arith, text_eq_iff s t)

-- `if s == "" { s = other }`
abbrev pub or_text : String → String → String
or_text s other = if text_eq s "" then other else s

pub or_text_of_ne : (s other : String) → s ≢ "" → or_text s other ≡ s
or_text_of_ne s other h = rw (text_eq_of_ne s "" h) refl

-- The code points of a text.
abbrev pub codes : String → List ℕ
codes String.[] = []
codes (String.◌∷◌ c s) = code c ∷ codes s

abbrev head_or : List ℕ → ℕ
head_or [] = 0
head_or (x ∷ xs) = x

abbrev tail_of : List ℕ → List ℕ
tail_of [] = []
tail_of (x ∷ xs) = xs

pub codes-injective : (s t : String) → codes s ≡ codes t → s ≡ t
codes-injective String.[] String.[] h = refl
codes-injective String.[] (String.◌∷◌ d t) h = cc
codes-injective (String.◌∷◌ c s) String.[] h = cc
codes-injective (String.◌∷◌ c s) (String.◌∷◌ d t) h =
    ap₂ String.◌∷◌ (Char-path c d (ap head_or h)) (codes-injective s t (ap tail_of h))

-- The bytes of one code point in UTF-8, the encoding of a Go string.
abbrev utf8 : ℕ → List ℕ
utf8 c =
    if ltb c 0x80
    then c ∷ []
    else if ltb c 0x800
    then (0xc0 + c / 0x40) ∷ (0x80 + c % 0x40) ∷ []
    else if ltb c 0x10000
    then (0xe0 + c / 0x1000) ∷ (0x80 + c / 0x40 % 0x40) ∷ (0x80 + c % 0x40) ∷ []
    else (0xf0 + c / 0x40000)
      ∷ (0x80 + c / 0x1000 % 0x40)
      ∷ (0x80 + c / 0x40 % 0x40)
      ∷ (0x80 + c % 0x40)
      ∷ []

utf8_all : List ℕ → List ℕ
utf8_all [] = []
utf8_all (c ∷ cs) = utf8 c ++ utf8_all cs

-- `[]byte(s)`
unfoldable pub bytes : String → List ℕ
unfolding utf8_all
bytes s = utf8_all (codes s)

-- Go compares strings byte by byte; UTF-8 keeps the order of the code points.
abbrev leb_codes : List ℕ → List ℕ → Bool
leb_codes [] ys = true
leb_codes (x ∷ xs) [] = false
leb_codes (x ∷ xs) (y ∷ ys) =
    let rest = leb_codes xs ys in if ltb x y then true else if x == y then rest else false

unfoldable pub text_leb : String → String → Bool
text_leb s t = leb_codes (codes s) (codes t)

leb_codes-total : (xs ys : List ℕ) → leb_codes xs ys ≡ false → leb_codes ys xs ≡ true
leb_codes-total [] ys h = cc
leb_codes-total (x ∷ xs) [] h = refl
leb_codes-total (x ∷ xs) (y ∷ ys) h = ground (arith, leb_codes-total xs ys)

leb_codes_trans :
    (xs ys zs : List ℕ) → leb_codes xs ys ≡ true → leb_codes ys zs ≡ true → leb_codes xs zs ≡ true
leb_codes_trans [] ys zs h k = refl
leb_codes_trans (x ∷ xs) [] zs h k = cc
leb_codes_trans (x ∷ xs) (y ∷ ys) [] h k = cc
leb_codes_trans (x ∷ xs) (y ∷ ys) (z ∷ zs) h k = ground (arith, leb_codes_trans xs ys zs)

leb_codes_antisymm : (xs ys : List ℕ) → leb_codes xs ys ≡ true → leb_codes ys xs ≡ true → xs ≡ ys
leb_codes_antisymm [] [] h k = refl
leb_codes_antisymm [] (y ∷ ys) h k = cc
leb_codes_antisymm (x ∷ xs) [] h k = cc
leb_codes_antisymm (x ∷ xs) (y ∷ ys) h k = ground (arith, leb_codes_antisymm xs ys)

pub text_leb-total : (s t : String) → text_leb s t ≡ false → text_leb t s ≡ true
unfolding text_leb
text_leb-total s t h = leb_codes-total (codes s) (codes t) h

pub text_leb_trans :
    (s t u : String) → text_leb s t ≡ true → text_leb t u ≡ true → text_leb s u ≡ true
unfolding text_leb
text_leb_trans s t u h k = leb_codes_trans (codes s) (codes t) (codes u) h k

pub text_leb_antisymm : (s t : String) → text_leb s t ≡ true → text_leb t s ≡ true → s ≡ t
unfolding text_leb
text_leb_antisymm s t h k = codes-injective s t (leb_codes_antisymm (codes s) (codes t) h k)

abbrev digit_text : ℕ → String
digit_text d =
    if d == 0
    then "0"
    else if d == 1
    then "1"
    else if d == 2
    then "2"
    else if d == 3
    then "3"
    else if d == 4
    then "4"
    else if d == 5
    then "5"
    else if d == 6
    then "6"
    else if d == 7
    then "7"
    else if d == 8
    then "8"
    else "9"

-- The digits of a number, on fuel. Each round divides by 10, so one round more than the number itself
-- is more than enough.
decimal_fuel : ℕ → ℕ → String → String
decimal_fuel zero n out = out
decimal_fuel (suc f) n out =
    let rest = decimal_fuel f (n / 10) (digit_text (n % 10) <> out) in
    if ltb n 10 then digit_text n <> out else rest

unfoldable pub decimal : ℕ → String
unfolding decimal_fuel
decimal n = decimal_fuel (suc n) n ""

decimal_test : decimal 8000 ≡ "8000"
unfolding decimal
decimal_test = refl

abbrev pub filled : String → Bool
filled String.[] = false
filled (String.◌∷◌ c s) = true

pub filled_append : (s t : String) → filled s ≡ true → filled (s <> t) ≡ true
filled_append String.[] t h = cc
filled_append (String.◌∷◌ c s) t h = rw (cons-append c s t) refl

pub ne_empty_of_filled : (s : String) → filled s ≡ true → s ≢ ""
ne_empty_of_filled s h e = let absurdity : false ≡ true = rw e at h in cc

pub filled-if :
    (b : Bool) (s t : String)
    → filled s ≡ true
    → filled t ≡ true
    → filled (if b then s else t) ≡ true
filled-if true s t h k = h
filled-if false s t h k = k

filled-digit_text : (d : ℕ) → filled (digit_text d) ≡ true
filled-digit_text d = filled-if (d == 0) _ _ refl (
    filled-if (d == 1) _ _ refl (
      filled-if (d == 2) _ _ refl (
        filled-if (d == 3) _ _ refl (
          filled-if (d == 4) _ _ refl (
            filled-if (d == 5) _ _ refl (
              filled-if (d == 6) _ _ refl
                (filled-if (d == 7) _ _ refl (filled-if (d == 8) _ _ refl refl))))))))

filled-decimal_fuel :
    (f n : ℕ) (out : String) → filled out ≡ true → filled (decimal_fuel f n out) ≡ true
unfolding decimal_fuel
filled-decimal_fuel zero n out h = h
filled-decimal_fuel (suc f) n out h =
    filled-if (ltb n 10) _ _ (filled_append (digit_text n) out (filled-digit_text n)) (
      filled-decimal_fuel f (n / 10) (digit_text (n % 10) <> out)
        (filled_append (digit_text (n % 10)) out (filled-digit_text (n % 10))))

pub filled-decimal : (n : ℕ) → filled (decimal n) ≡ true
unfolding decimal decimal_fuel
filled-decimal n =
    filled-if (ltb n 10) _ _ (filled_append (digit_text n) "" (filled-digit_text n)) (
      filled-decimal_fuel n (n / 10) (digit_text (n % 10) <> "")
        (filled_append (digit_text (n % 10)) "" (filled-digit_text (n % 10))))

-- No number is printed as the empty text.
pub decimal-ne_empty : (n : ℕ) → decimal n ≢ ""
decimal-ne_empty n = ne_empty_of_filled (decimal n) (filled-decimal n)
