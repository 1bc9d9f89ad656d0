-- ===== src/Libc/Itoa.antt =====
-- libc/stdio/printf.c: itoa, utoa, ltoa, ultoa, lltoa and ulltoa. The six bodies are one text at
-- different types: the buffer is a function of the offset from `str`, and the two pointers are
-- offsets. `long` has 32 bits on i686. The digit loop runs on fuel, one round for each bit.
pub mod Table
pub mod Emit
pub mod Swap
pub mod Unsigned
pub mod Signed
use Prim.Native.Char.{Char, code}
use Prim.Native.String
use Prim.Native.String.{String}
use brownie_os.Base.{
  ℕ, zero, suc, ◌+◌, ◌-◌, ◌/◌, ◌%◌, Bool, true, false, ◌&&◌, ◌||◌, Option, none, some, List, [],
  ◌∷◌, ltb, ◌==◌, if◌then◌else◌, update,
}

-- An `int`, `long` or `long long`; `negsuc n` is -(n + 1).
pub data ℤ : Type 0 where
  pos : ℕ → ℤ
  negsuc : ℕ → ℤ

abbrev pub is_negative : ℤ → Bool
is_negative (pos n) = false
is_negative (negsuc n) = true

abbrev pub magnitude : ℤ → ℕ
magnitude (pos n) = n
magnitude (negsuc n) = suc n

abbrev codes : String → List ℕ
codes String.[] = []
codes (String.◌∷◌ c s) = code c ∷ codes s

abbrev nth : List ℕ → ℕ → ℕ
nth [] i = 0
nth (x ∷ xs) zero = x
nth (x ∷ xs) (suc i) = nth xs i

-- `chars[i]`
unfoldable pub chars : ℕ → ℕ
chars i = nth (codes "zyxwvutsrqponmlkjihgfedcba9876543210123456789abcdefghijklmnopqrstuvwxyz") i

abbrev pub Buffer : Type 0
Buffer = ℕ → ℕ

-- `chars[35 + (i % base)]`: in C the remainder of a negative number is not positive.
abbrev pub digit_char : Bool → ℕ → ℕ → ℕ
digit_char negative n base = if negative then chars (35 - n % base) else chars (35 + n % base)

-- `do { strptr[0] = chars[...]; strptr += 1; i /= base; } while(i)` for `i` of magnitude `n`, with
-- `strptr` at offset `p`: the buffer and where `strptr` is left; `none` if the rounds run out.
pub emit_digits : ℕ → Bool → (n base p : ℕ) → Buffer → Option (Buffer × ℕ)
emit_digits zero negative n base p m = none
emit_digits (suc f) negative n base p m =
    let m' = update m p (digit_char negative n base) in
    let rest = emit_digits f negative (n / base) base (p + 1) m' in
    if n / base == 0 then some (m', p + 1) else rest

-- `while(strreverse < strptr)`: the two pointers swap and close in. The rounds are at most `f`.
pub swap_ends : ℕ → (lo hi : ℕ) → Buffer → Buffer
swap_ends zero lo hi m = m
swap_ends (suc f) lo hi m =
    let rest = swap_ends f (lo + 1) (hi - 1) (update (update m lo (m hi)) hi (m lo)) in
    if ltb lo hi then rest else m

-- `strptr[0] = '\0'; strptr -= 1`, then the swaps from `str` on.
abbrev pub finish : Buffer × ℕ → Buffer
finish (m, p) = swap_ends p 0 (p - 1) (update m p 0)

abbrev pub finish_some : Option (Buffer × ℕ) → Option Buffer
finish_some none = none
finish_some (some r) = some (finish r)

abbrev pub bad_base : ℕ → Bool
bad_base base = ltb base 2 || ltb 36 base

unfoldable pub unsigned_to_ascii : (width i base : ℕ) → Buffer → Option Buffer
unsigned_to_ascii width i base m =
    if bad_base base then some (update m 0 0) else finish_some (emit_digits width false i base 0 m)

unfoldable pub signed_to_ascii : (width : ℕ) → ℤ → (base : ℕ) → Buffer → Option Buffer
signed_to_ascii width i base m =
    if bad_base base
    then some (update m 0 0)
    else if is_negative i && base == 10
    then finish_some (emit_digits width true (magnitude i) base 1 (update m 0 b'-'))
    else finish_some (emit_digits width (is_negative i) (magnitude i) base 0 m)

unfoldable pub itoa : ℤ → ℕ → Buffer → Option Buffer
itoa = signed_to_ascii 32

unfoldable pub utoa : ℕ → ℕ → Buffer → Option Buffer
utoa = unsigned_to_ascii 32

unfoldable pub ltoa : ℤ → ℕ → Buffer → Option Buffer
ltoa = signed_to_ascii 32

unfoldable pub ultoa : ℕ → ℕ → Buffer → Option Buffer
ultoa = unsigned_to_ascii 32

unfoldable pub lltoa : ℤ → ℕ → Buffer → Option Buffer
lltoa = signed_to_ascii 64

unfoldable pub ulltoa : ℕ → ℕ → Buffer → Option Buffer
ulltoa = unsigned_to_ascii 64
