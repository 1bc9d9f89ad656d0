-- ===== src/Libc/Printf.antt =====
-- libc/stdio/printf.c: vprintf and vsnprintf. A format is the list of its characters without the
-- terminating NUL; reading past that NUL, or an argument of another kind than `va_arg` asks for,
-- is `wild`. The loops run on fuel, one round more than the format has characters.
pub mod Count
pub mod Bound
use brownie_os.Base.{
  ℕ, zero, suc, ◌+◌, ◌-◌, ◌^◌, ◌%◌, ◌<◌, Bool, true, false, ◌||◌, not, Option, none, some, List, [],
  ◌∷◌, ◌++◌, ltb, ◌==◌, if◌then◌else◌, update, sub32, cells,
}
use brownie_os.Libc.Itoa.{ℤ, pos, negsuc, Buffer, itoa, utoa, lltoa, ulltoa}

abbrev pub length : List ℕ → ℕ
length [] = 0
length (c ∷ s) = length s + 1

-- What `va_arg` takes: a 32-bit pattern, a 64-bit pattern, or the characters of a string.
pub data Argument : Type 0 where
  int_bits : ℕ → Argument
  long_long_bits : ℕ → Argument
  chars : List ℕ → Argument

pub data Conversion : Type 0 where
  string signed unsigned hex long_signed long_unsigned long_hex : Conversion

-- The case of the `switch` that a directive ends in; `terminator` is `case '\0'`, and `beyond` is
-- a directive that steps over the terminating NUL.
pub data Directive : Type 0 where
  percent character terminator beyond : Directive
  convert : Conversion → Directive

-- `switch (*format)` behind `%l` and another character
unfoldable pub long_long_directive : List ℕ → Directive × List ℕ
long_long_directive [] = (beyond, [])
long_long_directive (c ∷ format) =
    if c == b'u' || c == b'i'
    then (convert Conversion.long_unsigned, format)
    else if c == b'x'
    then (convert Conversion.long_hex, format)
    else (convert Conversion.long_signed, format)

-- `switch (*format)` behind `%l`: every character is taken for the second `l`.
unfoldable pub long_directive : List ℕ → Directive × List ℕ
long_directive [] = (beyond, [])
long_directive (c ∷ format) = long_long_directive format

-- `switch (*format)` of `vprintf`, behind the `%`: the case, and the format behind the directive.
unfoldable pub vprintf_directive : List ℕ → Directive × List ℕ
vprintf_directive [] = (terminator, [])
vprintf_directive (c ∷ format) =
    if c == b'l'
    then long_directive format
    else if c == b'c'
    then (character, format)
    else if c == b's'
    then (convert Conversion.string, format)
    else if c == b'd'
    then (convert Conversion.signed, format)
    else if c == b'u' || c == b'i'
    then (convert Conversion.unsigned, format)
    else if c == b'x'
    then (convert Conversion.hex, format)
    else (percent, format)

-- `switch (*format)` of `vsnprintf`
unfoldable pub vsnprintf_directive : List ℕ → Directive × List ℕ
vsnprintf_directive [] = (terminator, [])
vsnprintf_directive (c ∷ format) =
    if c == b'c'
    then (character, format)
    else if c == b's'
    then (convert Conversion.string, format)
    else if c == b'd' || c == b'i'
    then (convert Conversion.signed, format)
    else if c == b'x'
    then (convert Conversion.hex, format)
    else (percent, format)

-- `strlen`, for a NUL among the first `f` cells from `p` on.
unfoldable pub strlen : (f : ℕ) → Buffer → (p : ℕ) → Option ℕ
strlen zero m p = none
strlen (suc f) m p = let rest = strlen f m (p + 1) in if m p == 0 then some p else rest

abbrev take_length : Buffer → Option ℕ → Option (List ℕ)
take_length m none = none
take_length m (some len) = some (cells m 0 len)

abbrev string_at : ℕ → Option Buffer → Option (List ℕ)
string_at f none = none
string_at f (some m) = take_length m (strlen f m 0)

abbrev as_signed : (half bits : ℕ) → ℤ
as_signed half bits = if ltb bits half then pos bits else negsuc (half + half - 1 - bits)

-- The characters that a conversion prints for an argument: the local `char str[33]` or
-- `char str[65]` holds `str` before, and `strlen` finds its end.
unfoldable pub converted : (str : Buffer) → Conversion → Argument → Option (List ℕ)
converted str Conversion.string (chars s) = some s
converted str Conversion.signed (int_bits i) = string_at 33 (itoa (as_signed (2 ^ 31) i) 10 str)
converted str Conversion.unsigned (int_bits i) = string_at 33 (utoa i 10 str)
converted str Conversion.hex (int_bits i) = string_at 33 (utoa i 16 str)
converted str Conversion.long_signed (long_long_bits i) =
    string_at 65 (lltoa (as_signed (2 ^ 63) i) 10 str)
converted str Conversion.long_unsigned (long_long_bits i) = string_at 65 (ulltoa i 10 str)
converted str Conversion.long_hex (long_long_bits i) = string_at 65 (ulltoa i 16 str)
converted str _ _ = none

abbrev pub int_max : ℕ
int_max = 2 ^ 31 - 1

-- What `vprintf` comes to: -1, or a count; and the characters that `putchar` got.
pub data Printed : Type 0 where
  wild : Printed
  failed : List ℕ → Printed
  returned : ℕ → List ℕ → Printed

pub record Printing : Type 0 where
  pub format : List ℕ
  pub parameters : List Argument
  pub written : ℕ
  pub out : List ℕ

pub data Step (S R : Type 0) : Type 0 where
  stop : R → Step S R
  go : S → Step S R

-- The loop over `str[i]`: `putchar` returns EOF for the character -1.
pub put_all : List ℕ → Printing → Step Printing Printed
put_all [] s = go s
put_all (c ∷ text) s =
    let s' = record s { written = s.written + 1; out = s.out ++ (c ∷ []) } in
    let rest = put_all text s' in if c == 255 then stop (failed s'.out) else rest

-- `if (remaining < len) return -1;`, then the loop over the text.
abbrev pub put_text : Option (List ℕ) → Printing → Step Printing Printed
put_text none s = stop wild
put_text (some text) s =
    if ltb (int_max - s.written) (length text) then stop (failed s.out) else put_all text s

-- `if (!remaining) return -1; putchar(c); written++;`
abbrev pub put_one : ℕ → Printing → Step Printing Printed
put_one c s =
    if int_max - s.written == 0
    then stop (failed s.out)
    else go (record s { written = s.written + 1; out = s.out ++ (c ∷ []) })

abbrev pub print_character : List Argument → Printing → Step Printing Printed
print_character (int_bits i ∷ rest) s = put_one (i % 256) (record s { parameters = rest })
print_character _ s = stop wild

abbrev pub print_argument :
    (str : Buffer) → Conversion → List Argument → Printing → Step Printing Printed
print_argument str conversion (a ∷ rest) s =
    put_text (converted str conversion a) (record s { parameters = rest })
print_argument str conversion [] s = stop wild

-- One round of the loop of `vprintf` behind the `%`.
unfoldable pub print_directive : (str : Buffer) → Directive → Printing → Step Printing Printed
print_directive str percent s = put_one b'%' s
print_directive str terminator s = stop (failed s.out)
print_directive str beyond s = stop wild
print_directive str character s = print_character s.parameters s
print_directive str (convert conversion) s = print_argument str conversion s.parameters s

unfoldable pub print_step : (str : Buffer) → List ℕ → Printing → Step Printing Printed
print_step str [] s = stop (returned s.written s.out)
print_step str (c ∷ format) s =
    if c == b'%'
    then (let d = vprintf_directive format in print_directive str d.0 (record s { format = d.1 }))
    else put_one c (record s { format = format })

abbrev pub resume : {S R : Type 0} → (S → Option R) → Step S R → Option R
resume k (stop r) = some r
resume k (go s) = k s

pub print_loop : (f : ℕ) → (str : Buffer) → Printing → Option Printed
print_loop zero str s = none
print_loop (suc f) str s = resume (print_loop f str) (print_step str s.format s)

unfoldable pub vprintf : (str : Buffer) → List ℕ → List Argument → Option Printed
vprintf str format parameters =
    print_loop (length format + 1) str
      (record { format = format; parameters = parameters; written = 0; out = [] })

-- What `vsnprintf` comes to: -1, or a count; and the memory at `s`.
pub data Filled : Type 0 where
  wild_fill : Filled
  failed_fill : Buffer → Filled
  returned_fill : ℕ → Buffer → Filled

pub record Filling : Type 0 where
  pub format : List ℕ
  pub parameters : List Argument
  pub written : ℕ
  pub buffer : Buffer

-- `for (size_t i = 0; i < len && written < (int) n - 1; i++)`, with `limit` for `(int) n - 1`.
pub fill_all : (limit : ℕ) → List ℕ → Filling → Filling
fill_all limit [] s = s
fill_all limit (c ∷ text) s =
    let rest =
      fill_all limit text
        (record s { written = s.written + 1; buffer = update s.buffer s.written c }) in
    if ltb s.written limit then rest else s

-- `(int) n - 1`, where a negative limit stops the loop as 0 does.
abbrev pub int_limit : ℕ → ℕ
int_limit n = if ltb n (2 ^ 31) then n - 1 else 0

abbrev pub fill_text : (n : ℕ) → Option (List ℕ) → Filling → Step Filling Filled
fill_text n none s = stop wild_fill
fill_text n (some text) s =
    if ltb (int_max - s.written) (length text)
    then stop (failed_fill s.buffer)
    else go (fill_all (int_limit n) text s)

abbrev pub fill_one : ℕ → Filling → Step Filling Filled
fill_one c s =
    if int_max - s.written == 0
    then stop (failed_fill s.buffer)
    else go (record s { written = s.written + 1; buffer = update s.buffer s.written c })

abbrev pub fill_character : List Argument → Filling → Step Filling Filled
fill_character (int_bits i ∷ rest) s = fill_one (i % 256) (record s { parameters = rest })
fill_character _ s = stop wild_fill

abbrev pub fill_argument :
    (n : ℕ) (str : Buffer) → Conversion → List Argument → Filling → Step Filling Filled
fill_argument n str conversion (a ∷ rest) s =
    fill_text n (converted str conversion a) (record s { parameters = rest })
fill_argument n str conversion [] s = stop wild_fill

unfoldable pub fill_directive : (n : ℕ) (str : Buffer) → Directive → Filling → Step Filling Filled
fill_directive n str percent s = fill_one b'%' s
fill_directive n str terminator s = stop (failed_fill s.buffer)
fill_directive n str beyond s = stop wild_fill
fill_directive n str character s = fill_character s.parameters s
fill_directive n str (convert conversion) s = fill_argument n str conversion s.parameters s

-- `s[written] = '\0'; return written;`
abbrev pub fill_end : Filling → Step Filling Filled
fill_end s = stop (returned_fill s.written (update s.buffer s.written 0))

unfoldable pub fill_step : (n : ℕ) (str : Buffer) → List ℕ → Filling → Step Filling Filled
fill_step n str [] s = fill_end s
fill_step n str (c ∷ format) s =
    if not (ltb s.written (sub32 n 1))
    then fill_end s
    else if c == b'%'
    then (let d = vsnprintf_directive format in
        fill_directive n str d.0 (record s { format = d.1 }))
    else fill_one c (record s { format = format })

pub fill_loop : (f n : ℕ) → (str : Buffer) → Filling → Option Filled
fill_loop zero n str s = none
fill_loop (suc f) n str s = resume (fill_loop f n str) (fill_step n str s.format s)

unfoldable pub vsnprintf : (str s : Buffer) → (n : ℕ) → List ℕ → List Argument → Option Filled
vsnprintf str s n format parameters =
    fill_loop (length format + 1) n str
      (record { format = format; parameters = parameters; written = 0; buffer = s })

-- `printf`, `snprintf`, `vsprintf` and `sprintf` pass their arguments on.
abbrev pub printf : (str : Buffer) → List ℕ → List Argument → Option Printed
printf str format parameters = vprintf str format parameters

abbrev pub snprintf : (str s : Buffer) → (n : ℕ) → List ℕ → List Argument → Option Filled
snprintf str s n format parameters = vsnprintf str s n format parameters

abbrev pub vsprintf : (str s : Buffer) → List ℕ → List Argument → Option Filled
vsprintf str s format parameters = vsnprintf str s int_max format parameters

abbrev pub sprintf : (str s : Buffer) → List ℕ → List Argument → Option Filled
sprintf str s format parameters = vsprintf str s format parameters
