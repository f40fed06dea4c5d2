-- ===== src/Stdio/Format.antt =====
-- lib/src/stdio.c: `vsprintf`. The format is the list of its characters, without the 0 at its end.
use tiny_os_qemu.Base.{
  ℕ, zero, suc, ◌+◌, ◌-◌, ◌*◌, ◌%◌, ◌^◌, Bool, true, false, not, ◌&&◌, ◌||◌, Option, none, some,
  List, [], ◌∷◌, ◌++◌, ltb, leb, ◌==◌, if◌then◌else◌, length, replicate,
}
use tiny_os_qemu.Stdio.{Flags, number, place, eaddr, iaddr}

infixl 5 ◌>>=◌
abbrev pub ◌>>=◌ : {A B : Type 0} → Option A → (A → Option B) → Option B
none >>= f = none
(some a) >>= f = f a

-- What `va_arg` finds: an int, a long or a pointer as a 32-bit pattern, a string, or the bytes of an
-- address. A NULL for a string is `none`.
pub data Arg : Type 0 where
  word : ℕ → Arg
  string : Option (List ℕ) → Arg
  bytes : List ℕ → Arg

-- `undefined` is a `va_arg` without an argument of the kind that is asked for.
pub data Printed : Type 0 where
  text : List ℕ → Printed
  undefined out_of_fuel : Printed

abbrev pub no_flags : Flags
no_flags = record {
  zeropad = false;
  sign = false;
  plus = false;
  space = false;
  left = false;
  hex_prep = false;
  uppercase = false;
}

-- The loop `repeat` behind the '%'.
unfoldable pub take_flags : Flags → List ℕ → Flags × List ℕ
take_flags f [] = (f, [])
take_flags f (c ∷ s) =
    if c == 45
    then take_flags (record f { left = true }) s
    else if c == 43
    then take_flags (record f { plus = true }) s
    else if c == 32
    then take_flags (record f { space = true }) s
    else if c == 35
    then take_flags (record f { hex_prep = true }) s
    else if c == 48
    then take_flags (record f { zeropad = true }) s
    else (f, c ∷ s)

abbrev pub is_digit : ℕ → Bool
is_digit c = leb 48 c && leb c 57

unfoldable pub skip_atoi : ℕ → List ℕ → ℕ × List ℕ
skip_atoi i [] = (i, [])
skip_atoi i (c ∷ s) = if is_digit c then skip_atoi (i * 10 + (c - 48)) s else (i, c ∷ s)

abbrev pub head_is : (ℕ → Bool) → List ℕ → Bool
head_is p [] = false
head_is p (c ∷ s) = p c

abbrev pub rest : List ℕ → List ℕ
rest [] = []
rest (c ∷ s) = s

-- The state of one conversion: what is left of the format and of the arguments.
pub record Spec : Type 0 where
  pub flags : Flags
  pub field_width : Option ℕ
  pub precision : Option ℕ
  pub fmt : List ℕ
  pub args : List Arg

-- A '*' takes an int. A negative field width stands for LEFT.
unfoldable pub star_width : Flags → List ℕ → List Arg → Option Spec
star_width f s (Arg.word w ∷ vs) = some (
    if leb (2 ^ 31) w
    then record {
      flags = record f { left = true };
      field_width = some (2 ^ 32 - w);
      precision = none;
      fmt = s;
      args = vs;
    }
    else record { flags = f; field_width = some w; precision = none; fmt = s; args = vs })
star_width f s _ = none

unfoldable pub take_width : Flags → List ℕ → List Arg → Option Spec
take_width f s vs =
    if head_is is_digit s
    then (let (w, s') = skip_atoi 0 s in
        some (record { flags = f; field_width = some w; precision = none; fmt = s'; args = vs }))
    else if head_is (λ c. c == 42) s
    then star_width f (rest s) vs
    else some (record { flags = f; field_width = none; precision = none; fmt = s; args = vs })

-- Behind the '.'; a negative precision is 0.
unfoldable pub star_precision : Spec → List ℕ → List Arg → Option Spec
star_precision x s (Arg.word p ∷ vs) =
    some (record x { precision = some (if leb (2 ^ 31) p then 0 else p); fmt = s; args = vs })
star_precision x s _ = none

unfoldable pub take_precision : Spec → Option Spec
take_precision x =
    if not (head_is (λ c. c == 46) x.fmt)
    then some x
    else (let s = rest x.fmt in
        if head_is is_digit s
        then (let (p, s') = skip_atoi 0 s in some (record x { precision = some p; fmt = s' }))
        else if head_is (λ c. c == 42) s
        then star_precision x (rest s) x.args
        else some (record x { precision = some 0; fmt = s }))

-- Whether the qualifier is 'l', and the format behind it.
abbrev pub take_qualifier : List ℕ → Bool × List ℕ
take_qualifier s =
    (head_is (λ c. c == 108) s, if head_is (λ c. c == 108 || c == 76) s then rest s else s)

abbrev pub width_of : Option ℕ → ℕ
width_of none = 0
width_of (some w) = w

abbrev pub take : ℕ → List ℕ → List ℕ
take zero s = []
take (suc n) [] = []
take (suc n) (c ∷ s) = c ∷ take n s

-- What `strnlen` leaves of a string.
abbrev pub cut_to : Option ℕ → List ℕ → List ℕ
cut_to none s = s
cut_to (some p) s = take p s

-- "<NULL>" for a NULL pointer.
abbrev pub shown : Option (List ℕ) → List ℕ
shown none = 60 ∷ 78 ∷ 85 ∷ 76 ∷ 76 ∷ 62 ∷ []
shown (some s) = s

-- What one conversion writes, and what is left behind it.
pub record Converted : Type 0 where
  pub out : List ℕ
  pub fmt : List ℕ
  pub args : List Arg

-- The case 'c'. A field width of -1 pads like 0.
abbrev pub put_char : Spec → List ℕ → List Arg → Option Converted
put_char x s (Arg.word c ∷ vs) =
    let pad = replicate (width_of x.field_width - 1) 32 in
    some record {
      out = if x.flags.left then (c % 256) ∷ pad else pad ++ ((c % 256) ∷ []);
      fmt = s;
      args = vs;
    }
put_char x s _ = none

abbrev pub put_string : Spec → List ℕ → List Arg → Option Converted
put_string x s (Arg.string t ∷ vs) = some record {
  out = place x.flags (width_of x.field_width) (cut_to x.precision (shown t));
  fmt = s;
  args = vs;
}
put_string x s _ = none

-- The call of `number` for the next argument.
abbrev pub put_word : ℕ → ℕ → Flags → Option ℕ → List ℕ → List Arg → Option Converted
put_word base size f precision s (Arg.word w ∷ vs) = do
  t ← number w base size (width_of precision) f
  some record { out = t; fmt = s; args = vs }
put_word base size f precision s _ = none

-- The case 'p'.
abbrev pub put_pointer : Spec → List ℕ → List Arg → Option Converted
put_pointer x s vs = elim x.field_width [
  | none ↦ put_word 16 8 (record x.flags { zeropad = true }) x.precision s vs
  | some w ↦ put_word 16 w x.flags x.precision s vs
]

-- The cases 'A' and 'a'.
abbrev pub put_address : Bool → Flags → Option ℕ → List ℕ → List Arg → Option Converted
put_address long f size s (Arg.bytes b ∷ vs) =
    if ltb (length b) (if long then 6 else 4)
    then none
    else some record {
      out = if long then eaddr (take 6 b) (width_of size) f else iaddr (take 4 b) (width_of size) f;
      fmt = s;
      args = vs;
    }
put_address long f size s _ = none

-- The cases that set `base` and the flags of an integer.
abbrev pub integer_format : ℕ → Flags → Option (ℕ × Flags)
integer_format c f =
    if c == 111
    then some (8, f)
    else if c == 88
    then some (16, record f { uppercase = true })
    else if c == 120
    then some (16, f)
    else if c == 100 || c == 105
    then some (10, record f { sign = true })
    else if c == 117
    then some (10, f)
    else none

-- The integer formats and `default`.
abbrev pub put_integer : Spec → ℕ → List ℕ → Option Converted
put_integer x c s = elim (integer_format c x.flags) [
  | some (base, f) ↦ put_word base (width_of x.field_width) f x.precision s x.args
  | none ↦ some record { out = if c == 37 then c ∷ [] else 37 ∷ c ∷ []; fmt = s; args = x.args }
]

-- The switch on the conversion's character; behind the end of the format it writes '%'.
unfoldable pub convert : Spec → Bool → List ℕ → Option Converted
convert x long [] = some record { out = 37 ∷ []; fmt = []; args = x.args }
convert x long (c ∷ s) =
    if c == 99
    then put_char x s x.args
    else if c == 115
    then put_string x s x.args
    else if c == 112
    then put_pointer x s x.args
    else if c == 65
    then put_address long (record x.flags { uppercase = true }) x.field_width s x.args
    else if c == 97
    then put_address long x.flags x.field_width s x.args
    else put_integer x c s

-- All of one conversion, behind its '%'.
unfoldable pub conversion : List ℕ → List Arg → Option Converted
conversion s vs = do
  let (f, s1) = take_flags no_flags s
  x ← take_width f s1 vs
  y ← take_precision x
  let (long, s2) = take_qualifier y.fmt
  convert y long s2

abbrev pub prepend : List ℕ → Printed → Printed
prepend t (Printed.text s) = Printed.text (t ++ s)
prepend t other = other

-- The loop, on fuel for the characters of the format.
unfoldable pub print_from : ℕ → List ℕ → List Arg → Printed
print_from n [] vs = Printed.text []
print_from zero (c ∷ s) vs = Printed.out_of_fuel
print_from (suc n) (c ∷ s) vs = elim (c == 37) [
  | false ↦ prepend (c ∷ []) (print_from n s vs)
  | true ↦ elim (conversion s vs) [
    | none ↦ Printed.undefined
    | some r ↦ prepend r.out (print_from n r.fmt r.args)
  ]
]

unfoldable pub vsprintf : List ℕ → List Arg → Printed
vsprintf fmt vs = print_from (length fmt) fmt vs

-- What `vcprintf` hands to `putstr`. A text that does not fit into its buffer with the 0 at its end is
-- written past it.
abbrev pub vcprintf : List ℕ → List Arg → Printed
vcprintf fmt vs = elim (vsprintf fmt vs) [
  | Printed.text t ↦ if ltb (length t) 512 then Printed.text t else Printed.undefined
  | Printed.undefined ↦ Printed.undefined
  | Printed.out_of_fuel ↦ Printed.out_of_fuel
]
