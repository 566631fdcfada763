-- ===== src/Js.antt =====
-- What the forms of web/client/src use of JavaScript's values: the value of an input, `parseInt`,
-- `trim`, `split(",")` and `join(",")`.
pub mod Laws
use gonitor.Prelude.{
  ℕ, zero, suc, ◌+◌, ◌-◌, ◌*◌, Bool, true, false, not, ◌&&◌, ◌||◌, Option, none, some, List, [],
  ◌∷◌, String, if◌then◌else◌, leb, ◌==◌, nat_eq, truthy, concat,
}
use gonitor.Prelude.Int.{ℤ, pos, negsuc}
use Prim.Native.Char.{Char, code}
use Prim.Native.String

-- A property of a task or the value of an input: it may be missing, an integer or a text.
pub data Value : Type 0 where
  undefined : Value
  number : ℤ → Value
  text : String → Value

-- White space and line ends
unfoldable pub is_space : ℕ → Bool
is_space c =
    (leb 9 c && leb c 13)
    || (c == 32
        || (c == 160
            || (c == 5760
                || ((leb 8192 c && leb c 8202)
                    || (c == 8232
                        || (c == 8233
                            || (c == 8239 || (c == 8287 || (c == 12288 || c == 65279)))))))))

unfoldable pub trim_start : String → String
unfolding is_space
trim_start String.[] = String.[]
trim_start (String.◌∷◌ c s) =
    let rest = trim_start s in if is_space (code c) then rest else String.◌∷◌ c s

unfoldable pub trim_end : String → String
unfolding is_space
trim_end String.[] = String.[]
trim_end (String.◌∷◌ c s) =
    let rest = trim_end s in
    if is_space (code c) && not (truthy rest) then String.[] else String.◌∷◌ c rest

-- `s.trim()`
unfoldable pub trim : String → String
unfolding trim_start trim_end
trim s = trim_end (trim_start s)

-- The value of a digit of a base up to 16
unfoldable pub digit : ℕ → ℕ → Option ℕ
digit base c =
    let v =
      (if leb b'0' c && leb c b'9'
        then c - b'0'
        else if leb b'a' c && leb c b'f'
        then c - b'a' + 10
        else if leb b'A' c && leb c b'F'
        then c - b'A' + 10
        else 16) in
    if leb base v then none else some v

-- The number of the longest run of digits, `none` if there is no digit
unfoldable pub read_digits : ℕ → Option ℕ → String → Option ℕ
unfolding digit
read_digits base acc String.[] = acc
read_digits base acc (String.◌∷◌ c s) = elim (digit base (code c)) [
  | none ↦ acc
  | some d ↦ read_digits base (some (elim acc [ none ↦ d | some n ↦ n * base + d ])) s
]

unfoldable pub read_number : String → Option ℕ
unfolding read_digits
read_number (String.◌∷◌ z (String.◌∷◌ x s)) =
    if code z == b'0' && (code x == b'x' || code x == b'X')
    then read_digits 16 none s
    else read_digits 10 none (String.◌∷◌ z (String.◌∷◌ x s))
read_number s = read_digits 10 none s

abbrev pub negated : ℕ → ℤ
negated zero = pos 0
negated (suc n) = negsuc n

abbrev pub map_option : {A B : Type 0} → (A → B) → Option A → Option B
map_option f none = none
map_option f (some a) = some (f a)

unfoldable pub read_signed : String → Option ℤ
unfolding read_number
read_signed String.[] = none
read_signed (String.◌∷◌ c s) =
    if code c == b'-'
    then map_option negated (read_number s)
    else if code c == b'+'
    then map_option pos (read_number s)
    else map_option pos (read_number (String.◌∷◌ c s))

-- `parseInt(v)`, `none` for NaN
unfoldable pub parse_int : Value → Option ℤ
unfolding trim_start read_signed
parse_int undefined = none
parse_int (number z) = some z
parse_int (text s) = read_signed (trim_start s)

-- A value is falsy if it is undefined, 0 or the empty text.
unfoldable pub truthy_value : Value → Bool
truthy_value undefined = false
truthy_value (number (pos zero)) = false
truthy_value (number (pos (suc n))) = true
truthy_value (number (negsuc n)) = true
truthy_value (text s) = truthy s

-- `v || 0`
abbrev pub or_zero : Value → Value
or_zero v = if truthy_value v then v else number (pos 0)

abbrev pub prepend : Char → List String → List String
prepend c [] = String.◌∷◌ c String.[] ∷ []
prepend c (w ∷ ws) = String.◌∷◌ c w ∷ ws

-- `s.split(",")`
unfoldable pub split_commas : String → List String
split_commas String.[] = String.[] ∷ []
split_commas (String.◌∷◌ c s) =
    let rest = split_commas s in if code c == b',' then String.[] ∷ rest else prepend c rest

-- `xs.join(",")`
unfoldable pub join_commas : List String → String
join_commas [] = String.[]
join_commas (s ∷ []) = s
join_commas (s ∷ t ∷ ts) = concat s (concat "," (join_commas (t ∷ ts)))
