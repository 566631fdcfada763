-- ===== src/Subscription/Random.antt =====
-- The random names of web/client/src/common/socket/Websocket.js: `getRandomString` and
-- `generateClientId`. The values of `Math.random` are an argument: a draw is
-- `Math.floor(Math.random() * n)` for the `n` of the code.
use gonitor.Prelude.{
  ℕ, zero, suc, ◌+◌, ◌≤◌, ◌<◌, Bool, true, false, ◌&&◌, ◌||◌, Option, none, some, List, [], ◌∷◌,
  ◌++◌, String, concat, if◌then◌else◌, leb, ◌==◌, nat_eq, length, All, ◌≡◌, refl, sym, ap, ◌∙◌,
  subst, arith,
}
use Prim.Native.Char.{Char, code}
use text.Mathlib.TextLemmas.{nil-append, cons-append}

-- `_charStr`, whose last ten characters are the digits
abbrev pub char_str : String
char_str = "abacdefghjklmnopqrstuvwxyzABCDEFGHJKLMNOPQRSTUVWXYZ0123456789"

abbrev pub char_at : ℕ → String → Option Char
char_at i String.[] = none
char_at zero (String.◌∷◌ c s) = some c
char_at (suc i) (String.◌∷◌ c s) = char_at i s

-- `_str += _charStr[index]`
unfoldable pub append_char : String → ℕ → String
append_char str index = elim (char_at index char_str) [
  | none ↦ concat str "undefined"
  | some c ↦ concat str (String.◌∷◌ c String.[])
]

-- The index of the first character, which is drawn again as long as it is that of a digit; `none`
-- where the draws run out
unfoldable pub draw_first : List ℕ → Option (ℕ × List ℕ)
draw_first [] = none
draw_first (index ∷ draws) =
    let again = draw_first draws in if leb 51 index then again else some (index, draws)

-- The rounds of the loop after the first
unfoldable pub draw_rest : ℕ → String → List ℕ → Option (String × List ℕ)
unfolding append_char
draw_rest zero str draws = some (str, draws)
draw_rest (suc n) str [] = none
draw_rest (suc n) str (index ∷ draws) = draw_rest n (append_char str index) draws

unfoldable pub after_first : ℕ → Option (ℕ × List ℕ) → Option (String × List ℕ)
unfolding draw_rest append_char
after_first n none = none
after_first n (some (index, draws)) = draw_rest n (append_char "" index) draws

-- The loop
unfoldable pub random_string : ℕ → List ℕ → Option (String × List ℕ)
unfolding draw_first after_first
random_string zero draws = some ("", draws)
random_string (suc n) draws = after_first n (draw_first draws)

-- `len || 15`
abbrev pub length_or_15 : ℕ → ℕ
length_or_15 len = if len == 0 then 15 else len

unfoldable pub get_random_string : ℕ → List ℕ → Option (String × List ℕ)
unfolding random_string
get_random_string len draws = random_string (length_or_15 len) draws

-- `generateClientId()`, for a draw below 888888
unfoldable pub generate_client_id : ℕ → ℕ
generate_client_id draw = draw + 111111

abbrev pub text_length : String → ℕ
text_length String.[] = 0
text_length (String.◌∷◌ c s) = suc (text_length s)

abbrev pub is_letter : ℕ → Bool
is_letter c = (leb b'a' c && leb c b'z') || (leb b'A' c && leb c b'Z')

abbrev pub starts_with_letter : String → Bool
starts_with_letter String.[] = false
starts_with_letter (String.◌∷◌ c s) = is_letter (code c)

-- Whether the first characters of a text are letters
abbrev lettered : ℕ → String → Bool
lettered zero s = true
lettered (suc n) String.[] = false
lettered (suc n) (String.◌∷◌ c s) = is_letter (code c) && lettered n s

char_at-lettered :
    (n i : ℕ) (s : String)
    → lettered n s ≡ true
    → i < n
    → (c : Char) × (char_at i s ≡ some c) × (is_letter (code c) ≡ true)
char_at-lettered zero i s l h = absurd (omega arith)
char_at-lettered (suc n) i String.[] l h = absurd (ground arith)
char_at-lettered (suc n) zero (String.◌∷◌ c s) l h = (c, refl, ground arith)
char_at-lettered (suc n) (suc i) (String.◌∷◌ c s) l h =
    char_at-lettered n i s (ground arith) (omega arith)

char_at-lt : (i : ℕ) (s : String) → i < text_length s → (c : Char) × (char_at i s ≡ some c)
char_at-lt i String.[] h = absurd (omega arith)
char_at-lt zero (String.◌∷◌ c s) h = (c, refl)
char_at-lt (suc i) (String.◌∷◌ c s) h = char_at-lt i s (omega arith)

text_length-concat : (s t : String) → text_length (concat s t) ≡ text_length s + text_length t
text_length-concat String.[] t = ap text_length (nil-append t) ∙ omega arith
text_length-concat (String.◌∷◌ c s) t =
    ap text_length (cons-append c s t) ∙ omega (arith, text_length-concat s t)

starts-concat :
    (s t : String) → starts_with_letter s ≡ true → starts_with_letter (concat s t) ≡ true
starts-concat String.[] t h = absurd (ground arith)
starts-concat (String.◌∷◌ c s) t h = ap starts_with_letter (cons-append c s t) ∙ h

append_char_lem :
    (str : String) (index : ℕ)
    → index < 61
    → starts_with_letter str ≡ true
    → (text_length (append_char str index) ≡ suc (text_length str))
      × (starts_with_letter (append_char str index) ≡ true)
unfolding append_char
append_char_lem str index h l =
    let (c, e) = char_at-lt index char_str h in
    let last = String.◌∷◌ c String.[] in
    (ground (arith, e, text_length-concat str last), ground (arith, e, starts-concat str last l))

draw_first-append :
    (digits : List ℕ) (index : ℕ) (draws : List ℕ)
    → All (51 ≤◌) digits
    → index < 51
    → draw_first (digits ++ index ∷ draws) ≡ some (index, draws)
unfolding draw_first
draw_first-append [] index draws d h = ground arith
draw_first-append (x ∷ digits) index draws (p, d) h =
    ground (arith, draw_first-append digits index draws d h)

-- The text that the loop makes, with its length and its first character
abbrev Drawn : ℕ → Option (String × List ℕ) → Type 0
Drawn n result =
    (s : String) × (left : List ℕ) × (result ≡ some (s, left))
    × (text_length s ≡ n)
    × (starts_with_letter s ≡ true)

draw_rest-Drawn :
    (n : ℕ) (str : String) (draws : List ℕ)
    → n ≤ length draws
    → All (◌< 61) draws
    → starts_with_letter str ≡ true
    → Drawn (text_length str + n) (draw_rest n str draws)
unfolding draw_rest
draw_rest-Drawn zero str draws h d l = (str, draws, refl, omega arith, l)
draw_rest-Drawn (suc n) str [] h d l = absurd (omega arith)
draw_rest-Drawn (suc n) str (index ∷ draws) h (p, d) l =
    let (longer, starts) = append_char_lem str index p l in
    subst (λ k. Drawn k (draw_rest n (append_char str index) draws)) (omega (arith, longer))
      (draw_rest-Drawn n (append_char str index) draws (omega arith) d starts)

first_char :
    (index : ℕ)
    → index < 51
    → (text_length (append_char "" index) ≡ 1) × (starts_with_letter (append_char "" index) ≡ true)
unfolding append_char
first_char index h =
    let (c, e, l) = char_at-lettered 51 index char_str refl h in
    (
      ground (arith, e, nil-append (String.◌∷◌ c String.[])),
      ground (arith, e, l, nil-append (String.◌∷◌ c String.[])),
    )

random_string-Drawn :
    (n : ℕ) (digits : List ℕ) (index : ℕ) (draws : List ℕ)
    → All (51 ≤◌) digits
    → index < 51
    → n ≤ length draws
    → All (◌< 61) draws
    → Drawn (suc n) (random_string (suc n) (digits ++ index ∷ draws))
unfolding random_string after_first
random_string-Drawn n digits index draws d i h a =
    let (one, starts) = first_char index i in
    let made = draw_rest-Drawn n (append_char "" index) draws h a starts in
    subst (λ o. Drawn (suc n) (after_first n o)) (sym (draw_first-append digits index draws d i))
      (subst (λ k. Drawn k (draw_rest n (append_char "" index) draws)) (omega (arith, one)) made)

-- A random text is made of any draws in which finitely many digits come before the first letter,
-- with enough draws after it: the loop ends, the text has the length asked for, or 15 where that
-- is 0, and its first character is a letter.
pub get_random_string-returns :
    (len : ℕ) (digits : List ℕ) (index : ℕ) (draws : List ℕ)
    → All (51 ≤◌) digits
    → index < 51
    → length_or_15 len ≤ suc (length draws)
    → All (◌< 61) draws
    → (s : String) × (left : List ℕ) × (get_random_string len (digits ++ index ∷ draws)
        ≡ some (s, left))
      × (text_length s ≡ length_or_15 len)
      × (starts_with_letter s ≡ true)
unfolding get_random_string
get_random_string-returns zero digits index draws d i h a =
    random_string-Drawn 14 digits index draws d i (omega arith) a
get_random_string-returns (suc n) digits index draws d i h a =
    let given : suc n ≡ length_or_15 (suc n) = ground arith in
    subst (λ k. Drawn k (random_string k (digits ++ index ∷ draws))) given
      (random_string-Drawn n digits index draws d i (ground arith) a)
