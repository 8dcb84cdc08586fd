-- ===== src/Value.antt =====
-- The values of a payload (`dict[str, Any]`), as the router's JSON and the coordinator fill it, and
-- what Python's built-in operations answer on them.
use Prim.Native.Char.{Char, code}
use Prim.Native.String.{◌++◌ as append}
use ha_zte_router_5g_monitor.Prelude.{
  ℕ, zero, suc, ◌/◌, ◌%◌, String, ◌≡◌, refl, Bool, true, false, ◌&&◌, ◌||◌, not, none, some, str_eq,
  ltb, leb, ◌==◌, if◌then◌else◌,
}
use ha_zte_router_5g_monitor.Prelude.Dict.{Dict, get}
use ha_zte_router_5g_monitor.Prelude.Int.{ℤ, pos, negsuc}

-- `opaque t s` is any other object (a float, a list, a dict, a date): all that the code here asks of
-- such a value is its truth `bool(value)` and its text `str(value)`.
pub data Value : Type 0 where
  null : Value
  flag : Bool → Value
  int : ℤ → Value
  text : String → Value
  opaque : Bool → String → Value

abbrev pub Payload : Type 0
Payload = Dict Value

-- `payload.get(key)`.
abbrev pub read : Payload → String → Value
read d k = elim (get d k) [ none ↦ null | some v ↦ v ]

-- `value in (None, "")`.
unfoldable pub blank : Value → Bool
blank null = true
blank (text s) = str_eq s ""
blank _ = false

-- `bool(value)`.
unfoldable pub truthy : Value → Bool
truthy null = false
truthy (flag b) = b
truthy (int (pos n)) = ltb 0 n
truthy (int (negsuc n)) = true
truthy (text s) = not (str_eq s "")
truthy (opaque t s) = t

digit : ℕ → String
digit d =
    if d == 0
    then "0"
    else if d == 1
    then "1"
    else if d == 2
    then "2"
    else if d == 3
    then "3"
    else if d == 4
    then "4"
    else if d == 5
    then "5"
    else if d == 6
    then "6"
    else if d == 7
    then "7"
    else if d == 8
    then "8"
    else "9"

-- The decimal digits of a number, on fuel: a number has fewer digits than its value plus one.
decimal_on : ℕ → ℕ → String → String
unfolding digit
decimal_on zero n tail = tail
decimal_on (suc fuel) n tail =
    let rest = decimal_on fuel (n / 10) (append (digit (n % 10)) tail) in
    if ltb n 10 then append (digit n) tail else rest

unfoldable pub decimal : ℕ → String
unfolding decimal_on
decimal n = decimal_on (suc n) n ""

-- `str(value)`.
unfoldable pub str_of : Value → String
unfolding decimal
str_of null = "None"
str_of (flag true) = "True"
str_of (flag false) = "False"
str_of (int (pos n)) = decimal n
str_of (int (negsuc n)) = append "-" (decimal (suc n))
str_of (text s) = s
str_of (opaque t s) = s

-- `str.isspace` of one character.
is_space : Char → Bool
is_space c =
    let n = code c in
    leb 9 n && leb n 13
    || leb 28 n && leb n 32
    || n == 0x85
    || n == 0xa0
    || n == 0x1680
    || leb 0x2000 n && leb n 0x200a
    || n == 0x2028
    || n == 0x2029
    || n == 0x202f
    || n == 0x205f
    || n == 0x3000

strip_left : String → String
unfolding is_space
strip_left String.[] = String.[]
strip_left (String.◌∷◌ c s) = let rest = strip_left s in if is_space c then rest else String.◌∷◌ c s

strip_right : String → String
unfolding is_space
strip_right String.[] = String.[]
strip_right (String.◌∷◌ c s) =
    let rest = strip_right s in
    if is_space c && str_eq rest "" then String.[] else String.◌∷◌ c rest

-- `text.strip()`.
unfoldable pub strip : String → String
unfolding strip_left strip_right
strip s = strip_left (strip_right s)

strip_test : strip "  LTE \t" ≡ "LTE"
unfolding strip
strip_test = refl

str_of_test : str_of (int (negsuc 4095)) ≡ "-4096"
unfolding str_of
str_of_test = refl
