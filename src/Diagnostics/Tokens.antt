-- ===== src/Diagnostics/Tokens.antt =====
-- `_Tokenizer` and `_sweep` (custom_components/zte_router_5g/diagnostics.py). What the regular expressions
-- find in a text is an argument.
use Prim.Native.String.{◌++◌ as append}
use ha_zte_router_5g_monitor.Prelude.{
  ℕ, suc, Bool, ◌&&◌, Option, none, some, List, [], ◌∷◌, String, str_eq, if◌then◌else◌,
}
use ha_zte_router_5g_monitor.Prelude.Dict.{Dict, get_or, put}
use ha_zte_router_5g_monitor.Value.{decimal, strip}

-- The tokens given so far, by prefix and value, the number of each prefix, and the values redacted.
pub record Tokenizer : Type 0 where
  pub tokens : List ((String × String) × String)
  pub counts : Dict ℕ
  pub secrets : List String

-- `_Tokenizer()`.
abbrev pub new_tokenizer : Tokenizer
new_tokenizer = record { tokens = []; counts = []; secrets = [] }

-- `_tokens.get((prefix, value))`.
unfoldable pub find : String → String → List ((String × String) × String) → Option String
find prefix value [] = none
find prefix value (((p, v), token) ∷ rest) =
    let later = find prefix value rest in
    if str_eq p prefix && str_eq v value then some token else later

-- `_Tokenizer.token`.
abbrev pub new_token : String → String → Tokenizer → String × Tokenizer
new_token prefix value t =
    let count = suc (get_or t.counts prefix 0) in
    let name = append prefix (append "-" (decimal count)) in
    (
      name,
      record t { tokens = ((prefix, value), name) ∷ t.tokens; counts = put t.counts prefix count },
    )

abbrev pub given : Option String → String → String → Tokenizer → String × Tokenizer
given none prefix value t = new_token prefix value t
given (some name) prefix value t = (name, t)

unfoldable pub token : String → String → Tokenizer → String × Tokenizer
token prefix value t = given (find prefix value t.tokens) prefix value t

-- `_Tokenizer.note`.
abbrev pub note : String → Tokenizer → Tokenizer
note value t = record t { secrets = value ∷ t.secrets }

-- A text as a regular expression divides it: what it matches, and what lies between.
pub data Piece : Type 0 where
  between found : String → Piece

-- The regular expressions: `_NATIONAL_PHONE_RE.match`, the pieces by `_IP_RE`, `_MAC_RE`,
-- `_INTL_PHONE_RE` and `_LONG_DIGITS_RE`, and what `_PDP_RE` finds.
pub record Patterns : Type 0 where
  pub national : String → Bool
  pub ip : String → List Piece
  pub mac : String → List Piece
  pub international : String → List Piece
  pub digits : String → List Piece
  pub pdp : String → Option String

-- `sub`, with a token for each match.
unfoldable pub substitute : String → List Piece → Tokenizer → String × Tokenizer
substitute prefix [] t = ("", t)
substitute prefix (between s ∷ ps) t =
    let (rest, t') = substitute prefix ps t in (append s rest, t')
substitute prefix (found s ∷ ps) t =
    let (name, t') = token prefix s t in
    let (rest, t'') = substitute prefix ps t' in (append name rest, t'')

-- `_sweep`.
unfoldable pub sweep : Patterns → String → Tokenizer → String × Tokenizer
sweep p value t =
    let (a, t1) = substitute "ip" (p.ip value) t in
    let (b, t2) = substitute "mac" (p.mac a) t1 in
    let (c, t3) = substitute "phone" (p.international b) t2 in
    let whole = token "phone" (strip value) t in
    let swept = substitute "id" (p.digits c) t3 in if p.national value then whole else swept
