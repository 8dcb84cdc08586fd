-- ===== src/Api/Writes.antt =====
-- `_is_refusal`, `_require_success`, `_require_write_success` and `_retry_once_on_refusal`
-- (custom_components/zte_router_5g/api.py): a write, its result, and its one repetition. Whether
-- `note_write_refusal` finds after a refusal that the session has ended is an argument, `denied`, and the
-- reads by which it does are left out, as is the token with which a write is built, so the repetition puts
-- the same call.
use Prim.Native.Char.{code}
use Prim.Native.String.{String}
use ha_zte_router_5g_monitor.Prelude.{
  ℕ, ◌+◌, ◌≤◌, ◌≡◌, refl, Bool, true, false, ◌&&◌, ◌||◌, not, leb, ◌==◌, if◌then◌else◌, arith, ◌⊎◌,
  inl, inr,
}
use ha_zte_router_5g_monitor.Value.{Value, null, read, str_of}
use ha_zte_router_5g_monitor.Api.Request.Client.{
  Call, Json, dict, other, World, Client, Outcome, returned, raised, out_of_fuel, auth,
}
use ha_zte_router_5g_monitor.Api.Request.Perform.{is_write, request}
use ha_zte_router_5g_monitor.Api.Request.Bounds.{write_sent_once}

-- `str.lower`, on the letters of the words below: the Latin ones, and the sign for kelvin, whose small
-- letter is k.
abbrev lowered : ℕ → ℕ
lowered n = if leb 65 n && leb n 90 then n + 32 else if n == 0x212a then 107 else n

-- `text.lower() == word`, for a word in small letters.
abbrev pub lowers_to : String → String → Bool
lowers_to String.[] String.[] = true
lowers_to (String.◌∷◌ c s) (String.◌∷◌ d t) = lowered (code c) == code d && lowers_to s t
lowers_to _ _ = false

abbrev is_null : Value → Bool
is_null null = true
is_null _ = false

-- `_is_refusal`.
unfoldable pub is_refusal : Json → Bool
is_refusal other = false
is_refusal (dict d) =
    let text = str_of (read d "result") in
    not (is_null (read d "result"))
    && not (lowers_to text "success" || (lowers_to text "0" || lowers_to text "ok"))

-- What a write comes to: the response, a `ZTEWriteRefusedError`, or the end of its request.
pub data Written : Type 0 where
  done : Json → Written
  declined : Written
  broken : Outcome → Written

abbrev pub require_success : Outcome → Written
require_success (returned j) = if is_refusal j then declined else done j
require_success o = broken o

-- `_require_write_success`: a refusal by a session that has ended is an authentication error.
abbrev pub require_write_success : Bool → Outcome → Written
require_write_success denied (returned j) =
    if is_refusal j && denied then broken (raised auth) else require_success (returned j)
require_write_success denied o = require_success o

-- A write and its `_require_write_success`.
unfoldable pub write : (Client → Bool) → World → Call → Client → Written × Client
write denied w call c = let (o, c') = request w call c in (require_write_success (denied c') o, c')

-- `_retry_once_on_refusal`, around any method.
unfoldable pub retry_once {ℓ} : {S : Type ℓ} → (S → Written × S) → S → Written × S
retry_once method s =
    let (first, s') = method s in
    elim first [ declined ↦ method s' | done j ↦ (done j, s') | broken o ↦ (broken o, s') ]

written_cases :
    (x : Written)
    → (x ≡ declined) ⊎ (((j : Json) × (x ≡ done j)) ⊎ ((o : Outcome) × (x ≡ broken o)))
written_cases (done j) = inr (inl (j, refl))
written_cases declined = inl refl
written_cases (broken o) = inr (inr (o, refl))

write_sends :
    (denied : Client → Bool) (w : World) (call : Call) (c : Client)
    → is_write call ≡ true
    → (write denied w call c).1.sends ≤ c.sends + 1
unfolding write
write_sends denied w call c h = (write_sent_once w call c h).0

require_declined : (d : Bool) (o : Outcome) → require_write_success d o ≡ declined → d ≡ false
require_declined d (returned j) e = let r = is_refusal j in ground arith
require_declined d (raised f) e = ground arith
require_declined d out_of_fuel e = ground arith

declined_live :
    (denied : Client → Bool) (w : World) (call : Call) (c : Client)
    → (write denied w call c).0 ≡ declined
    → denied (write denied w call c).1 ≡ false
unfolding write
declined_live denied w call c e =
    require_declined (denied (request w call c).1) (request w call c).0 e

-- A write under the retry is sent twice at most, and the method is run a second time only where the
-- first run ended in an explicit refusal and the session was not found to have ended: an error, which may
-- mean that the write was carried out, is never followed by another.
pub retried_write :
    (denied : Client → Bool) (w : World) (call : Call) (c : Client)
    → is_write call ≡ true
    → ((retry_once (write denied w call) c).1.sends ≤ c.sends + 2)
      × ((((write denied w call c).0 ≡ declined) × (denied (write denied w call c).1 ≡ false))
          ⊎ (retry_once (write denied w call) c ≡ write denied w call c))
unfolding retry_once
retried_write denied w call c h =
    let once = write_sends denied w call c h in
    let twice = write_sends denied w call (write denied w call c).1 h in
    elim (written_cases (write denied w call c).0) [
      | inl d ↦ (ground (arith, once, twice), inl (d, declined_live denied w call c d))
      | inr (inl (j, e)) ↦ (ground (arith, once), inr (ground (arith, e)))
      | inr (inr (o, e)) ↦ (ground (arith, once), inr (ground (arith, e)))
    ]
