-- ===== src/Sms.antt =====
-- The messages that the router holds: which of them are announced (`_check_new_sms`,
-- custom_components/zte_router_5g/coordinator.py) and which are deleted (`_messages_beyond_the_newest`,
-- custom_components/zte_router_5g/__init__.py). The instant that a date names (`sms_instant`) is an
-- argument.
pub mod Sorting
pub mod Kept
pub mod Announced
use Prim.Native.String.{◌++◌ as append}
use ha_zte_router_5g_monitor.Prelude.{
  ℕ, zero, suc, Bool, true, false, ◌&&◌, ◌||◌, not, Option, none, some, List, [], ◌∷◌, ◌++◌, String,
  leb, ltb, ◌==◌, map, keep_if, drop, if◌then◌else◌, last?,
}
use ha_zte_router_5g_monitor.Prelude.Names.{member, add}
use ha_zte_router_5g_monitor.Value.{Value}

-- A message: `id`, its number `int(id)`, and `date_decoded` with its text.
pub record Sms : Type 0 where
  pub id : String
  pub number : ℕ
  pub date : Value
  pub date_text : String

-- A stable sort, which Python's `sort` is: `precedes x y` where `x` may stay in front of `y`.
unfoldable pub insert_by {ℓ} : {A : Type ℓ} → (A → A → Bool) → A → List A → List A
insert_by precedes x [] = x ∷ []
insert_by precedes x (y ∷ ys) =
    let rest = insert_by precedes x ys in if precedes x y then x ∷ y ∷ ys else y ∷ rest

unfoldable pub sort_by {ℓ} : {A : Type ℓ} → (A → A → Bool) → List A → List A
unfolding insert_by
sort_by precedes [] = []
sort_by precedes (x ∷ xs) = insert_by precedes x (sort_by precedes xs)

-- A message with its instant.
abbrev pub Dated : Type 0
Dated = ℕ × Sms

abbrev pub earlier : Dated → Dated → Bool
earlier x y = leb x.0 y.0

abbrev pub later : Dated → Dated → Bool
later x y = leb y.0 x.0

abbrev pub higher : Sms → Sms → Bool
higher x y = leb y.number x.number

abbrev pub drop_instant : Dated → Sms
drop_instant x = x.1

-- `last_sms_timestamp` and `fired_sms_hashes`.
pub record Tracking : Type 0 where
  pub last_timestamp : Value
  pub fired : List String

-- `f"{msg['id']}_{msg['date_decoded']}"`.
unfoldable pub hash_of : Sms → String
hash_of m = append m.id (append "_" m.date_text)

abbrev pub with_instant : Option ℕ → Sms → List Dated → List Dated
with_instant none m rest = rest
with_instant (some i) m rest = (i, m) ∷ rest

abbrev pub without_instant : Option ℕ → Sms → List Sms → List Sms
without_instant none m rest = m ∷ rest
without_instant (some i) m rest = rest

-- The first run: the newest message sets the baseline.
unfoldable pub establish : List Dated → Dated → Tracking
establish all (latest, m) = record {
  last_timestamp = m.date;
  fired = map hash_of (map drop_instant (keep_if (λ (x : Dated). x.0 == latest) all));
}

-- A message that is to be announced, behind a baseline.
unfoldable pub is_new : ℕ → List String → Dated → Bool
is_new baseline fired (i, m) = ltb baseline i || (i == baseline && not (member (hash_of m) fired))

-- The loop over the new messages, with `baseline`.
unfoldable pub track : List Dated → ℕ → Tracking → Tracking
track [] baseline s = s
track ((i, m) ∷ ms) baseline s = elim (ltb baseline i) [
  | true ↦ track ms i (record { last_timestamp = m.date; fired = hash_of m ∷ [] })
  | false ↦ track ms baseline (record s { fired = add (hash_of m) s.fired })
]

-- A check of the messages in their order, with the instant of the state.
unfoldable pub check_sorted : List Dated → Option ℕ → Tracking → List Dated × Tracking
unfolding establish
check_sorted [] baseline s = ([], s)
check_sorted (x ∷ xs) none s = elim (last? (x ∷ xs)) [
  | none ↦ ([], s)
  | some y ↦ ([], establish (x ∷ xs) y)
]
check_sorted (x ∷ xs) (some baseline) s =
    let new = keep_if (is_new baseline s.fired) (x ∷ xs) in (new, track new baseline s)

module _ (instant : Value → Option ℕ) where
  -- The messages whose date names an instant, and the others.
  unfoldable pub dated : List Sms → List Dated
  dated [] = []
  dated (m ∷ ms) = with_instant (instant m.date) m (dated ms)

  unfoldable pub undated : List Sms → List Sms
  undated [] = []
  undated (m ∷ ms) = without_instant (instant m.date) m (undated ms)

  -- `ordered` of `_messages_beyond_the_newest`.
  unfoldable pub newest_first : List Sms → List Sms
  unfolding sort_by
  newest_first ms = map drop_instant (sort_by later (dated ms)) ++ sort_by higher (undated ms)

  -- `_messages_beyond_the_newest`.
  unfoldable pub messages_beyond_the_newest : List Sms → ℕ → List Sms
  messages_beyond_the_newest ms keep_last = drop keep_last (newest_first ms)

  -- `_check_new_sms`: the messages announced, and the state behind them.
  unfoldable pub check_new_sms : List Sms → Tracking → List Dated × Tracking
  unfolding check_sorted
  check_new_sms ms s = check_sorted (sort_by earlier (dated ms)) (instant s.last_timestamp) s
