-- ===== src/Api/Discovery/Exchange.antt =====
-- A device that keeps a log of what it was asked, and what `_probe_chunk`
-- (custom_components/zte_router_5g/api.py) leaves there.
use ha_zte_router_5g_monitor.Prelude.{
  ◌≡◌, Bool, true, false, ◌&&◌, ◌||◌, not, List, [], ◌∷◌, ◌++◌, String, any, arith, Bool-cases, inl,
  inr, eq_iff,
}
use ha_zte_router_5g_monitor.Prelude.Names.{member, member-append}
use ha_zte_router_5g_monitor.Prelude.Dict.{Dict}
use ha_zte_router_5g_monitor.Value.{null, flag, int, text, opaque, Payload, read}
use ha_zte_router_5g_monitor.Api.Request.Client.{
  dict, other, Outcome, returned, raised, out_of_fuel,
}
use ha_zte_router_5g_monitor.Api.Discovery.{
  Device, answered, not_router_fields, has, has_text, harvest, with_canaries, heard, judge,
  probe_chunk,
}

-- The names of a request, and what it came to.
abbrev pub Exchange : Type 0
Exchange = List String × Outcome

-- The device, with the log of its requests, the last one first.
unfoldable pub logged {ℓ} : {S : Type ℓ} → Device S → Device (S × List Exchange)
logged device = record {
  ask = λ names (s, log). let (o, s') = device.ask names s in (o, (s', (names, o) ∷ log));
  read_first = λ (s, log). let (batch, s') = device.read_first s in (batch, (s', log));
  renew = λ (s, log). let (done, s') = device.renew s in (done, (s', log));
  late = λ (s, log). device.late s;
}

-- A request that asked for the name and was answered in session, without a value for it.
abbrev pub silent_in : List String → String → Exchange → Bool
silent_in canaries n (names, returned (dict d)) =
    member n names && (heard canaries d && not (has_text (read d n)))
silent_in canaries n _ = false

abbrev pub is_silent : List String → String → List Exchange → Bool
is_silent canaries n log = any (silent_in canaries n) log

-- A name that can be told from the outcome of a request and from a canary.
abbrev pub is_plain : List String → String → Bool
is_plain canaries n = not (member n not_router_fields) && not (member n canaries)

harvest_complete :
    (canaries : List String) (d : Payload) (n : String)
    → is_plain canaries n ≡ true
    → has_text (read d n) ≡ true
    → has (harvest canaries d) n ≡ true
unfolding harvest
harvest_complete canaries [] n p h = ground arith
harvest_complete canaries ((k, text s) ∷ d) n p h =
    let rest = harvest_complete canaries d n p in ground (arith, rest, eq_iff k n)
harvest_complete canaries ((k, null) ∷ d) n p h = ground (arith, harvest_complete canaries d n p)
harvest_complete canaries ((k, flag b) ∷ d) n p h = ground (arith, harvest_complete canaries d n p)
harvest_complete canaries ((k, int z) ∷ d) n p h = ground (arith, harvest_complete canaries d n p)
harvest_complete canaries ((k, opaque b s) ∷ d) n p h =
    ground (arith, harvest_complete canaries d n p)

member-with_canaries :
    (request canaries : List String) (n : String)
    → member n request ≡ true
    → member n (with_canaries request canaries) ≡ true
unfolding with_canaries
member-with_canaries request [] n h = h
member-with_canaries request (c ∷ cs) n h = elim (Bool-cases (member c request)) [
  | inl e ↦ ground (arith, e, member-with_canaries request cs n h)
  | inr e ↦
      ground
        (arith, e, member-append n request (c ∷ []), member-with_canaries (request ++ c ∷ []) cs n)
]

judge_hears :
    (canaries chunk names : List String) (o : Outcome) (d : Dict String) (n : String)
    → judge canaries chunk names o ≡ answered d
    → is_plain canaries n ≡ true
    → member n names ≡ true
    → has d n || silent_in canaries n (names, o) ≡ true
unfolding judge
judge_hears canaries chunk names (returned (dict m)) d n e p h =
    ground (arith, harvest_complete canaries m n p)
judge_hears canaries chunk names (returned other) d n e p h = ground arith
judge_hears canaries [] names (raised f) d n e p h = ground arith
judge_hears canaries (c ∷ cs) names (raised f) d n e p h = ground arith
judge_hears canaries [] names out_of_fuel d n e p h = ground arith
judge_hears canaries (c ∷ cs) names out_of_fuel d n e p h = ground arith

module _ {ℓ} {S : Type ℓ} (device : Device S) (canaries : List String) (n : String) where
  abbrev pub seen : S × List Exchange → Bool
  seen s = is_silent canaries n s.1

  pub probe_chunk_remembers :
      (chunk : List String) (s : S × List Exchange)
      → seen s ≡ true
      → seen (probe_chunk (logged device) canaries chunk s).1 ≡ true
  unfolding probe_chunk logged
  probe_chunk_remembers chunk (s, log) h = ground arith

  -- A name of a chunk that was answered has a value in the answer, or was asked for and is silent.
  pub probe_chunk_hears :
      (chunk : List String) (s : S × List Exchange) (d : Dict String)
      → (probe_chunk (logged device) canaries chunk s).0 ≡ answered d
      → is_plain canaries n ≡ true
      → member n chunk ≡ true
      → has d n || seen (probe_chunk (logged device) canaries chunk s).1 ≡ true
  unfolding probe_chunk logged
  probe_chunk_hears chunk (s, log) d e p h = ground (
    arith,
    judge_hears canaries chunk (with_canaries chunk canaries)
        (device.ask (with_canaries chunk canaries) s).0 d n e p
        (member-with_canaries chunk canaries n h),
  )
