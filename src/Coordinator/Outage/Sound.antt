-- ===== src/Coordinator/Outage/Sound.antt =====
-- What holds of the expected-outage window (custom_components/zte_router_5g/coordinator.py) between
-- its handlers.
use ha_zte_router_5g_monitor.Prelude.{
  ℕ, zero, suc, ◌+◌, ◌-◌, ◌≤◌, ◌<◌, ◌≡◌, refl, ◌∙◌, Bool, true, false, ◌&&◌, ◌||◌, not, Option,
  none, some, List, [], ◌∷◌, ◌++◌, length, drop, last?, arith, leb, if◌then◌else◌,
}
use ha_zte_router_5g_monitor.Coordinator.Outage.{
  Reason, ClosedBy, cap, no_outage, answer, Expected, Entry, Window, Tick, append, amend, schedule,
  open_window, ended_by, unsettled, close, opening,
}

abbrev pub is_some {ℓ} : {A : Type ℓ} → Option A → Bool
is_some none = false
is_some (some _) = true

last?-append : (es : List Entry) (e : Entry) → last? (es ++ e ∷ []) ≡ some e
last?-append [] e = refl
last?-append (x ∷ []) e = refl
last?-append (x ∷ y ∷ es) e = last?-append (y ∷ es) e

length-drop : (n : ℕ) (es : List Entry) → length (drop n es) ≡ length es - n
length-drop zero es = omega arith
length-drop (suc n) [] = omega arith
length-drop (suc n) (x ∷ es) = omega (arith, length-drop n es)

length-snoc : (es : List Entry) (e : Entry) → length (es ++ e ∷ []) ≡ suc (length es)
length-snoc [] e = refl
length-snoc (x ∷ es) e = omega (arith, length-snoc es e)

last?-drop : (n : ℕ) (es : List Entry) → n < length es → last? (drop n es) ≡ last? es
last?-drop zero es lt = refl
last?-drop (suc n) [] lt = ground arith
last?-drop (suc n) (x ∷ []) lt = ground arith
last?-drop (suc n) (x ∷ y ∷ es) lt = last?-drop n (y ∷ es) (omega arith)

last_append : (e : Entry) (es : List Entry) → last? (append e es) ≡ some e
unfolding append
last_append e es =
    let k = last?-drop (length (es ++ e ∷ []) - 5) (es ++ e ∷ []) in
    let n = length-snoc es e in let l = last?-append es e in k (omega arith) ∙ l

length-append_le : (e : Entry) (es : List Entry) → length (append e es) ≤ 5
unfolding append
length-append_le e es = omega (arith, length-drop (length (es ++ e ∷ []) - 5) (es ++ e ∷ []))

pub length-amend : (f : Entry → Entry) (es : List Entry) → length (amend f es) ≡ length es
unfolding amend
length-amend f [] = refl
length-amend f (e ∷ []) = refl
length-amend f (e ∷ x ∷ es) = omega (arith, length-amend f (x ∷ es))

pub last?-amend :
    (f : Entry → Entry) (es : List Entry) (e : Entry)
    → last? es ≡ some e
    → last? (amend f es) ≡ some (f e)
unfolding amend
last?-amend f [] e h = ground arith
last?-amend f (x ∷ []) e h = ground arith
last?-amend f (x ∷ y ∷ []) e h = ground arith
last?-amend f (x ∷ y ∷ z ∷ es) e h = last?-amend f (y ∷ z ∷ es) e h

-- The record of the window that is open.
pub record IsCurrent (w : Window) (e : Entry) : Type 0 where
  pub latest : last? w.entries ≡ some e
  pub unclosed : e.closed_by ≡ none
  pub unmeasured : w.awaiting_drop ≡ true → e.down_at ≡ none
  pub dropped : w.awaiting_drop ≡ false → is_some e.down_at ≡ true

-- The check is armed exactly while a window is open; five records are kept; the last of them is that
-- of the open window, which is not closed, and which says when the router went down exactly when
-- that is no longer awaited.
pub record IsSound (w : Window) : Type 0 where
  pub armed : is_some w.timer ≡ is_some w.expected
  pub resting : w.expected ≡ none → w.awaiting_drop ≡ false
  pub few : length w.entries ≤ 5
  pub current : is_some w.expected ≡ true → (e : Entry) × IsCurrent w e

length-close :
    (by : ClosedBy) (t : Tick) (w : Window) → length (close by t w).entries ≡ length w.entries
unfolding close
length-close by t w =
    let k = length-amend (ended_by by t.closed_at) w.entries in
    let u = unsettled by w.expected t.status in ground arith

pub close-IsSound :
    (by : ClosedBy) (t : Tick) (w : Window) → length w.entries ≤ 5 → IsSound (close by t w)
unfolding close
close-IsSound by t w few =
    let u = unsettled by w.expected t.status in
    record {
      armed = ground arith;
      resting = ground arith;
      few = omega (arith, length-close by t w);
      current = ground arith;
    }

pub schedule-IsSound :
    (now : ℕ) (w : Window) (e : Entry)
    → is_some w.expected ≡ true
    → length w.entries ≤ 5
    → IsCurrent w e
    → IsSound (schedule now w)
unfolding schedule
schedule-IsSound now w e o few c = record {
  armed = ground arith;
  resting = ground arith;
  few = few;
  current = λ _. (
    e,
    record {
      latest = c.latest;
      unclosed = c.unclosed;
      unmeasured = c.unmeasured;
      dropped = c.dropped;
    },
  );
}

-- Whatever was there before, an opened window is sound: its check is armed.
pub open_window-IsSound :
    (reason : Reason) (cap_seconds now wall : ℕ) (w : Window)
    → IsSound (open_window reason cap_seconds now wall w)
unfolding open_window
open_window-IsSound reason cap_seconds now wall w =
    let entry = opening reason cap_seconds wall in
    schedule-IsSound now _ entry refl (length-append_le entry w.entries) (record {
      latest = last_append entry w.entries;
      unclosed = refl;
      unmeasured = ground arith;
      dropped = ground arith;
    })

-- The router answers, the closing poll succeeds, and the drop was seen or twenty seconds have passed
-- since the window was opened.
abbrev pub may_close : Tick → Window → Bool
may_close t w =
    t.answered && t.polled && (not w.awaiting_drop || leb (w.opened_mono + 20000) t.probed)

-- One run of the check of an open window, by when it fires and what it meets: the window stays open with
-- the check armed again, or it is closed by the cap, by a router that never dropped, or by one that
-- dropped and is back.
pub data Outcome (t : Tick) (w w' : Window) : Type 0 where
  waits :
      (x : Expected)
      → w.expected ≡ some x
      → t.fired < x.deadline
      → may_close t w ≡ false
      → w'.expected ≡ w.expected
      → w'.awaiting_drop ≡ (w.awaiting_drop && t.answered)
      → w'.timer ≡ some (t.ended + (if w'.awaiting_drop then 1000 else 5000))
      → Outcome t w w'
  capped :
      (x : Expected) (e : Entry)
      → w.expected ≡ some x
      → x.deadline ≤ t.fired
      → w'.expected ≡ none
      → last? w'.entries ≡ some e
      → e.closed_by ≡ some cap
      → Outcome t w w'
  never_dropped :
      (x : Expected) (e : Entry)
      → w.expected ≡ some x
      → t.fired < x.deadline
      → may_close t w ≡ true
      → w.awaiting_drop ≡ true
      → w'.expected ≡ none
      → last? w'.entries ≡ some e
      → e.closed_by ≡ some no_outage
      → e.down_at ≡ none
      → Outcome t w w'
  returned :
      (x : Expected) (e : Entry)
      → w.expected ≡ some x
      → t.fired < x.deadline
      → may_close t w ≡ true
      → w.awaiting_drop ≡ false
      → w'.expected ≡ none
      → last? w'.entries ≡ some e
      → e.closed_by ≡ some answer
      → is_some e.outage ≡ true
      → Outcome t w w'
