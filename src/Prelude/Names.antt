-- ===== src/Prelude/Names.antt =====
-- Python's `set` and `frozenset` of strings: a list, read only through `member`.
use Prim.Native.String.{String}
use mathlib.Core.Path.{◌≡◌, refl}
use mathlib.Core.Bool.{Bool, false, ◌&&◌, ◌||◌, not}
use mathlib.Core.List.{List, [], ◌∷◌, ◌++◌}
use native.Mathlib.Omega.{arith}
use text.Mathlib.Text.{◌==◌}
use text.Mathlib.TextEquality.{eq_iff}
use ha_zte_router_5g_monitor.Prelude.Tests.{if◌then◌else◌}

-- `name in names`.
abbrev pub member : String → List String → Bool
member n [] = false
member n (m ∷ ms) = m == n || member n ms

-- `names.add(name)`; a name that is there is not added again.
unfoldable pub add : String → List String → List String
add n ms = if member n ms then ms else n ∷ ms

-- `names | others`.
unfoldable pub union : List String → List String → List String
unfolding add
union [] ms = ms
union (n ∷ ns) ms = add n (union ns ms)

-- `names.discard(name)`.
unfoldable pub discard : String → List String → List String
discard n [] = []
discard n (m ∷ ms) = let rest = discard n ms in if m == n then rest else m ∷ rest

-- `names - others` and `names & others`.
unfoldable pub difference : List String → List String → List String
difference [] ms = []
difference (n ∷ ns) ms = let rest = difference ns ms in if member n ms then rest else n ∷ rest

unfoldable pub intersection : List String → List String → List String
intersection [] ms = []
intersection (n ∷ ns) ms = let rest = intersection ns ms in if member n ms then n ∷ rest else rest

pub member-add : (n m : String) (ms : List String) → member m (add n ms) ≡ (n == m || member m ms)
unfolding add
member-add n m ms = ground (arith, eq_iff n m)

pub member-union :
    (m : String) (ns ms : List String) → member m (union ns ms) ≡ (member m ns || member m ms)
unfolding union
member-union m [] ms = refl
member-union m (n ∷ ns) ms = ground (arith, member-add n m (union ns ms), member-union m ns ms)

pub member-append :
    (m : String) (ns ms : List String) → member m (ns ++ ms) ≡ (member m ns || member m ms)
member-append m [] ms = refl
member-append m (n ∷ ns) ms = ground (arith, member-append m ns ms)

pub member-discard :
    (n m : String) (ms : List String) → member m (discard n ms) ≡ (not (n == m) && member m ms)
unfolding discard
member-discard n m [] = ground arith
member-discard n m (x ∷ ms) =
    ground (arith, member-discard n m ms, eq_iff x n, eq_iff n m, eq_iff x m)

pub member-difference :
    (m : String) (ns ms : List String)
    → member m (difference ns ms) ≡ (member m ns && not (member m ms))
unfolding difference
member-difference m [] ms = refl
member-difference m (n ∷ ns) ms = ground (arith, member-difference m ns ms, eq_iff n m)

pub member-intersection :
    (m : String) (ns ms : List String)
    → member m (intersection ns ms) ≡ (member m ns && member m ms)
unfolding intersection
member-intersection m [] ms = refl
member-intersection m (n ∷ ns) ms = ground (arith, member-intersection m ns ms, eq_iff n m)
