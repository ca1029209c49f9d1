-- ===== src/Escrow/Window.antt =====
-- How many operations the rate limiter allows in a window.
use current_dao_contracts.Base.{
  ℕ, suc, ◌+◌, ◌≤◌, ◌<◌, ◌⊎◌, inl, inr, Bool-cases, ◌&&◌, ◌-◌, length, leb, ℤ, ◌+ℤ◌, ◌≤ℤ◌, ◌<ℤ◌,
  leb_ℤ, -ℤ_parts, +ℤ_parts, String, ◌==◌, eq_iff, Bool, true, none, List, [], ◌∷◌, ◌++◌, Dict, get,
  get_or, IsKeyed, set-IsKeyed, get-set, ⊤, ◌≡◌, refl, arith, if◌then◌else◌,
}
use current_dao_contracts.Escrow.Limiter.{recent, cleanup, check_operation}

abbrev pub times_of : String → Dict (List ℤ) → List ℤ
times_of who operations = get_or (get who operations) []

-- How many of the times are at `start` or later.
abbrev pub from_on : ℤ → List ℤ → ℕ
from_on start [] = 0
from_on start (t ∷ ts) = let rest = from_on start ts in if leb_ℤ start t then suc rest else rest

-- The operations in turn, each at its time by its actor: how many of `who` are allowed.
unfoldable pub allowed : ℕ → ℤ → String → List (ℤ × String) → Dict (List ℤ) → ℕ
unfolding check_operation
allowed max window who [] operations = 0
allowed max window who ((now, actor) ∷ rest) operations =
    let (passed, next) = check_operation max window now actor operations in
    let later = allowed max window who rest next in
    if passed then if actor == who then suc later else later else later

-- All times are in the window that begins at `start`.
abbrev pub InWindow : ℤ → ℤ → List (ℤ × String) → Type 0
InWindow start window [] = ⊤
InWindow start window ((now, actor) ∷ rest) =
    (start ≤ℤ now) × (now <ℤ start +ℤ window) × InWindow start window rest

cleanup-get-none :
    (who : String) (window now : ℤ) (m : Dict (List ℤ))
    → get who m ≡ none
    → get who (cleanup window now m) ≡ none
unfolding cleanup
cleanup-get-none who window now [] h = refl
cleanup-get-none who window now ((a, ts) ∷ m) h =
    ground (arith, eq_iff a who, cleanup-get-none who window now m)

pub cleanup-IsKeyed :
    (window now : ℤ) (m : Dict (List ℤ)) → IsKeyed m → IsKeyed (cleanup window now m)
unfolding cleanup
cleanup-IsKeyed window now [] h = tt
cleanup-IsKeyed window now ((a, ts) ∷ m) h =
    ground (arith, cleanup-get-none a window now m h.0, cleanup-IsKeyed window now m h.1)

pub cleanup-times :
    (who : String) (window now : ℤ) (m : Dict (List ℤ))
    → IsKeyed m
    → times_of who (cleanup window now m) ≡ recent window now (times_of who m)
unfolding cleanup
cleanup-times who window now [] h = refl
cleanup-times who window now ((a, ts) ∷ m) h =
    ground
      (arith, eq_iff a who, cleanup-get-none a window now m h.0, cleanup-times who window now m h.1)

from_on-recent :
    (start window now : ℤ) (ts : List ℤ)
    → start ≤ℤ now
    → now <ℤ start +ℤ window
    → from_on start (recent window now ts) ≡ from_on start ts
from_on-recent start window now [] h k = refl
from_on-recent start window now (t ∷ ts) h k =
    ground (arith, from_on-recent start window now ts h k, -ℤ_parts now t, +ℤ_parts start window)

from_on-append :
    (start t : ℤ) (ts : List ℤ)
    → from_on start (ts ++ (t ∷ [])) ≡ from_on start ts + from_on start (t ∷ [])
from_on-append start t [] = omega arith
from_on-append start t (u ∷ ts) = ground (arith, from_on-append start t ts)

from_on_le : (start : ℤ) (ts : List ℤ) → from_on start ts ≤ length ts
from_on_le start [] = omega arith
from_on_le start (t ∷ ts) = ground (arith, from_on_le start ts)

-- What one operation does to the times of `who`.
check_times :
    (max : ℕ) (window now : ℤ) (actor who : String) (m : Dict (List ℤ))
    → IsKeyed m
    → let (passed, next) = check_operation max window now actor m in
      let kept = recent window now (times_of who m) in
      IsKeyed next
      × ((times_of who next ≡ kept)
          ⊎ ((passed ≡ true)
              × (actor ≡ who)
              × (length (recent window now kept) < max)
              × (times_of who next ≡ recent window now kept ++ (now ∷ []))))
      × ((passed && actor == who) ≡ true → times_of who next ≡ recent window now kept ++ (now ∷ []))
unfolding check_operation
check_times max window now actor who m keyed =
    let c = cleanup window now m in
    let c_keyed = cleanup-IsKeyed window now m keyed in
    let own = cleanup-times actor window now m keyed in
    let others = cleanup-times who window now m keyed in
    let times = recent window now (times_of actor c) in
    let v = times ++ (now ∷ []) in
    let written = get-set actor who v c in
    let later = set-IsKeyed actor v c c_keyed in
    let e = eq_iff actor who in
    elim (Bool-cases (leb max (length times))) [
      | inl full ↦ (ground arith, inl (ground arith), ground arith)
      | inr room ↦ elim (Bool-cases (actor == who)) [
        | inr other ↦ (ground arith, inl (ground arith), ground arith)
        | inl same ↦
            let k = e.0 same in
            (ground arith, inr (ground arith, k, ground arith, ground arith), ground arith)
      ]
    ]

-- What is left of the maximum after the times in the window.
window_budget :
    (max : ℕ) (start window : ℤ) (who : String) (checks : List (ℤ × String))
    (operations : Dict (List ℤ))
    → IsKeyed operations
    → InWindow start window checks
    → allowed max window who checks operations ≤ max - from_on start (times_of who operations)
unfolding allowed
window_budget max start window who [] operations keyed inside = omega arith
window_budget max start window who ((now, actor) ∷ rest) operations keyed (from, to, inside) =
    let times = times_of who operations in
    let kept = recent window now times in
    let again = recent window now kept in
    let (passed, next) : Bool × Dict (List ℤ) = check_operation max window now actor operations in
    let (next_keyed, effect, counted) = check_times max window now actor who operations keyed in
    let later = window_budget max start window who rest next next_keyed inside in
    let n = from_on-recent start window now times from to in
    let n' = from_on-recent start window now kept from to in
    let more = from_on-append start now again in
    let most = from_on_le start again in
    let e = eq_iff actor who in
    elim (Bool-cases (passed && actor == who)) [
      | inl counts ↦ elim effect [ inl same ↦ ground arith | inr (_, _, room, _) ↦ ground arith ]
      | inr skips ↦ elim effect [ inl same ↦ ground arith | inr (p, k, _, _) ↦ ground arith ]
    ]

-- Of the operations in a window, no more than the maximum of one actor are allowed, whatever the actors
-- did before and in whatever order the operations come.
pub window_bounded :
    (max : ℕ) (start window : ℤ) (who : String) (checks : List (ℤ × String))
    (operations : Dict (List ℤ))
    → IsKeyed operations
    → InWindow start window checks
    → allowed max window who checks operations ≤ max
window_bounded max start window who checks operations keyed inside =
    omega (arith, window_budget max start window who checks operations keyed inside)
