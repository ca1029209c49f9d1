-- ===== src/Base/Tables.antt =====
-- `Map<string, V>` and `Set<string>`: their entries in the order of insertion. `set` on a key that
-- is there keeps its place, as in JavaScript.
use Prim.Native.String.{String}
use Prim.Native.Nat.{◌+◌, ◌≤◌}
use mathlib.Core.Path.{◌≡◌, refl}
use mathlib.Core.Logic.{◌≢◌}
use mathlib.Core.Bool.{Bool, true, false, ◌||◌}
use mathlib.Core.Option.{Option, none, some}
use mathlib.Core.List.{List, [], ◌∷◌, ◌++◌}
use native.Mathlib.Omega.{arith}
use text.Mathlib.TextEquality.{eq_iff}
use current_dao_contracts.Base.Tests.{⊤, if◌then◌else◌, is_some, length, length-append}
use current_dao_contracts.Base.Text.{◌==◌}

abbrev pub Dict : Type 0 → Type 0
Dict V = List (String × V)

module _ {V : Type 0} where
  -- `m.get(k)`
  abbrev pub get : String → Dict V → Option V
  get k [] = none
  get k ((j, v) ∷ m) = if j == k then some v else get k m

  -- `m.has(k)`
  abbrev pub has_key : String → Dict V → Bool
  has_key k m = is_some (get k m)

  -- `m.set(k, v)`
  unfoldable pub set : String → V → Dict V → Dict V
  set k v [] = (k, v) ∷ []
  set k v ((j, w) ∷ m) = if j == k then (j, v) ∷ m else (j, w) ∷ set k v m

  -- `m.delete(k)`
  unfoldable pub delete : String → Dict V → Dict V
  delete k [] = []
  delete k ((j, w) ∷ m) = if j == k then m else (j, w) ∷ delete k m

  pub get-set :
      (k j : String) (v : V) (m : Dict V) → get j (set k v m) ≡ (if k == j then some v else get j m)
  unfolding set
  get-set k j v [] = refl
  get-set k j v ((i, w) ∷ m) = ground (arith, eq_iff k j, eq_iff i k, eq_iff i j, get-set k j v m)

  pub get-set_self : (k : String) (v : V) (m : Dict V) → get k (set k v m) ≡ some v
  get-set_self k v m = ground (arith, get-set k k v m, eq_iff k k)

  pub get-set_ne : (k j : String) (v : V) (m : Dict V) → k ≢ j → get j (set k v m) ≡ get j m
  get-set_ne k j v m h = ground (arith, get-set k j v m, eq_iff k j)

  pub get-delete_ne : (k j : String) (m : Dict V) → k ≢ j → get j (delete k m) ≡ get j m
  unfolding delete
  get-delete_ne k j [] h = refl
  get-delete_ne k j ((i, w) ∷ m) h =
      ground (arith, eq_iff k j, eq_iff i k, eq_iff i j, get-delete_ne k j m h)

-- No key occurs twice.
abbrev pub IsKeyed : {V : Type 0} → Dict V → Type 0
IsKeyed [] = ⊤
IsKeyed ((k, v) ∷ m) = (get k m ≡ none) × IsKeyed m

module _ {V : Type 0} where
  pub set-IsKeyed : (k : String) (v : V) (m : Dict V) → IsKeyed m → IsKeyed (set k v m)
  unfolding set
  set-IsKeyed k v [] h = (refl, tt)
  set-IsKeyed k v ((j, w) ∷ m) h =
      ground (arith, eq_iff j k, eq_iff k j, get-set k j v m, set-IsKeyed k v m h.1)

  pub delete-IsKeyed : (k : String) (m : Dict V) → IsKeyed m → IsKeyed (delete k m)
  unfolding delete
  delete-IsKeyed k [] h = tt
  delete-IsKeyed k ((j, w) ∷ m) h =
      ground (arith, eq_iff j k, eq_iff k j, get-delete_ne k j m, delete-IsKeyed k m h.1)

  pub get-delete_self : (k : String) (m : Dict V) → IsKeyed m → get k (delete k m) ≡ none
  unfolding delete
  get-delete_self k [] h = refl
  get-delete_self k ((j, w) ∷ m) h = ground (arith, eq_iff j k, get-delete_self k m h.1)

module _ {V : Type 0} where
  pub length-set_new :
      (k : String) (v : V) (m : Dict V) → get k m ≡ none → length (set k v m) ≡ length m + 1
  unfolding set
  length-set_new k v [] h = omega arith
  length-set_new k v ((j, w) ∷ m) h = ground (arith, length-set_new k v m)

  pub length-delete :
      (k : String) (m : Dict V) → has_key k m ≡ true → length (delete k m) + 1 ≡ length m
  unfolding delete
  length-delete k [] h = cc
  length-delete k ((j, w) ∷ m) h = ground (arith, length-delete k m)

abbrev pub Set : Type 0
Set = List String

-- `s.has(a)`, and `includes` on an array of strings.
abbrev pub has : String → Set → Bool
has a [] = false
has a (b ∷ s) = b == a || has a s

-- `s.add(a)`
unfoldable pub add : String → Set → Set
add a s = if has a s then s else s ++ a ∷ []

unfoldable pub add_all : List String → Set → Set
unfolding add
add_all [] s = s
add_all (a ∷ l) s = add_all l (add a s)

-- `s.delete(a)`
unfoldable pub remove : String → Set → Set
remove a [] = []
remove a (b ∷ s) = if b == a then s else b ∷ remove a s

has-append : (j k : String) (s : Set) → has j (s ++ k ∷ []) ≡ (has j s || k == j)
has-append j k [] = ground arith
has-append j k (b ∷ s) = ground (arith, has-append j k s)

pub has-add : (a b : String) (s : Set) → has b (add a s) ≡ (has b s || a == b)
unfolding add
has-add a b s = ground (arith, has-append b a s, eq_iff a b)

pub length-add : (a : String) (s : Set) → length s ≤ length (add a s)
unfolding add
length-add a s = ground (arith, length-append s (a ∷ []))

pub length-remove : (a : String) (s : Set) → has a s ≡ true → length (remove a s) + 1 ≡ length s
unfolding remove
length-remove a [] h = cc
length-remove a (b ∷ s) h = ground (arith, length-remove a s)
