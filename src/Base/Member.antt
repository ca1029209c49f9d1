-- ===== src/Base/Member.antt =====
-- `xs.some(test)`, and what is in a list that is filtered.
use mathlib.Core.Path.{◌≡◌, refl, sym, ◌∙◌, subst, ap}
use mathlib.Core.Logic.{◌↔◌, inl, inr}
use mathlib.Core.Bool.{Bool, true, false, ◌||◌}
use mathlib.Core.List.{List, [], ◌∷◌, Memᴰ}
use mathlib.Core.List.Memᴰ
use native.Mathlib.Omega.{arith}
use current_dao_contracts.Base.Tests.{filter, Bool-cases}

abbrev pub any {ℓ} : {A : Type ℓ} → (A → Bool) → List A → Bool
any test [] = false
any test (x ∷ xs) = test x || any test xs

module _ {ℓ} {A : Type ℓ} (test : A → Bool) where
  any-Mem : (l : List A) → any test l ≡ true → (x : A) × Memᴰ x l × (test x ≡ true)
  any-Mem [] h = absurd (ground (arith, h))
  any-Mem (y ∷ l) h = elim (Bool-cases (test y)) [
    | inl passes ↦ (y, Memᴰ.head refl, passes)
    | inr fails ↦
        let rest : any test l ≡ true = rw (sym (ap (λ b. b || any test l) fails)) h in
        let (x, i, t) = any-Mem l rest in (x, Memᴰ.tail i, t)
  ]

  Mem-any : (l : List A) (x : A) → Memᴰ x l → test x ≡ true → any test l ≡ true
  Mem-any [] x i t = elim i [ ]
  Mem-any (y ∷ l) x (Memᴰ.head e) t = let here : test y ≡ true = ap test (sym e) ∙ t in rw here refl
  Mem-any (y ∷ l) x (Memᴰ.tail i) t = let later = Mem-any l x i t in ground arith

  pub any_iff : (l : List A) → (any test l ≡ true) ↔ ((x : A) × Memᴰ x l × (test x ≡ true))
  any_iff l = (any-Mem l, λ (x, i, t). Mem-any l x i t)

  filter-Mem : (l : List A) (x : A) → Memᴰ x (filter test l) → Memᴰ x l × (test x ≡ true)
  filter-Mem [] x i = elim i [ ]
  filter-Mem (y ∷ l) x i = elim (Bool-cases (test y)) [
    | inr fails ↦ let (j, t) = filter-Mem l x (subst (Memᴰ x) (rw fails refl) i) in (Memᴰ.tail j, t)
    | inl passes ↦ elim (Memᴰ.cases_cons (subst (Memᴰ x) (rw passes refl) i)) [
      | inl e ↦ (Memᴰ.head e, ap test e ∙ passes)
      | inr later ↦ let (j, t) = filter-Mem l x later in (Memᴰ.tail j, t)
    ]
  ]

  Mem-filter : (l : List A) (x : A) → Memᴰ x l → test x ≡ true → Memᴰ x (filter test l)
  Mem-filter [] x i t = elim i [ ]
  Mem-filter (y ∷ l) x (Memᴰ.head e) t =
      let here : test y ≡ true = ap test (sym e) ∙ t in
      let whole : filter test (y ∷ l) ≡ y ∷ filter test l = rw here refl in
      subst (Memᴰ x) (sym whole) (Memᴰ.head e)
  Mem-filter (y ∷ l) x (Memᴰ.tail i) t =
      let later = Mem-filter l x i t in
      elim (Bool-cases (test y)) [
        | inl passes ↦
            let whole : filter test (y ∷ l) ≡ y ∷ filter test l = rw passes refl in
            subst (Memᴰ x) (sym whole) (Memᴰ.tail later)
        | inr fails ↦
            let whole : filter test (y ∷ l) ≡ filter test l = rw fails refl in
            subst (Memᴰ x) (sym whole) later
      ]

  pub filter_iff : (l : List A) (x : A) → Memᴰ x (filter test l) ↔ (Memᴰ x l × (test x ≡ true))
  filter_iff l x = (filter-Mem l x, λ (i, t). Mem-filter l x i t)
