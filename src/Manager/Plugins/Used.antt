-- ===== src/Manager/Plugins/Used.antt =====
-- Which plugin is run: the first used one of the external plugins and then of the built-in ones
-- (Plugin.hpp, `runUsed` and `getUsed`).
use pmt_renovated.Base.{
  ◌≡◌, refl, ap, ◌∙◌, sym, Bool, true, false, none, some, List, [], ◌∷◌, ◌++◌, map, if-cases,
  Bool-cases, inl, inr, find_if, All,
}
use pmt_renovated.Manager.Plugins.{Plugin, Loaded, Manager, instances, find_loaded, first_of}

-- The first element that passes a test, with what stands in front of it and behind it.
abbrev pub FirstOf : {A : Type 0} → (A → Bool) → List A → A → Type 0
FirstOf {A} f xs x =
    (front : List A) × (back : List A) × (xs ≡ front ++ (x ∷ back))
    × All (λ y. f y ≡ false) front
    × (f x ≡ true)

pub find_if-FirstOf :
    {A : Type 0} (f : A → Bool) (xs : List A) (x : A) → find_if f xs ≡ some x → FirstOf f xs x
unfolding find_if
find_if-FirstOf f [] x e = cc
find_if-FirstOf f (y ∷ xs) x e = elim (if-cases (f y) _ _ e) [
  | inl (hit, same) ↦
      let here : y ≡ x = ap (λ o. elim o [ none ↦ y | some z ↦ z ]) same in
      ([], xs, ap (λ z. z ∷ xs) here, tt, sym (ap f here) ∙ hit)
  | inr (miss, rest) ↦
      let (front, back, parts, none_there, hit) = find_if-FirstOf f xs x rest in
      (y ∷ front, back, ap (λ l. y ∷ l) parts, (miss, none_there), hit)
]

pub FirstOf-find_if :
    {A : Type 0} (f : A → Bool) (front back : List A) (x : A)
    → All (λ y. f y ≡ false) front
    → f x ≡ true
    → find_if f (front ++ (x ∷ back)) ≡ some x
unfolding find_if
FirstOf-find_if f [] back x none_there hit = rw hit refl
FirstOf-find_if f (y ∷ front) back x (miss, none_there) hit =
    rw miss (FirstOf-find_if f front back x none_there hit)

module _ {W : Type 0} where
  loaded_or_builtin :
      (g : Plugin W → Bool) (ps : List (Loaded W)) (bs : List (Plugin W))
      → elim (find_loaded (λ p. g p.instance_of) ps) [ none ↦ find_if g bs | some p ↦ some p ]
        ≡ find_if g (map (λ p. p.instance_of) ps ++ bs)
  unfolding find_loaded find_if
  loaded_or_builtin g [] bs = refl
  loaded_or_builtin g (p ∷ ps) bs = elim (Bool-cases (g p.instance_of)) [
    | inl hit ↦ rw hit refl
    | inr miss ↦ rw miss (loaded_or_builtin g ps bs)
  ]

  -- A search among both kinds of plugin is one among them all.
  pub first_of_lem :
      (g : Plugin W → Bool) (m : Manager W)
      → first_of (λ p. g p.instance_of) g m ≡ find_if g (instances m)
  unfolding first_of
  first_of_lem g m = loaded_or_builtin g m.plugins m.builtin_plugins
