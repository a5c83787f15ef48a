-- ===== src/Dict.antt =====
-- A JavaScript `Map` keyed by strings: its entries in insertion order, under distinct keys.
use aesmsg.Prelude.{
  ◌≡◌, refl, Option, none, some, List, [], ◌∷◌, arith, Text, text_eq, text_eq_iff, if◌then◌else◌,
  Bool-cases, inl, inr, Bool,
}

abbrev pub Dict {ℓ} : Type ℓ → Type ℓ
Dict V = List (Text × V)

module _ {ℓ} {V : Type ℓ} where
  -- `map.get(k)`
  unfoldable pub get : Text → Dict V → Option V
  get k [] = none
  get k ((j, v) ∷ m) = if text_eq j k then some v else get k m

  -- `map.set(k, v)`: an old key keeps its place, a new one goes to the end.
  unfoldable pub set : Text → V → Dict V → Dict V
  set k v [] = (k, v) ∷ []
  set k v ((j, w) ∷ m) = if text_eq j k then (j, v) ∷ m else (j, w) ∷ set k v m

  -- `map.delete(k)`
  unfoldable pub remove : Text → Dict V → Dict V
  remove k [] = []
  remove k ((j, w) ∷ m) = let rest = remove k m in if text_eq j k then rest else (j, w) ∷ rest

  pub get-set :
      (k j : Text) (v : V) (m : Dict V)
      → get j (set k v m) ≡ (if text_eq k j then some v else get j m)
  unfolding get set
  get-set k j v [] = refl
  get-set k j v ((i, w) ∷ m) =
      ground (arith, text_eq_iff k j, text_eq_iff i k, text_eq_iff i j, get-set k j v m)

  pub get-remove :
      (k j : Text) (m : Dict V) → get j (remove k m) ≡ (if text_eq k j then none else get j m)
  unfolding get remove
  get-remove k j [] = ground arith
  get-remove k j ((i, w) ∷ m) =
      ground (arith, text_eq_iff k j, text_eq_iff i k, text_eq_iff i j, get-remove k j m)

  -- No key stands twice.
  abbrev pub Uniq : Dict V → Type ℓ
  Uniq [] = Unit {ℓ}
  Uniq ((k, v) ∷ m) = (get k m ≡ none) × Uniq m

  pub set-Uniq : (k : Text) (v : V) (m : Dict V) → Uniq m → Uniq (set k v m)
  unfolding get set
  set-Uniq k v [] u = (refl, tt)
  set-Uniq k v ((j, w) ∷ m) u =
      ground (arith, set-Uniq k v m u.1, get-set k j v m, text_eq_iff j k, text_eq_iff k j)

  pub remove-Uniq : (k : Text) (m : Dict V) → Uniq m → Uniq (remove k m)
  unfolding remove
  remove-Uniq k [] u = tt
  remove-Uniq k ((j, w) ∷ m) u = ground (arith, remove-Uniq k m u.1, get-remove k j m)

-- `for (const [k, v] of map)`, with what the body does to the state.
unfoldable pub for_each {ℓ κ} : {V : Type ℓ} {S : Type κ} → (Text → V → S → S) → Dict V → S → S
for_each body [] s = s
for_each body ((k, v) ∷ m) s = for_each body m (body k v s)

pub for_each_inv {ℓ κ μ} :
    {V : Type ℓ} {S : Type κ} (P : S → Type μ) (body : Text → V → S → S)
    → ((k : Text) (v : V) (s : S) → P s → P (body k v s))
    → (m : Dict V) (s : S) → P s
    → P (for_each body m s)
unfolding for_each
for_each_inv P body keep [] s h = h
for_each_inv P body keep ((k, v) ∷ m) s h = for_each_inv P body keep m (body k v s) (keep k v s h)

-- A body that changes only what stands under its own key changes, over the whole map, each key
-- by the entry that the map has for it.
abbrev pub at_entry {ℓ κ} : {V : Type ℓ} {C : Type κ} → (V → C → C) → Option V → C → C
at_entry upd none c = c
at_entry upd (some v) c = upd v c

module _ {ℓ κ μ} {V : Type ℓ} {S : Type κ} {C : Type μ} (body : Text → V → S → S)
    (view : S → Text → C) (upd : V → C → C)
    (is_local : (k : Text) (v : V) (s : S) (j : Text)
      → view (body k v s) j ≡ (if text_eq k j then upd v (view s j) else view s j)) where
  pub view-for_each :
      (m : Dict V) (s : S) (j : Text)
      → Uniq m
      → view (for_each body m s) j ≡ at_entry upd (get j m) (view s j)
  unfolding for_each get
  view-for_each [] s j u = refl
  view-for_each ((k, v) ∷ m) s j u = elim (Bool-cases (text_eq k j)) [
    | inl e ↦
        rw (view-for_each m (body k v s) j u.1, is_local k v s j, e)
          (rw (rw ((text_eq_iff k j).0 e) at u.0) refl)
    | inr e ↦ rw (view-for_each m (body k v s) j u.1, is_local k v s j, e) refl
  ]

module _ {ℓ} {V : Type ℓ} where
  -- The same entries with new values.
  unfoldable pub map_values : (V → V) → Dict V → Dict V
  map_values f [] = []
  map_values f ((k, v) ∷ m) = (k, f v) ∷ map_values f m

  -- The entries that pass the test.
  unfoldable pub keep : (Text → V → Bool) → Dict V → Dict V
  keep p [] = []
  keep p ((k, v) ∷ m) = let rest = keep p m in if p k v then (k, v) ∷ rest else rest

  abbrev pub map_option : (V → V) → Option V → Option V
  map_option f none = none
  map_option f (some v) = some (f v)

  pub get-map_values :
      (f : V → V) (m : Dict V) (j : Text) → get j (map_values f m) ≡ map_option f (get j m)
  unfolding get map_values
  get-map_values f [] j = refl
  get-map_values f ((k, v) ∷ m) j = ground (arith, get-map_values f m j)

  abbrev pub keep_option : (Text → V → Bool) → Text → Option V → Option V
  keep_option p j none = none
  keep_option p j (some v) = if p j v then some v else none

  pub get-keep :
      (p : Text → V → Bool) (m : Dict V) (j : Text)
      → Uniq m
      → get j (keep p m) ≡ keep_option p j (get j m)
  unfolding get keep
  get-keep p [] j u = refl
  get-keep p ((k, v) ∷ m) j u = ground (arith, get-keep p m j u.1, text_eq_iff k j, u.0)

  pub map_values-Uniq : (f : V → V) (m : Dict V) → Uniq m → Uniq (map_values f m)
  unfolding map_values
  map_values-Uniq f [] u = tt
  map_values-Uniq f ((k, v) ∷ m) u =
      ground (arith, map_values-Uniq f m u.1, get-map_values f m k, u.0)

  pub keep-Uniq : (p : Text → V → Bool) (m : Dict V) → Uniq m → Uniq (keep p m)
  unfolding keep
  keep-Uniq p [] u = tt
  keep-Uniq p ((k, v) ∷ m) u = ground (arith, keep-Uniq p m u.1, get-keep p m k u.1, u.0)
