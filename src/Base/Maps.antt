-- ===== src/Base/Maps.antt =====
-- JavaScript's `Map` and `Set` with numbers for keys: association lists in insertion order.
use pherry.Base.{
  ℕ, ◌≡◌, refl, Bool, true, false, List, [], ◌∷◌, Option, none, some, arith, ◌==◌, if◌then◌else◌,
  ◌≢◌, ==_self, ◌⊎◌, inl, inr, ℕ_discrete, All, if_elim, subst, some_inj,
}

module _ {ℓ} {V : Type ℓ} where
  -- `get`
  unfoldable pub lookup : ℕ → List (ℕ × V) → Option V
  lookup k [] = none
  lookup k ((j, v) ∷ m) = if j == k then some v else lookup k m

  -- `set`: an old key keeps its place.
  unfoldable pub insert : ℕ → V → List (ℕ × V) → List (ℕ × V)
  insert k v [] = (k, v) ∷ []
  insert k v ((j, w) ∷ m) = if j == k then (k, v) ∷ m else (j, w) ∷ insert k v m

  -- `delete`
  unfoldable pub delete : ℕ → List (ℕ × V) → List (ℕ × V)
  delete k [] = []
  delete k ((j, w) ∷ m) = if j == k then delete k m else (j, w) ∷ delete k m

  pub lookup-insert :
      (j k : ℕ) (v : V) (m : List (ℕ × V))
      → lookup j (insert k v m) ≡ (if k == j then some v else lookup j m)
  unfolding lookup insert
  lookup-insert j k v [] = refl
  lookup-insert j k v ((i, w) ∷ m) = ground (arith, lookup-insert j k v m)

  pub lookup-delete :
      (j k : ℕ) (m : List (ℕ × V)) → lookup j (delete k m) ≡ (if k == j then none else lookup j m)
  unfolding lookup delete
  lookup-delete j k [] = ground arith
  lookup-delete j k ((i, w) ∷ m) = ground (arith, lookup-delete j k m)

  pub lookup-empty : (j : ℕ) → lookup j [] ≡ none
  unfolding lookup
  lookup-empty j = refl

-- `has` on a set of keys.
unfoldable pub member : ℕ → List ℕ → Bool
member k [] = false
member k (j ∷ s) = if j == k then true else member k s

-- `add`: an old key keeps its place.
unfoldable pub add : ℕ → List ℕ → List ℕ
add k [] = k ∷ []
add k (j ∷ s) = if j == k then j ∷ s else j ∷ add k s

-- A function from numbers at one argument.
abbrev pub update {ℓ} : {A : Type ℓ} → (ℕ → A) → ℕ → A → ℕ → A
update f i a j = if i == j then a else f j

pub update_self {ℓ} : {A : Type ℓ} (f : ℕ → A) (i : ℕ) (a : A) → update f i a i ≡ a
update_self f i a = ground (arith, ==_self i)

pub update_ne {ℓ} : {A : Type ℓ} (f : ℕ → A) (i j : ℕ) (a : A) → i ≢ j → update f i a j ≡ f j
update_ne f i j a h = ground arith

module _ {ℓ} {V : Type ℓ} where
  -- What is found after a deletion was there before, under another key.
  pub lookup-delete-some :
      (j k : ℕ) (m : List (ℕ × V)) {v : V}
      → lookup j (delete k m) ≡ some v
      → (lookup j m ≡ some v) × (k ≢ j)
  lookup-delete-some j k m e = ground (arith, lookup-delete j k m)

  -- What is found after an insertion is the new entry or an old one.
  pub lookup-insert-some :
      (j k : ℕ) (w : V) (m : List (ℕ × V)) {v : V}
      → lookup j (insert k w m) ≡ some v
      → ((k ≡ j) × (w ≡ v)) ⊎ ((k ≢ j) × (lookup j m ≡ some v))
  lookup-insert-some j k w m e = elim (ℕ_discrete k j) [
    | yes p ↦ inl (p, ground (arith, lookup-insert j k w m))
    | no p ↦ inr (p, ground (arith, lookup-insert j k w m))
  ]

-- A property of the values of a map.
module _ {ℓ κ} {V : Type ℓ} (P : V → Type κ) where
  abbrev pub AllValues : List (ℕ × V) → Type κ
  AllValues m = All (λ entry. P entry.1) m

  pub AllValues-insert :
      (k : ℕ) (v : V) (m : List (ℕ × V)) → P v → AllValues m → AllValues (insert k v m)
  unfolding insert
  AllValues-insert k v [] h hm = (h, tt)
  AllValues-insert k v ((j, w) ∷ m) h hm =
      if_elim (λ x. AllValues x) (j == k) ((k, v) ∷ m) ((j, w) ∷ insert k v m) (λ e. (h, hm.1))
        (λ e. (hm.0, AllValues-insert k v m h hm.1))

  pub AllValues-delete : (k : ℕ) (m : List (ℕ × V)) → AllValues m → AllValues (delete k m)
  unfolding delete
  AllValues-delete k [] hm = tt
  AllValues-delete k ((j, w) ∷ m) hm =
      if_elim (λ x. AllValues x) (j == k) (delete k m) ((j, w) ∷ delete k m)
        (λ e. AllValues-delete k m hm.1) (λ e. (hm.0, AllValues-delete k m hm.1))

  pub AllValues-lookup :
      (k : ℕ) (m : List (ℕ × V)) {v : V} → AllValues m → lookup k m ≡ some v → P v
  unfolding lookup
  AllValues-lookup k [] hm e = absurd (cc)
  AllValues-lookup k ((j, w) ∷ m) {v} hm e =
      if_elim (λ x. x ≡ some v → P v) (j == k) (some w) (lookup k m)
        (λ _ q. subst P (some_inj q) hm.0) (λ _ q. AllValues-lookup k m hm.1 q) e
