-- ===== src/Cache/Table.antt =====
-- A table of the database with a primary key, as the cache's statements use it. Clients have the laws of
-- `find`; the order of the rows is used only by the queries that list rows.
use whatsapp_mcp_docker.Base.{
  ◌≡◌, refl, ◌∙◌, ◌⊎◌, inl, inr, Bool, true, all, Option, none, some, List, [], ◌∷◌, ◌++◌, arith,
  if◌then◌else◌, Bool-cases,
}
use whatsapp_mcp_docker.Base.Keys.{Eq}

pub record Table {ℓ κ} (K : Type ℓ) (V : Type κ) : Type (ℓ ⊔ κ) where
  pub rows : List (K × V)

abbrev pub empty {ℓ κ} : {K : Type ℓ} {V : Type κ} → Table K V
empty = record { rows = [] }

-- The row after an upsert, and after an update.
abbrev pub merged {κ} : {V : Type κ} → V → (V → V) → Option V → V
merged v merge none = v
merged v merge (some w) = merge w

abbrev pub mapped {κ} : {V : Type κ} → (V → V) → Option V → Option V
mapped f none = none
mapped f (some w) = some (f w)

module _ {ℓ κ} {K : Type ℓ} {V : Type κ} ⦃e : Eq K⦄ where
  abbrev find_row : K → List (K × V) → Option V
  find_row k [] = none
  find_row k ((j, v) ∷ m) = if e.beq j k then some v else find_row k m

  abbrev upsert_row : K → V → (V → V) → List (K × V) → List (K × V)
  upsert_row k v merge [] = (k, v) ∷ []
  upsert_row k v merge ((j, w) ∷ m) =
      if e.beq j k then (j, merge w) ∷ m else (j, w) ∷ upsert_row k v merge m

  abbrev modify_row : K → (V → V) → List (K × V) → List (K × V)
  modify_row k f [] = []
  modify_row k f ((j, w) ∷ m) =
      let rest = modify_row k f m in if e.beq j k then (j, f w) ∷ rest else (j, w) ∷ rest

  abbrev delete_row : K → List (K × V) → List (K × V)
  delete_row k [] = []
  delete_row k ((j, w) ∷ m) = let rest = delete_row k m in if e.beq j k then rest else (j, w) ∷ rest

  -- SELECT … WHERE key = k
  unfoldable pub find : K → Table K V → Option V
  find k t = find_row k t.rows

  -- INSERT … ON CONFLICT DO UPDATE: `merge` takes the stored row to the updated one.
  unfoldable pub upsert : K → V → (V → V) → Table K V → Table K V
  upsert k v merge t = record { rows = upsert_row k v merge t.rows }

  -- UPDATE … WHERE key = k
  unfoldable pub modify : K → (V → V) → Table K V → Table K V
  modify k f t = record { rows = modify_row k f t.rows }

  -- DELETE … WHERE key = k
  unfoldable pub delete : K → Table K V → Table K V
  delete k t = record { rows = delete_row k t.rows }

  upsert-fresh_row :
      (k : K) (v : V) (merge : V → V) (m : List (K × V))
      → find_row k m ≡ none
      → upsert_row k v merge m ≡ m ++ ((k, v) ∷ [])
  upsert-fresh_row k v merge [] h = refl
  upsert-fresh_row k v merge ((i, w) ∷ m) h = ground (arith, upsert-fresh_row k v merge m)

  -- A row with a new key comes after the others.
  pub upsert-fresh :
      (k : K) (v : V) (merge : V → V) (t : Table K V)
      → find k t ≡ none
      → (upsert k v merge t).rows ≡ t.rows ++ ((k, v) ∷ [])
  unfolding find upsert
  upsert-fresh k v merge t h = upsert-fresh_row k v merge t.rows h

  find-upsert_row :
      (k j : K) (v : V) (merge : V → V) (m : List (K × V))
      → find_row j (upsert_row k v merge m)
        ≡ (if e.beq k j then some (merged v merge (find_row k m)) else find_row j m)
  find-upsert_row k j v merge [] = refl
  find-upsert_row k j v merge ((i, w) ∷ m) =
      ground (arith, e.beq_iff i k, e.beq_iff i j, e.beq_iff k j, find-upsert_row k j v merge m)

  pub find-upsert :
      (k j : K) (v : V) (merge : V → V) (t : Table K V)
      → find j (upsert k v merge t)
        ≡ (if e.beq k j then some (merged v merge (find k t)) else find j t)
  unfolding find upsert
  find-upsert k j v merge t = find-upsert_row k j v merge t.rows

  find-modify_row :
      (k j : K) (f : V → V) (m : List (K × V))
      → find_row j (modify_row k f m)
        ≡ (if e.beq k j then mapped f (find_row j m) else find_row j m)
  find-modify_row k j f [] = ground arith
  find-modify_row k j f ((i, w) ∷ m) =
      ground (arith, e.beq_iff i k, e.beq_iff i j, e.beq_iff k j, find-modify_row k j f m)

  pub find-modify :
      (k j : K) (f : V → V) (t : Table K V)
      → find j (modify k f t) ≡ (if e.beq k j then mapped f (find j t) else find j t)
  unfolding find modify
  find-modify k j f t = find-modify_row k j f t.rows

  find-delete_row :
      (k j : K) (m : List (K × V))
      → find_row j (delete_row k m) ≡ (if e.beq k j then none else find_row j m)
  find-delete_row k j [] = ground arith
  find-delete_row k j ((i, w) ∷ m) =
      ground (arith, e.beq_iff i k, e.beq_iff i j, e.beq_iff k j, find-delete_row k j m)

  pub find-delete :
      (k j : K) (t : Table K V) → find j (delete k t) ≡ (if e.beq k j then none else find j t)
  unfolding find delete
  find-delete k j t = find-delete_row k j t.rows

module _ {ℓ κ} {K : Type ℓ} {V : Type κ} ⦃e : Eq K⦄ where
  -- Two upserts commute, at every key, if their merges do where they meet.
  pub upsert_comm :
      (k i j : K) (v w : V) (f g : V → V) (t : Table K V)
      → ((o : Option V) → merged w g (some (merged v f o)) ≡ merged v f (some (merged w g o)))
      → find j (upsert i w g (upsert k v f t)) ≡ find j (upsert k v f (upsert i w g t))
  upsert_comm k i j v w f g t h =
      simp find-upsert
        (ground (arith, e.beq_iff k i, e.beq_iff i k, e.beq_iff k j, e.beq_iff i j, h (find k t)))

  -- What an upsert of a new row adds, a delete of its key takes away.
  pub find-delete-upsert :
      (k j : K) (v : V) (f : V → V) (t : Table K V)
      → find k t ≡ none
      → find j (delete k (upsert k v f t)) ≡ find j t
  find-delete-upsert k j v f t h = simp (find-delete, find-upsert) (ground (arith, e.beq_iff k j))

  pub find-delete_idem :
      (k j : K) (t : Table K V) → find j (delete k (delete k t)) ≡ find j (delete k t)
  find-delete_idem k j t = simp find-delete (ground arith)

  pub find-upsert_self :
      (k : K) (v : V) (f : V → V) (t : Table K V)
      → find k (upsert k v f t) ≡ some (merged v f (find k t))
  find-upsert_self k v f t = find-upsert k k v f t ∙ rw ((e.beq_iff k k).1 refl)

module _ {ℓ κ} {K : Type ℓ} {V : Type κ} ⦃e : Eq K⦄ where
  -- ON CONFLICT DO NOTHING leaves every stored row.
  pub find-upsert_keep :
      (k j : K) (v : V) (t : Table K V) {w : V}
      → find j t ≡ some w
      → find j (upsert k v (λ row. row) t) ≡ some w
  find-upsert_keep k j v t h = ground (arith, find-upsert k j v (λ row. row) t, e.beq_iff k j)

  -- An update changes a stored row in its way, or not at all.
  pub find-modify_either :
      (k j : K) (f : V → V) (t : Table K V) {w : V}
      → find j t ≡ some w
      → (find j (modify k f t) ≡ some w) ⊎ (find j (modify k f t) ≡ some (f w))
  find-modify_either k j f t h = elim (Bool-cases (e.beq k j)) [
    | inl m ↦ inr (find-modify k j f t ∙ rw m (rw h refl))
    | inr m ↦ inl (find-modify k j f t ∙ rw m h)
  ]

module _ {ℓ κ} {K : Type ℓ} {V : Type κ} ⦃e : Eq K⦄ (p : K × V → Bool) (k : K) (v : V)
    (merge : V → V) (new : p (k, v) ≡ true)
    (merged : (j : K) (w : V) → p (j, w) ≡ true → p (j, merge w) ≡ true) where
  all-upsert_row : (m : List (K × V)) → all p m ≡ true → all p (upsert_row k v merge m) ≡ true
  all-upsert_row [] h = ground arith
  all-upsert_row ((j, w) ∷ m) h = elim (Bool-cases (e.beq j k)) [
    | inl t ↦ rw t (ground (arith, merged j w))
    | inr t ↦ rw t (ground (arith, all-upsert_row m))
  ]

  -- What holds of every row holds after an upsert.
  pub all-upsert : (t : Table K V) → all p t.rows ≡ true → all p (upsert k v merge t).rows ≡ true
  unfolding upsert
  all-upsert t h = all-upsert_row t.rows h

pub find-empty {ℓ κ} : {K : Type ℓ} {V : Type κ} ⦃e : Eq K⦄ (k : K) → find k (empty {V = V}) ≡ none
unfolding find
find-empty k = refl

pub beq_refl {ℓ} : {K : Type ℓ} ⦃e : Eq K⦄ (k : K) → e.beq k k ≡ true
beq_refl ⦃e⦄ k = (e.beq_iff k k).1 refl

pub ruleset table_laws = (find-upsert, find-modify, find-delete, find-empty)
