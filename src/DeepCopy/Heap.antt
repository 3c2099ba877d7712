-- ===== src/DeepCopy/Heap.antt =====
-- A heap of cells, and what reading it may depend on. The cells are of any type `V`.
use llm_inference_operator.Base.{
  ◌≡◌, ℕ, ◌+◌, ◌≤◌, ◌<◌, List, [], ◌∷◌, Option, none, some, if◌then◌else◌, ◌==◌,
}

-- A pointer, nil or an address.
abbrev pub Pointer : Type 0
Pointer = Option ℕ

-- Addresses from `next` on are free.
pub record Heap (V : Type 0) : Type 0 where
  pub next : ℕ
  pub cell : ℕ → Option V

-- How values of one Go type stand in cells.
pub record CellType (V A : Type 0) : Type 0 where
  pub put : A → V
  pub get : V → Option A
  pub get_put : (a : A) → get (put a) ≡ some a

abbrev pub and_also : {A B : Type 0} → Option A → (A → Option B) → Option B
and_also none f = none
and_also (some a) f = f a

-- What a pointer reads as: nil, or what stands at the address.
abbrev pub some_of : {B : Type 0} → Option B → Option (Option B)
some_of none = none
some_of (some b) = some (some b)

abbrev pub both : {A B : Type 0} → Option A → Option B → Option (A × B)
both none y = none
both (some a) none = none
both (some a) (some b) = some (a, b)

abbrev pub cons_of : {B : Type 0} → Option B → Option (List B) → Option (List B)
cons_of none y = none
cons_of (some b) none = none
cons_of (some b) (some bs) = some (b ∷ bs)

-- Code that allocates.
abbrev pub Alloc : Type 0 → Type 0 → Type 0
Alloc V A = Heap V → A × Heap V

-- The copy of an element of `A`, and the value that an element stands for.
abbrev pub Copy : Type 0 → Type 0 → Type 0
Copy V A = A → Alloc V A

abbrev pub Read : Type 0 → Type 0 → Type 0 → Type 0
Read V A B = A → Heap V → Option B

module _ {V : Type 0} where
  abbrev pub pure : {A : Type 0} → A → Alloc V A
  pure a h = (a, h)

  infixl 5 ◌>>=◌
  abbrev pub ◌>>=◌ : {A B : Type 0} → Alloc V A → (A → Alloc V B) → Alloc V B
  ◌>>=◌ m f h = let (a, t) = m h in f a t

  -- `*p`, where the address holds a value of the type.
  abbrev pub load : {A : Type 0} → CellType V A → ℕ → Heap V → Option A
  load T p h = and_also (h.cell p) T.get

  -- `new(T)`: a cell that is not written yet.
  abbrev pub reserve : Heap V → Heap V
  reserve h = record h { next = h.next + 1 }

  -- `*p = a`
  abbrev pub write : {A : Type 0} → CellType V A → ℕ → A → Heap V → Heap V
  write T p a h = record h { cell = λ q. if p == q then some (T.put a) else h.cell q }

  -- `if p != nil { out = new(T); p.DeepCopyInto(out) }`, with the copy of the contents; the same for
  -- an array or a map that `make` returns.
  abbrev pub fill : {A : Type 0} → CellType V A → ℕ → Copy V A → Option A → Heap V → Heap V
  fill T q copy none h = h
  fill T q copy (some a) h = let (b, t) = copy a h in write T q b t

  unfoldable pub new_copy : {A : Type 0} → CellType V A → Copy V A → Copy V Pointer
  new_copy T copy none h = (none, h)
  new_copy T copy (some p) h = (some h.next, fill T h.next copy (load T p h) (reserve h))

  -- `for i := range in { in[i].DeepCopyInto(&out[i]) }`
  unfoldable pub each_copy : {A : Type 0} → Copy V A → Copy V (List A)
  each_copy copy [] = pure []
  each_copy copy (a ∷ xs) = copy a >>= λ b. each_copy copy xs >>= λ bs. pure (b ∷ bs)

  unfoldable pub read_pointed :
      {A B : Type 0} → CellType V A → Read V A B → Read V Pointer (Option B)
  read_pointed T read none h = some none
  read_pointed T read (some p) h = some_of (and_also (load T p h) (λ a. read a h))

  unfoldable pub read_each : {A B : Type 0} → Read V A B → Read V (List A) (List B)
  read_each read [] h = some []
  read_each read (a ∷ xs) h = cons_of (read a h) (read_each read xs h)

  -- Two heaps have the same cells from `lo` up to, and without, `hi`.
  abbrev pub Agree : ℕ → ℕ → Heap V → Heap V → Type 0
  Agree lo hi h k = (p : ℕ) → lo ≤ p → p < hi → k.cell p ≡ h.cell p

  -- The value is read whatever the heap holds outside of `lo` to `hi`.
  abbrev pub Holds : {B : Type 0} → ℕ → ℕ → Heap V → (Heap V → Option B) → B → Type 0
  Holds lo hi h read b = (k : Heap V) → Agree lo hi h k → read k ≡ some b

  -- The result of a copy: the cells that were there are unchanged, and the copy reads as the value,
  -- whatever is written to a cell outside of those that were allocated for it.
  pub record IsCopied {A B : Type 0} (read : Read V A B) (b : B) (h : Heap V) (copied : A × Heap V)
      : Type 0 where
    pub grows : h.next ≤ copied.1.next
    pub keeps : Agree 0 h.next h copied.1
    pub holds : Holds h.next copied.1.next copied.1 (read copied.0) b

  -- A copy of whatever reads as a value from the allocated part of a heap.
  pub record IsCopy {A B : Type 0} (read : Read V A B) (copy : Copy V A) : Type 0 where
    pub copied :
        (a : A) (b : B) (h : Heap V) → Holds 0 h.next h (read a) b → IsCopied read b h (copy a h)
