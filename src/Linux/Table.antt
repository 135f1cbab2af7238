-- ===== src/Linux/Table.antt =====
-- `comento_mmio_table` of week02/mmio-driver.c: devices by minor number, in the kernel's hash
-- table, which is a parameter.
use device_driver_on_so_c.Prelude.{
  ℕ, ◌≡◌, refl, arith, Option, none, some, List, [], ◌∷◌, ◌==◌, if◌then◌else◌,
}

-- What `hash_for_each_possible` walks through: the nodes of each bucket, with their minor numbers.
abbrev pub Table {ℓ} : Type ℓ → Type ℓ
Table A = ℕ → List (ℕ × A)

-- The kernel's hash table: the bucket of a minor number, `hash_add` of a node under one, and
-- `hash_del` of a node that was added under one. What the drivers rely on: a node is added at the
-- head of its bucket, and the removal of a node that was just added undoes the addition.
pub record Hashtable : Type 0 where
  pub bucket : ℕ → ℕ
  pub add : Table ℕ → ℕ → ℕ → Table ℕ
  pub del : Table ℕ → ℕ → ℕ → Table ℕ
  pub add-bucket :
      (table : Table ℕ) (minor node b : ℕ)
      → add table minor node b ≡ (if b == bucket minor then (minor, node) ∷ table b else table b)
  pub del-add : (table : Table ℕ) (minor node : ℕ) → del (add table minor node) minor node ≡ table

module _ {ℓ} {A : Type ℓ} where
  -- `hash_for_each_possible` over one bucket, with the test of `comento_mmio_get_device`
  find : ℕ → List (ℕ × A) → Option A
  find minor [] = none
  find minor ((m, node) ∷ bucket) = if m == minor then some node else find minor bucket

  -- `comento_mmio_get_device`
  pub get_device : Hashtable → Table A → ℕ → Option A
  unfolding find
  get_device hash table minor = find minor (table (hash.bucket minor))

module _ (hash : Hashtable) where
  -- After a device is added to the table under a minor number, a look-up of that number finds it,
  -- and a look-up of any other finds what it found before, whatever the buckets are.
  pub get_device-hash_add :
      (table : Table ℕ) (minor other node : ℕ)
      → get_device hash (hash.add table minor node) other
        ≡ (if minor == other then some node else get_device hash table other)
  unfolding get_device find
  get_device-hash_add table minor other node =
      rw (hash.add-bucket table minor node (hash.bucket other)) (ground arith)

-- The nodes of a bucket without the first with this minor number and this name
abbrev without : ℕ → ℕ → List (ℕ × ℕ) → List (ℕ × ℕ)
without minor node [] = []
without minor node ((m, n) ∷ nodes) =
    if m == minor
    then (if n == node then nodes else (m, n) ∷ without minor node nodes)
    else (m, n) ∷ without minor node nodes

abbrev put_first : (ℕ → ℕ) → Table ℕ → ℕ → ℕ → Table ℕ
put_first hash table minor node b = if b == hash minor then (minor, node) ∷ table b else table b

abbrev take_first : (ℕ → ℕ) → Table ℕ → ℕ → ℕ → Table ℕ
take_first hash table minor node b =
    if b == hash minor then without minor node (table b) else table b

pub undone :
    (hash : ℕ → ℕ) (table : Table ℕ) (minor node b : ℕ)
    → take_first hash (put_first hash table minor node) minor node b ≡ table b
undone hash table minor node b = ground arith

-- A hash table of chains, for a hash function.
abbrev pub chains : (ℕ → ℕ) → Hashtable
chains hash = record {
  bucket = hash;
  add = put_first hash;
  del = take_first hash;
  add-bucket = λ table minor node b. refl;
  del-add = λ table minor node i b. undone hash table minor node b i;
}
