-- ===== src/Inventory/View.antt =====
-- The tables of machines as views of the heap, and their invariant.
use o2_ims_worker.Prelude.{
  ℕ, String, ◌<◌, ◌≡◌, ◌≢◌, true, Option, none, some, List, [], ◌∷◌, arith, eq_iff, ◌==◌,
  Option-cases, inl, inr, if◌then◌else◌,
}
use o2_ims_worker.Prelude.Lists.{
  length, get_elem?, set, length-append, length-set, get_elem?-set_self, get_elem?-set_ne,
  get_elem?-length, get_elem?-append,
}
use o2_ims_worker.Prelude.Dict.{Dict, lookup, insert, lookup-nil, lookup-insert, lookup-insert_self}
use o2_ims_worker.World.{Inventory, InstalledMachines, MachineObject}
use o2_ims_worker.Inventory.{mark_installed}
use o2_ims_worker.Inventory.Generated.{registered}

abbrev pub dict_of : Option (Dict ℕ) → Dict ℕ
dict_of none = []
dict_of (some d) = d

abbrev pub log_of : Option InstalledMachines → Dict ℕ
log_of none = []
log_of (some log) = log.machines

-- The object behind a pointer that may be nil.
abbrev pub deref : List MachineObject → Option ℕ → Option MachineObject
deref heap none = none
deref heap (some address) = get_elem? heap address

-- `activeMachines.Machines[m]` and `activeInstalledMachines.Machines[m]`, read through.
abbrev pub machine_at : String → Inventory → Option MachineObject
machine_at m i = deref i.heap (lookup m (dict_of i.active))

abbrev pub installed_at : String → Inventory → Option MachineObject
installed_at m i = deref i.heap (lookup m (log_of i.installed))

-- Every pointer leads to an object, no two MAC addresses share one, and a logged machine is the
-- very object of the table, marked as installed.
pub record IsWellFormed (i : Inventory) : Type 0 where
  pub in_range : (m : String) (a : ℕ) → lookup m (dict_of i.active) ≡ some a → a < length i.heap
  pub distinct :
      (m j : String) (a : ℕ)
      → lookup m (dict_of i.active) ≡ some a
      → lookup j (dict_of i.active) ≡ some a
      → m ≡ j
  pub shared :
      (m : String) (a : ℕ)
      → lookup m (log_of i.installed) ≡ some a
      → lookup m (dict_of i.active) ≡ some a
  pub marked : (m : String) (o : MachineObject) → installed_at m i ≡ some o → o.installed ≡ true

-- A known machine after `LogInstalledMachine`: both tables have the marked object.
abbrev pub marked_in :
    String → ℕ → ℕ → MachineObject → Dict ℕ → InstalledMachines → Inventory → Inventory
marked_in m now address object machines log i = record {
  heap = set i.heap address (mark_installed object);
  active = some machines;
  installed = some (record { machines = insert m address log.machines; install_time = some now });
}

-- The inventory that `Init` makes.
abbrev pub fresh : List MachineObject → Inventory
fresh heap = record {
  heap = heap;
  active = some [];
  installed = some (record { machines = []; install_time = none });
}

pub fresh-IsWellFormed : (heap : List MachineObject) → IsWellFormed (fresh heap)
fresh-IsWellFormed heap = record {
  in_range = λ m a e. cc (lookup-nil {V = ℕ} m);
  distinct = λ m j a e f. cc (lookup-nil {V = ℕ} m);
  shared = λ m a e. e;
  marked = λ m o e. ground (arith, lookup-nil {V = ℕ} m);
}

module _ (m : String) (object : MachineObject) (machines : Dict ℕ) (i : Inventory)
    (active : i.active ≡ some machines) where
  -- Registering a machine that no logged one has replaced keeps the invariant.
  pub registered-IsWellFormed :
      IsWellFormed i
      → lookup m (log_of i.installed) ≡ none
      → IsWellFormed (registered m object machines i)
  registered-IsWellFormed v fresh = record {
    in_range = λ j a e. ground (
      arith,
      lookup-insert m j (length i.heap) machines,
      v.in_range j a,
      length-append i.heap (object ∷ []),
    );
    distinct = λ j l a e f. ground (
      arith,
      lookup-insert m j (length i.heap) machines,
      lookup-insert m l (length i.heap) machines,
      v.distinct j l a,
      v.in_range j a,
      v.in_range l a,
      eq_iff m j,
      eq_iff m l,
    );
    shared = λ j a e.
        ground (arith, lookup-insert m j (length i.heap) machines, v.shared j a, eq_iff m j, fresh);
    marked = λ j o e. elim (Option-cases (lookup j (log_of i.installed))) [
      | inl l ↦ ground (arith, l)
      | inr (a, l) ↦ ground (
        arith,
        l,
        v.shared j a,
        v.in_range j a,
        v.marked j o,
        get_elem?-append i.heap (object ∷ []) a,
      )
    ];
  }

module _ (m : String) (now address : ℕ) (object : MachineObject) (machines : Dict ℕ)
    (log : InstalledMachines) (i : Inventory) where
  pub marked_in-IsWellFormed :
      IsWellFormed i
      → i.active ≡ some machines
      → i.installed ≡ some log
      → lookup m machines ≡ some address
      → IsWellFormed (marked_in m now address object machines log i)
  marked_in-IsWellFormed v active installed found = record {
    in_range =
        λ j a e. ground (arith, v.in_range j a, length-set i.heap address (mark_installed object));
    distinct = λ j l a e f. ground (arith, v.distinct j l a);
    shared =
        λ j a e. ground (arith, lookup-insert m j address log.machines, v.shared j a, eq_iff m j);
    marked = λ j o e. elim (Option-cases (lookup j log.machines)) [
      | inl l ↦ ground (
        arith,
        l,
        lookup-insert m j address log.machines,
        get_elem?-set_self i.heap address (mark_installed object),
        v.in_range m address,
      )
      | inr (a, l) ↦ ground (
        arith,
        l,
        lookup-insert m j address log.machines,
        get_elem?-set_self i.heap address (mark_installed object),
        get_elem?-set_ne i.heap address a (mark_installed object),
        v.in_range m address,
        v.shared j a,
        v.marked j o,
      )
    ];
  }

  -- The marked machine in both tables, and every other machine of the table as it was.
  pub marked_in-machine_at :
      IsWellFormed i
      → i.active ≡ some machines
      → lookup m machines ≡ some address
      → (machine_at m (marked_in m now address object machines log i)
          ≡ some (mark_installed object))
        × (installed_at m (marked_in m now address object machines log i)
            ≡ some (mark_installed object))
        × ((j : String)
            → m ≢ j
            → machine_at j (marked_in m now address object machines log i) ≡ machine_at j i)
  marked_in-machine_at v active found =
      let stored = get_elem?-set_self i.heap address (mark_installed object) in
      let place = lookup-insert_self m address log.machines in
      (
        ground (arith, stored, v.in_range m address),
        ground (arith, stored, place, v.in_range m address),
        λ j other. elim (Option-cases (lookup j machines)) [
          | inl l ↦ ground (arith, l)
          | inr (a, l) ↦ ground (
            arith,
            l,
            v.distinct m j a,
            get_elem?-set_ne i.heap address a (mark_installed object),
          )
        ],
      )

-- A machine that is found is a pointer to an object of the heap.
pub machine_at-some :
    (m : String) (i : Inventory) (object : MachineObject)
    → machine_at m i ≡ some object
    → (machines : Dict ℕ) × (address : ℕ) × (i.active ≡ some machines)
      × (lookup m machines ≡ some address)
      × (get_elem? i.heap address ≡ some object)
machine_at-some m i object e = elim (Option-cases i.active) [
  | inl a ↦ absurd (ground (arith, a, lookup-nil {V = ℕ} m))
  | inr (machines, a) ↦ elim (Option-cases (lookup m machines)) [
    | inl l ↦ absurd (ground (arith, a, l))
    | inr (address, l) ↦ (machines, address, a, l, ground (arith, a, l))
  ]
]

module _ (m j : String) (object : MachineObject) (machines : Dict ℕ) (i : Inventory) where
  -- Registering a machine changes the table's entry for its MAC address alone.
  pub registered-machine_at :
      IsWellFormed i
      → i.active ≡ some machines
      → machine_at j (registered m object machines i)
        ≡ (if m == j then some object else machine_at j i)
  registered-machine_at v active =
      let placed = lookup-insert m j (length i.heap) machines in
      elim (Option-cases (lookup j machines)) [
        | inl l ↦ ground (arith, l, placed, get_elem?-length i.heap object)
        | inr (a, l) ↦ ground (
          arith,
          l,
          placed,
          get_elem?-length i.heap object,
          v.in_range j a,
          get_elem?-append i.heap (object ∷ []) a,
        )
      ]
