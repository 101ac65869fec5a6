-- ===== src/Filedata/Loaded.antt =====
-- `Populate` over a file whose lines all have seven fields, on a host where nothing fails.
use o2_ims_worker.Prelude.{
  ℕ, String, ◌==◌, ◌≡◌, refl, sym, ap, ◌∙◌, Option, none, some, List, [], ◌∷◌, ◌++◌, map, arith,
  if◌then◌else◌,
}
use o2_ims_worker.Prelude.Lists.{length}
use o2_ims_worker.Prelude.Dict.{Dict, lookup, insert, lookup-insert}
use o2_ims_worker.Prelude.Exec.{returns}
use o2_ims_worker.World.{Host, World, Inventory, Client, Row, MachineObject}
use o2_ims_worker.Seeds.Works.{Works}
use o2_ims_worker.Inventory.{init, machine_of}
use o2_ims_worker.Inventory.Generated.{registered, generate-returns}
use o2_ims_worker.Inventory.View.{dict_of, fresh}
use o2_ims_worker.Filedata.{
  clients_csv, parse_line, client_of, add_row, data_lines, Tables, no_tables, generate_row,
  populate_rows, populate,
}
use o2_ims_worker.Filedata.Malformed.{populate_rows-cons, populate_rows-SameClients}

-- Every line is a row.
abbrev pub AreRows : List String → List Row → Type 0
AreRows lines rows = map parse_line lines ≡ map some rows

abbrev pub machine_for : Row → MachineObject
machine_for r = machine_of r.ip r.mac r.os r.cluster r.role r.template

-- The tables and the inventory that the rows make, in order.
unfoldable pub tables_of : List Row → Tables → Tables
tables_of [] t = t
tables_of (r ∷ rs) t = tables_of rs (add_row r (machine_for r) t)

unfoldable pub register_all : List Row → Inventory → Inventory
register_all [] i = i
register_all (r ∷ rs) i = register_all rs (registered r.mac (machine_for r) (dict_of i.active) i)

module _ (h : Host) (k : Works h) where
  pub populate_rows-returns :
      (lines : List String) (rows : List Row) (t : Tables) (machines : Dict ℕ) (w : World)
      → AreRows lines rows
      → w.inventory.active ≡ some machines
      → ((populate_rows h lines t w).0 ≡ returns (tables_of rows t))
        × ((populate_rows h lines t w).1.inventory ≡ register_all rows w.inventory)
  unfolding tables_of register_all
  populate_rows-returns [] [] t machines w e a = unfold populate_rows in (refl, refl)
  populate_rows-returns [] (r ∷ rows) t machines w e a = cc
  populate_rows-returns (line ∷ lines) [] t machines w e a = cc
  populate_rows-returns (line ∷ lines) (r ∷ rows) t machines w e a =
      let (made, stored) =
        generate-returns h k r.ip r.mac r.os r.cluster r.role r.template machines w a in
      let w' = (generate_row h r w).1 in
      let ih =
        populate_rows-returns lines rows (add_row r (machine_for r) t)
          (insert r.mac (length w.inventory.heap) machines) w' (cc) (ground (arith, stored)) in
      rw (populate_rows-cons h line lines t w r (cc)) (
        rw made (
          ih.0,
          ih.1
              ∙ ap (register_all rows) (
                  stored
                  ∙ ap (λ o. registered r.mac (machine_for r) (dict_of o) w.inventory) (sym a)),
        ))

  -- On a host where nothing fails, a file whose lines below the first one are all rows: `Populate`
  -- comes to its end; the client table, the clusters handed to the background work and the
  -- inventory are those of the rows, and whatever they were before is forgotten.
  pub populate-returns :
      (w : World) (rows : List Row)
      → AreRows (data_lines (lookup clients_csv w.fs.files)) rows
      → ((populate h w).0 ≡ returns tt)
        × ((populate h w).1.clients ≡ some (tables_of rows no_tables).clients)
        × ((populate h w).1.background ≡ w.background ++ (tables_of rows no_tables).clusters ∷ [])
        × ((populate h w).1.inventory ≡ register_all rows (fresh w.inventory.heap))
  unfolding populate init
  populate-returns w rows e =
      let lines = data_lines (lookup clients_csv w.fs.files) in
      let w₀ = (init w).1 in
      let (ended, stored) = populate_rows-returns lines rows no_tables [] w₀ e refl in
      let same = populate_rows-SameClients h lines no_tables w₀ in
      rw ended (
        refl,
        refl,
        ap (λ b. b ++ (tables_of rows no_tables).clusters ∷ []) same.background,
        stored,
      )

-- The last row of a MAC address.
unfoldable pub last_row : String → List Row → Option Row
last_row mac [] = none
last_row mac (r ∷ rs) = elim (last_row mac rs) [
  | some s ↦ some s
  | none ↦ if r.mac == mac then some r else none
]

abbrev pub client_for : Row → Client
client_for r = client_of r (machine_for r)

-- A table's entry, or the default where there is no row.
abbrev pub entry_or {ℓ} : {A : Type ℓ} → (Row → A) → Option Row → Option A → Option A
entry_or f none otherwise = otherwise
entry_or f (some r) otherwise = some (f r)

pub lookup-tables_of :
    (mac : String) (rows : List Row) (t : Tables)
    → lookup mac (tables_of rows t).clients
      ≡ entry_or client_for (last_row mac rows) (lookup mac t.clients)
unfolding tables_of last_row
lookup-tables_of mac [] t = refl
lookup-tables_of mac (r ∷ rs) t = ground (
  arith,
  lookup-tables_of mac rs (add_row r (machine_for r) t),
  lookup-insert r.mac mac (client_for r) t.clients,
)
