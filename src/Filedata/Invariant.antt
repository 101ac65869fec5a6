-- ===== src/Filedata/Invariant.antt =====
-- What holds of the tables between two operations, whatever the host does and however the
-- operations end.
use mathlib.Core.Path.{subst}
use o2_ims_worker.Prelude.{
  ℕ, String, ◌≡◌, ◌⊎◌, refl, Option, none, some, List, [], ◌∷◌, arith, Option-cases, inl, inr, ap,
}
use o2_ims_worker.Prelude.Dict.{Dict, Each, Each-insert, lookup, insert}
use o2_ims_worker.Prelude.Exec.{
  Outcome, returns, panics, exits, stalls, continue, OnReturn, Ends, continue-Ends, modify,
}
use o2_ims_worker.World.{
  Host, World, Client, Row, Appended, open_failed, print_failed, flush_failed, appended,
}
use o2_ims_worker.Inventory.{init, log_installed_machine}
use o2_ims_worker.Inventory.Generated.{registered, generate-inventory}
use o2_ims_worker.Inventory.View.{dict_of, IsWellFormed}
use o2_ims_worker.Inventory.Installed.{
  log_installed_machine-IsWellFormed, log_installed_machine-SameClients,
}
use o2_ims_worker.Filedata.{
  clients_csv, parse_line, client_of, add_row, data_lines, Tables, no_tables, publish, generate_row,
  populate_rows, populate, gather, add_item, new_client, new_line, append_client, append_text,
  add_item_to_file,
}
use o2_ims_worker.Filedata.Malformed.{
  init-clients, populate_rows-cons, populate_rows-cons_short, populate_rows-SameClients,
}
use o2_ims_worker.Filedata.Loaded.{machine_for}
use o2_ims_worker.Filedata.Agreement.{IsLoading, registered-IsLoading, fresh-IsLoading}

-- Every client stands under its own MAC address.
abbrev pub IsKeyed : Dict Client → Type 0
IsKeyed = Each (λ mac c. c.mac_address ≡ mac)

abbrev pub table_of : Option (Dict Client) → Dict Client
table_of none = []
table_of (some clients) = clients

pub record IsConsistent (w : World) : Type 0 where
  pub well_formed : IsWellFormed w.inventory
  pub keyed : IsKeyed (table_of w.clients)

init-IsLoading : (w : World) → IsLoading (init w).1.inventory
unfolding init
init-IsLoading w = fresh-IsLoading w.inventory.heap

publish-IsConsistent :
    (run : Outcome Tables) (w : World)
    → IsLoading w.inventory
    → OnReturn (λ (t : Tables). IsKeyed t.clients) run
    → IsKeyed (table_of w.clients)
    → IsConsistent (continue run (λ tables. modify (publish tables)) w).1
publish-IsConsistent (returns t) w v q p = record { well_formed = v.well_formed; keyed = q }
publish-IsConsistent (panics msg) w v q p = record { well_formed = v.well_formed; keyed = p }
publish-IsConsistent (exits msg) w v q p = record { well_formed = v.well_formed; keyed = p }
publish-IsConsistent stalls w v q p = record { well_formed = v.well_formed; keyed = p }

add_item-run :
    (ip mac os_type : String) (w : World) (clients : Dict Client)
    → w.clients ≡ some clients
    → (add_item ip mac os_type w).1
      ≡ record w { clients = some (insert mac (new_client ip mac os_type) clients) }
unfolding add_item gather
add_item-run ip mac os_type w clients e = ground arith

add_item-run_nil :
    (ip mac os_type : String) (w : World) → w.clients ≡ none → (add_item ip mac os_type w).1 ≡ w
unfolding add_item gather
add_item-run_nil ip mac os_type w e = ground arith

-- `AddItem` keeps the tables consistent.
pub add_item-IsConsistent :
    (ip mac os_type : String) (w : World)
    → IsConsistent w
    → IsConsistent (add_item ip mac os_type w).1
add_item-IsConsistent ip mac os_type w c = elim (Option-cases w.clients) [
  | inl e ↦ rw (add_item-run_nil ip mac os_type w e) c
  | inr (clients, e) ↦ rw (add_item-run ip mac os_type w clients e) (record {
    well_formed = c.well_formed;
    keyed =
        Each-insert (λ k v. v.mac_address ≡ k) mac (new_client ip mac os_type) clients refl
          (subst (λ o. IsKeyed (table_of o)) e c.keyed);
  })
]

module _ (h : Host) where
  generate_row-IsLoading :
      (r : Row) (w : World) → IsLoading w.inventory → IsLoading (generate_row h r w).1.inventory
  generate_row-IsLoading r w v =
      elim (generate-inventory h r.ip r.mac r.os r.cluster r.role r.template v.machines w
        v.active) [
          | inl same ↦ rw same v
          | inr stored ↦ rw stored (
              subst (λ d. IsLoading (registered r.mac (machine_for r) d w.inventory))
                (ap dict_of v.active) (registered-IsLoading r.mac (machine_for r) w.inventory v))
        ]

  populate_rows-Ends :
      (lines : List String) (t : Tables) (w : World)
      → IsLoading w.inventory
      → IsKeyed t.clients
      → Ends
          (λ (u : World). IsLoading u.inventory)
          (λ (t' : Tables). IsKeyed t'.clients)
          (populate_rows h lines t w)
  populate_rows-Ends [] t w v q = unfold populate_rows in (v, q)
  populate_rows-Ends (line ∷ lines) t w v q = elim (Option-cases (parse_line line)) [
    | inl e ↦ rw (populate_rows-cons_short h line lines t w e) (v, tt)
    | inr (r, e) ↦
        let v' = generate_row-IsLoading r w v in
        rw (populate_rows-cons h line lines t w r e) (
          continue-Ends (λ (u : World). IsLoading u.inventory) (λ (t' : Tables). IsKeyed t'.clients)
            (generate_row h r w).0 (λ object. populate_rows h lines (add_row r object t))
            (generate_row h r w).1 v'
            λ object _. populate_rows-Ends lines (add_row r object t) (generate_row h r w).1 v' (
              Each-insert (λ mac c. c.mac_address ≡ mac) r.mac (client_of r object) t.clients refl
                q))
  ]

  -- Whatever the file holds, `Populate` keeps the tables consistent.
  pub populate-IsConsistent : (w : World) → IsConsistent w → IsConsistent (populate h w).1
  unfolding populate
  populate-IsConsistent w c =
      let lines = data_lines (lookup clients_csv w.fs.files) in
      let w₀ = (init w).1 in
      let (loading, keyed) = populate_rows-Ends lines no_tables w₀ (init-IsLoading w) tt in
      publish-IsConsistent (populate_rows h lines no_tables w₀).0
        (populate_rows h lines no_tables w₀).1 loading keyed
        (rw (populate_rows-SameClients h lines no_tables w₀).clients (rw (init-clients w) c.keyed))

  append_text-IsConsistent :
      (text : String) (w : World) → IsConsistent w → IsConsistent (append_text text w).1
  append_text-IsConsistent text w c = record { well_formed = c.well_formed; keyed = c.keyed }

  append_client-IsConsistent :
      (line : String) (fate : Appended) (w : World)
      → IsConsistent w
      → IsConsistent (append_client h line fate w).1
  unfolding append_client
  append_client-IsConsistent line open_failed w c = c
  append_client-IsConsistent line (print_failed written) w c = append_text-IsConsistent written w c
  append_client-IsConsistent line (flush_failed written) w c =
      populate-IsConsistent (append_text written w).1 (append_text-IsConsistent written w c)
  append_client-IsConsistent line appended w c =
      populate-IsConsistent (append_text line w).1 (append_text-IsConsistent line w c)

  add_item_to_file-cases :
      (ip mac os_type : String) (w : World)
      → ((add_item_to_file h ip mac os_type w).1 ≡ w)
        ⊎ (add_item_to_file h ip mac os_type w
            ≡ append_client h
                (new_line ip mac os_type)
                (h.append w.fs clients_csv (new_line ip mac os_type))
                w)
  unfolding add_item_to_file gather
  add_item_to_file-cases ip mac os_type w = ground arith

  -- Whatever the host does, `AddItemToFile` keeps the tables consistent.
  pub add_item_to_file-IsConsistent :
      (ip mac os_type : String) (w : World)
      → IsConsistent w
      → IsConsistent (add_item_to_file h ip mac os_type w).1
  add_item_to_file-IsConsistent ip mac os_type w c =
      elim (add_item_to_file-cases ip mac os_type w) [
        | inl same ↦ rw same c
        | inr run ↦ rw run (
            append_client-IsConsistent (new_line ip mac os_type)
              (h.append w.fs clients_csv (new_line ip mac os_type)) w c)
      ]

  -- So does `LogInstalledMachine`.
  pub log_installed_machine-IsConsistent :
      (m ot : String) (given now : ℕ) (w : World)
      → IsConsistent w
      → IsConsistent (log_installed_machine h m ot given now w).1
  log_installed_machine-IsConsistent m ot given now w c = record {
    well_formed = log_installed_machine-IsWellFormed h m ot given now w c.well_formed;
    keyed = rw (log_installed_machine-SameClients h m ot given now w).clients c.keyed;
  }
