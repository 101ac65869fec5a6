-- ===== src/Filedata/Malformed.antt =====
-- `Populate` over a file with a line of fewer than seven fields.
use o2_ims_worker.Prelude.{
  ◌<◌, String, ◌≡◌, refl, ap, ◌∙◌, none, some, List, [], ◌∷◌, ◌++◌, arith, Option-cases, inl, inr,
}
use o2_ims_worker.Prelude.Lists.{length}
use o2_ims_worker.Prelude.Dict.{lookup}
use o2_ims_worker.Prelude.Exec.{
  panics, Returns, continue, continue-fails, continue-keeps, continue-stops, modify,
}
use o2_ims_worker.Prelude.Text.{split_on}
use o2_ims_worker.World.{Host, World, Row}
use o2_ims_worker.Inventory.{init}
use o2_ims_worker.Inventory.Generated.{SameClients, SameClients-trans, generate-SameClients}
use o2_ims_worker.Filedata.{
  clients_csv, row_of, parse_line, add_row, data_lines, Tables, no_tables, generate_row,
  populate_rows, populate, publish,
}

-- The fields of a line, counted.
abbrev pub IsShort : String → Type 0
IsShort line = length (split_on b',' line) < 7

row_of_short : (parts : List String) → length parts < 7 → row_of parts ≡ none
unfolding row_of
row_of_short [] h = refl
row_of_short (_ ∷ []) h = refl
row_of_short (_ ∷ _ ∷ []) h = refl
row_of_short (_ ∷ _ ∷ _ ∷ []) h = refl
row_of_short (_ ∷ _ ∷ _ ∷ _ ∷ []) h = refl
row_of_short (_ ∷ _ ∷ _ ∷ _ ∷ _ ∷ []) h = refl
row_of_short (_ ∷ _ ∷ _ ∷ _ ∷ _ ∷ _ ∷ []) h = refl
row_of_short (_ ∷ _ ∷ _ ∷ _ ∷ _ ∷ _ ∷ _ ∷ rest) h = absurd (omega arith)

pub init-clients : (w : World) → (init w).1.clients ≡ w.clients
unfolding init
init-clients w = refl

module _ (h : Host) where
  pub populate_rows-cons :
      (line : String) (lines : List String) (t : Tables) (w : World) (r : Row)
      → parse_line line ≡ some r
      → populate_rows h (line ∷ lines) t w
        ≡ continue
            (generate_row h r w).0
            (λ object. populate_rows h lines (add_row r object t))
            (generate_row h r w).1
  unfolding populate_rows
  populate_rows-cons line lines t w r e = rw (e, populate_rows) refl

  pub populate_rows-cons_short :
      (line : String) (lines : List String) (t : Tables) (w : World)
      → parse_line line ≡ none
      → populate_rows h (line ∷ lines) t w ≡ (panics "index out of range", w)
  unfolding populate_rows
  populate_rows-cons_short line lines t w e = rw (e, populate_rows) refl

  pub populate_rows-SameClients :
      (lines : List String) (t : Tables) (w : World) → SameClients w (populate_rows h lines t w).1
  populate_rows-SameClients [] t w = unfold populate_rows in ground arith
  populate_rows-SameClients (line ∷ lines) t w = elim (Option-cases (parse_line line)) [
    | inl e ↦ rw (populate_rows-cons_short line lines t w e) (ground arith)
    | inr (r, e) ↦
        let made = generate-SameClients h r.ip r.mac r.os r.cluster r.role r.template w in
        rw (populate_rows-cons line lines t w r e) (
          continue-keeps (SameClients w) (generate_row h r w).0
            (λ object. populate_rows h lines (add_row r object t)) (generate_row h r w).1 made
            λ object.
              SameClients-trans made
                (populate_rows-SameClients lines (add_row r object t) (generate_row h r w).1))
  ]

  populate_rows-fails :
      (before : List String) (line : String) (after : List String) (t : Tables) (w : World)
      → IsShort line
      → ¬ Returns (populate_rows h (before ++ line ∷ after) t w).0
  populate_rows-fails [] line after t w short =
      rw (populate_rows-cons_short line after t w (row_of_short _ short)) (λ r. r)
  populate_rows-fails (first ∷ before) line after t w short =
      elim (Option-cases (parse_line first)) [
        | inl e ↦ rw (populate_rows-cons_short first (before ++ line ∷ after) t w e) (λ r. r)
        | inr (r, e) ↦ rw (populate_rows-cons first (before ++ line ∷ after) t w r e) (
            continue-fails {B = Tables} (generate_row h r w).0
              (λ object. populate_rows h (before ++ line ∷ after) (add_row r object t))
              (generate_row h r w).1
              λ object.
                populate_rows-fails before line after (add_row r object t) (generate_row h r w).1
                  short)
      ]

  -- A file with a line of fewer than seven fields below its first line: `Populate` does not come to
  -- its end, whatever the host does, and the client table stays as it was.
  pub populate-fails :
      (w : World) (text : String) (before : List String) (line : String) (after : List String)
      → lookup clients_csv w.fs.files ≡ some text
      → data_lines (some text) ≡ before ++ line ∷ after
      → IsShort line
      → (¬ Returns (populate h w).0) × ((populate h w).1.clients ≡ w.clients)
  unfolding populate
  populate-fails w text before line after found lines short =
      let w₀ = (init w).1 in
      rw (found, lines)
        (let run = populate_rows h (before ++ line ∷ after) no_tables w₀ in
          let (stops, stays) =
            continue-stops run.0 (λ t. modify (publish t)) run.1
              (populate_rows-fails before line after no_tables w₀ short) in
          (
            stops,
            ap (λ (u : World). u.clients) stays
                ∙ (populate_rows-SameClients (before ++ line ∷ after) no_tables w₀).clients
                ∙ init-clients w,
          ))
