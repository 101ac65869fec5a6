-- ===== src/Filedata/Registration.antt =====
-- `AddItemToFile`: the refusals, and what becomes of a line that it writes.
use Prim.Native.String.{[] as empty}
use text.Mathlib.TextLemmas.{append_assoc}
use o2_ims_worker.Prelude.{
  String, ◌<>◌, ◌≡◌, refl, ap, ◌∙◌, none, some, List, [], ◌∷◌, ◌++◌, map, arith, false,
}
use o2_ims_worker.Prelude.Lists.{All, All-append, length}
use o2_ims_worker.Prelude.Dict.{Dict, lookup, insert, lookup-insert_self}
use o2_ims_worker.Prelude.Exec.{Returns}
use o2_ims_worker.Prelude.Paths.{enter, enter_all, resolve, file_at}
use o2_ims_worker.Prelude.Text.{
  split_on, scan_lines, drop_cr, drop_last_empty, take_fitting, Lacks, Lacks-append,
}
use o2_ims_worker.Prelude.Text.Laws.{
  split_on-append, split_on-append_text, split_on-cons, split_on-Lacks, length-split_on-drop_cr,
  drop_last_empty-append, Fits, take_fitting-All,
}
use o2_ims_worker.World.{Host, World, Client, appended}
use o2_ims_worker.Filedata.{
  clients_csv, after_header, data_lines, populate, add_item_to_file, new_line, ip_taken,
}
use o2_ims_worker.Filedata.Malformed.{IsShort, populate-fails}

-- A text that can stand between two commas of a line.
abbrev pub IsField : String → Type 0
IsField s = Lacks b',' s × Lacks b'\n' s

-- What `AddItemToFile` writes, without the newline.
abbrev pub entry : (ip mac os_type : String) → String
entry ip mac os_type = ip <> "," <> mac <> ",pxelinux.0," <> os_type

entry-Lacks :
    (ip mac os : String) → IsField ip → IsField mac → IsField os → Lacks b'\n' (entry ip mac os)
entry-Lacks ip mac os hi hm ho = Lacks-append b'\n' ip _ hi.1 (
    Lacks-append b'\n' "," _ (omega arith)
      (Lacks-append b'\n' mac _ hm.1 (Lacks-append b'\n' ",pxelinux.0," os (omega arith) ho.1)))

length-entry :
    (ip mac os : String)
    → IsField ip
    → IsField mac
    → IsField os
    → length (split_on b',' (entry ip mac os)) ≡ 4
length-entry ip mac os hi hm ho = rw regrouped (
    rw (split_on-append_text b',' "," ip _ refl) (
      rw (split_on-Lacks b',' ip hi.0) (
        rw (split_on-append_text b',' "," mac _ refl) (
          rw (split_on-Lacks b',' mac hm.0) (
            rw (split_on-append_text b',' "," "pxelinux.0" os refl) (
              rw (split_on-Lacks b',' "pxelinux.0" (omega arith))
                (rw (split_on-Lacks b',' os ho.0) refl)))))))
  where
    regrouped : entry ip mac os ≡ ip <> "," <> mac <> "," <> "pxelinux.0" <> "," <> os
    regrouped =
        ap (λ t. ip <> "," <> mac <> t)
          (append_assoc "," "pxelinux.0," os
            ∙ ap (λ t. "," <> t) (append_assoc "pxelinux.0" "," os))

new_line-entry :
    (body ip mac os : String)
    → (body <> "\n") <> new_line ip mac os ≡ body <> "\n" <> entry ip mac os <> "\n"
new_line-entry body ip mac os = simp append_assoc

map-snoc {ℓ κ} :
    {A : Type ℓ} {B : Type κ} (f : A → B) (xs : List A) (x : A)
    → map f (xs ++ x ∷ []) ≡ map f xs ++ f x ∷ []
map-snoc f [] x = refl
map-snoc f (y ∷ ys) x = ap (◌∷◌ (f y)) (map-snoc f ys x)

-- The lines after the header, once the entry has been put at the end of a file that ended in a
-- newline.
pub data_lines-entry :
    (body ip mac os : String)
    → All Fits (split_on b'\n' body)
    → Fits (entry ip mac os)
    → IsField ip
    → IsField mac
    → IsField os
    → (before : List String) × (data_lines (some ((body <> "\n") <> new_line ip mac os))
        ≡ before ++ drop_cr (entry ip mac os) ∷ [])
unfolding data_lines scan_lines
data_lines-entry body ip mac os fits fit hi hm ho =
    let (p, ps, e) = split_on-cons b'\n' body in
    (
      map drop_cr ps,
      ap after_header (scanned ∙ ap (λ l. map drop_cr l ++ drop_cr (entry ip mac os) ∷ []) e),
    )
  where
    parts :
        take_fitting (drop_last_empty (split_on b'\n' ((body <> "\n") <> new_line ip mac os)))
        ≡ split_on b'\n' body ++ entry ip mac os ∷ []
    parts = rw (new_line-entry body ip mac os) (
        rw (split_on-append_text b'\n' "\n" body (entry ip mac os <> "\n") refl) (
          rw (split_on-append b'\n' "\n" (entry ip mac os) empty refl) (
            rw (split_on-Lacks b'\n' (entry ip mac os) (entry-Lacks ip mac os hi hm ho)) (
              rw (split_on-Lacks b'\n' empty tt) (
                rw drop_last_empty-append
                  (take_fitting-All _ (All-append Fits _ _ fits (fit, tt))))))))

    scanned :
        scan_lines ((body <> "\n") <> new_line ip mac os)
        ≡ map drop_cr (split_on b'\n' body) ++ drop_cr (entry ip mac os) ∷ []
    scanned = ap (map drop_cr) parts ∙ map-snoc drop_cr (split_on b'\n' body) (entry ip mac os)

-- The line that is read back has four fields.
pub drop_cr-entry-IsShort :
    (ip mac os : String)
    → IsField ip
    → IsField mac
    → IsField os
    → IsShort (drop_cr (entry ip mac os))
drop_cr-entry-IsShort ip mac os hi hm ho =
    omega (arith, length-split_on-drop_cr (entry ip mac os), length-entry ip mac os hi hm ho)

file_at-clients_csv : file_at clients_csv ≡ clients_csv
unfolding resolve enter_all enter split_on
file_at-clients_csv = refl

module _ (h : Host) (ip mac os : String) (w : World) (clients : Dict Client) where
  -- The process with the line put at the end of the file.
  abbrev pub extended : String → World
  extended body = record w {
    fs = record w.fs {
      files = insert clients_csv ((body <> "\n") <> new_line ip mac os) w.fs.files;
    };
  }

  pub add_item_to_file-run :
      (body : String)
      → w.clients ≡ some clients
      → lookup mac clients ≡ none
      → ip_taken ip clients ≡ false
      → h.append w.fs clients_csv (new_line ip mac os) ≡ appended
      → lookup clients_csv w.fs.files ≡ some (body <> "\n")
      → add_item_to_file h ip mac os w ≡ populate h (extended body)
  unfolding add_item_to_file
  add_item_to_file-run body e unknown free fate file = ground (arith, file_at-clients_csv)

  -- A new client with plain fields, written to a file that ended in a newline and whose lines fit
  -- the scanner: `AddItemToFile` does not come to its end, and the client is not in the table.
  pub add_item_to_file-fails :
      (body : String)
      → w.clients ≡ some clients
      → lookup mac clients ≡ none
      → ip_taken ip clients ≡ false
      → h.append w.fs clients_csv (new_line ip mac os) ≡ appended
      → lookup clients_csv w.fs.files ≡ some (body <> "\n")
      → All Fits (split_on b'\n' body)
      → Fits (entry ip mac os)
      → IsField ip
      → IsField mac
      → IsField os
      → (¬ Returns (add_item_to_file h ip mac os w).0)
        × ((add_item_to_file h ip mac os w).1.clients ≡ some clients)
  add_item_to_file-fails body e unknown free fate file fits fit hi hm ho =
      let (before, lines) = data_lines-entry body ip mac os fits fit hi hm ho in
      let (fails, kept) =
        populate-fails h (extended body) ((body <> "\n") <> new_line ip mac os) before
          (drop_cr (entry ip mac os)) [] (lookup-insert_self _ _ _) lines
          (drop_cr-entry-IsShort ip mac os hi hm ho) in
      rw (add_item_to_file-run body e unknown free fate file) (fails, kept ∙ e)
