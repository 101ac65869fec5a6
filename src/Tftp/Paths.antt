-- ===== src/Tftp/Paths.antt =====
-- Which files a read request can reach.
use Prim.Native.String.{[] as empty, ◌∷◌ as ◌::◌}
use text.Mathlib.TextLemmas.{nil-append, cons-append, append_assoc}
use o2_ims_worker.Prelude.{
  String, ◌<>◌, ◌≡◌, ◌≢◌, refl, ap, ◌∙◌, Option, some, List, [], ◌∷◌, ◌++◌, Char, code, arith, true,
  inl, inr, Bool-cases, nat_eq,
}
use o2_ims_worker.Prelude.Lists.{All}
use o2_ims_worker.Prelude.Dict.{lookup}
use o2_ims_worker.Prelude.Exec.{returns}
use o2_ims_worker.Prelude.Text.{split_on}
use o2_ims_worker.Prelude.Text.Laws.{split_on-append_text}
use o2_ims_worker.World.{World}
use o2_ims_worker.Prelude.Paths.{enter, enter_all, resolve, file_name}
use o2_ims_worker.Prelude.Paths.Laws.{enter_all-append, enter_all-IsUnder}
use o2_ims_worker.Tftp.{strip_slash, open_and_send, transferred, read_handler}

abbrev pub tftp_root : List String
tftp_root = "tftp" ∷ "assets" ∷ []

root_parts : split_on b'/' "./assets/tftp" ≡ "." ∷ "assets" ∷ "tftp" ∷ []
unfolding split_on
root_parts = refl

enter_root : enter_all [] ("." ∷ "assets" ∷ "tftp" ∷ []) ≡ tftp_root
unfolding enter_all enter
enter_root = refl

-- The handler looks a name up from the directory of the TFTP files.
pub in_root :
    (name : String) → resolve ("./assets/tftp/" <> name) ≡ enter_all tftp_root (split_on b'/' name)
unfolding resolve
in_root name = rw (append_assoc "./assets/tftp" "/" name) (
    rw (split_on-append_text b'/' "/" "./assets/tftp" name refl) (
      rw root_parts (
        enter_all-append [] ("." ∷ "assets" ∷ "tftp" ∷ []) (split_on b'/' name)
        ∙ ap (λ stack. enter_all stack (split_on b'/' name)) enter_root)))

two_up : split_on b'/' "../.." ≡ ".." ∷ ".." ∷ []
unfolding split_on
two_up = refl

enter_two_up : enter_all tftp_root (".." ∷ ".." ∷ []) ≡ []
unfolding enter_all enter
enter_two_up = refl

climbs : (path : String) → resolve ("./assets/tftp/" <> "../../" <> path) ≡ resolve path
climbs path =
    in_root ("../../" <> path)
    ∙ rw (append_assoc "../.." "/" path) (
        rw (split_on-append_text b'/' "/" "../.." path refl) (
          rw two_up (
            enter_all-append tftp_root (".." ∷ ".." ∷ []) (split_on b'/' path)
            ∙ ap (λ stack. enter_all stack (split_on b'/' path)) enter_two_up
            ∙ unfold resolve in refl)))

opened :
    (send : String → Option String) (name : String) (w : World) (content : String)
    (error : Option String)
    → open_and_send send name w ≡ transferred content error
    → lookup (file_name (enter_all tftp_root (split_on b'/' name))) w.fs.files ≡ some content
opened send name w content error e = rw (← in_root name) (ground arith)

tail_plain :
    (c : Char) (s : String)
    → nat_eq (code c) b'/' ≡ true
    → All (λ part. part ≢ "..") (split_on b'/' (c :: s))
    → All (λ part. part ≢ "..") (split_on b'/' s)
unfolding split_on
tail_plain c s slash h = (rw slash at h).1

module _ (send : String → Option String) (w : World) where
  -- A request whose name has no part "..": what is sent, if anything is, is the content of a file
  -- below the directory assets/tftp.
  pub read_handler-IsUnder :
      (filename content : String) (error : Option String)
      → All (λ part. part ≢ "..") (split_on b'/' filename)
      → read_handler send filename w ≡ returns (transferred content error)
      → (inner : List String) × (lookup (file_name (inner ++ tftp_root)) w.fs.files ≡ some content)
  unfolding read_handler
  read_handler-IsUnder empty content error h e = cc
  read_handler-IsUnder (c :: s) content error h e = elim (Bool-cases (nat_eq (code c) b'/')) [
    | inl slash ↦
        let found = opened send s w content error (ground (arith, slash)) in
        let (inner, at) =
          enter_all-IsUnder tftp_root (split_on b'/' s) [] (tail_plain c s slash h) in
        (inner, rw (← at) found)
    | inr other ↦
        let found = opened send (c :: s) w content error (ground (arith, other)) in
        let (inner, at) = enter_all-IsUnder tftp_root (split_on b'/' (c :: s)) [] h in
        (inner, rw (← at) found)
  ]

  -- Every file that a path from the working directory names is sent to a client that asks for the
  -- path behind "/../../".
  pub read_handler_escapes :
      (path content : String)
      → lookup (file_name (resolve path)) w.fs.files ≡ some content
      → read_handler send ("/../../" <> path) w ≡ returns (transferred content (send content))
  unfolding read_handler
  read_handler_escapes path content found =
      rw (append_assoc "/" "../../" path)
        (rw cons-append (rw nil-append (unfold strip_slash in ground (arith, climbs path))))
