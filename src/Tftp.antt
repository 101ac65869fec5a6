-- ===== src/Tftp.antt =====
-- internal/tftp/server.go: which file a TFTP read request is answered with.
pub mod Paths
use Prim.Native.String.{[] as empty, ◌∷◌ as ◌::◌}
use o2_ims_worker.Prelude.{
  String, ◌<>◌, ◌==◌, ◌||◌, Option, none, some, List, [], ◌∷◌, code, nat_eq, if◌then◌else◌,
}
use o2_ims_worker.Prelude.Dict.{lookup}
use o2_ims_worker.Prelude.Paths.{file_at}
use o2_ims_worker.Prelude.Exec.{Outcome, returns, panics}
use o2_ims_worker.Prelude.Text.{split_on}
use o2_ims_worker.Prelude.Int.{ℤ}
use o2_ims_worker.Strconv.{itoa}
use o2_ims_worker.World.{World}
use o2_ims_worker.Config.{TftpConfig}

-- `if filename[0] == '/' { filename = filename[1:] }`; an empty name is indexed out of range.
unfoldable pub strip_slash : String → Outcome String
strip_slash empty = panics "index out of range"
strip_slash (c :: s) = returns (if nat_eq (code c) b'/' then s else c :: s)

pub data Reply : Type 0 where
  not_opened : Reply
  transferred : (content : String) (error : Option String) → Reply

abbrev pub open_and_send : (String → Option String) → String → World → Reply
open_and_send send name w = elim (lookup (file_at ("./assets/tftp/" <> name)) w.fs.files) [
  | none ↦ not_opened
  | some content ↦ transferred content (send content)
]

abbrev pub serve : (String → Option String) → World → Outcome String → Outcome Reply
serve send w (returns name) = returns (open_and_send send name w)
serve send w (panics msg) = panics msg
serve send w (Outcome.exits msg) = Outcome.exits msg
serve send w Outcome.stalls = Outcome.stalls

-- `readHandler`. `send` is `rf.ReadFrom`, with the error that it returns.
unfoldable pub read_handler : (String → Option String) → String → World → Outcome Reply
unfolding strip_slash
read_handler send filename w = serve send w (strip_slash filename)

-- The address that `Start` listens on.
unfoldable pub listen_addr : TftpConfig → String
listen_addr cfg = cfg.bind_addr <> ":" <> itoa cfg.bind_port
