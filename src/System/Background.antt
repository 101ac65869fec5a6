-- ===== src/System/Background.antt =====
-- internal/db/file.go lines 218-245: the goroutine of `Populate`, one for each call, and those that
-- it starts. A goroutine's loop over its clusters is what `World.background` still holds of it.
use o2_ims_worker.Prelude.{
  ℕ, zero, suc, ◌+◌, String, ◌≡◌, Bool, true, false, Option, none, some, List, [], ◌∷◌, ◌++◌,
}
use o2_ims_worker.Prelude.Lists.{length}
use o2_ims_worker.Prelude.Dict.{Dict}
use o2_ims_worker.Prelude.Exec.{Outcome, panics, exits, stalls}
use o2_ims_worker.World.{ClusterNode}
use o2_ims_worker.Kubernetes.{Result, failed, given, init_cluster}
use o2_ims_worker.Ansible.Playbook.{Runner, fetch_token}
use o2_ims_worker.System.{System, in_clusters}

-- The process beside the goroutines that have been started for nodes and have not run, and those
-- that wait for ever for a run of ansible. A goroutine that panics ends the process.
pub record Process : Type 0 where
  pub system : System
  pub fetches : List ClusterNode
  pub stuck : List ClusterNode
  pub crashed : Bool

-- The loops that are left of the goroutines of `Populate`.
abbrev pub Loops : Type 0
Loops = List (Dict (List ClusterNode))

abbrev pub loops_of : Process → Loops
loops_of p = p.system.world.background

abbrev pub with_loops : Loops → System → System
with_loops loops s = record s { world = record s.world { background = loops } }

-- `os.Getwd` in `InitCluster`, whose error is not returned.
abbrev pub join_of : Result (String → String) → Option (String → String)
join_of (failed message) = none
join_of (given join) = some join

abbrev pub has_panicked : {A : Type 0} → Outcome A → Bool
has_panicked (panics message) = true
has_panicked (exits message) = true
has_panicked _ = false

abbrev pub stuck_with : {A : Type 0} → ClusterNode → Outcome A → List ClusterNode → List ClusterNode
stuck_with n stalls stuck = n ∷ stuck
stuck_with n _ stuck = stuck

module _ (r : Runner) where
  -- One turn of a loop: `InitCluster`, and a goroutine for each node of the cluster.
  abbrev pub start_cluster : (id : String) → List ClusterNode → Loops → Process → Process
  start_cluster id nodes loops p = record p {
    system = with_loops loops (in_clusters (init_cluster (join_of r.join) id nodes) p.system).1;
    fetches = p.fetches ++ nodes;
  }

  -- The goroutine of a node: `FetchToken`, whose results are not read.
  abbrev pub fetch_node : ClusterNode → List ClusterNode → Process → Process
  fetch_node n fetches p = record {
    system = (fetch_token r n.ip n.os n.node p.system).1;
    fetches = fetches;
    stuck = stuck_with n (fetch_token r n.ip n.os n.node p.system).0 p.stuck;
    crashed = has_panicked (fetch_token r n.ip n.os n.node p.system).0;
  }

  -- The goroutines take turns in any order.
  pub data Turn (p q : Process) : Type 0 where
    loop :
        (before after : Loops) (id : String) (nodes : List ClusterNode)
        (rest : Dict (List ClusterNode))
        → p.crashed ≡ false
        → loops_of p ≡ before ++ ((id, nodes) ∷ rest) ∷ after
        → q ≡ start_cluster id nodes (before ++ rest ∷ after) p
        → Turn p q
    fetch :
        (before : List ClusterNode) (n : ClusterNode) (after : List ClusterNode)
        → p.crashed ≡ false
        → p.fetches ≡ before ++ n ∷ after
        → q ≡ fetch_node n (before ++ after) p
        → Turn p q

  -- So many turns.
  pub data Turns : ℕ → Process → Process → Type 0 where
    done : {p : Process} → Turns zero p p
    turn : {n : ℕ} {p q u : Process} → Turn p q → Turns n q u → Turns (suc n) p u

-- The work that is left to the goroutines that are not stuck.
unfoldable pub loop_work : Dict (List ClusterNode) → ℕ
loop_work [] = 0
loop_work ((id, nodes) ∷ rest) = suc (length nodes) + loop_work rest

unfoldable pub loops_work : Loops → ℕ
loops_work [] = 0
loops_work (first ∷ loops) = loop_work first + loops_work loops

abbrev pub work : Process → ℕ
work p = loops_work (loops_of p) + length p.fetches
