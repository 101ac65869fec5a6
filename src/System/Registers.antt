-- ===== src/System/Registers.antt =====
-- The clusters of a file that `Populate` has read: when its goroutines are done, they are registered.
use o2_ims_worker.Prelude.{
  refl, ℕ, String, ◌==◌, ◌≡◌, ◌⊎◌, true, some, List, [], ◌∷◌, ◌++◌, arith, eq_iff, Option-cases,
  Bool-cases, inl, inr,
}
use mathlib.Core.Path.{subst}
use o2_ims_worker.Prelude.Dict.{Dict, lookup}
use o2_ims_worker.World.{Host, Row, ClusterNode}
use o2_ims_worker.Seeds.Works.{Works}
use o2_ims_worker.Filedata.{clients_csv, data_lines, nodes_in, populate}
use o2_ims_worker.Filedata.Loaded.{AreRows}
use o2_ims_worker.Filedata.Clusters.{members, populate-clusters}
use o2_ims_worker.Kubernetes.{Cluster, given, table_of}
use o2_ims_worker.Ansible.Playbook.{Runner}
use o2_ims_worker.System.{System}
use o2_ims_worker.System.Frame.{IsStable, fetch_token-Keeps}
use o2_ims_worker.System.Background.{
  fetch_node, Process, Loops, loops_of, start_cluster, Turn, loop, fetch, Turns, done, turn, work,
}
use o2_ims_worker.System.Entries.{
  HasEntry, HasEntry-IsStable, has_master, IsIn, IsWaiting, taken, IsWaiting-work,
  init_cluster-HasEntry, init_cluster-registers,
}

abbrev HasLoops : Loops → System → Type 0
HasLoops loops s = s.world.background ≡ loops

HasLoops-IsStable : (r : Runner) (loops : Loops) → IsStable r (HasLoops loops)
HasLoops-IsStable r loops = record {
  files = λ fs s h. h;
  variables = λ env s h. h;
  tokens = λ mac results. record { at = λ s h. h };
  clusters = record { at = λ s h. h };
}

module _ (r : Runner) where
  pub fetch_node-loops :
      (n : ClusterNode) (fetches : List ClusterNode) (p : Process)
      → loops_of (fetch_node r n fetches p) ≡ loops_of p
  fetch_node-loops n fetches p =
      (fetch_token-Keeps r (HasLoops (loops_of p)) (HasLoops-IsStable r (loops_of p)) n.ip n.os
          n.node).at
        p.system refl

-- Registered, or still to be.
abbrev IsDue : String → Process → Type 0
IsDue id p = HasEntry id p.system.clusters ⊎ IsWaiting id (loops_of p)

module _ (r : Runner) (join : String → String) (joins : r.join ≡ given join) (id : String) where
  start_cluster-HasEntry :
      (key : String) (nodes : List ClusterNode) (loops : Loops) (p : Process)
      → HasEntry id p.system.clusters
      → HasEntry id (start_cluster r key nodes loops p).system.clusters
  start_cluster-HasEntry key nodes loops p h =
      rw joins (init_cluster-HasEntry join key nodes p.system.clusters id h)

  start_cluster-registers :
      (key : String) (nodes : List ClusterNode) (loops : Loops) (p : Process)
      → key ≡ id
      → has_master nodes ≡ true
      → HasEntry id (start_cluster r key nodes loops p).system.clusters
  start_cluster-registers key nodes loops p e m =
      subst (λ k. HasEntry k (start_cluster r key nodes loops p).system.clusters) e
        (rw joins (init_cluster-registers join key nodes p.system.clusters m))

  Turn-IsDue : (p q : Process) → Turn r p q → IsDue id p → IsDue id q
  Turn-IsDue p q (loop before after key nodes rest alive e f) (inl h) =
      rw f (inl (start_cluster-HasEntry key nodes (before ++ rest ∷ after) p h))
  Turn-IsDue p q (loop before after key nodes rest alive e f) (inr w) =
      rw f (elim (taken id key nodes rest before after (subst (IsWaiting id) e w)) [
        | inl h ↦ inl (start_cluster-registers key nodes (before ++ rest ∷ after) p h.0 h.1)
        | inr v ↦ inr v
      ])
  Turn-IsDue p q (fetch before n after alive e f) (inl h) =
      rw f (inl ((fetch_token-Keeps r _ (HasEntry-IsStable r id) n.ip n.os n.node).at p.system h))
  Turn-IsDue p q (fetch before n after alive e f) (inr w) =
      rw f (inr (rw (fetch_node-loops r n (before ++ after) p) w))

  Turns-IsDue : {n : ℕ} {p q : Process} → Turns r n p q → IsDue id p → IsDue id q
  Turns-IsDue done d = d
  Turns-IsDue (turn {p} {q} t ts) d = Turns-IsDue ts (Turn-IsDue p q t d)

  Turns-registers :
      {n : ℕ} {p q : Process}
      → Turns r n p q
      → work q ≡ 0
      → IsWaiting id (loops_of p)
      → HasEntry id q.system.clusters
  Turns-registers {q} ts e w = elim (Turns-IsDue ts (inr w)) [
    | inl h ↦ h
    | inr v ↦ absurd (IsWaiting-work id (loops_of q) v (omega (arith, e)))
  ]

lookup-IsIn :
    (id : String) (l : Dict (List ClusterNode))
    → has_master (nodes_in (lookup id l)) ≡ true
    → IsIn id l
unfolding lookup
lookup-IsIn id [] h = absurd (cc)
lookup-IsIn id ((key, nodes) ∷ rest) h = elim (Bool-cases (key == id)) [
  | inl e ↦ inl (ground (arith, eq_iff key id), ground (arith, e))
  | inr e ↦ inr (lookup-IsIn id rest (ground (arith, e)))
]

members-has_master :
    (before : List Row) (row : Row) (after : List Row)
    → row.role ≡ "master"
    → has_master (members row.cluster (before ++ row ∷ after)) ≡ true
unfolding members
members-has_master [] row after m =
    ground (arith, m, eq_iff row.cluster row.cluster, eq_iff row.role "master")
members-has_master (b ∷ before) row after m = elim (Bool-cases (b.cluster == row.cluster)) [
  | inl e ↦ ground (arith, e, members-has_master before row after m)
  | inr e ↦ ground (arith, e, members-has_master before row after m)
]

IsWaiting-last :
    (id : String) (loops : Loops) (l : Dict (List ClusterNode))
    → IsIn id l
    → IsWaiting id (loops ++ l ∷ [])
IsWaiting-last id [] l w = inl w
IsWaiting-last id (first ∷ loops) l w = inr (IsWaiting-last id loops l w)

-- Where `Populate` reads a file of rows on a host where nothing fails, and the working directory is
-- known: when the goroutines have no work left but the runs of ansible that never end, the cluster
-- of every row with the role master has an entry in the table of clusters.
pub Populate-registers :
    (h : Host) (r : Runner) (join : String → String)
    → Works h
    → r.join ≡ given join
    → (p q : Process) (n : ℕ) (before : List Row) (row : Row) (after : List Row)
    → AreRows (data_lines (lookup clients_csv p.system.world.fs.files)) (before ++ row ∷ after)
    → row.role ≡ "master"
    → Turns r n (record p { system = record p.system { world = (populate h p.system.world).1 } }) q
    → work q ≡ 0
    → (c : Cluster) × (lookup row.cluster (table_of q.system.clusters) ≡ some c)
Populate-registers h r join works joins p q n before row after rows_in m ts e =
    let (clusters, handed, collected, unnamed) =
      populate-clusters h works p.system.world (before ++ row ∷ after) rows_in in
    let waits : IsWaiting row.cluster (populate h p.system.world).1.background = rw handed (
      IsWaiting-last row.cluster p.system.world.background clusters (
        lookup-IsIn row.cluster clusters
          (rw (collected row.cluster) (members-has_master before row after m)))) in
    elim (Option-cases (lookup row.cluster (table_of q.system.clusters))) [
      | inl missing ↦ absurd (Turns-registers r join joins row.cluster ts e waits missing)
      | inr found ↦ found
    ]
