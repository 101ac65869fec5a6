-- ===== src/Kubernetes/Nodes.antt =====
-- What is read of a cluster's nodes.
use o2_ims_worker.Prelude.{
  String, ◌==◌, ◌≡◌, ◌≢◌, ◌↔◌, ◌⊎◌, refl, Bool, true, List, [], ◌∷◌, arith, eq_iff, inl, inr, map,
  Bool-cases, ◌&&◌,
}
use o2_ims_worker.Prelude.Lists.{All, All-append, any, length}
use o2_ims_worker.Prelude.Dict.{Dict}
use o2_ims_worker.Kubernetes.{
  CoreNode, ClusterInfo, ClusterAnswers, Result, failed, given, and_then, collect, pods, events,
  roles_in, label_roles, or_worker, parse_node, nodes, cluster_info, status_of,
}

-- One of the two roles.
abbrev pub IsRole : String → Type 0
IsRole r = (r ≡ "control-plane") ⊎ (r ≡ "worker")

label_roles-IsRole : (label : String) → All IsRole (label_roles label)
label_roles-IsRole label = ground arith

roles_in-IsRole : (labels : Dict String) → All IsRole (roles_in labels)
unfolding roles_in
roles_in-IsRole [] = tt
roles_in-IsRole ((label, value) ∷ labels) =
    All-append IsRole _ _ (label_roles-IsRole label) (roles_in-IsRole labels)

or_worker-IsRole : (roles : List String) → All IsRole roles → All IsRole (or_worker roles)
or_worker-IsRole [] a = (inr refl, tt)
or_worker-IsRole (r ∷ roles) a = a

or_worker-ne-nil : (roles : List String) → or_worker roles ≢ []
or_worker-ne-nil [] e = cc
or_worker-ne-nil (r ∷ roles) e = cc

-- A condition Ready with the status True among the conditions.
pub data HasReady : List (String × String) → Type 0 where
  first : {rest : List (String × String)} → HasReady (("Ready", "True") ∷ rest)
  later :
      {c : String × String} {rest : List (String × String)} → HasReady rest → HasReady (c ∷ rest)

abbrev is_ready : String × String → Bool
is_ready c = c.0 == "Ready" && c.1 == "True"

ready_first :
    (kind status : String) (rest : List (String × String))
    → is_ready (kind, status) ≡ true
    → HasReady ((kind, status) ∷ rest)
ready_first kind status rest e =
    let k : kind ≡ "Ready" = ground (arith, eq_iff kind "Ready") in
    let t : status ≡ "True" = ground (arith, eq_iff status "True") in rw k (rw t first)

any-HasReady : (cs : List (String × String)) → any is_ready cs ≡ true → HasReady cs
any-HasReady [] e = absurd (cc)
any-HasReady ((kind, status) ∷ rest) e = elim (Bool-cases (is_ready (kind, status))) [
  | inl now ↦ ready_first kind status rest now
  | inr not_now ↦ later (any-HasReady rest (ground (arith, not_now)))
]

HasReady-any : (cs : List (String × String)) → HasReady cs → any is_ready cs ≡ true
HasReady-any cs first = refl
HasReady-any (c ∷ rest) (later h) = ground (arith, HasReady-any rest h)

status_of-ready :
    (cs : List (String × String)) → (status_of cs ≡ "Ready") ↔ (any is_ready cs ≡ true)
status_of-ready cs = ground (arith, eq_iff "NotReady" "Ready")

-- A node has a role, and no role but control-plane and worker; it is reported as ready exactly if
-- one of its conditions is Ready with the status True.
pub parse_node-IsRole :
    (n : CoreNode)
    → ((parse_node n).roles ≢ [])
      × All IsRole (parse_node n).roles
      × (((parse_node n).status ≡ "Ready") ↔ HasReady n.conditions)
unfolding parse_node
parse_node-IsRole n = (
  or_worker-ne-nil (roles_in n.labels),
  or_worker-IsRole (roles_in n.labels) (roles_in-IsRole n.labels),
  (
    λ e. any-HasReady n.conditions ((status_of-ready n.conditions).0 e),
    λ r. (status_of-ready n.conditions).1 (HasReady-any n.conditions r),
  ),
)

length-map {ℓ κ} :
    {A : Type ℓ} {B : Type κ} (f : A → B) (xs : List A) → length (map f xs) ≡ length xs
length-map f [] = refl
length-map f (x ∷ xs) = ground (arith, length-map f xs)

and_then-given {ℓ κ} :
    {A : Type ℓ} {B : Type κ} (what : String) (r : Result A) (f : A → Result B) (b : B)
    → and_then what r f ≡ given b
    → (a : A) × (r ≡ given a) × (f a ≡ given b)
and_then-given what (failed message) f b e = absurd (cc)
and_then-given what (given a) f b e = (a, refl, e)

-- What `ClusterInfo` returns has the nodes that `Nodes` returns, and counts them.
pub cluster_info-nodes :
    (a : ClusterAnswers) (info : ClusterInfo)
    → cluster_info a ≡ given info
    → (nodes a ≡ given info.nodes) × (info.node_count ≡ length info.nodes)
unfolding cluster_info nodes
cluster_info-nodes a info e =
    let (items, listed, e₁) = and_then-given _ a.nodes _ info e in
    let (namespaces, _, e₂) = and_then-given _ a.namespaces _ info e₁ in
    let (version, _, e₃) = and_then-given _ a.version _ info e₂ in
    let (all_pods, _, e₄) = and_then-given _ (collect (pods a) namespaces) _ info e₃ in
    let (all_events, _, e₅) = and_then-given _ (collect (events a) namespaces) _ info e₄ in
    (ground (arith, listed, e₅), ground (arith, e₅, length-map parse_node items))
