-- ===== src/Http/Ansible/Joins.antt =====
-- What the endpoints /ansible and /ansible-token do.
use o2_ims_worker.Prelude.{
  String, ◌==◌, ◌≡◌, ◌≢◌, ◌∙◌, refl, ap, Bool, true, false, Option, none, some, List, [], ◌∷◌, ◌++◌,
  arith, eq_iff, if◌then◌else◌, Bool-cases, inl, inr,
}
use o2_ims_worker.Prelude.Lists.{All, any}
use o2_ims_worker.Prelude.Dict.{Dict, lookup}
use o2_ims_worker.Prelude.Exec.{
  Outcome, returns, panics, exits, stalls, continue, OnReturn, continue-OnReturn, pure, ◌>>=◌,
}
use o2_ims_worker.World.{Client}
use o2_ims_worker.Filedata.{gather}
use o2_ims_worker.Kubernetes.{Cluster, ClusterInfo, NodeInfo, given, get_clusters}
use o2_ims_worker.System.{System, in_world, in_clusters}
use o2_ims_worker.Ansible.Playbook.{Runner, NodeObj, Installed, populate}
use o2_ims_worker.Ansible.Install.{IsUnread, populate-OnReturn}
use o2_ims_worker.Http.Ansible.{
  Answer, silent, results_json, results_answer, install, install_for, info_of, owner_of,
  choose_role, choose_node, no_node, node_obj, handle_ansible,
}

abbrev is_master : NodeInfo → Bool
is_master n = any (λ role. role == "control-plane") n.roles

choose_role-any :
    (clients : Dict Client) (n : NodeInfo) (roles : List String) (chosen : NodeObj)
    → choose_role clients n roles chosen
      ≡ (if any (λ role. role == "control-plane") roles then node_obj clients n else chosen)
unfolding choose_role
choose_role-any clients n [] chosen = refl
choose_role-any clients n (role ∷ roles) chosen = elim (Bool-cases (role == "control-plane")) [
  | inl e ↦ ground (arith, e, choose_role-any clients n roles (node_obj clients n))
  | inr e ↦ ground (arith, e, choose_role-any clients n roles chosen)
]

choose_node-plain :
    (clients : Dict Client) (nodes : List NodeInfo) (chosen : NodeObj)
    → All (λ n. is_master n ≡ false) nodes
    → choose_node clients nodes chosen ≡ chosen
unfolding choose_node
choose_node-plain clients [] chosen a = refl
choose_node-plain clients (n ∷ nodes) chosen a =
    rw (choose_role-any clients n n.roles chosen)
      (rw a.0 (choose_node-plain clients nodes chosen a.1))

choose_node-last :
    (clients : Dict Client) (before : List NodeInfo) (n : NodeInfo) (after : List NodeInfo)
    (chosen : NodeObj)
    → is_master n ≡ true
    → All (λ n. is_master n ≡ false) after
    → choose_node clients (before ++ n ∷ after) chosen ≡ node_obj clients n
unfolding choose_node
choose_node-last clients [] n after chosen m a =
    rw (choose_role-any clients n n.roles chosen, choose_node)
      (rw m (choose_node-plain clients after (node_obj clients n) a))
choose_node-last clients (b ∷ before) n after chosen m a =
    choose_node-last clients before n after (choose_role clients b b.roles chosen) m a

owner_of-others :
    (ip : String) (clients : Dict Client) (before : String × String)
    → All (λ e. (e.1.machine_object.ip == ip) ≡ false) clients
    → owner_of ip clients before ≡ before
unfolding owner_of
owner_of-others ip [] before a = refl
owner_of-others ip ((key, c) ∷ rest) before a =
    rw (a.0, owner_of) (owner_of-others ip rest before a.1)

owner_of-last :
    (ip : String) (front : Dict Client) (key : String) (c : Client) (back : Dict Client)
    (before : String × String)
    → (c.machine_object.ip == ip) ≡ true
    → All (λ e. (e.1.machine_object.ip == ip) ≡ false) back
    → owner_of ip (front ++ (key, c) ∷ back) before ≡ (c.machine_object.os_type, c.mac_address)
unfolding owner_of
owner_of-last ip [] key c back before m a = rw (m, owner_of) (owner_of-others ip back _ a)
owner_of-last ip ((k, d) ∷ front) key c back before m a = owner_of-last ip front key c back _ m a

-- The last control-plane node of a cluster, and the last client whose machine has its address.
pub record IsMaster (clients : Dict Client) (nodes : List NodeInfo) (n : NodeInfo) (d : Client)
    : Type 0 where
  pub earlier : List NodeInfo
  pub later : List NodeInfo
  pub in_nodes : nodes ≡ earlier ++ n ∷ later
  pub controls : is_master n ≡ true
  pub last : All (λ n. is_master n ≡ false) later
  pub front : Dict Client
  pub key : String
  pub back : Dict Client
  pub in_clients : clients ≡ front ++ (key, d) ∷ back
  pub owns : (d.machine_object.ip == n.internal_ip) ≡ true
  pub last_owner : All (λ e. (e.1.machine_object.ip == n.internal_ip) ≡ false) back

choose_node-IsMaster :
    (clients : Dict Client) (nodes : List NodeInfo) (n : NodeInfo) (d : Client)
    → IsMaster clients nodes n d
    → choose_node clients nodes no_node ≡ record {
      name = d.machine_object.os_type;
      ip = n.internal_ip;
      mac = d.mac_address;
      role = "control-plane";
    }
choose_node-IsMaster clients nodes n d m =
    rw m.in_nodes (choose_node-last clients m.earlier n m.later no_node m.controls m.last)
    ∙ ap
        (λ (o : String × String). record {
          name = o.0;
          ip = n.internal_ip;
          mac = o.1;
          role = "control-plane";
        })
        (ap (λ c. owner_of n.internal_ip c ("", "")) m.in_clients
          ∙ owner_of-last n.internal_ip m.front m.key d m.back ("", "") m.owns m.last_owner)

module _ (r : Runner) (mac : String) (encodes : Option String) (s : System) (clients : Dict Client)
    (loaded : s.world.clients ≡ some clients) (named : mac ≢ "") where
  handle_ansible-run :
      handle_ansible r mac encodes s ≡ install_for r mac clients encodes (lookup mac clients) s
  unfolding handle_ansible gather
  handle_ansible-run = ground (arith, eq_iff mac "")

  -- The installation of a known client, where every cluster answers and the client's cluster has
  -- been asked for its nodes: `Populate` is given the last control-plane node of that cluster, with
  -- the system and the MAC address of the last client that has its address.
  pub handle_ansible-joins :
      (c d : Client) (n : NodeInfo) (table : Dict Cluster) (info : ClusterInfo)
      → lookup mac clients ≡ some c
      → get_clusters r.connect s.clusters ≡ (returns (given table), some table)
      → info_of c.machine_object.cluster (given table) ≡ some info
      → IsMaster clients info.nodes n d
      → handle_ansible r mac encodes s
        ≡ (populate r c.offer_ip mac c.os_type c.machine_object.template (record {
          name = d.machine_object.os_type;
          ip = n.internal_ip;
          mac = d.mac_address;
          role = "control-plane";
        })
              >>= λ installed. pure (results_answer r encodes installed))
            (record s { clusters = some table })
  unfolding install_for install
  handle_ansible-joins c d n table info known fetched has m =
      handle_ansible-run
      ∙ rw known (rw fetched (rw has (rw (choose_node-IsMaster clients info.nodes n d m) refl)))

-- The answers that the endpoint can give where encoding succeeds.
pub data IsSilentOn (r : Runner) : Answer → Type 0 where
  no_mac : IsSilentOn r silent
  unread : (i : Installed) → IsUnread r i → IsSilentOn r (results_json i.0)

install-IsSilentOn :
    (r : Runner) (mac : String) (c : Client) (clients : Dict Client) (info : Option ClusterInfo)
    (s : System)
    → OnReturn (IsSilentOn r) (install r mac c clients none info s).0
unfolding install
install-IsSilentOn r mac c clients none s = tt
install-IsSilentOn r mac c clients (some info) s =
    let node = choose_node clients info.nodes no_node in
    answered (populate r c.offer_ip mac c.os_type c.machine_object.template node s).0
      (populate r c.offer_ip mac c.os_type c.machine_object.template node s).1
      (populate-OnReturn r c.offer_ip mac c.os_type c.machine_object.template node s)
  where
    answered :
        (o : Outcome Installed) (t : System)
        → OnReturn (IsUnread r) o
        → OnReturn (IsSilentOn r) (continue o (λ i. pure (results_answer r none i)) t).0
    answered (returns i) t h = unread i h
    answered (panics msg) t h = tt
    answered (exits msg) t h = tt
    answered stalls t h = tt

install_for-IsSilentOn :
    (r : Runner) (mac : String) (clients : Dict Client) (found : Option Client) (s : System)
    → OnReturn (IsSilentOn r) (install_for r mac clients none found s).0
unfolding install_for
install_for-IsSilentOn r mac clients none s = tt
install_for-IsSilentOn r mac clients (some c) s =
    continue-OnReturn {S = System} (IsSilentOn r) (in_clusters (get_clusters r.connect) s).0 _ _
      λ dump t. install-IsSilentOn r mac c clients (info_of c.machine_object.cluster dump) t

-- Where encoding succeeds, /ansible gives no error: whatever ansible does, it answers with no
-- results, or with those of an empty output.
pub handle_ansible-IsSilentOn :
    (r : Runner) (mac : String) (s : System)
    → OnReturn (IsSilentOn r) (handle_ansible r mac none s).0
unfolding handle_ansible
handle_ansible-IsSilentOn r mac s = elim (Bool-cases (mac == "")) [
  | inl e ↦ rw e no_mac
  | inr e ↦ rw e (
      continue-OnReturn {S = System} (IsSilentOn r) (in_world gather s).0 _ _
        λ clients t. install_for-IsSilentOn r mac clients (lookup mac clients) t)
]
