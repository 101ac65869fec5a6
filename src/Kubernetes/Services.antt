-- ===== src/Kubernetes/Services.antt =====
-- internal/kubernetes/kubernetes.go, `Services`: what the texts of the ports say.
use o2_ims_worker.Prelude.{
  String, ◌≡◌, ◌∙◌, refl, ap, Option, none, some, List, [], ◌∷◌, ◌++◌, map, arith,
}
use mathlib.Core.Path.{ap₂}
use o2_ims_worker.Prelude.Lists.{All}
use o2_ims_worker.Prelude.Int.{ℤ, IsInt64}
use o2_ims_worker.Prelude.Text.{split_on, Lacks}
use o2_ims_worker.Prelude.Text.Laws.{split_on-append_text, split_on-Lacks}
use o2_ims_worker.Strconv.{atoi, itoa}
use o2_ims_worker.Strconv.Decimal.{atoi-itoa, itoa-Lacks}
use o2_ims_worker.Kubernetes.{
  CorePort, CoreService, ServiceInfo, ClusterAnswers, given, port_text, service_info, services,
}

-- A port of Kubernetes: the name of a protocol has no slash.
abbrev pub IsPort : CorePort → Type 0
IsPort p = IsInt64 p.port × Lacks b'/' p.protocol

-- A number, a slash and a protocol.
abbrev numbered : String → Option ℤ → Option CorePort
numbered protocol none = none
numbered protocol (some n) = some (record { port = n; protocol = protocol })

abbrev port_of : List String → Option CorePort
port_of (number ∷ protocol ∷ []) = numbered protocol (atoi number)
port_of _ = none

abbrev pub read_port : String → Option CorePort
read_port text = port_of (split_on b'/' text)

split_on-port_text :
    (p : CorePort) → IsPort p → split_on b'/' (port_text p) ≡ itoa p.port ∷ p.protocol ∷ []
split_on-port_text p h =
    split_on-append_text b'/' "/" (itoa p.port) p.protocol refl
    ∙ ap₂ (◌++◌)
        (split_on-Lacks b'/' (itoa p.port) (itoa-Lacks b'/' p.port (omega arith) (omega arith)))
        (split_on-Lacks b'/' p.protocol h.1)

read_port-port_text : (p : CorePort) → IsPort p → read_port (port_text p) ≡ some p
read_port-port_text p h =
    ap port_of (split_on-port_text p h) ∙ ap (numbered p.protocol) (atoi-itoa p.port h.0)

ports-read : (ps : List CorePort) → All IsPort ps → map read_port (map port_text ps) ≡ map some ps
ports-read [] h = refl
ports-read (p ∷ ps) h = ap₂ (◌∷◌) (read_port-port_text p h.0) (ports-read ps h.1)

services-read :
    (items : List CoreService)
    → All (λ s. All IsPort s.ports) items
    → map (λ i. map read_port i.ports) (map service_info items) ≡ map (λ s. map some s.ports) items
services-read [] h = refl
services-read (s ∷ items) h = ap₂ (◌∷◌) (ports-read s.ports h.0) (services-read items h.1)

-- Where a cluster lists services whose ports are 64-bit numbers and protocols without a slash,
-- `Services` gives one entry for each, in order, and the texts of an entry's ports read back as the
-- ports of its service.
pub services-read_back :
    (api : ClusterAnswers) (ns : String) (items : List CoreService)
    → api.services ns ≡ given items
    → All (λ s. All IsPort s.ports) items
    → (infos : List ServiceInfo) × (services api ns ≡ given infos)
      × (map (λ i. i.name) infos ≡ map (λ s. s.name) items)
      × (map (λ i. map read_port i.ports) infos ≡ map (λ s. map some s.ports) items)
unfolding services
services-read_back api ns items e h =
    (map service_info items, rw e refl, named items, services-read items h)
  where
    named :
        (items : List CoreService)
        → map (λ i. i.name) (map service_info items) ≡ map (λ s. s.name) items
    named [] = refl
    named (s ∷ items) = ap (◌∷◌ s.name) (named items)
