-- ===== src/Tests/Services.antt =====
-- A cluster that lists one service with two ports.
use o2_ims_worker.Prelude.{◌≡◌, refl, some, List, [], ◌∷◌, map, arith}
use o2_ims_worker.Prelude.Int.{pos}
use o2_ims_worker.Kubernetes.{
  CoreService, ServiceInfo, ClusterAnswers, given, services, service_info,
}
use o2_ims_worker.Kubernetes.Services.{read_port, services-read_back}
use o2_ims_worker.Strconv.{itoa, show, show_from}
use o2_ims_worker.Tests.Clusters.{healthy}

abbrev dns : CoreService
dns = record {
  name = "kube-dns";
  namespace = "kube-system";
  type = "ClusterIP";
  cluster_ip = "10.43.0.10";
  ports =
      record { port = pos 53; protocol = "UDP" }
      ∷ record { port = pos 9153; protocol = "TCP" }
      ∷ [];
}

abbrev listing : ClusterAnswers
listing = record healthy { services = λ ns. given (dns ∷ []) }

port_test : (service_info dns).ports ≡ "53/UDP" ∷ "9153/TCP" ∷ []
unfolding itoa show show_from
port_test = refl

services-read_back_example :
    (infos : List ServiceInfo) × (services listing "kube-system" ≡ given infos)
    × (map (λ i. i.name) infos ≡ map (λ s. s.name) (dns ∷ []))
    × (map (λ i. map read_port i.ports) infos ≡ map (λ s. map some s.ports) (dns ∷ []))
services-read_back_example =
    services-read_back listing "kube-system" (dns ∷ []) refl
      (((omega arith, omega arith), ((omega arith, omega arith), tt)), tt)
