-- ===== src/Kube.antt =====
-- What the operator uses of code outside the repository, as parameters: the Kubernetes API server
-- behind the controller-runtime client, the helper packages of apimachinery, client-go and
-- controller-runtime, and the Prometheus collectors. `Laws` holds what the operator relies on of
-- them, and `Action` is a computation of the operator against them.
pub mod Client
pub mod Collectors
pub mod Action
pub mod Laws
pub mod Keeps
pub mod Sent
pub mod Trace
pub mod Does
pub mod Runs
pub mod Willing
pub mod Store
pub mod Stored
