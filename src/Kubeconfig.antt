-- ===== src/Kubeconfig.antt =====
-- pkg/util/kubectx_copied: the kubeconfig document.
pub mod Node
pub mod Fields
pub mod Contexts
pub mod Open
pub mod Remove
mod Tests
