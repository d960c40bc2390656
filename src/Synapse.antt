-- ===== src/Synapse.antt =====
-- synapse_autograd: matrices on lists of lists, the tensor graph with its backward pass, and the optimiser.
pub mod Scalar
pub mod Linalg
pub mod Tensor
pub mod Optim
pub mod Training
mod Tests
