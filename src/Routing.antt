-- ===== src/Routing.antt =====
-- app/machine_learning_for_routing/controller: the functions of functions.py and routing_spf.py on paths,
-- measurements and flows.
pub mod Levenshtein
pub mod Table
pub mod Distance
pub mod FlowId
pub mod Paths
pub mod PathLaws
pub mod Ports
pub mod Reroute
pub mod Operations
pub mod Noted
pub mod OperationLaws
pub mod Mixed
pub mod RerouteLaws
mod Tests
